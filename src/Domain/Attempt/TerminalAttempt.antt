-- ===== src/Domain/Attempt/TerminalAttempt.antt =====
-- The record of an attempt at the terminal (packages/domain/src/terminal-attempt.ts).
use gambling.Base.{
  ◌≡◌, refl, String, false, Option, none, some, [], ◌∷◌, template, trim_option, Number, integer,
  trunc, suc, integer_text, Result, ok, throw, throw_if, terminal_attempt_validation, arith, ◌>>=◌,
  ◌>>◌, >>=-eq-ok, not, is_some,
}
use gambling.Base.Int.{ℤ, pos, ◌-ℤ◌, ltb_ℤ, ◌≤ℤ◌}
use gambling.Base.Platform.{
  Platform, require_text, require_date, require_date-eq_ok, require_text_idem, require_date_idem,
}

pub data TerminalAttemptOutcome : Type 0 where
  added_to_cart success retrying error : TerminalAttemptOutcome

abbrev pub outcome_text : TerminalAttemptOutcome → String
outcome_text added_to_cart = "added_to_cart"
outcome_text success = "success"
outcome_text retrying = "retrying"
outcome_text error = "error"

pub record PurchaseAttemptRecord : Type 0 where
  pub attempt_id : String
  pub purchase_id : String
  pub legacy_request_id : Option String
  pub attempt_number : ℤ
  pub outcome : TerminalAttemptOutcome
  pub started_at : String
  pub finished_at : String
  pub raw_output : String
  pub duration_ms : ℤ
  pub external_ticket_reference : Option String
  pub error_message : Option String

pub record NormalizeTerminalAttemptInput : Type 0 where
  pub request_id : String
  pub attempt : Number
  pub outcome : TerminalAttemptOutcome
  pub started_at : String
  pub finished_at : String
  pub raw_output : String

pub record CreatePurchaseAttemptRecordInput : Type 0 where
  pub purchase_id : String
  pub legacy_request_id : Option String
  pub attempt_number : Number
  pub outcome : TerminalAttemptOutcome
  pub started_at : String
  pub finished_at : String
  pub raw_output : String
  pub external_ticket_reference : Option String
  pub error_message : Option String

pub record NormalizedTerminalAttempt : Type 0 where
  pub request_id : String
  pub attempt : ℤ
  pub outcome : TerminalAttemptOutcome
  pub started_at : String
  pub finished_at : String
  pub raw_output : String
  pub duration_ms : ℤ

-- `Math.trunc(attempt)`, if it is finite and above 0
abbrev pub positive_attempt : Option ℤ → Result ℤ
positive_attempt (some (pos (suc n))) = ok (pos (suc n))
positive_attempt other = throw terminal_attempt_validation "attempt must be a positive integer"

-- `Date.parse(finishedAt) - Date.parse(startedAt)`, of two dates that were checked before
abbrev pub elapsed : Option ℤ → Option ℤ → ℤ
elapsed (some finished) (some started) = finished -ℤ started
elapsed finished started = pos 0

-- `normalizeOutcome` refuses no value of the outcome's type
unfoldable pub normalize_terminal_attempt :
    Platform → NormalizeTerminalAttemptInput → Result NormalizedTerminalAttempt
normalize_terminal_attempt p input = do
  request_id ← require_text terminal_attempt_validation input.request_id "requestId"
  attempt ← positive_attempt (trunc input.attempt)
  started_at ← require_date p terminal_attempt_validation input.started_at "startedAt"
  finished_at ← require_date p terminal_attempt_validation input.finished_at "finishedAt"
  let duration_ms = elapsed (p.date_parse finished_at) (p.date_parse started_at)
  throw_if (ltb_ℤ duration_ms (pos 0)) terminal_attempt_validation
      "finishedAt must not be earlier than startedAt"
  ok (record {
    request_id = request_id;
    attempt = attempt;
    outcome = input.outcome;
    started_at = started_at;
    finished_at = finished_at;
    raw_output = input.raw_output;
    duration_ms = duration_ms;
  })

unfoldable pub create_purchase_attempt_record :
    Platform → CreatePurchaseAttemptRecordInput → Result PurchaseAttemptRecord
create_purchase_attempt_record p input = do
  purchase_id ← require_text terminal_attempt_validation input.purchase_id "purchaseId"
  attempt ← normalize_terminal_attempt p (record {
    request_id = purchase_id;
    attempt = input.attempt_number;
    outcome = input.outcome;
    started_at = input.started_at;
    finished_at = input.finished_at;
    raw_output = input.raw_output;
  })
  ok (record {
    attempt_id = template (purchase_id ∷ ":attempt:" ∷ integer_text attempt.attempt ∷ []);
    purchase_id = purchase_id;
    legacy_request_id = trim_option input.legacy_request_id;
    attempt_number = attempt.attempt;
    outcome = attempt.outcome;
    started_at = attempt.started_at;
    finished_at = attempt.finished_at;
    raw_output = attempt.raw_output;
    duration_ms = attempt.duration_ms;
    external_ticket_reference = trim_option input.external_ticket_reference;
    error_message = trim_option input.error_message;
  })

unfoldable pub format_terminal_attempt_journal_note : NormalizedTerminalAttempt → String
format_terminal_attempt_journal_note a = template (
    "terminal_attempt"
    ∷ " attempt="
    ∷ integer_text a.attempt
    ∷ " outcome="
    ∷ outcome_text a.outcome
    ∷ " startedAt="
    ∷ a.started_at
    ∷ " finishedAt="
    ∷ a.finished_at
    ∷ " durationMs="
    ∷ integer_text a.duration_ms
    ∷ " rawOutput="
    ∷ a.raw_output
    ∷ [])

readable : {A : Type 0} (o : Option A) → not (is_some o) ≡ false → (a : A) × (o ≡ some a)
readable none h = cc
readable (some a) h = (a, refl)

-- what an accepted attempt has passed
normalize_inv :
    (p : Platform) (input : NormalizeTerminalAttemptInput) (a : NormalizedTerminalAttempt)
    → normalize_terminal_attempt p input ≡ ok a
    → (require_text terminal_attempt_validation input.request_id "requestId" ≡ ok a.request_id)
      × (positive_attempt (trunc input.attempt) ≡ ok a.attempt)
      × (require_date p terminal_attempt_validation input.started_at "startedAt" ≡ ok a.started_at)
      × (require_date p terminal_attempt_validation input.finished_at "finishedAt"
          ≡ ok a.finished_at)
      × (a.duration_ms ≡ elapsed (p.date_parse a.finished_at) (p.date_parse a.started_at))
      × (ltb_ℤ a.duration_ms (pos 0) ≡ false)
unfolding normalize_terminal_attempt
normalize_inv p input a h =
    let (r, hr, h1) =
      >>=-eq-ok (require_text terminal_attempt_validation input.request_id "requestId") _ h in
    let (n, hn, h2) = >>=-eq-ok (positive_attempt (trunc input.attempt)) _ h1 in
    let (s, hs, h3) =
      >>=-eq-ok (require_date p terminal_attempt_validation input.started_at "startedAt") _ h2 in
    let (f, hf, h4) =
      >>=-eq-ok (require_date p terminal_attempt_validation input.finished_at "finishedAt") _ h3 in
    ground arith

positive_attempt_lem :
    (o : Option ℤ) (z : ℤ)
    → positive_attempt o ≡ ok z
    → (pos 1 ≤ℤ z) × (positive_attempt (some z) ≡ ok z)
positive_attempt_lem o z h = ground arith

not_negative : (z : ℤ) → ltb_ℤ z (pos 0) ≡ false → pos 0 ≤ℤ z
not_negative z h = ground arith

-- An accepted attempt has a number above 0 and two dates that can be read, and its duration is the
-- time between them, which is not negative.
pub normalize_terminal_attempt_times :
    (p : Platform) (input : NormalizeTerminalAttemptInput) (a : NormalizedTerminalAttempt)
    → normalize_terminal_attempt p input ≡ ok a
    → (pos 1 ≤ℤ a.attempt)
      × (pos 0 ≤ℤ a.duration_ms)
      × ((started : ℤ) × (finished : ℤ) × (p.date_parse a.started_at ≡ some started)
          × (p.date_parse a.finished_at ≡ some finished)
          × (a.duration_ms ≡ finished -ℤ started))
unfolding normalize_terminal_attempt
normalize_terminal_attempt_times p input a h =
    let (hr, hn, hs, hf, d, late) = normalize_inv p input a h in
    let start = require_date-eq_ok p terminal_attempt_validation _ _ a.started_at hs in
    let finish = require_date-eq_ok p terminal_attempt_validation _ _ a.finished_at hf in
    let (x, ex) = readable (p.date_parse a.started_at) start.2 in
    let (y, ey) = readable (p.date_parse a.finished_at) finish.2 in
    (
      (positive_attempt_lem (trunc input.attempt) a.attempt hn).0,
      not_negative a.duration_ms late,
      (x, y, ex, ey, rw (ex, ey) at d),
    )

-- the input that an accepted attempt is
abbrev pub as_input : NormalizedTerminalAttempt → NormalizeTerminalAttemptInput
as_input a = record {
  request_id = a.request_id;
  attempt = integer a.attempt;
  outcome = a.outcome;
  started_at = a.started_at;
  finished_at = a.finished_at;
  raw_output = a.raw_output;
}

-- Normalizing an accepted attempt once more changes nothing.
pub normalize_terminal_attempt_idem :
    (p : Platform) (input : NormalizeTerminalAttemptInput) (a : NormalizedTerminalAttempt)
    → normalize_terminal_attempt p input ≡ ok a
    → normalize_terminal_attempt p (as_input a) ≡ ok a
unfolding normalize_terminal_attempt
normalize_terminal_attempt_idem p input a h =
    let (hr, hn, hs, hf, d, late) = normalize_inv p input a h in
    let r = require_text_idem terminal_attempt_validation _ _ a.request_id hr in
    let n = (positive_attempt_lem (trunc input.attempt) a.attempt hn).1 in
    let s = require_date_idem p terminal_attempt_validation _ _ a.started_at hs in
    let f = require_date_idem p terminal_attempt_validation _ _ a.finished_at hf in
    rw (r, n, s, f, ← d, late) refl
