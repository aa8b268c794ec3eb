-- ===== src/Application/Compatibility.antt =====
-- Canonical purchases as the requests that older pages show
-- (packages/application/src/services/canonical-compatibility.ts).
pub mod Simulation
use gambling.Base.{
  ◌≡◌, String, Bool, true, false, not, ◌||◌, Option, none, some, List, [], ◌∷◌, ◌++◌, ◌==◌,
  if◌then◌else◌, or_else, is_empty, trim, template, Result, ok, throw, plain, suc, ℕ,
}
use gambling.Base.Int.{ℤ, leb_ℤ, ◌-ℤ◌}
use gambling.Base.Lists.{length}
use gambling.Base.Platform.{Platform}
use gambling.Base.Sort.{sort}
use gambling.Domain.RequestState.{
  RequestState, CanonicalPurchaseStatus, PurchaseResultStatus, PurchaseResultVisibility, pending,
  hidden, visible, lose, win, same_state, state_text,
}
use gambling.Domain.PurchaseRequest.Canonical.{
  CanonicalPurchaseRecord, CanonicalPurchaseJournalEntry,
}
use gambling.Domain.Attempt.TerminalAttempt.{PurchaseAttemptRecord}
use gambling.Application.Store.Attempts.{compare_numbers}

pub record CanonicalRequestProjection : Type 0 where
  pub request_id : String
  pub status : RequestState
  pub created_at : String
  pub updated_at : String
  pub final_result : Option String
  pub attempt_count : ℕ

unfoldable pub build_canonical_ticket_id : String → Result String
build_canonical_ticket_id purchase_id =
    let id = trim purchase_id in
    if is_empty id
    then throw plain "purchaseId is required"
    else ok (template ("canonical:" ∷ id ∷ []))

-- `Map`: the keys in the order of their first element, each with its attempts
abbrev pub AttemptMap : Type 0
AttemptMap = List (String × List PurchaseAttemptRecord)

-- the attempt behind those of its purchase
abbrev add_attempt : AttemptMap → PurchaseAttemptRecord → AttemptMap
add_attempt [] a = (a.purchase_id, a ∷ []) ∷ []
add_attempt ((id, attempts) ∷ rest) a =
    let others = add_attempt rest a in
    if id == a.purchase_id then (id, attempts ++ a ∷ []) ∷ rest else (id, attempts) ∷ others

abbrev add_attempts : AttemptMap → List PurchaseAttemptRecord → AttemptMap
add_attempts m [] = m
add_attempts m (a ∷ attempts) = add_attempts (add_attempt m a) attempts

abbrev sort_each : AttemptMap → AttemptMap
sort_each [] = []
sort_each ((id, attempts) ∷ rest) =
    (id, sort (λ l r. compare_numbers l.attempt_number r.attempt_number) attempts) ∷ sort_each rest

unfoldable pub build_canonical_attempt_map : List PurchaseAttemptRecord → AttemptMap
build_canonical_attempt_map attempts = sort_each (add_attempts [] attempts)

-- `list.at(-1)`
abbrev last {ℓ} : {A : Type ℓ} → List A → Option A
last [] = none
last (x ∷ []) = some x
last (x ∷ y ∷ xs) = last (y ∷ xs)

abbrev updated_at_of : String → Option CanonicalPurchaseJournalEntry → String
updated_at_of submitted_at none = submitted_at
updated_at_of submitted_at (some e) = e.occurred_at

-- `purchase.journal.at(-1)?.occurredAt ?? purchase.snapshot.submittedAt`
abbrev updated_at : CanonicalPurchaseRecord → String
updated_at r = updated_at_of r.snapshot.submitted_at (last r.journal)

-- the request that a status stands for
abbrev pub request_state_of : CanonicalPurchaseStatus → RequestState
request_state_of CanonicalPurchaseStatus.submitted = RequestState.confirmed
request_state_of CanonicalPurchaseStatus.queued = RequestState.queued
request_state_of CanonicalPurchaseStatus.processing = RequestState.executing
request_state_of CanonicalPurchaseStatus.purchase_failed_retryable = RequestState.retrying
request_state_of CanonicalPurchaseStatus.purchase_failed_final = RequestState.error
request_state_of CanonicalPurchaseStatus.purchased = RequestState.success
request_state_of CanonicalPurchaseStatus.awaiting_draw_close = RequestState.success
request_state_of CanonicalPurchaseStatus.settled = RequestState.success
request_state_of CanonicalPurchaseStatus.canceled = RequestState.canceled

unfoldable pub map_canonical_purchase_status_to_request_state :
    CanonicalPurchaseRecord → RequestState
map_canonical_purchase_status_to_request_state r = request_state_of r.status

abbrev failure_text : Option PurchaseAttemptRecord → String
failure_text none = "canonical purchase failed"
failure_text (some a) = a.raw_output

abbrev shown_result : PurchaseResultVisibility → PurchaseResultStatus → Option String
shown_result visible win = some "canonical result: win"
shown_result visible lose = some "canonical result: lose"
shown_result v s = none

abbrev final_result_at :
    CanonicalPurchaseStatus → CanonicalPurchaseRecord → List PurchaseAttemptRecord → Option String
final_result_at CanonicalPurchaseStatus.purchase_failed_final r attempts =
    some (failure_text (last attempts))
final_result_at CanonicalPurchaseStatus.canceled r attempts = some "canonical purchase canceled"
final_result_at s r attempts = shown_result r.result_visibility r.result_status

unfoldable pub resolve_canonical_final_result :
    CanonicalPurchaseRecord → List PurchaseAttemptRecord → Option String
resolve_canonical_final_result r attempts = final_result_at r.status r attempts

unfoldable pub project_canonical_request :
    CanonicalPurchaseRecord → List PurchaseAttemptRecord → CanonicalRequestProjection
project_canonical_request r attempts = record {
  request_id = or_else r.snapshot.legacy_request_id r.snapshot.purchase_id;
  status = map_canonical_purchase_status_to_request_state r;
  created_at = r.snapshot.submitted_at;
  updated_at = updated_at r;
  final_result = resolve_canonical_final_result r attempts;
  attempt_count = length attempts;
}

-- the age of a running purchase against the threshold
abbrev is_stale : Option ℤ → Option ℤ → ℤ → Bool
is_stale (some updated) (some now) threshold = leb_ℤ threshold (now -ℤ updated)
is_stale a b threshold = false

unfoldable pub is_canonical_purchase_problem :
    Platform → CanonicalPurchaseRecord → String → ℤ → Bool
is_canonical_purchase_problem p r now threshold =
    let projected = map_canonical_purchase_status_to_request_state r in
    if same_state projected RequestState.retrying || same_state projected RequestState.error
    then true
    else if not (same_state projected RequestState.executing)
    then false
    else is_stale (p.date_parse (updated_at r)) (p.date_parse now) threshold
