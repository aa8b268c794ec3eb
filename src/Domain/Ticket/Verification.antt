-- ===== src/Domain/Ticket/Verification.antt =====
-- Verifying a ticket more than once, and what holds of every verification job.
use gambling.Base.{
  ◌≡◌, refl, ℕ, Bool, true, false, String, Option, some, none, ok, arith, >>=-eq-ok, trim, eq_refl,
  eq_iff, ticket_validation, is_some, sym, ◌∙◌,
}
use gambling.Base.Platform.{Platform, require_text-eq_ok}
use gambling.Domain.Ticket.Record.{
  TicketRecord, ApplyTicketVerificationOutcomeInput, apply_ticket_verification_outcome,
  normalize_non_negative_minor_or_null, same_event, is_pending, require_non_empty,
  require_valid_iso,
}
use gambling.Domain.Ticket.Job.{
  TicketVerificationJob, TicketVerificationJobState, queued, verifying, done, error,
  CreateTicketVerificationJobInput, create_ticket_verification_job, reserve_ticket_verification_job,
  complete_ticket_verification_job, fail_ticket_verification_job,
}

-- what an accepted outcome leaves behind: a decided ticket that names the event of the outcome
outcome_inv :
    (p : Platform) (t t' : TicketRecord) (input : ApplyTicketVerificationOutcomeInput)
    → apply_ticket_verification_outcome p t input ≡ ok t'
    → (is_pending t'.verification_status ≡ false)
      × (same_event t'.last_verification_event_id (trim input.verification_event_id) ≡ true)
      × (is_pending t.verification_status ≡ false → t' ≡ t)
unfolding apply_ticket_verification_outcome
outcome_inv p t t' input h =
    let (e, he, h1) =
      >>=-eq-ok (require_non_empty input.verification_event_id "verificationEventId") _ h in
    let (named, _) =
      require_text-eq_ok ticket_validation input.verification_event_id "verificationEventId" e he in
    ground (arith, eq_refl (trim input.verification_event_id))

same_event_unique :
    (o : Option String) (a b : String) → same_event o a ≡ true → same_event o b ≡ true → a ≡ b
same_event_unique none a b h k = cc
same_event_unique (some d) a b h k = sym ((eq_iff d a).0 h) ∙ (eq_iff d b).0 k

-- Applying an accepted outcome once more changes nothing.
pub outcome_retry :
    (p : Platform) (t t' : TicketRecord) (input : ApplyTicketVerificationOutcomeInput)
    → apply_ticket_verification_outcome p t input ≡ ok t'
    → apply_ticket_verification_outcome p t' input ≡ ok t'
unfolding apply_ticket_verification_outcome
outcome_retry p t t' input h =
    let (e, he, h1) =
      >>=-eq-ok (require_non_empty input.verification_event_id "verificationEventId") _ h in
    let (at, hat, h2) = >>=-eq-ok (require_valid_iso p input.verified_at "verifiedAt") _ h1 in
    let (o, ho, h3) =
      >>=-eq-ok (require_non_empty input.raw_terminal_output "rawTerminalOutput") _ h2 in
    let (a, ha, h4) =
      >>=-eq-ok
        (normalize_non_negative_minor_or_null input.winning_amount_minor "winningAmountMinor") _
        h3 in
    let (named, _) =
      require_text-eq_ok ticket_validation input.verification_event_id "verificationEventId" e he in
    let (decided, event, _) = outcome_inv p t t' input h in
    rw (he, hat, ho, ha, decided, rw (← named) at event) refl

-- A ticket with an accepted outcome takes no other one: a later outcome that does not throw changes
-- nothing and names the same event.
pub outcome_conflict :
    (p : Platform) (t t' t'' : TicketRecord) (input later : ApplyTicketVerificationOutcomeInput)
    → apply_ticket_verification_outcome p t input ≡ ok t'
    → apply_ticket_verification_outcome p t' later ≡ ok t''
    → (t'' ≡ t') × (trim later.verification_event_id ≡ trim input.verification_event_id)
outcome_conflict p t t' t'' input later h k =
    let (decided, event, _) = outcome_inv p t t' input h in
    let (_, event', same) = outcome_inv p t' t'' later k in
    let e = rw (same decided) at event' in
    (same decided, same_event_unique t'.last_verification_event_id _ _ e event)

-- A verification job that was created, and then reserved, completed and failed by calls that did not
-- throw.
pub data Reached (p : Platform) : TicketVerificationJob → Type 0 where
  created :
      {j : TicketVerificationJob} (input : CreateTicketVerificationJobInput)
      → create_ticket_verification_job p input ≡ ok j
      → Reached p j
  reserved :
      {j j' : TicketVerificationJob} (at : String)
      → Reached p j
      → reserve_ticket_verification_job p j at ≡ ok j'
      → Reached p j'
  completed :
      {j j' : TicketVerificationJob} (at output : String)
      → Reached p j
      → complete_ticket_verification_job p j at output ≡ ok j'
      → Reached p j'
  failed :
      {j j' : TicketVerificationJob} (at message : String) (output : Option String)
      → Reached p j
      → fail_ticket_verification_job p j at message output ≡ ok j'
      → Reached p j'

-- the attempts, the output and the error that belong to each status
abbrev pub Counts : TicketVerificationJobState → ℕ → Bool → Bool → Type 0
Counts queued n output failure = (n ≡ 0) × (output ≡ false) × (failure ≡ false)
Counts verifying n output failure = (n ≡ 1) × (output ≡ false) × (failure ≡ false)
Counts done n output failure = (n ≡ 1) × (output ≡ true) × (failure ≡ false)
Counts error n output failure = (n ≡ 1) × (failure ≡ true)

abbrev pub IsCounted : TicketVerificationJob → Type 0
IsCounted j =
    Counts j.status j.attempt_count (is_some j.last_terminal_output) (is_some j.last_error)

-- A verification job is attempted at most once: it counts no attempt while it is queued and one
-- afterwards, and it has an output and no error when it is done, and an error when it failed.
pub Reached-IsCounted : {p : Platform} {j : TicketVerificationJob} → Reached p j → IsCounted j
unfolding create_ticket_verification_job reserve_ticket_verification_job
    complete_ticket_verification_job fail_ticket_verification_job
Reached-IsCounted (created input h) = ground arith
Reached-IsCounted (reserved at q h) = let w = Reached-IsCounted q in ground arith
Reached-IsCounted (completed at output q h) = let w = Reached-IsCounted q in ground arith
Reached-IsCounted (failed at message output q h) = let w = Reached-IsCounted q in ground arith
