-- ===== src/Domain/Ticket/Lifecycle.antt =====
-- What the calls of packages/domain/src/ticket.ts do with the verification of a ticket.
use gambling.Base.{◌≡◌, ◌≢◌, Bool, true, false, String, ok, arith, is_some, Number}
use gambling.Base.Platform.{Platform}
use gambling.Domain.Ticket.Record.{
  TicketRecord, TicketVerificationState, pending, verified, failed, unclaimed,
  TicketAdminResultMark, CreatePurchasedTicketRecordInput, ApplyTicketVerificationOutcomeInput,
  create_purchased_ticket_record, set_ticket_admin_result_mark, resolve_ticket_from_admin_mark,
  apply_ticket_verification_outcome,
}

-- One call on a ticket that did not throw.
pub data Step (p : Platform) (t t' : TicketRecord) : Type 0 where
  marking :
      (mark : TicketAdminResultMark) (by at : String)
      → set_ticket_admin_result_mark p t mark by at ≡ ok t'
      → Step p t t'
  resolving :
      (amount : Number) (at by : String)
      → resolve_ticket_from_admin_mark p t amount at by ≡ ok t'
      → Step p t t'
  verifying :
      (input : ApplyTicketVerificationOutcomeInput)
      → apply_ticket_verification_outcome p t input ≡ ok t'
      → Step p t t'

-- whether the output, the amount, the time and the event of a verification are on the ticket
abbrev pub Fields : TicketVerificationState → Bool → Bool → Bool → Bool → Type 0
Fields pending output amount at event =
    (output ≡ false) × (amount ≡ false) × (at ≡ false) × (event ≡ false)
Fields verified output amount at event =
    (output ≡ true) × (amount ≡ true) × (at ≡ true) × (event ≡ true)
Fields failed output amount at event =
    (output ≡ true) × (amount ≡ false) × (at ≡ true) × (event ≡ true)

abbrev pub IsResolved : TicketRecord → Type 0
IsResolved t =
    Fields t.verification_status (is_some t.verification_raw_output)
      (is_some t.winning_amount_minor) (is_some t.verified_at)
      (is_some t.last_verification_event_id)

pub create_fields :
    (p : Platform) (input : CreatePurchasedTicketRecordInput) (t : TicketRecord)
    → create_purchased_ticket_record p input ≡ ok t
    → IsResolved t × (t.claim_state ≡ unclaimed)
unfolding create_purchased_ticket_record
create_fields p input t h = ground arith

pub Step-fields :
    {p : Platform} {t t' : TicketRecord}
    → Step p t t'
    → IsResolved t
    → IsResolved t' × (t'.claim_state ≡ t.claim_state)
unfolding set_ticket_admin_result_mark resolve_ticket_from_admin_mark
    apply_ticket_verification_outcome
Step-fields (marking mark by at h) w = ground arith
Step-fields (resolving amount at by h) w = ground arith
Step-fields (verifying input h) w = ground arith

-- A ticket that is not pending any more stays as it is: every later call throws or changes nothing.
pub decided_absorbs :
    {p : Platform} {t t' : TicketRecord} → Step p t t' → t.verification_status ≢ pending → t' ≡ t
unfolding set_ticket_admin_result_mark resolve_ticket_from_admin_mark
    apply_ticket_verification_outcome
decided_absorbs (marking mark by at h) n = ground arith
decided_absorbs (resolving amount at by h) n = ground arith
decided_absorbs (verifying input h) n = ground arith
