-- ===== src/Application/TicketClaim/Lifecycle.antt =====
-- What holds of every ticket that was created and then changed by any calls of
-- packages/domain/src/ticket.ts and of the ticket claim service.
use gambling.Base.{◌≡◌, ◌≢◌, ◌⊎◌, inl, inr, refl, sym, ◌∙◌, String, true, Bool, some, ok, arith}
use gambling.Base.Platform.{Platform}
use gambling.Domain.Ticket.Record.{
  TicketRecord, CreatePurchasedTicketRecordInput, create_purchased_ticket_record, verified, pending,
  unclaimed, credit_pending, credited, cash_desk_pending, cash_desk_paid, failed, TicketClaimState,
  TicketVerificationState,
}
use gambling.Domain.Ticket.Lifecycle.{Step, IsResolved, create_fields, Step-fields, decided_absorbs}
use gambling.Application.TicketClaim.{
  Tickets, Claimed, get_ticket_by_id, save_claim, is_winning, mark_ticket_credited,
  mark_ticket_cash_desk_paid,
}
use gambling.Application.TicketClaim.Exclusive.{
  Way, credit, cash_desk, claimed, start_claim, start_claim_lem, claim_inv,
}

-- One call that did not throw on the ticket, which the service finds in a store.
pub data Call (p : Platform) (t t' : TicketRecord) : Type 0 where
  on_record : Step p t t' → Call p t t'
  claiming :
      (way : Way) (store : Tickets) (id : String) (c : Claimed)
      → get_ticket_by_id store id ≡ some t
      → start_claim way store id ≡ ok c
      → c.ticket ≡ t'
      → Call p t t'
  crediting :
      (store : Tickets) (id : String) (c : Claimed)
      → get_ticket_by_id store id ≡ some t
      → mark_ticket_credited store id ≡ ok c
      → c.ticket ≡ t'
      → Call p t t'
  paying :
      (store : Tickets) (id : String) (c : Claimed)
      → get_ticket_by_id store id ≡ some t
      → mark_ticket_cash_desk_paid store id ≡ ok c
      → c.ticket ≡ t'
      → Call p t t'

pub data Reached (p : Platform) : TicketRecord → Type 0 where
  created :
      {t : TicketRecord} (input : CreatePurchasedTicketRecordInput)
      → create_purchased_ticket_record p input ≡ ok t
      → Reached p t
  called : {t t' : TicketRecord} → Reached p t → Call p t t' → Reached p t'

-- what a claim asks of the verification: a payment that was started and is not marked as finished is
-- one of a verified ticket with winnings
abbrev pub Started : TicketClaimState → TicketVerificationState → Bool → Type 0
Started credit_pending status winning = (status ≡ verified) × (winning ≡ true)
Started cash_desk_pending status winning = (status ≡ verified) × (winning ≡ true)
Started state status winning = Unit

abbrev pub IsStarted : TicketRecord → Type 0
IsStarted t = Started t.claim_state t.verification_status (is_winning t.winning_amount_minor)

abbrev pub IsSound : TicketRecord → Type 0
IsSound t = IsResolved t × IsStarted t

create-IsSound :
    (p : Platform) (input : CreatePurchasedTicketRecordInput) (t : TicketRecord)
    → create_purchased_ticket_record p input ≡ ok t
    → IsSound t
create-IsSound p input t h = let (fields, free) = create_fields p input t h in (fields, rw free tt)

pending_or : (status : TicketVerificationState) → (status ≡ pending) ⊎ (status ≢ pending)
pending_or pending = inl refl
pending_or verified = inr λ e. cc
pending_or failed = inr λ e. cc

-- No payment of a pending ticket was started.
pending-Started :
    (state : TicketClaimState) (status : TicketVerificationState) (winning after : Bool)
    → Started state pending winning
    → Started state status after
pending-Started credit_pending status winning after h = let no = h.0 in absurd cc
pending-Started cash_desk_pending status winning after h = let no = h.0 in absurd cc
pending-Started unclaimed status winning after h = tt
pending-Started credited status winning after h = tt
pending-Started cash_desk_paid status winning after h = tt

on_record-IsSound : {p : Platform} {t t' : TicketRecord} → Step p t t' → IsSound t → IsSound t'
on_record-IsSound {p} {t} {t'} step (fields, started) = elim (pending_or t.verification_status) [
  | inl waits ↦
      let (after, same) = Step-fields step fields in
      (after, rw same (pending-Started t.claim_state _ _ _ (rw waits at started)))
  | inr decided ↦ rw (decided_absorbs step decided) (fields, started)
]

claimed-Started :
    (way : Way) (status : TicketVerificationState) (winning : Bool)
    → status ≡ verified
    → winning ≡ true
    → Started (claimed way) status winning
claimed-Started credit status winning v w = (v, w)
claimed-Started cash_desk status winning v w = (v, w)

claiming-IsSound :
    (way : Way) (store : Tickets) (id : String) (c : Claimed) (t : TicketRecord)
    → get_ticket_by_id store id ≡ some t
    → start_claim way store id ≡ ok c
    → IsSound t
    → IsSound c.ticket
claiming-IsSound way store id c t found h (fields, started) =
    let (t', found', (v, w, u), now) =
      claim_inv way store (get_ticket_by_id store id) id c
        (sym (start_claim_lem way store id) ∙ h) in
    let one : t' ≡ t = cc in
    let before : IsResolved t' = rw one fields in
    let after : IsSound (save_claim store t' (claimed way)).ticket =
      (before, claimed-Started way _ _ v w) in
    rw now after

-- The two marks set the state of the claim, to one of a finished payment.
credited_ticket :
    (store : Tickets) (id : String) (c : Claimed) (t : TicketRecord)
    → get_ticket_by_id store id ≡ some t
    → mark_ticket_credited store id ≡ ok c
    → c.ticket ≡ record t { claim_state = credited }
unfolding mark_ticket_credited
credited_ticket store id c t found h = let done = rw found at h in ground arith

paid_ticket :
    (store : Tickets) (id : String) (c : Claimed) (t : TicketRecord)
    → get_ticket_by_id store id ≡ some t
    → mark_ticket_cash_desk_paid store id ≡ ok c
    → c.ticket ≡ record t { claim_state = cash_desk_paid }
unfolding mark_ticket_cash_desk_paid
paid_ticket store id c t found h = let done = rw found at h in ground arith

-- Whatever calls of the domain and of the claim service a ticket goes through: it has the output, the
-- amount, the time and the event of its verification exactly when it is verified, all but the amount
-- when its verification failed, and none of them while it is pending; and a payment of it that was
-- started and not marked as finished is one of a verified ticket with winnings above 0.
pub Reached-IsSound : {p : Platform} {t : TicketRecord} → Reached p t → IsSound t
Reached-IsSound {p} {t} (created input h) = create-IsSound p input t h
Reached-IsSound (called q (on_record step)) = on_record-IsSound step (Reached-IsSound q)
Reached-IsSound (called {t} {t'} q (claiming way store id c found h same)) =
    rw (← same) (claiming-IsSound way store id c t found h (Reached-IsSound q))
Reached-IsSound (called {t} {t'} q (crediting store id c found h same)) =
    rw (← same, credited_ticket store id c t found h) ((Reached-IsSound q).0, tt)
Reached-IsSound (called {t} {t'} q (paying store id c found h same)) =
    rw (← same, paid_ticket store id c t found h) ((Reached-IsSound q).0, tt)
