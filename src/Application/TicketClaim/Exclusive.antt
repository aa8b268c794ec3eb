-- ===== src/Application/TicketClaim/Exclusive.antt =====
-- A ticket is claimed once, by one of the two ways of payment.
use gambling.Base.{
  ◌≡◌, ◌↔◌, ◌>>=◌, ◌>>◌, refl, sym, ◌∙◌, String, true, Option, none, some, [], ◌∷◌, trim, template,
  Result, ok, err, thrown, plain, arith,
}
use gambling.Base.Keyed.{key-lookup, lookup-put_self}
use gambling.Domain.Ticket.Record.{
  TicketRecord, verified, TicketClaimState, unclaimed, credit_pending, cash_desk_pending,
}
use gambling.Application.TicketClaim.{
  Tickets, Claimed, get_ticket_by_id, save_ticket, save_claim, require_ticket, is_winning,
  claim_text, assert_winning_ticket, assert_unclaimed, start_credit_claim, start_cash_desk_claim,
}

-- A saved ticket is found under its id.
get-save :
    (store : Tickets) (id : String) (t : TicketRecord)
    → t.ticket_id ≡ trim id
    → get_ticket_by_id (save_ticket store t) id ≡ some t
unfolding get_ticket_by_id save_ticket
get-save store id t h = lookup-put_self (λ e. e.ticket_id) store t (trim id) h

-- the two ways of payment
pub data Way : Type 0 where
  credit cash_desk : Way

abbrev pub claimed : Way → TicketClaimState
claimed credit = credit_pending
claimed cash_desk = cash_desk_pending

abbrev pub start_claim : Way → Tickets → String → Result Claimed
start_claim credit = start_credit_claim
start_claim cash_desk = start_cash_desk_claim

-- what both claims do with the ticket that they find
abbrev pub claim_found : Way → Tickets → Option TicketRecord → String → Result Claimed
claim_found way store found id = do
  t ← require_ticket found id
  assert_winning_ticket t
  assert_unclaimed t
  ok (save_claim store t (claimed way))

pub start_claim_lem :
    (way : Way) (store : Tickets) (id : String)
    → start_claim way store id ≡ claim_found way store (get_ticket_by_id store id) id
unfolding start_credit_claim start_cash_desk_claim
start_claim_lem credit store id = refl
start_claim_lem cash_desk store id = refl

abbrev pub IsClaimable : TicketRecord → Type 0
IsClaimable t =
    (t.verification_status ≡ verified)
    × (is_winning t.winning_amount_minor ≡ true)
    × (t.claim_state ≡ unclaimed)

pub claim_inv :
    (way : Way) (store : Tickets) (found : Option TicketRecord) (id : String) (c : Claimed)
    → claim_found way store found id ≡ ok c
    → (t : TicketRecord) × (found ≡ some t) × IsClaimable t × (c ≡ save_claim store t (claimed way))
unfolding assert_winning_ticket assert_unclaimed
claim_inv way store none id c h = cc
claim_inv way store (some t) id c h = (t, refl, ground arith, ground arith)

claim_ok :
    (way : Way) (store : Tickets) (t : TicketRecord) (id : String)
    → IsClaimable t
    → claim_found way store (some t) id ≡ ok (save_claim store t (claimed way))
unfolding assert_winning_ticket assert_unclaimed
claim_ok way store t id (v, w, u) = rw (v, w, u) refl

saved :
    (way : Way) (store : Tickets) (t : TicketRecord) (id : String)
    → get_ticket_by_id store id ≡ some t
    → get_ticket_by_id (save_claim store t (claimed way)).store id
      ≡ some (save_claim store t (claimed way)).ticket
saved way store t id found =
    get-save store id (save_claim store t (claimed way)).ticket
      (unfold get_ticket_by_id in key-lookup (λ e. e.ticket_id) store (trim id) t found)

refused :
    (first second : Way) (store : Tickets) (t : TicketRecord) (id : String)
    → t.verification_status ≡ verified
    → is_winning t.winning_amount_minor ≡ true
    → claim_found second store (some (record t { claim_state = claimed first })) id
      ≡ err (
          thrown plain (
            template (
              "ticket \""
              ∷ t.ticket_id
              ∷ "\" already has claim state \""
              ∷ claim_text (claimed first)
              ∷ "\""
              ∷ [])))
unfolding assert_winning_ticket assert_unclaimed
refused credit second store t id v w = rw (v, w) refl
refused cash_desk second store t id v w = rw (v, w) refl

-- A claim is accepted exactly for a stored ticket that is verified, has winnings above 0 and is not
-- claimed; it then stands in the store with the state of the claim.
pub start_claim_iff :
    (way : Way) (store : Tickets) (id : String)
    → ((c : Claimed) × (start_claim way store id ≡ ok c)
        × (get_ticket_by_id c.store id ≡ some c.ticket)
        × (c.ticket.claim_state ≡ claimed way))
      ↔ ((t : TicketRecord) × (get_ticket_by_id store id ≡ some t)
          × (t.verification_status ≡ verified)
          × (is_winning t.winning_amount_minor ≡ true)
          × (t.claim_state ≡ unclaimed))
start_claim_iff way store id = (
  λ (c, h, _, _).
      let (t, found, (v, w, u), _) =
        claim_inv way store (get_ticket_by_id store id) id c
          (sym (start_claim_lem way store id) ∙ h) in
      (t, found, v, w, u),
  λ (t, found, v, w, u). (
    save_claim store t (claimed way),
    rw (start_claim_lem way store id, found) (claim_ok way store t id (v, w, u)),
    saved way store t id found,
    refl,
  ),
)

-- A ticket that was claimed in one way is not claimed again in that way or in the other: the second
-- claim throws, naming the state of the first.
pub start_claim_exclusive :
    (first second : Way) (store : Tickets) (id : String) (c : Claimed)
    → start_claim first store id ≡ ok c
    → start_claim second c.store id
      ≡ err (
          thrown plain (
            template (
              "ticket \""
              ∷ c.ticket.ticket_id
              ∷ "\" already has claim state \""
              ∷ claim_text (claimed first)
              ∷ "\""
              ∷ [])))
start_claim_exclusive first second store id c h =
    let (t, found, (v, w, u), now) =
      claim_inv first store (get_ticket_by_id store id) id c
        (sym (start_claim_lem first store id) ∙ h) in
    rw
      (
        now,
        start_claim_lem second (save_claim store t (claimed first)).store id,
        saved first store t id found,
      )
      (refused first second _ t id v w)
