-- ===== src/Application/Winnings/Claims.antt =====
-- What the claims of a ticket, and the choice of the ticket, do to the stores.
use gambling.Base.{
  ◌≡◌, refl, sym, ◌∙◌, inl, inr, String, Option, none, some, [], ◌∷◌, ok, trim, is_empty,
  Result-cases, Bool-cases, is_space, trim_of_prefix, includes, Error, thrown,
}
use gambling.Base.Keyed.{All-find}
use gambling.Base.Lists.{All}
use gambling.Base.Sort.Select.{All-keep, All-append}
use gambling.Base.Action.{
  returned, ◌>>=◌, give, lift, attempt, returned_value, world_of, threw_returned,
}
use gambling.Base.Action.Returns.{split_call, split_guard, split_present, split_read, split_give}
use gambling.Domain.Ticket.Record.{TicketRecord}
use gambling.Application.TicketClaim.{
  Tickets, Claimed, get_ticket_by_id, get_ticket_by_request_id, save_ticket, start_credit_claim,
  start_cash_desk_claim,
}
use gambling.Application.TicketClaim.Exclusive.{Way, start_claim, start_claim_lem, claim_inv}
use gambling.Application.World.{World, on_tickets, on_tickets-eq_returned}
use gambling.Application.Store.Jobs.{Jobs}
use gambling.Application.Store.CashDesk.{CashDeskRequests}
use gambling.Application.Compatibility.{build_canonical_ticket_id}
use gambling.Application.Winnings.Credit.{start_credit_claim_if_legacy_ticket_exists, if_ticket}
use gambling.Application.Winnings.Desk.{
  start_cash_desk_claim_if_legacy_ticket_exists, unless_not_found,
}
use gambling.Application.Winnings.Fulfillment.{
  FulfillmentInput, WinningFulfillmentTarget, resolve_target, ticket_id_of,
}

-- The ids of the stored tickets are trimmed, as the code that creates tickets leaves them.
abbrev pub HasTrimmedIds : Tickets → Type 0
HasTrimmedIds = All (λ t. trim t.ticket_id ≡ t.ticket_id)

-- A claim leaves the ids trimmed.
claim-HasTrimmedIds :
    (way : Way) (store : Tickets) (id : String) (c : Claimed)
    → HasTrimmedIds store
    → start_claim way store id ≡ ok c
    → HasTrimmedIds c.store
unfolding save_ticket get_ticket_by_id
claim-HasTrimmedIds way store id c h claim =
    let (t, asked, _, now) =
      claim_inv way store (get_ticket_by_id store id) id c
        (sym (start_claim_lem way store id) ∙ claim) in
    let own = All-find _ _ store t h asked in
    rw now (All-append _ _ (_ ∷ []) (All-keep _ _ store h) (own, tt))

-- the stores that a claim leaves alone
abbrev pub paid_stores : World → Jobs × CashDeskRequests
paid_stores v = (v.jobs, v.cash_desk)

-- what a claim does to the stores
abbrev pub Claims : World → World → Type 0
Claims w v = (paid_stores v ≡ paid_stores w) × HasTrimmedIds v.tickets

module _ (w : World) (id : String) (h : HasTrimmedIds w.tickets) where
  on_claim :
      (way : Way) {t : TicketRecord} (v : World)
      → on_tickets (λ store. start_claim way store id) w ≡ returned t v
      → Claims w v
  on_claim way v claim =
      let (c, done, now) = on_tickets-eq_returned _ w claim in
      rw now (refl, claim-HasTrimmedIds way w.tickets id c h done)

  if_ticket-Claims :
      (ticket : Option TicketRecord) (u : Unit {0}) (v : World)
      → if_ticket (λ i. on_tickets λ store. start_credit_claim store i) id ticket w ≡ returned u v
      → Claims w v
  if_ticket-Claims none u v e = rw (split_give tt e).1 (refl, h)
  if_ticket-Claims (some t) u v e =
      split_call _ _ e λ t' v' claim e1. rw (split_give tt e1).1 (on_claim Way.credit v' claim)

  pub credit-Claims :
      (u : Unit {0}) (v : World)
      → start_credit_claim_if_legacy_ticket_exists id w ≡ returned u v
      → Claims w v
  unfolding start_credit_claim_if_legacy_ticket_exists
  credit-Claims u v e = split_read _ _ e λ e1. if_ticket-Claims _ u v e1

  ignored : (x : Error) (u : Unit {0}) (v : World) → unless_not_found x w ≡ returned u v → v ≡ w
  unfolding give
  ignored (thrown c m) u v e = elim (Bool-cases (includes m "not found")) [
    | inl f ↦ sym (world_of (rw f at e))
    | inr f ↦ absurd (threw_returned (rw f at e))
  ]

  pub desk-Claims :
      (u : Unit {0}) (v : World)
      → start_cash_desk_claim_if_legacy_ticket_exists id w ≡ returned u v
      → Claims w v
  unfolding start_cash_desk_claim_if_legacy_ticket_exists attempt ◌>>=◌ on_tickets give
  desk-Claims u v e = elim (Result-cases (start_cash_desk_claim w.tickets id)) [
    | inl (c, f) ↦
        rw (← world_of (rw f at e)) (refl, claim-HasTrimmedIds Way.cash_desk w.tickets id c h f)
    | inr (x, f) ↦ rw (ignored x u v (rw f at e)) (refl, h)
  ]

-- the tickets' own ids, and those that are built, are trimmed
ticket_id_of-IsTrimmed :
    (ticket : Option TicketRecord) (purchase_id : String) (w v : World) (id : String)
    → ((t : TicketRecord) → ticket ≡ some t → trim t.ticket_id ≡ t.ticket_id)
    → ticket_id_of ticket purchase_id w ≡ returned id v
    → (v ≡ w) × (trim id ≡ id)
unfolding give lift build_canonical_ticket_id is_space
ticket_id_of-IsTrimmed (some t) purchase_id w v id own e =
    let (result, world) = split_give t.ticket_id e in rw (result, world) (refl, own t refl)
ticket_id_of-IsTrimmed none purchase_id w v id own e =
    elim (Bool-cases (is_empty (trim purchase_id))) [
      | inl f ↦ absurd (threw_returned (rw f at e))
      | inr f ↦
          rw (sym (returned_value (rw f at e)), sym (world_of (rw f at e)))
            (refl, trim_of_prefix "canonical:" purchase_id refl refl refl)
    ]

-- the id that a payment is for is trimmed
pub resolve-IsTrimmed :
    (input : FulfillmentInput) (w v : World) (t : WinningFulfillmentTarget)
    → HasTrimmedIds w.tickets
    → resolve_target input w ≡ returned t v
    → (v ≡ w) × (trim t.ticket_id ≡ t.ticket_id)
unfolding resolve_target get_ticket_by_request_id build_canonical_ticket_id
resolve-IsTrimmed input w v t h e = split_guard _ _ _ _ e λ _ e1. split_read _ _ e1 λ e2.
    split_present _ _ _ _ e2 λ purchase asked e3. split_guard _ _ _ _ e3 λ _ e4.
      split_guard _ _ _ _ e4 λ _ e5. split_guard _ _ _ _ e5 λ _ e6. split_read _ _ e6 λ e7.
        split_guard _ _ _ _ e7 λ _ e8. split_call _ _ e8 λ id u named e9.
          let (result, world) = split_give _ e9 in
          let (same_world, trimmed) =
            ticket_id_of-IsTrimmed _ purchase.snapshot.purchase_id w u id
              (λ x found. All-find _ _ w.tickets x h found) named in
          rw (result, world) (same_world, trimmed)
