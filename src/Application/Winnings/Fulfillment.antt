-- ===== src/Application/Winnings/Fulfillment.antt =====
-- The winning fulfillment service
-- (packages/application/src/services/winning-fulfillment-service.ts): a winning purchase is paid along
-- one of the two paths.
use gambling.Base.{
  String, Bool, true, false, not, ◌||◌, Option, none, some, [], ◌∷◌, ◌==◌, if◌then◌else◌, or_else,
  is_empty, trim, template, Number, integer, winning_fulfillment,
}
use gambling.Base.Int.{pos}
use gambling.Base.Action.{Action, give, lift, raise_if, present_or, reads, ◌>>=◌, ◌>>◌}
use gambling.Domain.RequestState.{visible, win}
use gambling.Domain.PurchaseRequest.Canonical.{
  CanonicalPurchaseRecord, same_result, same_visibility,
}
use gambling.Domain.Ticket.Record.{
  TicketRecord, TicketClaimState, credit_pending, credited, cash_desk_pending, cash_desk_paid,
}
use gambling.Domain.Draw.Closure.{admin_emulated_win_amount_minor}
use gambling.Domain.Winnings.CashDesk.{WinningsCreditJob, CashDeskRequest}
use gambling.Application.World.{World, Surroundings}
use gambling.Application.Store.Jobs.{get_job_by_ticket_id}
use gambling.Application.Store.CashDesk.{get_cash_desk_request_by_ticket_id}
use gambling.Application.TicketClaim.{get_ticket_by_request_id, is_winning}
use gambling.Application.PurchaseState.{load_canonical_purchase_for_request}
use gambling.Application.Compatibility.{build_canonical_ticket_id}
use gambling.Application.Winnings.Credit.{EnqueueCreditJobInput, enqueue_credit_job}
use gambling.Application.Winnings.Desk.{DeskRequestInput, create_desk_request}

pub record FulfillmentInput : Type 0 where
  pub request_id : String
  pub user_id : String

pub record WinningFulfillmentTarget : Type 0 where
  pub request_id : String
  pub purchase_id : String
  pub ticket_id : String
  pub user_id : String
  pub lottery_code : String
  pub draw_id : String
  pub currency : String
  pub winning_amount_minor : Number
  pub ticket : Option TicketRecord
  pub purchase : CanonicalPurchaseRecord

abbrev claim_of : Option TicketRecord → Option TicketClaimState
claim_of none = none
claim_of (some t) = some t.claim_state

abbrev is_credit : Option TicketClaimState → Bool
is_credit (some credit_pending) = true
is_credit (some credited) = true
is_credit other = false

abbrev is_cash_desk : Option TicketClaimState → Bool
is_cash_desk (some cash_desk_pending) = true
is_cash_desk (some cash_desk_paid) = true
is_cash_desk other = false

unfoldable pub is_legacy_credit_claim : Option TicketRecord → Bool
is_legacy_credit_claim ticket = is_credit (claim_of ticket)

unfoldable pub is_legacy_cash_desk_claim : Option TicketRecord → Bool
is_legacy_cash_desk_claim ticket = is_cash_desk (claim_of ticket)

abbrev emulated : Number
emulated = integer (pos admin_emulated_win_amount_minor)

-- the ticket's amount where it is above 0, or the emulated one
abbrev amount_or_emulated : Option Number → Number
amount_or_emulated none = emulated
amount_or_emulated (some amount) = if is_winning (some amount) then amount else emulated

abbrev ticket_amount : Option TicketRecord → Option Number
ticket_amount none = none
ticket_amount (some t) = t.winning_amount_minor

unfoldable pub resolve_winning_amount_minor : Option TicketRecord → CanonicalPurchaseRecord → Number
resolve_winning_amount_minor ticket purchase =
    if not (same_result purchase.result_status win)
      || not (same_visibility purchase.result_visibility visible)
    then integer (pos 0)
    else amount_or_emulated (ticket_amount ticket)

-- `ticket?.ticketId ?? buildCanonicalTicketId(purchaseId)`
abbrev pub ticket_id_of : Option TicketRecord → String → Action World String
ticket_id_of (some t) purchase_id = give t.ticket_id
ticket_id_of none purchase_id = lift (build_canonical_ticket_id purchase_id)

abbrev about : String → String → String
about id rest = template ("request \"" ∷ id ∷ "\" " ∷ rest ∷ [])

-- `winningAmountMinor <= 0` stops the call: an amount that is not a number does not, but the amounts
-- are one of a ticket that is above 0, the emulated one and 0.
unfoldable pub resolve_target : FulfillmentInput → Action World WinningFulfillmentTarget
resolve_target input = do
  let id = trim input.request_id
  raise_if (is_empty id) (winning_fulfillment "purchase_not_found") "requestId is required"
  found ← reads (λ w. load_canonical_purchase_for_request w.purchases id)
  purchase ←
      present_or found (winning_fulfillment "purchase_not_found")
        (template ("canonical purchase for request \"" ∷ id ∷ "\" not found" ∷ []))
  raise_if (not (purchase.snapshot.user_id == trim input.user_id)) (winning_fulfillment "forbidden")
      (about id (template ("does not belong to user \"" ∷ input.user_id ∷ "\"" ∷ [])))
  raise_if (not (same_visibility purchase.result_visibility visible))
      (winning_fulfillment "result_not_visible") (about id "is not settled for fulfillment yet")
  raise_if (not (same_result purchase.result_status win)) (winning_fulfillment "not_winner")
      (about id "is not a winning purchase")
  let request_id = or_else purchase.snapshot.legacy_request_id purchase.snapshot.purchase_id
  ticket ← reads (λ w. get_ticket_by_request_id w.tickets request_id)
  raise_if (not (is_winning (some (resolve_winning_amount_minor ticket purchase))))
      (winning_fulfillment "not_winner") (about id "has no payout amount")
  ticket_id ← ticket_id_of ticket purchase.snapshot.purchase_id
  give (record {
    request_id = request_id;
    purchase_id = purchase.snapshot.purchase_id;
    ticket_id = ticket_id;
    user_id = purchase.snapshot.user_id;
    lottery_code = purchase.snapshot.lottery_code;
    draw_id = purchase.snapshot.draw_id;
    currency = purchase.snapshot.currency;
    winning_amount_minor = resolve_winning_amount_minor ticket purchase;
    ticket = ticket;
    purchase = purchase;
  })

abbrev pub is_present {ℓ} : {A : Type ℓ} → Option A → Bool
is_present none = false
is_present (some a) = true

module _ (s : Surroundings) where
  abbrev pub credit_input : WinningFulfillmentTarget → EnqueueCreditJobInput
  credit_input t = record {
    request_id = t.request_id;
    purchase_id = t.purchase_id;
    ticket_id = t.ticket_id;
    user_id = t.user_id;
    draw_id = t.draw_id;
    winning_amount_minor = t.winning_amount_minor;
    currency = t.currency;
  }

  abbrev pub desk_input : WinningFulfillmentTarget → DeskRequestInput
  desk_input t = record {
    request_id = t.request_id;
    purchase_id = t.purchase_id;
    ticket_id = t.ticket_id;
    user_id = t.user_id;
    lottery_code = t.lottery_code;
    draw_id = t.draw_id;
    winning_amount_minor = t.winning_amount_minor;
    currency = t.currency;
    created_at = or_else t.purchase.settled_at t.purchase.snapshot.submitted_at;
  }

  -- no job is there for the ticket
  unfoldable pub enqueue_unless_desk :
      WinningFulfillmentTarget → Option CashDeskRequest → Action World WinningsCreditJob
  enqueue_unless_desk t desk = do
    raise_if (is_present desk || is_legacy_cash_desk_claim t.ticket)
        (winning_fulfillment "credit_conflict")
        (about t.request_id "already uses the cash desk fulfillment path")
    enqueue_credit_job s (credit_input t)

  unfoldable pub enqueue_for_target :
      WinningFulfillmentTarget → Option WinningsCreditJob → Action World WinningsCreditJob
  enqueue_for_target t (some existing) = give existing
  enqueue_for_target t none = do
    desk ← reads (λ w. get_cash_desk_request_by_ticket_id w.cash_desk t.ticket_id)
    enqueue_unless_desk t desk

  unfoldable pub enqueue_credit_for_request : FulfillmentInput → Action World WinningsCreditJob
  enqueue_credit_for_request input = do
    target ← resolve_target input
    existing ← reads (λ w. get_job_by_ticket_id w.jobs target.ticket_id)
    enqueue_for_target target existing

  -- no cash desk request is there for the ticket
  unfoldable pub create_unless_credit :
      WinningFulfillmentTarget → Option WinningsCreditJob → Action World CashDeskRequest
  create_unless_credit t job = do
    raise_if (is_present job || is_legacy_credit_claim t.ticket)
        (winning_fulfillment "cash_desk_conflict")
        (about t.request_id "already uses the balance credit fulfillment path")
    create_desk_request s (desk_input t)

  unfoldable pub create_for_target :
      WinningFulfillmentTarget → Option CashDeskRequest → Action World CashDeskRequest
  create_for_target t (some existing) = give existing
  create_for_target t none = do
    job ← reads (λ w. get_job_by_ticket_id w.jobs t.ticket_id)
    create_unless_credit t job

  unfoldable pub create_cash_desk_request_for_request :
      FulfillmentInput → Action World CashDeskRequest
  create_cash_desk_request_for_request input = do
    target ← resolve_target input
    existing ← reads (λ w. get_cash_desk_request_by_ticket_id w.cash_desk target.ticket_id)
    create_for_target target existing
