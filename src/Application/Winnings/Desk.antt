-- ===== src/Application/Winnings/Desk.antt =====
-- The cash desk service (packages/application/src/services/cash-desk-service.ts).
use gambling.Base.{
  String, Option, none, some, List, [], ◌∷◌, if◌then◌else◌, template, Number, plain, Error, thrown,
  includes,
}
use gambling.Base.Action.{threw, Action, give, present_or, reads, writes, attempt, ◌>>=◌, ◌>>◌}
use gambling.Domain.Winnings.CashDesk.{
  CashDeskRequest, create_cash_desk_request, pay_cash_desk_request, is_paid,
}
use gambling.Application.World.{World, Surroundings, on_tickets}
use gambling.Application.Store.CashDesk.{
  get_cash_desk_request_by_id, get_cash_desk_request_by_ticket_id, list_cash_desk_requests,
  save_cash_desk_request,
}
use gambling.Application.TicketClaim.{start_cash_desk_claim, mark_ticket_cash_desk_paid}

-- the input of `createCashDeskRequest` of the service
pub record DeskRequestInput : Type 0 where
  pub request_id : String
  pub purchase_id : String
  pub ticket_id : String
  pub user_id : String
  pub lottery_code : String
  pub draw_id : String
  pub winning_amount_minor : Number
  pub currency : String
  pub created_at : String

-- An error that says "not found" is passed over.
abbrev pub unless_not_found : Error → Action World (Unit {0})
unless_not_found (thrown c m) w = if includes m "not found" then give tt w else threw (thrown c m) w

unfoldable pub start_cash_desk_claim_if_legacy_ticket_exists : String → Action World (Unit {0})
start_cash_desk_claim_if_legacy_ticket_exists ticket_id =
    attempt (on_tickets (λ store. start_cash_desk_claim store ticket_id) >>= λ _. give tt)
      unless_not_found

unfoldable pub mark_ticket_cash_desk_paid_if_legacy_ticket_exists : String → Action World (Unit {0})
mark_ticket_cash_desk_paid_if_legacy_ticket_exists ticket_id =
    attempt (on_tickets (λ store. mark_ticket_cash_desk_paid store ticket_id) >>= λ _. give tt)
      unless_not_found

abbrev pub save_desk_request : CashDeskRequest → Action World (Unit {0})
save_desk_request r = writes λ w. record w { cash_desk = save_cash_desk_request w.cash_desk r }

module _ (s : Surroundings) where
  abbrev pub new_request : DeskRequestInput → CashDeskRequest
  new_request input = create_cash_desk_request s.platform (record {
    cash_desk_request_id = template (input.ticket_id ∷ ":cash-desk" ∷ []);
    request_id = input.request_id;
    purchase_id = input.purchase_id;
    ticket_id = input.ticket_id;
    user_id = input.user_id;
    lottery_code = input.lottery_code;
    draw_id = input.draw_id;
    winning_amount_minor = input.winning_amount_minor;
    currency = input.currency;
    created_at = input.created_at;
  })

  unfoldable pub create_new_desk_request : DeskRequestInput → Action World CashDeskRequest
  create_new_desk_request input = do
    start_cash_desk_claim_if_legacy_ticket_exists input.ticket_id
    save_desk_request (new_request input)
    give (new_request input)

  abbrev create_found : DeskRequestInput → Option CashDeskRequest → Action World CashDeskRequest
  create_found input (some existing) = give existing
  create_found input none = create_new_desk_request input

  -- `createCashDeskRequest` of the service
  unfoldable pub create_desk_request : DeskRequestInput → Action World CashDeskRequest
  create_desk_request input = do
    existing ← reads (λ w. get_cash_desk_request_by_ticket_id w.cash_desk input.ticket_id)
    create_found input existing

  -- the request with the payment
  unfoldable pub pay_found : CashDeskRequest → String → String → Action World CashDeskRequest
  pay_found r paid_by paid_at =
      let paid = pay_cash_desk_request r paid_by paid_at in
      if is_paid r.status then give r else (do
        save_desk_request paid
        mark_ticket_cash_desk_paid_if_legacy_ticket_exists r.ticket_id
        give paid)

  -- `payCashDeskRequest` of the service
  unfoldable pub pay_desk_request : String → String → String → Action World CashDeskRequest
  pay_desk_request id paid_by paid_at = do
    found ← reads (λ w. get_cash_desk_request_by_id w.cash_desk id)
    r ← present_or found plain (template ("cash desk request \"" ∷ id ∷ "\" not found" ∷ []))
    pay_found r paid_by paid_at

  -- `listCashDeskRequests` of the service
  unfoldable pub list_desk_requests : Action World (List CashDeskRequest)
  list_desk_requests = reads λ w. list_cash_desk_requests s.platform w.cash_desk
