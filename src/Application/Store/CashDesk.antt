-- ===== src/Application/Store/CashDesk.antt =====
-- The store of cash desk requests
-- (packages/infrastructure/src/purchase/in-memory-cash-desk-request-store.ts).
use gambling.Base.{String, not, Option, List, [], ◌∷◌, ◌++◌, ◌==◌}
use gambling.Base.Lists.{find, keep}
use gambling.Base.Sort.{sort}
use gambling.Base.Platform.{Platform}
use gambling.Domain.Winnings.CashDesk.{CashDeskRequest}

abbrev pub CashDeskRequests : Type 0
CashDeskRequests = List CashDeskRequest

unfoldable pub save_cash_desk_request : CashDeskRequests → CashDeskRequest → CashDeskRequests
save_cash_desk_request store r =
    keep (λ e. not (e.cash_desk_request_id == r.cash_desk_request_id)) store ++ r ∷ []

unfoldable pub get_cash_desk_request_by_id : CashDeskRequests → String → Option CashDeskRequest
get_cash_desk_request_by_id store id = find (λ e. e.cash_desk_request_id == id) store

unfoldable pub get_cash_desk_request_by_ticket_id :
    CashDeskRequests → String → Option CashDeskRequest
get_cash_desk_request_by_ticket_id store ticket_id = find (λ e. e.ticket_id == ticket_id) store

-- the latest first
unfoldable pub list_cash_desk_requests : Platform → CashDeskRequests → List CashDeskRequest
list_cash_desk_requests p store = sort (λ a b. p.locale_compare b.created_at a.created_at) store

unfoldable pub clear_all : CashDeskRequests → CashDeskRequests
clear_all store = []
