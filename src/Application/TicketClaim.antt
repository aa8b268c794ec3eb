-- ===== src/Application/TicketClaim.antt =====
-- Claiming the winnings of a ticket (packages/application/src/services/ticket-claim-service.ts) over
-- the in-memory ticket store (packages/infrastructure/src/purchase/in-memory-ticket-store.ts).
pub mod Exclusive
pub mod Lifecycle
use Prim.Native.Nat.{Ordering}
use gambling.Base.{
  suc, String, Bool, true, false, not, Option, none, some, List, [], ◌∷◌, ◌++◌, ◌==◌, trim,
  template, Number, nan, infinite, integer, fractional, Result, ok, throw, throw_if, plain, ◌>>=◌,
  ◌>>◌,
}
use gambling.Base.Int.{pos}
use gambling.Base.Lists.{find, keep}
use gambling.Base.Sort.{sort, or_next}
use gambling.Base.Platform.{Platform}
use gambling.Domain.Ticket.Record.{
  TicketRecord, TicketVerificationState, verified, TicketClaimState, unclaimed, credit_pending,
  credited, cash_desk_pending, cash_desk_paid,
}

-- `InMemoryTicketStore`: its state is its list of tickets; copies of tickets are equal to the tickets.
abbrev pub Tickets : Type 0
Tickets = List TicketRecord

-- `compareTickets`
abbrev pub compare_tickets : Platform → TicketRecord → TicketRecord → Ordering
compare_tickets p l r =
    or_next (p.locale_compare l.purchased_at r.purchased_at)
      (p.locale_compare l.ticket_id r.ticket_id)

unfoldable pub list_tickets : Platform → Tickets → List TicketRecord
list_tickets p store = sort (compare_tickets p) store

unfoldable pub get_ticket_by_id : Tickets → String → Option TicketRecord
get_ticket_by_id store ticket_id = find (λ e. e.ticket_id == trim ticket_id) store

unfoldable pub get_ticket_by_request_id : Tickets → String → Option TicketRecord
get_ticket_by_request_id store request_id = find (λ e. e.request_id == trim request_id) store

unfoldable pub save_ticket : Tickets → TicketRecord → Tickets
save_ticket store t = keep (λ e. not (e.ticket_id == t.ticket_id)) store ++ t ∷ []

unfoldable pub clear_all : Tickets → Tickets
clear_all store = []

abbrev pub is_verified : TicketVerificationState → Bool
is_verified verified = true
is_verified s = false

-- neither `!amount` nor `amount <= 0`
abbrev pub is_winning : Option Number → Bool
is_winning none = false
is_winning (some nan) = false
is_winning (some (infinite below)) = not below
is_winning (some (integer (pos (suc n)))) = true
is_winning (some (integer z)) = false
is_winning (some (fractional below n)) = not below

abbrev pub is_unclaimed : TicketClaimState → Bool
is_unclaimed unclaimed = true
is_unclaimed s = false

abbrev pub claim_text : TicketClaimState → String
claim_text unclaimed = "unclaimed"
claim_text credit_pending = "credit_pending"
claim_text credited = "credited"
claim_text cash_desk_pending = "cash_desk_pending"
claim_text cash_desk_paid = "cash_desk_paid"

unfoldable pub assert_winning_ticket : TicketRecord → Result (Unit {0})
assert_winning_ticket t = do
  throw_if (not (is_verified t.verification_status)) plain
      (template ("ticket \"" ∷ t.ticket_id ∷ "\" is not verified" ∷ []))
  throw_if (not (is_winning t.winning_amount_minor)) plain
      (template ("ticket \"" ∷ t.ticket_id ∷ "\" has no winnings" ∷ []))

unfoldable pub assert_unclaimed : TicketRecord → Result (Unit {0})
assert_unclaimed t = throw_if (not (is_unclaimed t.claim_state)) plain (
    template (
      "ticket \""
      ∷ t.ticket_id
      ∷ "\" already has claim state \""
      ∷ claim_text t.claim_state
      ∷ "\""
      ∷ []))

-- the store after a call, and the ticket that the call returns
pub record Claimed : Type 0 where
  pub store : Tickets
  pub ticket : TicketRecord

-- the ticket, or the error that there is none
abbrev pub require_ticket : Option TicketRecord → String → Result TicketRecord
require_ticket none ticket_id =
    throw plain (template ("ticket \"" ∷ ticket_id ∷ "\" not found" ∷ []))
require_ticket (some t) ticket_id = ok t

-- the ticket with another claim state, saved
abbrev pub save_claim : Tickets → TicketRecord → TicketClaimState → Claimed
save_claim store t state =
    let updated : TicketRecord = record t { claim_state = state } in
    record { store = save_ticket store updated; ticket = updated }

unfoldable pub start_credit_claim : Tickets → String → Result Claimed
start_credit_claim store ticket_id = do
  t ← require_ticket (get_ticket_by_id store ticket_id) ticket_id
  assert_winning_ticket t
  assert_unclaimed t
  ok (save_claim store t credit_pending)

unfoldable pub start_cash_desk_claim : Tickets → String → Result Claimed
start_cash_desk_claim store ticket_id = do
  t ← require_ticket (get_ticket_by_id store ticket_id) ticket_id
  assert_winning_ticket t
  assert_unclaimed t
  ok (save_claim store t cash_desk_pending)

unfoldable pub mark_ticket_credited : Tickets → String → Result Claimed
mark_ticket_credited store ticket_id = do
  t ← require_ticket (get_ticket_by_id store ticket_id) ticket_id
  ok (save_claim store t credited)

unfoldable pub mark_ticket_cash_desk_paid : Tickets → String → Result Claimed
mark_ticket_cash_desk_paid store ticket_id = do
  t ← require_ticket (get_ticket_by_id store ticket_id) ticket_id
  ok (save_claim store t cash_desk_paid)
