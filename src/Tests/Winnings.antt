-- ===== src/Tests/Winnings.antt =====
-- Tests of the services that pay winnings.
use gambling.Application.Store.CashDesk.{get_cash_desk_request_by_ticket_id}
use gambling.Application.Store.Jobs.{get_job_by_ticket_id, save_job}
use gambling.Application.Compatibility.{build_canonical_ticket_id}
use gambling.Application.TicketClaim.{
  get_ticket_by_request_id, assert_unclaimed, assert_winning_ticket, get_ticket_by_id, save_ticket,
  start_credit_claim,
}
use gambling.Application.Store.Purchases.{get_purchase_by_legacy_request_id, get_purchase_by_id}
use gambling.Application.PurchaseState.{load_canonical_purchase_for_request}
use gambling.Base.{◌≡◌, refl, none, some, [], ◌∷◌, integer, trim, is_space, template}
use gambling.Base.Int.{pos}
use gambling.Base.Action.{
  returned, stores_after, ◌>>=◌, raise_if, reads, present_or, lift, give, writes,
}
use gambling.Domain.RequestState.{win, visible, settled}
use gambling.Domain.PurchaseDraft.Payload.{end}
use gambling.Domain.PurchaseRequest.Canonical.{CanonicalPurchaseRecord}
use gambling.Domain.Winnings.CashDesk.{WinningsCreditJob, queued, create_winnings_credit_job}
use gambling.Application.World.{World, Surroundings, on_tickets}
use gambling.Application.Winnings.Credit.{
  ProcessedJob, process_credit_job, enqueue_credit_job, enqueue_new_job,
  start_credit_claim_if_legacy_ticket_exists,
}
use gambling.Application.Winnings.Fulfillment.{
  FulfillmentInput, enqueue_credit_for_request, resolve_target, resolve_winning_amount_minor,
  enqueue_for_target, enqueue_unless_desk, is_legacy_cash_desk_claim,
}
use gambling.Application.Winnings.OnePath.{IsFair, credits, none_yet, and_then, FulfillsAll-IsFair}
use gambling.Application.Winnings.Processed.{IsProcessed, process_credit_job_returns}
use gambling.Domain.Winnings.CashDesk.{CashDeskRequest, CashDeskStatus}
use gambling.Application.Winnings.Credit.{EnqueueCreditJobInput, enqueue_credit_job}
use gambling.Application.Winnings.Past.{enqueue_credit_job-beside_desk}
use gambling.Tests.Engine.{engine, first_day, second_day}

abbrev sur : Surroundings
sur = record { platform = engine; now = second_day; entry_id = λ key. key }

abbrev won : CanonicalPurchaseRecord
won = record {
  snapshot = record {
    purchase_id = "p1";
    legacy_request_id = some "r1";
    user_id = "ann";
    lottery_code = "lotto";
    draw_id = "d1";
    payload = end;
    cost_minor = pos 100;
    currency = "RUB";
    submitted_at = first_day;
  };
  status = settled;
  result_status = win;
  result_visibility = visible;
  purchased_at = some first_day;
  settled_at = some second_day;
  external_ticket_reference = none;
  journal = [];
}

abbrev settled_world : World
settled_world = record {
  requests = [];
  queue = [];
  purchases = won ∷ [];
  attempts = [];
  lock = none;
  tickets = [];
  cash_desk = [];
  jobs = [];
  notifications = [];
  draws = [];
  closures = [];
  entries = [];
}

abbrev claim : FulfillmentInput
claim = record { request_id = "r1"; user_id = "ann" }

abbrev job : WinningsCreditJob
job = record {
  job_id = "p1:credit";
  request_id = "r1";
  purchase_id = "p1";
  ticket_id = "canonical:p1";
  user_id = "ann";
  draw_id = "d1";
  winning_amount_minor = integer (pos 50000);
  currency = "RUB";
  status = queued;
  created_at = second_day;
  processed_at = none;
  last_error = none;
}

abbrev after_claim : World
after_claim = stores_after (enqueue_credit_for_request sur claim settled_world)

claim_run : enqueue_credit_for_request sur claim settled_world ≡ returned job after_claim
unfolding enqueue_credit_for_request ◌>>=◌ resolve_target raise_if trim is_space reads present_or
    load_canonical_purchase_for_request get_purchase_by_legacy_request_id
    resolve_winning_amount_minor get_ticket_by_request_id lift build_canonical_ticket_id give
    enqueue_for_target get_job_by_ticket_id enqueue_unless_desk get_cash_desk_request_by_ticket_id
    save_job get_purchase_by_id assert_unclaimed assert_winning_ticket get_ticket_by_id save_ticket
    start_credit_claim enqueue_credit_job enqueue_new_job start_credit_claim_if_legacy_ticket_exists
    is_legacy_cash_desk_claim on_tickets writes template create_winnings_credit_job
claim_run = refl

FulfillsAll-IsFair_example : IsFair after_claim
FulfillsAll-IsFair_example =
    FulfillsAll-IsFair (tt, tt) (and_then none_yet (credits sur claim job claim_run))

process_credit_job_returns_example :
    (r : ProcessedJob) × (v : World) × (process_credit_job sur job after_claim ≡ returned r v)
    × IsProcessed sur job after_claim r v
process_credit_job_returns_example = process_credit_job_returns sur job after_claim refl

-- the cash desk request of a ticket that has no record
abbrev to_desk : CashDeskRequest
to_desk = record {
  cash_desk_request_id = "canonical:p1:cash-desk";
  request_id = "r1";
  purchase_id = "p1";
  ticket_id = "canonical:p1";
  user_id = "ann";
  lottery_code = "lotto";
  draw_id = "d1";
  winning_amount_minor = integer (pos 50000);
  currency = "RUB";
  status = CashDeskStatus.pending;
  created_at = second_day;
  paid_by = none;
  paid_at = none;
}

abbrev at_desk : World
at_desk = record settled_world { cash_desk = to_desk ∷ [] }

abbrev past : EnqueueCreditJobInput
past = record {
  request_id = "r1";
  purchase_id = "p1";
  ticket_id = "canonical:p1";
  user_id = "ann";
  draw_id = "d1";
  winning_amount_minor = integer (pos 50000);
  currency = "RUB";
}

past_trimmed : trim "canonical:p1" ≡ "canonical:p1"
unfolding trim is_space
past_trimmed = refl

no_record : get_ticket_by_id at_desk.tickets "canonical:p1" ≡ none
unfolding get_ticket_by_id
no_record = refl

no_job : get_job_by_ticket_id at_desk.jobs "canonical:p1" ≡ none
unfolding get_job_by_ticket_id
no_job = refl

desk_there : get_cash_desk_request_by_ticket_id at_desk.cash_desk "canonical:p1" ≡ some to_desk
unfolding get_cash_desk_request_by_ticket_id
desk_there = refl

enqueue_credit_job-beside_desk_example :
    (made : WinningsCreditJob) × (v : World) × (enqueue_credit_job sur past at_desk
      ≡ returned made v)
    × (get_job_by_ticket_id v.jobs "canonical:p1" ≡ some made)
    × (get_cash_desk_request_by_ticket_id v.cash_desk "canonical:p1" ≡ some to_desk)
enqueue_credit_job-beside_desk_example =
    enqueue_credit_job-beside_desk sur past at_desk to_desk past_trimmed no_record no_job desk_there
