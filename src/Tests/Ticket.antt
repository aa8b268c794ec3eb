-- ===== src/Tests/Ticket.antt =====
-- Tests of tickets, of the jobs around them and of the payment of winnings.
use gambling.Base.{
  ◌≡◌, ◌↔◌, refl, true, some, none, [], ◌∷◌, ok, err, thrown, plain, trim, is_space, template,
  integer,
}
use gambling.Base.Int.{pos}
use gambling.Base.Platform.{require_text, require_date}
use gambling.Domain.Ticket.Record.{
  TicketRecord, CreatePurchasedTicketRecordInput, ApplyTicketVerificationOutcomeInput, Verdict,
  purchased, pending, verified, unclaimed, credit_pending, create_purchased_ticket_record,
  apply_ticket_verification_outcome, normalize_non_negative_minor_or_null,
}
use gambling.Domain.Ticket.Lifecycle.{verifying}
use gambling.Application.TicketClaim.Lifecycle
use gambling.Application.TicketClaim.Lifecycle.{IsSound, Reached-IsSound}
use gambling.Domain.Ticket.Verification
use gambling.Domain.Ticket.Verification.{
  outcome_retry, outcome_conflict, IsCounted, Reached-IsCounted,
}
use gambling.Domain.Ticket.Job.{
  TicketVerificationJob, CreateTicketVerificationJobInput, queued, verifying,
  create_ticket_verification_job, reserve_ticket_verification_job,
}
use gambling.Domain.Winnings.CashDesk.{
  CashDeskRequest, CashDeskStatus, WinningsCreditJob, WinningsCreditJobStatus,
  CreateWinningsCreditJobInput, create_winnings_credit_job, start_winnings_credit_job,
}
use gambling.Application.TicketClaim.{
  Claimed, get_ticket_by_id, save_claim, is_winning, start_credit_claim, assert_winning_ticket,
  assert_unclaimed,
}
use gambling.Application.TicketClaim.Exclusive.{
  credit, cash_desk, claimed, start_claim, start_claim_iff, start_claim_exclusive,
}
use gambling.Tests.Engine.{engine, first_day, second_day}

abbrev ticket_input : CreatePurchasedTicketRecordInput
ticket_input = record {
  ticket_id = "t1";
  request_id = "r1";
  user_id = "ann";
  lottery_code = "lotto";
  draw_id = "d1";
  purchased_at = first_day;
  external_reference = none;
}

abbrev new_ticket : TicketRecord
new_ticket = record {
  ticket_id = "t1";
  request_id = "r1";
  user_id = "ann";
  lottery_code = "lotto";
  draw_id = "d1";
  purchased_at = first_day;
  external_reference = "lotto-r1";
  purchase_status = purchased;
  verification_status = pending;
  verification_raw_output = none;
  winning_amount_minor = none;
  verified_at = none;
  last_verification_event_id = none;
  admin_result_mark = none;
  admin_result_marked_by = none;
  admin_result_marked_at = none;
  result_source = none;
  claim_state = unclaimed;
}

abbrev outcome : ApplyTicketVerificationOutcomeInput
outcome = record {
  verification_status = Verdict.verified;
  verification_event_id = " v1";
  verified_at = second_day;
  raw_terminal_output = "won";
  winning_amount_minor = some (integer (pos 500));
}

abbrev won_ticket : TicketRecord
won_ticket = record new_ticket {
  verification_status = verified;
  verification_raw_output = some "won";
  winning_amount_minor = some (integer (pos 500));
  verified_at = some second_day;
  last_verification_event_id = some "v1";
}

ticket_created : create_purchased_ticket_record engine ticket_input ≡ ok new_ticket
unfolding create_purchased_ticket_record require_text require_date trim is_space template
ticket_created = refl

ticket_verified : apply_ticket_verification_outcome engine new_ticket outcome ≡ ok won_ticket
unfolding apply_ticket_verification_outcome require_text require_date trim is_space
    normalize_non_negative_minor_or_null
ticket_verified = refl

verified_again : apply_ticket_verification_outcome engine won_ticket outcome ≡ ok won_ticket
unfolding apply_ticket_verification_outcome require_text require_date trim is_space
    normalize_non_negative_minor_or_null
verified_again = refl

-- verified with winnings, and then claimed for the wallet
abbrev won_claim : Claimed
won_claim = save_claim (won_ticket ∷ []) won_ticket credit_pending

won_stored : get_ticket_by_id (won_ticket ∷ []) "t1" ≡ some won_ticket
unfolding get_ticket_by_id trim is_space
won_stored = refl

won_claimed : start_claim credit (won_ticket ∷ []) "t1" ≡ ok won_claim
unfolding start_credit_claim assert_winning_ticket assert_unclaimed get_ticket_by_id trim is_space
won_claimed = refl

Reached-IsSound_example : IsSound won_claim.ticket
Reached-IsSound_example = Reached-IsSound (
    Lifecycle.called
      (Lifecycle.called (Lifecycle.created ticket_input ticket_created)
        (Lifecycle.on_record (verifying outcome ticket_verified)))
      (Lifecycle.claiming credit (won_ticket ∷ []) "t1" won_claim won_stored won_claimed refl))

outcome_retry_example : apply_ticket_verification_outcome engine won_ticket outcome ≡ ok won_ticket
outcome_retry_example = outcome_retry engine new_ticket won_ticket outcome ticket_verified

abbrev job_input : CreateTicketVerificationJobInput
job_input = record {
  ticket_id = "t1";
  request_id = "r1";
  lottery_code = "lotto";
  draw_id = "d1";
  external_reference = "x";
  enqueued_at = first_day;
}

abbrev queued_job : TicketVerificationJob
queued_job = record {
  job_id = "t1:verify";
  ticket_id = "t1";
  request_id = "r1";
  lottery_code = "lotto";
  draw_id = "d1";
  external_reference = "x";
  enqueued_at = first_day;
  updated_at = first_day;
  status = queued;
  attempt_count = 0;
  last_terminal_output = none;
  last_error = none;
}

abbrev reserved_job : TicketVerificationJob
reserved_job = record queued_job { status = verifying; attempt_count = 1; updated_at = second_day }

job_created : create_ticket_verification_job engine job_input ≡ ok queued_job
unfolding create_ticket_verification_job require_text require_date trim is_space template
job_created = refl

job_reserved : reserve_ticket_verification_job engine queued_job second_day ≡ ok reserved_job
unfolding reserve_ticket_verification_job require_date trim is_space
job_reserved = refl

Reached-IsCounted_example : IsCounted reserved_job
Reached-IsCounted_example =
    Reached-IsCounted
      (Verification.reserved second_day (Verification.created job_input job_created) job_reserved)

abbrev credit_input : CreateWinningsCreditJobInput
credit_input = record {
  job_id = "p1:credit";
  request_id = "r1";
  purchase_id = "p1";
  ticket_id = "t1";
  user_id = "ann";
  draw_id = "d1";
  winning_amount_minor = integer (pos 500);
  currency = "RUB";
  created_at = first_day;
}

abbrev credit_job : WinningsCreditJob
credit_job = create_winnings_credit_job engine credit_input

abbrev started_job : WinningsCreditJob
started_job = record credit_job { status = WinningsCreditJobStatus.processing }

job_started : start_winnings_credit_job credit_job ≡ ok started_job
unfolding start_winnings_credit_job create_winnings_credit_job
job_started = refl

abbrev desk_request : CashDeskRequest
desk_request = record {
  cash_desk_request_id = "t1:cash-desk";
  request_id = "r1";
  purchase_id = "p1";
  ticket_id = "t1";
  user_id = "ann";
  lottery_code = "lotto";
  draw_id = "d1";
  winning_amount_minor = integer (pos 500);
  currency = "RUB";
  status = CashDeskStatus.pending;
  created_at = first_day;
  paid_at = none;
  paid_by = none;
}

ticket_claimed :
    start_claim credit (won_ticket ∷ []) " t1"
    ≡ ok (save_claim (won_ticket ∷ []) won_ticket credit_pending)
unfolding start_credit_claim get_ticket_by_id assert_winning_ticket assert_unclaimed trim is_space
ticket_claimed = refl

start_claim_exclusive_example :
    start_claim cash_desk (save_claim (won_ticket ∷ []) won_ticket credit_pending).store " t1"
    ≡ err (
        thrown plain (
          template
            ("ticket \"" ∷ "t1" ∷ "\" already has claim state \"" ∷ "credit_pending" ∷ "\"" ∷ [])))
start_claim_exclusive_example =
    start_claim_exclusive credit cash_desk (won_ticket ∷ []) " t1"
      (save_claim (won_ticket ∷ []) won_ticket credit_pending) ticket_claimed

start_claim_iff_example :
    ((c : Claimed) × (start_claim cash_desk (won_ticket ∷ []) "t1" ≡ ok c)
      × (get_ticket_by_id c.store "t1" ≡ some c.ticket)
      × (c.ticket.claim_state ≡ claimed cash_desk))
    ↔ ((t : TicketRecord) × (get_ticket_by_id (won_ticket ∷ []) "t1" ≡ some t)
        × (t.verification_status ≡ verified)
        × (is_winning t.winning_amount_minor ≡ true)
        × (t.claim_state ≡ unclaimed))
start_claim_iff_example = start_claim_iff cash_desk (won_ticket ∷ []) "t1"
