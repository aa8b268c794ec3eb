-- ===== src/Application/Winnings/Credit.antt =====
-- The winnings credit service (packages/application/src/services/winnings-credit-service.ts).
use gambling.Base.{
  String, Bool, true, false, Option, none, some, List, [], ◌∷◌, if◌then◌else◌, is_empty, trim,
  template, Number, Error, thrown,
}
use gambling.Base.Action.{Action, give, lift, reads, writes, attempt, ◌>>=◌, ◌>>◌}
use gambling.Domain.Winnings.CashDesk.{
  WinningsCreditJob, create_winnings_credit_job, start_winnings_credit_job,
  complete_winnings_credit_job, fail_winnings_credit_job, is_queued,
}
use gambling.Domain.Ticket.Record.{TicketRecord}
use gambling.Application.World.{World, Surroundings, on_wallet, on_tickets}
use gambling.Application.Store.Jobs.{get_job_by_ticket_id, list_jobs, list_queued_jobs, save_job}
use gambling.Application.TicketClaim.{get_ticket_by_id, start_credit_claim, mark_ticket_credited}
use gambling.Application.WalletLedger.{WalletLedgerWinningsCommandInput}
use gambling.Application.WalletLedger.Commands.{credit_winnings}

-- the input of `enqueueCreditJob`
pub record EnqueueCreditJobInput : Type 0 where
  pub request_id : String
  pub purchase_id : String
  pub ticket_id : String
  pub user_id : String
  pub draw_id : String
  pub winning_amount_minor : Number
  pub currency : String

pub record ProcessedJob : Type 0 where
  pub job : WinningsCreditJob
  pub credited : Bool

abbrev pub save_credit_job : WinningsCreditJob → Action World (Unit {0})
save_credit_job job = writes λ w. record w { jobs = save_job w.jobs job }

-- the claim, where there is a ticket with the id
abbrev pub if_ticket :
    (String → Action World TicketRecord) → String → Option TicketRecord → Action World (Unit {0})
if_ticket claim id none = give tt
if_ticket claim id (some t) = claim id >>= λ _. give tt

unfoldable pub start_credit_claim_if_legacy_ticket_exists : String → Action World (Unit {0})
start_credit_claim_if_legacy_ticket_exists ticket_id = do
  ticket ← reads (λ w. get_ticket_by_id w.tickets ticket_id)
  if_ticket (λ id. on_tickets λ store. start_credit_claim store id) ticket_id ticket

unfoldable pub mark_ticket_credited_if_legacy_ticket_exists : String → Action World (Unit {0})
mark_ticket_credited_if_legacy_ticket_exists ticket_id = do
  ticket ← reads (λ w. get_ticket_by_id w.tickets ticket_id)
  if_ticket (λ id. on_tickets λ store. mark_ticket_credited store id) ticket_id ticket

abbrev pub message_of : Error → String
message_of (thrown c m) = m

module _ (s : Surroundings) where
  abbrev pub new_job : EnqueueCreditJobInput → WinningsCreditJob
  new_job input = create_winnings_credit_job s.platform (record {
    job_id = template (input.purchase_id ∷ ":credit" ∷ []);
    request_id = input.request_id;
    purchase_id = input.purchase_id;
    ticket_id = input.ticket_id;
    user_id = input.user_id;
    draw_id = input.draw_id;
    winning_amount_minor = input.winning_amount_minor;
    currency = input.currency;
    created_at = s.now;
  })

  unfoldable pub enqueue_new_job : EnqueueCreditJobInput → Action World WinningsCreditJob
  enqueue_new_job input = do
    start_credit_claim_if_legacy_ticket_exists input.ticket_id
    save_credit_job (new_job input)
    give (new_job input)

  abbrev enqueue_found :
      EnqueueCreditJobInput → Option WinningsCreditJob → Action World WinningsCreditJob
  enqueue_found input (some existing) = give existing
  enqueue_found input none = enqueue_new_job input

  unfoldable pub enqueue_credit_job : EnqueueCreditJobInput → Action World WinningsCreditJob
  enqueue_credit_job input = do
    existing ← reads (λ w. get_job_by_ticket_id w.jobs input.ticket_id)
    enqueue_found input existing

  -- what the wallet is asked to credit for a job
  abbrev pub credit_command : WinningsCreditJob → WalletLedgerWinningsCommandInput
  credit_command job = record {
    user_id = job.user_id;
    purchase_id = some job.purchase_id;
    request_id = job.request_id;
    ticket_id = job.ticket_id;
    source_event_id = some job.job_id;
    verification_event_id = job.job_id;
    amount_minor = job.winning_amount_minor;
    currency = job.currency;
    draw_id = some job.draw_id;
    entry_id = none;
    created_at = none;
  }

  -- the block under `try`
  unfoldable pub credit_started : WinningsCreditJob → WinningsCreditJob → Action World ProcessedJob
  credit_started job started = do
    credited ←
        on_wallet (credit_winnings s.platform (s.entry_id job.job_id) s.now (credit_command job))
    completed ← lift (complete_winnings_credit_job started s.now)
    save_credit_job completed
    mark_ticket_credited_if_legacy_ticket_exists job.ticket_id
    give (record { job = completed; credited = true })

  -- the block under `catch`
  unfoldable pub fail_started : WinningsCreditJob → Error → Action World ProcessedJob
  fail_started started e = do
    failed ← lift (fail_winnings_credit_job started (message_of e) s.now)
    save_credit_job failed
    give (record { job = failed; credited = false })

  unfoldable pub process_credit_job : WinningsCreditJob → Action World ProcessedJob
  process_credit_job job = do
    started ← lift (start_winnings_credit_job job)
    save_credit_job started
    attempt (credit_started job started) (fail_started started)

  -- a call on the first job of a list, or on one that was found
  abbrev process_first : List WinningsCreditJob → Action World (Option ProcessedJob)
  process_first [] = give none
  process_first (job ∷ jobs) = process_credit_job job >>= λ done. give (some done)

  unfoldable pub process_next_credit_job : Action World (Option ProcessedJob)
  process_next_credit_job = do queued ← reads (λ w. list_queued_jobs w.jobs); process_first queued

  abbrev process_found : Option WinningsCreditJob → Action World (Option ProcessedJob)
  process_found none = give none
  process_found (some job) =
      if is_queued job.status
      then (process_credit_job job >>= λ done. give (some done))
      else give none

  unfoldable pub process_credit_job_for_ticket : String → Action World (Option ProcessedJob)
  process_credit_job_for_ticket ticket_id =
      let id = trim ticket_id in
      if is_empty id
      then give none
      else (do job ← reads (λ w. get_job_by_ticket_id w.jobs id); process_found job)

unfoldable pub list_queued_credit_jobs : Action World (List WinningsCreditJob)
list_queued_credit_jobs = reads λ w. list_queued_jobs w.jobs

unfoldable pub list_credit_jobs : Surroundings → Action World (List WinningsCreditJob)
list_credit_jobs s = reads λ w. list_jobs s.platform w.jobs
