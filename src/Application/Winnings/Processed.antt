-- ===== src/Application/Winnings/Processed.antt =====
-- Processing a credit job credits the wallet, or leaves it as it was.
use gambling.Base.{
  ◌≡◌, ◌⊎◌, refl, inl, inr, String, true, false, none, some, ok, err, Error, Result, Option-cases,
}
use gambling.Base.Action.{returned, threw, ◌>>=◌, give, lift, reads, writes, attempt}
use gambling.Domain.Winnings.CashDesk.{
  WinningsCreditJob, queued, processing, done, error, start_winnings_credit_job,
  complete_winnings_credit_job, fail_winnings_credit_job,
}
use gambling.Application.LedgerStore.{Entries}
use gambling.Application.WalletLedger.{WalletLedgerRecordResult}
use gambling.Application.WalletLedger.Commands.{credit_winnings}
use gambling.Application.TicketClaim.{get_ticket_by_id, mark_ticket_credited}
use gambling.Application.World.{World, Surroundings, on_wallet, on_tickets}
use gambling.Application.Store.Jobs.{save_job}
use gambling.Application.Winnings.Credit.{
  ProcessedJob, credit_command, credit_started, fail_started, process_credit_job, message_of,
  mark_ticket_credited_if_legacy_ticket_exists,
}

-- Marking the ticket does not throw, and leaves the jobs and the entries alone.
mark_returns :
    (id : String) (w : World)
    → (v : World) × (mark_ticket_credited_if_legacy_ticket_exists id w ≡ returned tt v)
      × (v.jobs ≡ w.jobs)
      × (v.entries ≡ w.entries)
unfolding mark_ticket_credited_if_legacy_ticket_exists mark_ticket_credited on_tickets reads give
    ◌>>=◌
mark_returns id w = elim (Option-cases (get_ticket_by_id w.tickets id)) [
  | inl e ↦ rw e (w, refl, refl, refl)
  | inr (t, e) ↦ rw e (rw e (_, refl, refl, refl))
]

module _ (s : Surroundings) (job : WinningsCreditJob) where
  abbrev started : WinningsCreditJob
  started = record job { status = processing }

  abbrev completed : WinningsCreditJob
  completed = record job { status = done; processed_at = some s.now; last_error = none }

  abbrev failed : Error → WinningsCreditJob
  failed e = record job {
    status = error;
    processed_at = some s.now;
    last_error = some (message_of e);
  }

  -- the wallet's answer
  abbrev pub credit_on : Entries → Result (WalletLedgerRecordResult × Entries)
  credit_on entries =
      credit_winnings s.platform (s.entry_id job.job_id) s.now (credit_command s job) entries

  -- what processing leaves, on each branch
  abbrev pub IsProcessed : World → ProcessedJob → World → Type 0
  IsProcessed w r v =
      (v.jobs ≡ save_job (save_job w.jobs started) r.job)
      × (((r ≡ record { job = completed; credited = true })
            × (paid : WalletLedgerRecordResult) × (credit_on w.entries ≡ ok (paid, v.entries)))
          ⊎ ((e : Error) × (r ≡ record { job = failed e; credited = false })
              × (credit_on w.entries ≡ err e)
              × (v.entries ≡ w.entries)))

  -- the two blocks in a world where the job has been started
  credited_block :
      (w : World) (paid : WalletLedgerRecordResult) (entries : Entries)
      → credit_on w.entries ≡ ok (paid, entries)
      → (v : World) × (credit_started s job started w
          ≡ returned (record { job = completed; credited = true }) v)
        × (v.jobs ≡ save_job w.jobs completed)
        × (v.entries ≡ entries)
  unfolding credit_started on_wallet lift writes give ◌>>=◌ complete_winnings_credit_job
  credited_block w paid entries h =
      let u : World = record w { entries = entries; jobs = save_job w.jobs completed } in
      let (v, marked, jobs_kept, entries_kept) = mark_returns job.ticket_id u in
      (v, rw (h, marked) refl, jobs_kept, entries_kept)

  failed_block :
      (w : World) (e : Error)
      → credit_on w.entries ≡ err e
      → credit_started s job started w ≡ threw e w
  unfolding credit_started on_wallet ◌>>=◌
  failed_block w e h = rw h refl

  finish :
      (w : World) (outcome : Result (WalletLedgerRecordResult × Entries))
      → credit_on w.entries ≡ outcome
      → (r : ProcessedJob) × (v : World) × (attempt
            (credit_started s job started)
            (fail_started s started)
            (record w { jobs = save_job w.jobs started })
          ≡ returned r v)
        × IsProcessed w r v
  unfolding attempt fail_started lift writes give ◌>>=◌ fail_winnings_credit_job
  finish w (ok (paid, entries)) h =
      let u : World = record w { jobs = save_job w.jobs started } in
      let (v, run, jobs_kept, entries_kept) = credited_block u paid entries h in
      (_, v, rw run refl, (jobs_kept, inl (refl, paid, rw entries_kept h)))
  finish w (err e) h =
      let u : World = record w { jobs = save_job w.jobs started } in
      let run = failed_block u e h in
      let r : ProcessedJob = record { job = failed e; credited = false } in
      (
        r,
        record u { jobs = save_job u.jobs (failed e) },
        rw run refl,
        (refl, inr (e, refl, h, refl)),
      )

starts :
    (s : Surroundings) (job : WinningsCreditJob)
    → job.status ≡ queued
    → start_winnings_credit_job job ≡ ok (started s job)
unfolding start_winnings_credit_job
starts s job waits = rw waits refl

-- Processing a queued job always returns. Either the wallet accepted the credit of its winnings, once,
-- and the job is stored as done, or the wallet refused it, its entries are as they were, and the job
-- is stored as failed with the wallet's message.
pub process_credit_job_returns :
    (s : Surroundings) (job : WinningsCreditJob) (w : World)
    → job.status ≡ queued
    → (r : ProcessedJob) × (v : World) × (process_credit_job s job w ≡ returned r v)
      × IsProcessed s job w r v
unfolding process_credit_job lift writes ◌>>=◌
process_credit_job_returns s job w waits = rw (starts s job waits) (finish s job w _ refl)
