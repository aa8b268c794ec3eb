-- ===== src/Application/VerificationQueue.antt =====
-- The queue of ticket verifications
-- (packages/application/src/services/ticket-verification-queue-service.ts). A call takes the jobs and
-- returns them; it reads the tickets, the canonical draws and the closure records.
use gambling.Base.{
  ℕ, ◌+◌, ◌≡◌, inl, inr, ◌==◌, String, Bool, true, false, Option, none, some, List, [], ◌∷◌,
  if◌then◌else◌, template, Result, ok, plain, ◌>>=◌, Bool-cases, arith, ◌≤◌, >>=-eq-ok,
}
use gambling.Base.Lists.{length, keep, any}
use gambling.Base.Sort.{sort}
use gambling.Base.Platform.{Platform, require_text}
use gambling.Domain.Ticket.Record.{TicketRecord, is_ticket_pending_verification}
use gambling.Domain.Ticket.Job.{
  TicketVerificationJob, TicketVerificationJobState, create_ticket_verification_job,
  reserve_ticket_verification_job, complete_ticket_verification_job, fail_ticket_verification_job,
}
use gambling.Domain.Draw.Canonical.{CanonicalDrawRecord}
use gambling.Domain.Draw.Closure.{is_draw_closed}
use gambling.Application.TicketClaim.{Tickets, list_tickets}
use gambling.Application.Store.Draws.{Draws, Closures, list_draws, get_closure}
use gambling.Application.Store.VerificationJobs.{
  VerificationJobs, compare_jobs, list_verification_jobs, get_verification_job_by_id,
  get_verification_job_by_ticket_id, save_verification_job,
}

pub record EnqueuePendingVerificationTicketsResult : Type 0 where
  pub pending_count : ℕ
  pub enqueued_count : ℕ
  pub skipped_count : ℕ

abbrev is_queued : TicketVerificationJobState → Bool
is_queued TicketVerificationJobState.queued = true
is_queued status = false

-- `${lotteryCode}:${drawId}`
abbrev draw_key : String → String → String
draw_key code draw_id = template (code ∷ ":" ∷ draw_id ∷ [])

abbrev Counted : Type 0
Counted = EnqueuePendingVerificationTicketsResult × VerificationJobs

module _ (p : Platform) (now : String) where
  -- the ticket without a job gets one
  unfoldable enqueue_ticket : TicketRecord → Counted → Option TicketVerificationJob → Result Counted
  enqueue_ticket t (counts, jobs) (some existing) =
      ok (record counts { skipped_count = counts.skipped_count + 1 }, jobs)
  enqueue_ticket t (counts, jobs) none = do
    job ← create_ticket_verification_job p (record {
      ticket_id = t.ticket_id;
      request_id = t.request_id;
      lottery_code = t.lottery_code;
      draw_id = t.draw_id;
      external_reference = t.external_reference;
      enqueued_at = now;
    })
    ok (
      record counts { enqueued_count = counts.enqueued_count + 1 },
      save_verification_job jobs job,
    )

  -- one round of the loop
  unfoldable enqueue_next :
      List CanonicalDrawRecord → Closures → TicketRecord → Counted → Result Counted
  enqueue_next draws closures t (counts, jobs) =
      if any (λ d. draw_key d.lottery_code d.draw_id == draw_key t.lottery_code t.draw_id) draws
      then ok (record counts { skipped_count = counts.skipped_count + 1 }, jobs)
      else if is_draw_closed (get_closure closures t.lottery_code t.draw_id)
      then enqueue_ticket t (counts, jobs) (get_verification_job_by_ticket_id jobs t.ticket_id)
      else ok (counts, jobs)

  unfoldable enqueue_each :
      List CanonicalDrawRecord → Closures → List TicketRecord → Counted → Result Counted
  enqueue_each draws closures [] counted = ok counted
  enqueue_each draws closures (t ∷ tickets) counted = do
    next ← enqueue_next draws closures t counted
    enqueue_each draws closures tickets next

  unfoldable enqueue_pending_verification_tickets :
      Tickets → Draws → Closures → VerificationJobs → Result Counted
  enqueue_pending_verification_tickets tickets draws closures jobs =
      let pending = keep is_ticket_pending_verification (list_tickets p tickets) in
      enqueue_each (list_draws p draws none) closures pending
        (record { pending_count = length pending; enqueued_count = 0; skipped_count = 0 }, jobs)

  -- the first of the jobs, reserved
  abbrev reserve_first :
      VerificationJobs
      → List TicketVerificationJob
      → Result (Option TicketVerificationJob × VerificationJobs)
  reserve_first jobs [] = ok (none, jobs)
  reserve_first jobs (job ∷ others) = do
    reserved ← reserve_ticket_verification_job p job now
    ok (some reserved, save_verification_job jobs reserved)

  unfoldable reserve_next_verification_job :
      String → VerificationJobs → Result (Option TicketVerificationJob × VerificationJobs)
  reserve_next_verification_job worker_id jobs = do
    worker ← require_text plain worker_id "workerId"
    reserve_first jobs
        (sort (compare_jobs p) (keep (λ j. is_queued j.status) (list_verification_jobs p jobs)))

  -- a call on the job that was found, which is saved as the call returns it
  abbrev change_found :
      VerificationJobs
      → (TicketVerificationJob → Result TicketVerificationJob)
      → Option TicketVerificationJob
      → Result (Option TicketVerificationJob × VerificationJobs)
  change_found jobs change none = ok (none, jobs)
  change_found jobs change (some existing) = do
    next ← change existing
    ok (some next, save_verification_job jobs next)

  unfoldable mark_verification_job_done :
      String → String → VerificationJobs → Result (Option TicketVerificationJob × VerificationJobs)
  mark_verification_job_done job_id raw_terminal_output jobs = do
    id ← require_text plain job_id "jobId"
    change_found jobs (λ job. complete_ticket_verification_job p job now raw_terminal_output)
        (get_verification_job_by_id jobs id)

  unfoldable mark_verification_job_error :
      String
      → String
      → Option String
      → VerificationJobs
      → Result (Option TicketVerificationJob × VerificationJobs)
  mark_verification_job_error job_id message raw_terminal_output jobs = do
    id ← require_text plain job_id "jobId"
    change_found jobs (λ job. fail_ticket_verification_job p job now message raw_terminal_output)
        (get_verification_job_by_id jobs id)

-- the tickets that the loop has dealt with
abbrev counted_of : Counted → ℕ
counted_of (counts, jobs) = counts.enqueued_count + counts.skipped_count

module _ (p : Platform) (now : String) where
  enqueue_ticket_count :
      (t : TicketRecord) (counted next : Counted) (found : Option TicketVerificationJob)
      → enqueue_ticket p now t counted found ≡ ok next
      → counted_of next ≤ counted_of counted + 1
  unfolding enqueue_ticket
  enqueue_ticket_count t (counts, jobs) (after, kept) found h = ground arith

  enqueue_next_count :
      (draws : List CanonicalDrawRecord) (closures : Closures) (t : TicketRecord)
      (counted next : Counted)
      → enqueue_next p now draws closures t counted ≡ ok next
      → counted_of next ≤ counted_of counted + 1
  unfolding enqueue_next
  enqueue_next_count draws closures t (counts, jobs) next h =
      elim (Bool-cases
        (any (λ d. draw_key d.lottery_code d.draw_id == draw_key t.lottery_code t.draw_id) draws)) [
          | inl e ↦ ground arith
          | inr e ↦
              elim (Bool-cases (is_draw_closed (get_closure closures t.lottery_code t.draw_id))) [
                | inl f ↦ enqueue_ticket_count t (counts, jobs) next _ (rw (e, f) at h)
                | inr f ↦ ground arith
              ]
        ]

  enqueue_each_count :
      (draws : List CanonicalDrawRecord) (closures : Closures) (tickets : List TicketRecord)
      (counted next : Counted)
      → enqueue_each p now draws closures tickets counted ≡ ok next
      → counted_of next ≤ counted_of counted + length tickets
  unfolding enqueue_each
  enqueue_each_count draws closures [] counted next h = ground arith
  enqueue_each_count draws closures (t ∷ tickets) counted next h =
      let (one, h1, h2) =
        >>=-eq-ok (enqueue_next p now draws closures t counted)
          (enqueue_each p now draws closures tickets) h in
      let here = enqueue_next_count draws closures t counted one h1 in
      let others = enqueue_each_count draws closures tickets one next h2 in
      ground (arith, here, others)

  -- A call enqueues or skips at most the tickets that wait for verification.
  enqueue_pending_verification_tickets_count :
      (tickets : Tickets) (draws : Draws) (closures : Closures) (jobs : VerificationJobs)
      (next : Counted)
      → enqueue_pending_verification_tickets p now tickets draws closures jobs ≡ ok next
      → counted_of next ≤ length (keep is_ticket_pending_verification (list_tickets p tickets))
  unfolding enqueue_pending_verification_tickets
  enqueue_pending_verification_tickets_count tickets draws closures jobs next h =
      let counted = enqueue_each_count (list_draws p draws none) closures _ _ next h in
      ground (arith, counted)
