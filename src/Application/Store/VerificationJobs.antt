-- ===== src/Application/Store/VerificationJobs.antt =====
-- The store of ticket verification jobs
-- (packages/infrastructure/src/purchase/in-memory-ticket-verification-job-store.ts).
use Prim.Native.Nat.{Ordering}
use gambling.Base.{◌≡◌, String, not, Option, some, List, [], ◌∷◌, ◌++◌, ◌==◌, trim}
use gambling.Base.Lists.{find, keep}
use gambling.Base.Keyed.{lookup-put_self}
use gambling.Base.Sort.{sort, or_next}
use gambling.Base.Platform.{Platform}
use gambling.Domain.Ticket.Job.{TicketVerificationJob}

abbrev pub VerificationJobs : Type 0
VerificationJobs = List TicketVerificationJob

abbrev pub compare_jobs : Platform → TicketVerificationJob → TicketVerificationJob → Ordering
compare_jobs p l r =
    or_next (p.locale_compare l.enqueued_at r.enqueued_at) (p.locale_compare l.job_id r.job_id)

unfoldable pub list_verification_jobs : Platform → VerificationJobs → List TicketVerificationJob
list_verification_jobs p store = sort (compare_jobs p) store

unfoldable pub get_verification_job_by_id : VerificationJobs → String → Option TicketVerificationJob
get_verification_job_by_id store id = find (λ e. e.job_id == trim id) store

unfoldable pub get_verification_job_by_ticket_id :
    VerificationJobs → String → Option TicketVerificationJob
get_verification_job_by_ticket_id store id = find (λ e. e.ticket_id == trim id) store

unfoldable pub save_verification_job : VerificationJobs → TicketVerificationJob → VerificationJobs
save_verification_job store job = keep (λ e. not (e.job_id == job.job_id)) store ++ job ∷ []

-- A saved job is found under its id.
get-save_verification_job :
    (store : VerificationJobs) (id : String) (job : TicketVerificationJob)
    → job.job_id ≡ trim id
    → get_verification_job_by_id (save_verification_job store job) id ≡ some job
unfolding get_verification_job_by_id save_verification_job
get-save_verification_job store id job h = lookup-put_self (λ e. e.job_id) store job (trim id) h
