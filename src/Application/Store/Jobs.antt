-- ===== src/Application/Store/Jobs.antt =====
-- The store of winnings credit jobs
-- (packages/infrastructure/src/purchase/in-memory-winnings-credit-job-store.ts).
use gambling.Base.{String, not, Option, List, [], ◌∷◌, ◌++◌, ◌==◌}
use gambling.Base.Lists.{find, keep}
use gambling.Base.Sort.{sort}
use gambling.Base.Platform.{Platform}
use gambling.Domain.Winnings.CashDesk.{WinningsCreditJob, is_queued}

abbrev pub Jobs : Type 0
Jobs = List WinningsCreditJob

unfoldable pub save_job : Jobs → WinningsCreditJob → Jobs
save_job store job = keep (λ e. not (e.job_id == job.job_id)) store ++ job ∷ []

unfoldable pub get_job_by_ticket_id : Jobs → String → Option WinningsCreditJob
get_job_by_ticket_id store ticket_id = find (λ e. e.ticket_id == ticket_id) store

-- the latest first
unfoldable pub list_jobs : Platform → Jobs → List WinningsCreditJob
list_jobs p store = sort (λ a b. p.locale_compare b.created_at a.created_at) store

unfoldable pub list_queued_jobs : Jobs → List WinningsCreditJob
list_queued_jobs store = keep (λ e. is_queued e.status) store

unfoldable pub clear_all : Jobs → Jobs
clear_all store = []
