-- ===== src/Domain/Winnings/Payout.antt =====
-- What holds of every payout: a cash desk request is paid once, a credit job ends once.
use gambling.Base.{◌≡◌, ◌⊎◌, refl, Bool, true, false, String, ok, arith, is_some}
use gambling.Base.Platform.{Platform}
use gambling.Domain.Winnings.CashDesk.{
  CashDeskRequest, paid, pay_cash_desk_request, WinningsCreditJob, WinningsCreditJobStatus, queued,
  processing, done, error, CreateWinningsCreditJobInput, create_winnings_credit_job,
  start_winnings_credit_job, complete_winnings_credit_job, fail_winnings_credit_job,
}

-- Paying a cash desk request makes it paid, and the first payment stands: a second one changes
-- neither who paid it nor when.
pub pay_cash_desk_request_once :
    (r : CashDeskRequest) (by at by' at' : String)
    → ((pay_cash_desk_request r by at).status ≡ paid)
      × (pay_cash_desk_request (pay_cash_desk_request r by at) by' at'
          ≡ pay_cash_desk_request r by at)
unfolding pay_cash_desk_request
pay_cash_desk_request_once r by at by' at' = ground arith

-- One call on a credit job that did not throw.
pub data Step (j j' : WinningsCreditJob) : Type 0 where
  starting : start_winnings_credit_job j ≡ ok j' → Step j j'
  completing : (at : String) → complete_winnings_credit_job j at ≡ ok j' → Step j j'
  failing : (message at : String) → fail_winnings_credit_job j message at ≡ ok j' → Step j j'

pub data Reached (p : Platform) : WinningsCreditJob → Type 0 where
  created : (input : CreateWinningsCreditJobInput) → Reached p (create_winnings_credit_job p input)
  stepped : {j j' : WinningsCreditJob} → Reached p j → Step j j' → Reached p j'

-- whether the job was processed, and whether it has an error, in each status
abbrev pub Fields : WinningsCreditJobStatus → Bool → Bool → Type 0
Fields queued processed failure = (processed ≡ false) × (failure ≡ false)
Fields processing processed failure = (processed ≡ false) × (failure ≡ false)
Fields done processed failure = (processed ≡ true) × (failure ≡ false)
Fields error processed failure = (processed ≡ true) × (failure ≡ true)

abbrev pub IsProcessed : WinningsCreditJob → Type 0
IsProcessed j = Fields j.status (is_some j.processed_at) (is_some j.last_error)

-- A credit job that was created and moved by calls that did not throw has a time of processing
-- exactly when it is done or failed, and an error exactly when it failed.
pub Reached-IsProcessed : {p : Platform} {j : WinningsCreditJob} → Reached p j → IsProcessed j
unfolding create_winnings_credit_job start_winnings_credit_job complete_winnings_credit_job
    fail_winnings_credit_job
Reached-IsProcessed (created input) = (refl, refl)
Reached-IsProcessed (stepped q (starting h)) = let w = Reached-IsProcessed q in ground arith
Reached-IsProcessed (stepped q (completing at h)) = let w = Reached-IsProcessed q in ground arith
Reached-IsProcessed (stepped q (failing message at h)) =
    let w = Reached-IsProcessed q in ground arith

-- A credit job moves from queued to processing and from there to done or to error, whatever is
-- called; so a job that is done or failed never starts again, and the user, the ticket, the amount
-- and the currency of a job stay the same.
pub Step-forward :
    {j j' : WinningsCreditJob}
    → Step j j'
    → (((j.status ≡ queued) × (j'.status ≡ processing))
        ⊎ ((j.status ≡ processing) × ((j'.status ≡ done) ⊎ (j'.status ≡ error))))
      × (j'.job_id ≡ j.job_id)
      × (j'.user_id ≡ j.user_id)
      × (j'.ticket_id ≡ j.ticket_id)
      × (j'.winning_amount_minor ≡ j.winning_amount_minor)
      × (j'.currency ≡ j.currency)
unfolding start_winnings_credit_job complete_winnings_credit_job fail_winnings_credit_job
Step-forward (starting h) = ground arith
Step-forward (completing at h) = ground arith
Step-forward (failing message at h) = ground arith
