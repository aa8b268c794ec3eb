-- ===== src/Domain/Winnings/CashDesk.antt =====
-- Cash desk requests and winnings credit jobs (packages/domain/src/cash-desk.ts).
use gambling.Base.{
  String, Bool, true, false, not, Option, none, some, [], ◌∷◌, trim, template, Result, ok, throw_if,
  plain, if◌then◌else◌, ◌>>◌, Number,
}
use gambling.Base.Platform.{Platform}

-- CASH_DESK_STATUSES
pub data CashDeskStatus : Type 0 where
  pending paid : CashDeskStatus

pub record CashDeskRequest : Type 0 where
  pub cash_desk_request_id : String
  pub request_id : String
  pub purchase_id : String
  pub ticket_id : String
  pub user_id : String
  pub lottery_code : String
  pub draw_id : String
  pub winning_amount_minor : Number
  pub currency : String
  pub status : CashDeskStatus
  pub created_at : String
  pub paid_at : Option String
  pub paid_by : Option String

pub record CreateCashDeskRequestInput : Type 0 where
  pub cash_desk_request_id : String
  pub request_id : String
  pub purchase_id : String
  pub ticket_id : String
  pub user_id : String
  pub lottery_code : String
  pub draw_id : String
  pub winning_amount_minor : Number
  pub currency : String
  pub created_at : String

unfoldable pub create_cash_desk_request : Platform → CreateCashDeskRequestInput → CashDeskRequest
create_cash_desk_request p input = record {
  cash_desk_request_id = trim input.cash_desk_request_id;
  request_id = trim input.request_id;
  purchase_id = trim input.purchase_id;
  ticket_id = trim input.ticket_id;
  user_id = trim input.user_id;
  lottery_code = p.to_lower_case (trim input.lottery_code);
  draw_id = trim input.draw_id;
  winning_amount_minor = input.winning_amount_minor;
  currency = p.to_upper_case (trim input.currency);
  status = pending;
  created_at = input.created_at;
  paid_at = none;
  paid_by = none;
}

abbrev pub is_paid : CashDeskStatus → Bool
is_paid paid = true
is_paid pending = false

unfoldable pub pay_cash_desk_request : CashDeskRequest → String → String → CashDeskRequest
pay_cash_desk_request r paid_by paid_at =
    if is_paid r.status
    then r
    else (record r { status = paid; paid_by = some (trim paid_by); paid_at = some paid_at })

-- WINNINGS_CREDIT_JOB_STATUSES
pub data WinningsCreditJobStatus : Type 0 where
  queued processing done error : WinningsCreditJobStatus

pub record WinningsCreditJob : Type 0 where
  pub job_id : String
  pub request_id : String
  pub purchase_id : String
  pub ticket_id : String
  pub user_id : String
  pub draw_id : String
  pub winning_amount_minor : Number
  pub currency : String
  pub status : WinningsCreditJobStatus
  pub created_at : String
  pub processed_at : Option String
  pub last_error : Option String

pub record CreateWinningsCreditJobInput : Type 0 where
  pub job_id : String
  pub request_id : String
  pub purchase_id : String
  pub ticket_id : String
  pub user_id : String
  pub draw_id : String
  pub winning_amount_minor : Number
  pub currency : String
  pub created_at : String

unfoldable pub create_winnings_credit_job :
    Platform → CreateWinningsCreditJobInput → WinningsCreditJob
create_winnings_credit_job p input = record {
  job_id = trim input.job_id;
  request_id = trim input.request_id;
  purchase_id = trim input.purchase_id;
  ticket_id = trim input.ticket_id;
  user_id = trim input.user_id;
  draw_id = trim input.draw_id;
  winning_amount_minor = input.winning_amount_minor;
  currency = p.to_upper_case (trim input.currency);
  status = queued;
  created_at = input.created_at;
  processed_at = none;
  last_error = none;
}

abbrev pub job_status_text : WinningsCreditJobStatus → String
job_status_text queued = "queued"
job_status_text processing = "processing"
job_status_text done = "done"
job_status_text error = "error"

abbrev pub is_queued : WinningsCreditJobStatus → Bool
is_queued queued = true
is_queued s = false

abbrev is_processing : WinningsCreditJobStatus → Bool
is_processing processing = true
is_processing s = false

-- the message of a job that is not in the status that a call asks for
abbrev wrong_status : WinningsCreditJob → String → String
wrong_status job verb = template (
    "winnings credit job \""
    ∷ job.job_id
    ∷ "\" cannot "
    ∷ verb
    ∷ " from status \""
    ∷ job_status_text job.status
    ∷ "\""
    ∷ [])

unfoldable pub start_winnings_credit_job : WinningsCreditJob → Result WinningsCreditJob
start_winnings_credit_job job = do
  throw_if (not (is_queued job.status)) plain (wrong_status job "start")
  ok (record job { status = processing })

unfoldable pub complete_winnings_credit_job : WinningsCreditJob → String → Result WinningsCreditJob
complete_winnings_credit_job job processed_at = do
  throw_if (not (is_processing job.status)) plain (wrong_status job "complete")
  ok (record job { status = done; processed_at = some processed_at; last_error = none })

unfoldable pub fail_winnings_credit_job :
    WinningsCreditJob → String → String → Result WinningsCreditJob
fail_winnings_credit_job job message processed_at = do
  throw_if (not (is_processing job.status)) plain (wrong_status job "fail")
  ok (record job { status = error; processed_at = some processed_at; last_error = some message })
