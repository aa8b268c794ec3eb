-- ===== src/Domain/Ticket/Job.antt =====
-- The job that verifies one ticket at the terminal (packages/domain/src/ticket.ts).
use gambling.Base.{
  ℕ, suc, String, Bool, true, false, not, Option, none, some, [], ◌∷◌, template, Result, ok,
  throw_if, ticket_validation, ◌>>=◌, ◌>>◌,
}
use gambling.Base.Platform.{Platform}
use gambling.Domain.Ticket.Record.{require_non_empty, require_valid_iso}

-- TICKET_VERIFICATION_JOB_STATES
pub data TicketVerificationJobState : Type 0 where
  queued verifying done error : TicketVerificationJobState

pub record TicketVerificationJob : Type 0 where
  pub job_id : String
  pub ticket_id : String
  pub request_id : String
  pub lottery_code : String
  pub draw_id : String
  pub external_reference : String
  pub enqueued_at : String
  pub updated_at : String
  pub status : TicketVerificationJobState
  pub attempt_count : ℕ
  pub last_terminal_output : Option String
  pub last_error : Option String

pub record CreateTicketVerificationJobInput : Type 0 where
  pub ticket_id : String
  pub request_id : String
  pub lottery_code : String
  pub draw_id : String
  pub external_reference : String
  pub enqueued_at : String

abbrev pub job_state_text : TicketVerificationJobState → String
job_state_text queued = "queued"
job_state_text verifying = "verifying"
job_state_text done = "done"
job_state_text error = "error"

abbrev is_queued : TicketVerificationJobState → Bool
is_queued queued = true
is_queued s = false

abbrev is_verifying : TicketVerificationJobState → Bool
is_verifying verifying = true
is_verifying s = false

unfoldable pub create_ticket_verification_job :
    Platform → CreateTicketVerificationJobInput → Result TicketVerificationJob
create_ticket_verification_job p input = do
  ticket_id ← require_non_empty input.ticket_id "ticketId"
  request_id ← require_non_empty input.request_id "requestId"
  code ← require_non_empty input.lottery_code "lotteryCode"
  draw_id ← require_non_empty input.draw_id "drawId"
  reference ← require_non_empty input.external_reference "externalReference"
  enqueued_at ← require_valid_iso p input.enqueued_at "enqueuedAt"
  ok (record {
    job_id = template (ticket_id ∷ ":verify" ∷ []);
    ticket_id = ticket_id;
    request_id = request_id;
    lottery_code = p.to_lower_case code;
    draw_id = draw_id;
    external_reference = reference;
    enqueued_at = enqueued_at;
    updated_at = enqueued_at;
    status = queued;
    attempt_count = 0;
    last_terminal_output = none;
    last_error = none;
  })

-- the message of a job that is not in the status that a call asks for
abbrev wrong_status : TicketVerificationJob → String → String
wrong_status job verb = template (
    "job \""
    ∷ job.job_id
    ∷ "\" cannot be "
    ∷ verb
    ∷ " from status \""
    ∷ job_state_text job.status
    ∷ "\""
    ∷ [])

unfoldable pub reserve_ticket_verification_job :
    Platform → TicketVerificationJob → String → Result TicketVerificationJob
reserve_ticket_verification_job p job updated_at = do
  throw_if (not (is_queued job.status)) ticket_validation (wrong_status job "reserved")
  at ← require_valid_iso p updated_at "updatedAt"
  ok (record job { status = verifying; attempt_count = suc job.attempt_count; updated_at = at })

unfoldable pub complete_ticket_verification_job :
    Platform → TicketVerificationJob → String → String → Result TicketVerificationJob
complete_ticket_verification_job p job updated_at raw_terminal_output = do
  throw_if (not (is_verifying job.status)) ticket_validation (wrong_status job "completed")
  at ← require_valid_iso p updated_at "updatedAt"
  ok (record job {
    status = done;
    updated_at = at;
    last_terminal_output = some raw_terminal_output;
    last_error = none;
  })

unfoldable pub fail_ticket_verification_job :
    Platform
    → TicketVerificationJob
    → String
    → String
    → Option String
    → Result TicketVerificationJob
fail_ticket_verification_job p job updated_at message raw_terminal_output = do
  throw_if (not (is_verifying job.status)) ticket_validation (wrong_status job "failed")
  at ← require_valid_iso p updated_at "updatedAt"
  last_error ← require_non_empty message "error"
  ok (record job {
    status = error;
    updated_at = at;
    last_terminal_output = raw_terminal_output;
    last_error = some last_error;
  })
