-- ===== src/Domain/Ticket/Record.antt =====
-- The ticket record: purchase, the administrator's mark, and the outcome of its verification
-- (packages/domain/src/ticket.ts).
use gambling.Base.{
  String, Bool, true, false, not, Option, none, some, [], ◌∷◌, ◌==◌, if◌then◌else◌, or_else,
  is_empty, trim, template, Number, integer, Result, ok, throw, throw_if, ticket_validation, ◌>>=◌,
  ◌>>◌,
}
use gambling.Base.Int.{pos}
use gambling.Base.Platform.{Platform, require_text, require_date}

-- TICKET_PURCHASE_STATES
pub data TicketPurchaseState : Type 0 where
  purchased : TicketPurchaseState

-- TICKET_VERIFICATION_STATES
pub data TicketVerificationState : Type 0 where
  pending verified failed : TicketVerificationState

-- TICKET_ADMIN_RESULT_MARKS
pub data TicketAdminResultMark : Type 0 where
  win lose : TicketAdminResultMark

-- TICKET_CLAIM_STATES
pub data TicketClaimState : Type 0 where
  unclaimed credit_pending credited cash_desk_pending cash_desk_paid : TicketClaimState

pub data ResultSource : Type 0 where
  terminal admin_emulated : ResultSource

pub record TicketRecord : Type 0 where
  pub ticket_id : String
  pub request_id : String
  pub user_id : String
  pub lottery_code : String
  pub draw_id : String
  pub purchased_at : String
  pub external_reference : String
  pub purchase_status : TicketPurchaseState
  pub verification_status : TicketVerificationState
  pub verification_raw_output : Option String
  pub winning_amount_minor : Option Number
  pub verified_at : Option String
  pub last_verification_event_id : Option String
  pub admin_result_mark : Option TicketAdminResultMark
  pub admin_result_marked_by : Option String
  pub admin_result_marked_at : Option String
  pub result_source : Option ResultSource
  pub claim_state : TicketClaimState

pub record CreatePurchasedTicketRecordInput : Type 0 where
  pub ticket_id : String
  pub request_id : String
  pub user_id : String
  pub lottery_code : String
  pub draw_id : String
  pub purchased_at : String
  pub external_reference : Option String

abbrev pub verification_text : TicketVerificationState → String
verification_text pending = "pending"
verification_text verified = "verified"
verification_text failed = "failed"

abbrev pub mark_text : TicketAdminResultMark → String
mark_text win = "win"
mark_text lose = "lose"

abbrev pub is_pending : TicketVerificationState → Bool
is_pending pending = true
is_pending s = false

-- `requireNonEmpty` and `requireValidIso` of this file
abbrev pub require_non_empty : String → String → Result String
require_non_empty = require_text ticket_validation

abbrev pub require_valid_iso : Platform → String → String → Result String
require_valid_iso p = require_date p ticket_validation

unfoldable pub create_purchased_ticket_record :
    Platform → CreatePurchasedTicketRecordInput → Result TicketRecord
create_purchased_ticket_record p input = do
  ticket_id ← require_non_empty input.ticket_id "ticketId"
  request_id ← require_non_empty input.request_id "requestId"
  user_id ← require_non_empty input.user_id "userId"
  code ← require_non_empty input.lottery_code "lotteryCode"
  draw_id ← require_non_empty input.draw_id "drawId"
  purchased_at ← require_valid_iso p input.purchased_at "purchasedAt"
  let reference = trim (or_else input.external_reference "")
  ok (record {
    ticket_id = ticket_id;
    request_id = request_id;
    user_id = user_id;
    lottery_code = p.to_lower_case code;
    draw_id = draw_id;
    purchased_at = purchased_at;
    external_reference =
        if is_empty reference
        then template (p.to_lower_case code ∷ "-" ∷ request_id ∷ [])
        else reference;
    purchase_status = purchased;
    verification_status = pending;
    verification_raw_output = none;
    winning_amount_minor = none;
    verified_at = none;
    last_verification_event_id = none;
    admin_result_mark = none;
    admin_result_marked_by = none;
    admin_result_marked_at = none;
    result_source = none;
    claim_state = unclaimed;
  })

abbrev is_purchased : TicketPurchaseState → Bool
is_purchased purchased = true

unfoldable pub is_ticket_pending_verification : TicketRecord → Bool
is_ticket_pending_verification t =
    if is_purchased t.purchase_status then is_pending t.verification_status else false

unfoldable pub set_ticket_admin_result_mark :
    Platform → TicketRecord → TicketAdminResultMark → String → String → Result TicketRecord
set_ticket_admin_result_mark p t mark marked_by marked_at = do
  throw_if (not (is_pending t.verification_status)) ticket_validation (
      template (
        "ticket \""
        ∷ t.ticket_id
        ∷ "\" cannot be marked from verification status \""
        ∷ verification_text t.verification_status
        ∷ "\""
        ∷ []))
  at ← require_valid_iso p marked_at "markedAt"
  ok (record t {
    admin_result_mark = some mark;
    admin_result_marked_by = some marked_by;
    admin_result_marked_at = some at;
  })

-- the amount of an administrator's mark
abbrev pub marked_amount : TicketAdminResultMark → Number → Number
marked_amount win amount = amount
marked_amount lose amount = integer (pos 0)

unfoldable pub resolve_ticket_from_admin_mark :
    Platform → TicketRecord → Number → String → String → Result TicketRecord
resolve_ticket_from_admin_mark p t win_amount_minor resolved_at resolved_by =
    if not (is_pending t.verification_status) then ok t else do
      let mark = or_else t.admin_result_mark lose
      at ← require_valid_iso p resolved_at "resolvedAt"
      ok (record t {
        verification_status = verified;
        verification_raw_output = some (
            template ("admin_emulated mark=" ∷ mark_text mark ∷ " resolvedBy=" ∷ resolved_by ∷ []));
        winning_amount_minor = some (marked_amount mark win_amount_minor);
        verified_at = some at;
        last_verification_event_id = some (template (t.ticket_id ∷ ":admin-resolve" ∷ []));
        result_source = some admin_emulated;
      })

-- `verificationStatus` of an outcome
pub data Verdict : Type 0 where
  verified failed : Verdict

pub record ApplyTicketVerificationOutcomeInput : Type 0 where
  pub verification_status : Verdict
  pub verification_event_id : String
  pub verified_at : String
  pub raw_terminal_output : String
  pub winning_amount_minor : Option Number

abbrev pub status_of : Verdict → TicketVerificationState
status_of Verdict.verified = verified
status_of Verdict.failed = failed

-- the amount that a verdict leaves on the ticket
abbrev pub amount_of : Verdict → Option Number → Option Number
amount_of Verdict.verified amount = some (or_else amount (integer (pos 0)))
amount_of Verdict.failed amount = none

unfoldable pub normalize_non_negative_minor_or_null :
    Option Number → String → Result (Option Number)
normalize_non_negative_minor_or_null none field = ok none
normalize_non_negative_minor_or_null (some (integer (pos n))) field = ok (some (integer (pos n)))
normalize_non_negative_minor_or_null (some other) field =
    throw ticket_validation (template (field ∷ " must be a non-negative integer" ∷ []))

abbrev pub same_event : Option String → String → Bool
same_event none e = false
same_event (some d) e = d == e

unfoldable pub apply_ticket_verification_outcome :
    Platform → TicketRecord → ApplyTicketVerificationOutcomeInput → Result TicketRecord
apply_ticket_verification_outcome p t input = do
  event_id ← require_non_empty input.verification_event_id "verificationEventId"
  verified_at ← require_valid_iso p input.verified_at "verifiedAt"
  output ← require_non_empty input.raw_terminal_output "rawTerminalOutput"
  amount ← normalize_non_negative_minor_or_null input.winning_amount_minor "winningAmountMinor"
  if not (is_pending t.verification_status)
      then if same_event t.last_verification_event_id event_id
        then ok t
        else throw ticket_validation (
            template (
              "ticket \""
              ∷ t.ticket_id
              ∷ "\" cannot apply verification from status \""
              ∷ verification_text t.verification_status
              ∷ "\""
              ∷ []))
      else ok (record t {
        verification_status = status_of input.verification_status;
        verification_raw_output = some output;
        winning_amount_minor = amount_of input.verification_status amount;
        verified_at = some verified_at;
        last_verification_event_id = some event_id;
      })
