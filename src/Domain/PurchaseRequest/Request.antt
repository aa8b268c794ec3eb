-- ===== src/Domain/PurchaseRequest/Request.antt =====
-- The purchase request: a snapshot, a state and the journal of its transitions
-- (packages/domain/src/purchase-request.ts).
use gambling.Base.{
  suc, String, Option, none, some, List, [], ◌∷◌, ◌++◌, template, Number, trunc, non_empty, Result,
  ok, throw, purchase_request_validation, ErrorClass, ◌>>=◌,
}
use gambling.Base.Int.{ℤ, pos}
use gambling.Base.Platform.{Platform, require_text, require_date}
use gambling.Domain.PurchaseDraft.Payload.{PurchaseDraftPayload, clone_purchase_draft_payload}
use gambling.Domain.RequestState.{RequestState, apply_request_state_transition}

pub record PurchaseRequestSnapshot : Type 0 where
  pub request_id : String
  pub user_id : String
  pub lottery_code : String
  pub draw_id : String
  pub payload : PurchaseDraftPayload
  pub cost_minor : ℤ
  pub currency : String
  pub created_at : String

pub record PurchaseRequestJournalEntry : Type 0 where
  pub event_id : String
  pub from_state : RequestState
  pub to_state : RequestState
  pub occurred_at : String
  pub note : Option String

pub record PurchaseRequestRecord : Type 0 where
  pub snapshot : PurchaseRequestSnapshot
  pub state : RequestState
  pub journal : List PurchaseRequestJournalEntry

pub record CreateAwaitingConfirmationRequestInput : Type 0 where
  pub request_id : String
  pub user_id : String
  pub lottery_code : String
  pub draw_id : String
  pub payload : PurchaseDraftPayload
  pub cost_minor : Number
  pub currency : String
  pub created_at : String

-- the last argument of the functions that append to a journal
pub record TransitionInput : Type 0 where
  pub event_id : String
  pub occurred_at : String
  pub note : Option String

-- `requireNonEmpty` and `requireValidIsoDate` of this file
abbrev pub require_non_empty : String → String → Result String
require_non_empty = require_text purchase_request_validation

abbrev pub require_valid_iso_date : Platform → String → String → Result String
require_valid_iso_date p = require_date p purchase_request_validation

-- `Math.trunc(cost)`, if it is finite and above 0
abbrev pub positive_cost : ErrorClass → Option ℤ → Result ℤ
positive_cost c (some (pos (suc n))) = ok (pos (suc n))
positive_cost c other = throw c "costMinor must be a positive integer"

-- `input.note ? { note: input.note } : {}`
abbrev pub note_of : Option String → Option String
note_of none = none
note_of (some s) = non_empty s

unfoldable pub create_awaiting_confirmation_request :
    Platform → CreateAwaitingConfirmationRequestInput → Result PurchaseRequestRecord
create_awaiting_confirmation_request p input = do
  request_id ← require_non_empty input.request_id "requestId"
  user_id ← require_non_empty input.user_id "userId"
  code ← require_non_empty input.lottery_code "lotteryCode"
  draw_id ← require_non_empty input.draw_id "drawId"
  currency ← require_non_empty input.currency "currency"
  created_at ← require_valid_iso_date p input.created_at "createdAt"
  cost ← positive_cost purchase_request_validation (trunc input.cost_minor)
  started ← apply_request_state_transition RequestState.created RequestState.awaiting_confirmation
  ok (record {
    snapshot = record {
      request_id = request_id;
      user_id = user_id;
      lottery_code = p.to_lower_case code;
      draw_id = draw_id;
      payload = clone_purchase_draft_payload input.payload;
      cost_minor = cost;
      currency = p.to_upper_case currency;
      created_at = created_at;
    };
    state = started;
    journal =
        record {
          event_id = template (request_id ∷ ":awaiting_confirmation" ∷ []);
          from_state = RequestState.created;
          to_state = started;
          occurred_at = created_at;
          note = some "request snapshot persisted";
        }
        ∷ [];
  })

unfoldable pub clone_snapshot : PurchaseRequestSnapshot → PurchaseRequestSnapshot
clone_snapshot s = record s { payload = clone_purchase_draft_payload s.payload }

unfoldable pub append_purchase_request_transition :
    Platform → PurchaseRequestRecord → RequestState → TransitionInput → Result PurchaseRequestRecord
append_purchase_request_transition p r next_state input = do
  event_id ← require_non_empty input.event_id "eventId"
  occurred_at ← require_valid_iso_date p input.occurred_at "occurredAt"
  transitioned ← apply_request_state_transition r.state next_state
  ok (record {
    snapshot = clone_snapshot r.snapshot;
    state = transitioned;
    journal =
        r.journal
        ++ record {
          event_id = event_id;
          from_state = r.state;
          to_state = transitioned;
          occurred_at = occurred_at;
          note = note_of input.note;
        }
          ∷ [];
  })
