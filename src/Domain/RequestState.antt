-- ===== src/Domain/RequestState.antt =====
-- The lifecycles of a purchase request and of a canonical purchase
-- (packages/domain/src/request-state.ts): states, transition tables and the guards over them.
pub mod Paths
use gambling.Base.{
  ◌≡◌, refl, String, Bool, true, false, not, ◌&&◌, Option, none, some, List, [], ◌∷◌, arith, ◌==◌,
  if◌then◌else◌, or_else, template, Result, ok, throw_if, ErrorClass, plain, ◌>>=◌, ◌>>◌,
}
use gambling.Base.Lists.{any}

-- REQUEST_STATES
pub data RequestState : Type 0 where
  created awaiting_confirmation confirmed queued executing retrying : RequestState
  added_to_cart success canceled error reserve_released : RequestState

-- CANONICAL_PURCHASE_STATUSES
pub data CanonicalPurchaseStatus : Type 0 where
  submitted queued processing purchase_failed_retryable : CanonicalPurchaseStatus
  purchase_failed_final purchased awaiting_draw_close settled canceled : CanonicalPurchaseStatus

-- PURCHASE_RESULT_STATUSES
pub data PurchaseResultStatus : Type 0 where
  pending lose win : PurchaseResultStatus

-- PURCHASE_RESULT_VISIBILITIES
pub data PurchaseResultVisibility : Type 0 where
  hidden visible : PurchaseResultVisibility

-- The text that each literal type writes.
abbrev pub state_text : RequestState → String
state_text RequestState.created = "created"
state_text RequestState.awaiting_confirmation = "awaiting_confirmation"
state_text RequestState.confirmed = "confirmed"
state_text RequestState.queued = "queued"
state_text RequestState.executing = "executing"
state_text RequestState.retrying = "retrying"
state_text RequestState.added_to_cart = "added_to_cart"
state_text RequestState.success = "success"
state_text RequestState.canceled = "canceled"
state_text RequestState.error = "error"
state_text RequestState.reserve_released = "reserve_released"

abbrev pub status_text : CanonicalPurchaseStatus → String
status_text CanonicalPurchaseStatus.submitted = "submitted"
status_text CanonicalPurchaseStatus.queued = "queued"
status_text CanonicalPurchaseStatus.processing = "processing"
status_text CanonicalPurchaseStatus.purchase_failed_retryable = "purchase_failed_retryable"
status_text CanonicalPurchaseStatus.purchase_failed_final = "purchase_failed_final"
status_text CanonicalPurchaseStatus.purchased = "purchased"
status_text CanonicalPurchaseStatus.awaiting_draw_close = "awaiting_draw_close"
status_text CanonicalPurchaseStatus.settled = "settled"
status_text CanonicalPurchaseStatus.canceled = "canceled"

abbrev pub result_text : PurchaseResultStatus → String
result_text pending = "pending"
result_text lose = "lose"
result_text win = "win"

abbrev pub visibility_text : PurchaseResultVisibility → String
visibility_text hidden = "hidden"
visibility_text visible = "visible"

-- `===` on states, and on statuses
abbrev pub same_state : RequestState → RequestState → Bool
same_state s t = state_text s == state_text t

abbrev pub same_status : CanonicalPurchaseStatus → CanonicalPurchaseStatus → Bool
same_status s t = status_text s == status_text t

-- REQUEST_TRANSITIONS
unfoldable pub request_transitions : RequestState → List RequestState
request_transitions RequestState.created =
    RequestState.awaiting_confirmation ∷ RequestState.canceled ∷ []
request_transitions RequestState.awaiting_confirmation =
    RequestState.confirmed ∷ RequestState.canceled ∷ []
request_transitions RequestState.confirmed =
    RequestState.queued ∷ RequestState.canceled ∷ RequestState.reserve_released ∷ []
request_transitions RequestState.queued =
    RequestState.executing ∷ RequestState.canceled ∷ RequestState.error
    ∷ RequestState.reserve_released ∷ []
request_transitions RequestState.executing =
    RequestState.retrying ∷ RequestState.added_to_cart ∷ RequestState.success ∷ RequestState.error
    ∷ RequestState.reserve_released ∷ []
request_transitions RequestState.retrying =
    RequestState.queued ∷ RequestState.executing ∷ RequestState.error
    ∷ RequestState.reserve_released ∷ []
request_transitions RequestState.added_to_cart = RequestState.success ∷ []
request_transitions RequestState.success = []
request_transitions RequestState.canceled = RequestState.reserve_released ∷ []
request_transitions RequestState.error = RequestState.reserve_released ∷ []
request_transitions RequestState.reserve_released = []

-- CANONICAL_PURCHASE_TRANSITIONS
unfoldable pub canonical_purchase_transitions :
    CanonicalPurchaseStatus → List CanonicalPurchaseStatus
canonical_purchase_transitions CanonicalPurchaseStatus.submitted =
    CanonicalPurchaseStatus.queued ∷ CanonicalPurchaseStatus.canceled ∷ []
canonical_purchase_transitions CanonicalPurchaseStatus.queued =
    CanonicalPurchaseStatus.processing ∷ CanonicalPurchaseStatus.canceled ∷ []
canonical_purchase_transitions CanonicalPurchaseStatus.processing =
    CanonicalPurchaseStatus.purchase_failed_retryable
    ∷ CanonicalPurchaseStatus.purchase_failed_final ∷ CanonicalPurchaseStatus.purchased ∷ []
canonical_purchase_transitions CanonicalPurchaseStatus.purchase_failed_retryable =
    CanonicalPurchaseStatus.queued ∷ CanonicalPurchaseStatus.processing
    ∷ CanonicalPurchaseStatus.purchase_failed_final ∷ CanonicalPurchaseStatus.canceled ∷ []
canonical_purchase_transitions CanonicalPurchaseStatus.purchase_failed_final = []
canonical_purchase_transitions CanonicalPurchaseStatus.purchased =
    CanonicalPurchaseStatus.awaiting_draw_close ∷ []
canonical_purchase_transitions CanonicalPurchaseStatus.awaiting_draw_close =
    CanonicalPurchaseStatus.settled ∷ []
canonical_purchase_transitions CanonicalPurchaseStatus.settled = []
canonical_purchase_transitions CanonicalPurchaseStatus.canceled = []

pub record TransitionCheckResult : Type 0 where
  pub allowed : Bool
  pub reason : Option String

abbrev pub permit : TransitionCheckResult
permit = record { allowed = true; reason = none }

abbrev pub refuse : String → TransitionCheckResult
refuse reason = record { allowed = false; reason = some reason }

unfoldable pub can_transition_request_state : RequestState → RequestState → TransitionCheckResult
unfolding request_transitions
can_transition_request_state from to =
    if same_state from to
    then refuse "state cannot transition to itself"
    else if any (same_state to) (request_transitions from)
    then permit
    else refuse (
        template
          ("transition from " ∷ state_text from ∷ " to " ∷ state_text to ∷ " is not allowed" ∷ []))

unfoldable pub apply_request_state_transition : RequestState → RequestState → Result RequestState
unfolding can_transition_request_state
apply_request_state_transition from to = do
  let check = can_transition_request_state from to
  throw_if (not check.allowed) plain (or_else check.reason "invalid request state transition")
  ok to

unfoldable pub can_transition_canonical_purchase_status :
    CanonicalPurchaseStatus → CanonicalPurchaseStatus → TransitionCheckResult
unfolding canonical_purchase_transitions
can_transition_canonical_purchase_status from to =
    if same_status from to
    then refuse "canonical purchase status cannot transition to itself"
    else if any (same_status to) (canonical_purchase_transitions from)
    then permit
    else refuse (
        template (
          "transition from " ∷ status_text from ∷ " to " ∷ status_text to ∷ " is not allowed" ∷ []))

unfoldable pub apply_canonical_purchase_status_transition :
    CanonicalPurchaseStatus → CanonicalPurchaseStatus → Result CanonicalPurchaseStatus
unfolding can_transition_canonical_purchase_status
apply_canonical_purchase_status_transition from to = do
  let check = can_transition_canonical_purchase_status from to
  throw_if (not check.allowed) plain
      (or_else check.reason "invalid canonical purchase status transition")
  ok to

-- CANCELABLE_REQUEST_STATES
abbrev cancelable_request_states : List RequestState
cancelable_request_states = RequestState.queued ∷ RequestState.retrying ∷ []

unfoldable pub can_cancel_request_state : RequestState → TransitionCheckResult
can_cancel_request_state state =
    if any (same_state state) cancelable_request_states
    then permit
    else refuse (template ("request in state " ∷ state_text state ∷ " cannot be canceled" ∷ []))

unfoldable pub assert_cancelable_request_state : RequestState → Result (Unit {0})
unfolding can_cancel_request_state
assert_cancelable_request_state state = do
  let check = can_cancel_request_state state
  throw_if (not check.allowed) plain (or_else check.reason "request cannot be canceled")
