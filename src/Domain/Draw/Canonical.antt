-- ===== src/Domain/Draw/Canonical.antt =====
-- The canonical draw and its lifecycle open → closed → settled (packages/domain/src/draw.ts).
use gambling.Base.{
  String, Bool, true, false, not, Option, none, some, List, [], ◌∷◌, ◌==◌, if◌then◌else◌, or_else,
  template, Result, ok, throw_if, canonical_draw_validation, ◌>>=◌, ◌>>◌,
}
use gambling.Base.Lists.{any}
use gambling.Base.Platform.{Platform, require_text, require_date}
use gambling.Domain.RequestState.{PurchaseResultVisibility, hidden, visible, visibility_text}

-- CANONICAL_DRAW_STATUSES
pub data CanonicalDrawStatus : Type 0 where
  opened closed settled : CanonicalDrawStatus

abbrev pub draw_status_text : CanonicalDrawStatus → String
draw_status_text opened = "open"
draw_status_text closed = "closed"
draw_status_text settled = "settled"

pub record CanonicalDrawRecord : Type 0 where
  pub lottery_code : String
  pub draw_id : String
  pub draw_at : String
  pub status : CanonicalDrawStatus
  pub result_visibility : PurchaseResultVisibility
  pub opened_at : String
  pub closed_at : Option String
  pub settled_at : Option String
  pub closed_by : Option String
  pub settled_by : Option String

pub record CreateOpenCanonicalDrawInput : Type 0 where
  pub lottery_code : String
  pub draw_id : String
  pub draw_at : String
  pub opened_at : String

-- CANONICAL_DRAW_TRANSITIONS
unfoldable pub canonical_draw_transitions : CanonicalDrawStatus → List CanonicalDrawStatus
canonical_draw_transitions opened = closed ∷ []
canonical_draw_transitions closed = settled ∷ []
canonical_draw_transitions settled = []

-- `requireNonEmpty` and `requireValidIso` of this file
abbrev require_non_empty : String → String → Result String
require_non_empty = require_text canonical_draw_validation

abbrev require_valid_iso : Platform → String → String → Result String
require_valid_iso p = require_date p canonical_draw_validation

unfoldable pub create_open_canonical_draw :
    Platform → CreateOpenCanonicalDrawInput → Result CanonicalDrawRecord
create_open_canonical_draw p input = do
  code ← require_non_empty input.lottery_code "lotteryCode"
  draw_id ← require_non_empty input.draw_id "drawId"
  draw_at ← require_valid_iso p input.draw_at "drawAt"
  opened_at ← require_valid_iso p input.opened_at "openedAt"
  ok (record {
    lottery_code = p.to_lower_case code;
    draw_id = draw_id;
    draw_at = draw_at;
    status = opened;
    result_visibility = hidden;
    opened_at = opened_at;
    closed_at = none;
    settled_at = none;
    closed_by = none;
    settled_by = none;
  })

-- the result of `canTransitionCanonicalDrawStatus`
pub record DrawTransitionCheck : Type 0 where
  pub allowed : Bool
  pub reason : Option String

abbrev pub same_draw_status : CanonicalDrawStatus → CanonicalDrawStatus → Bool
same_draw_status s t = draw_status_text s == draw_status_text t

unfoldable pub can_transition_canonical_draw_status :
    CanonicalDrawStatus → CanonicalDrawStatus → DrawTransitionCheck
unfolding canonical_draw_transitions
can_transition_canonical_draw_status from to =
    if same_draw_status from to
    then record {
      allowed = false;
      reason = some "canonical draw status cannot transition to itself";
    }
    else if any (same_draw_status to) (canonical_draw_transitions from)
    then record { allowed = true; reason = none }
    else record {
      allowed = false;
      reason = some (
          template (
            "transition from "
            ∷ draw_status_text from
            ∷ " to "
            ∷ draw_status_text to
            ∷ " is not allowed"
            ∷ []));
    }

unfoldable pub apply_canonical_draw_status_transition :
    CanonicalDrawStatus → CanonicalDrawStatus → Result CanonicalDrawStatus
unfolding can_transition_canonical_draw_status
apply_canonical_draw_status_transition from to = do
  let check = can_transition_canonical_draw_status from to
  throw_if (not check.allowed) canonical_draw_validation
      (or_else check.reason "invalid canonical draw status transition")
  ok to

unfoldable pub close_canonical_draw :
    Platform → CanonicalDrawRecord → String → String → Result CanonicalDrawRecord
close_canonical_draw p r at by = do
  next_status ← apply_canonical_draw_status_transition r.status closed
  closed_at ← require_valid_iso p at "closedAt"
  closed_by ← require_non_empty by "closedBy"
  ok (record r { status = next_status; closed_at = some closed_at; closed_by = some closed_by })

unfoldable pub settle_canonical_draw :
    Platform → CanonicalDrawRecord → String → String → Result CanonicalDrawRecord
settle_canonical_draw p r at by = do
  next_status ← apply_canonical_draw_status_transition r.status settled
  settled_at ← require_valid_iso p at "settledAt"
  settled_by ← require_non_empty by "settledBy"
  ok (record r {
    status = next_status;
    result_visibility = visible;
    settled_at = some settled_at;
    settled_by = some settled_by;
  })

unfoldable pub is_canonical_draw_result_visible : CanonicalDrawRecord → Bool
is_canonical_draw_result_visible r = visibility_text r.result_visibility == "visible"
