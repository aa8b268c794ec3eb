-- ===== src/Application/PurchaseState.antt =====
-- The canonical purchase that stands for a request, and its steps
-- (packages/application/src/services/canonical-purchase-state.ts). A step that does not apply hands
-- its purchase back, and its callers compare what they get with what they gave: `same` is that
-- purchase, and `changed` a new one.
pub mod Frame
use gambling.Base.{
  String, Bool, true, false, not, ◌&&◌, ◌||◌, Option, none, some, ◌==◌, if◌then◌else◌, is_empty,
  trim, or_option, Result, ok, err, integer,
}
use gambling.Base.Action.{Outcome, returned, threw, Action, give, lift, writes, ◌>>=◌, ◌>>◌}
use gambling.Base.Platform.{Platform}
use gambling.Domain.RequestState.{
  CanonicalPurchaseStatus, submitted, queued, processing, purchase_failed_retryable,
  purchase_failed_final, purchased, awaiting_draw_close, settled, canceled, same_status,
}
use gambling.Domain.PurchaseRequest.Request.{PurchaseRequestRecord, TransitionInput}
use gambling.Domain.PurchaseRequest.Canonical.{
  CanonicalPurchaseRecord, CreateSubmittedCanonicalPurchaseInput,
  create_submitted_canonical_purchase, append_canonical_purchase_transition,
}
use gambling.Domain.Attempt.TerminalAttempt.{
  TerminalAttemptOutcome, added_to_cart, success, retrying, error,
}
use gambling.Application.Store.Purchases.{
  Purchases, get_purchase_by_id, get_purchase_by_legacy_request_id, save_purchase,
}
use gambling.Application.World.{World}

pub record CanonicalTransitionInput : Type 0 where
  pub event_id : String
  pub occurred_at : String
  pub note : Option String
  pub external_ticket_reference : Option String

pub data Updated : Type 0 where
  same changed : CanonicalPurchaseRecord → Updated

abbrev pub purchase_of : Updated → CanonicalPurchaseRecord
purchase_of (same r) = r
purchase_of (changed r) = r

unfoldable pub load_canonical_purchase_for_request :
    Purchases → String → Option CanonicalPurchaseRecord
load_canonical_purchase_for_request store request_id =
    let id = trim request_id in
    if is_empty id
    then none
    else or_option (get_purchase_by_legacy_request_id store id) (get_purchase_by_id store id)

-- the input of `createSubmittedCanonicalPurchase` for a request
abbrev submission : PurchaseRequestRecord → CreateSubmittedCanonicalPurchaseInput
submission r = record {
  purchase_id = r.snapshot.request_id;
  legacy_request_id = some r.snapshot.request_id;
  user_id = r.snapshot.user_id;
  lottery_code = r.snapshot.lottery_code;
  draw_id = r.snapshot.draw_id;
  payload = r.snapshot.payload;
  cost_minor = integer r.snapshot.cost_minor;
  currency = r.snapshot.currency;
  submitted_at = r.snapshot.created_at;
}

abbrev pub save_canonical : CanonicalPurchaseRecord → Action World (Unit {0})
save_canonical r = writes λ w. record w { purchases = save_purchase w.purchases r }

-- the purchase that was loaded, or a new one, saved
abbrev pub ensure_loaded :
    Platform
    → PurchaseRequestRecord
    → Option CanonicalPurchaseRecord
    → Action World CanonicalPurchaseRecord
ensure_loaded p r (some existing) = give existing
ensure_loaded p r none = do
  purchase ← lift (create_submitted_canonical_purchase p (submission r))
  save_canonical purchase
  give purchase

unfoldable pub ensure_canonical_purchase_for_request :
    Platform → PurchaseRequestRecord → Action World CanonicalPurchaseRecord
ensure_canonical_purchase_for_request p r w =
    ensure_loaded p r (load_canonical_purchase_for_request w.purchases r.snapshot.request_id) w

-- the transition with what the input holds
abbrev as_changed : Result CanonicalPurchaseRecord → Result Updated
as_changed (ok r) = ok (changed r)
as_changed (err e) = err e

abbrev move_to :
    Platform
    → CanonicalPurchaseRecord
    → CanonicalPurchaseStatus
    → CanonicalTransitionInput
    → Result Updated
move_to p r to input = as_changed (
    append_canonical_purchase_transition p r to
      (record { event_id = input.event_id; occurred_at = input.occurred_at; note = input.note })
      input.external_ticket_reference)

module _ (p : Platform) (r : CanonicalPurchaseRecord) where
  unfoldable pub queue_canonical_purchase : CanonicalTransitionInput → Result Updated
  queue_canonical_purchase input =
      if same_status r.status queued || not (same_status r.status submitted)
      then ok (same r)
      else move_to p r queued input

  unfoldable pub begin_canonical_purchase_processing : CanonicalTransitionInput → Result Updated
  begin_canonical_purchase_processing input =
      if same_status r.status processing
        || (not (same_status r.status queued)
            && not (same_status r.status purchase_failed_retryable))
      then ok (same r)
      else move_to p r processing input

  unfoldable pub mark_canonical_purchase_canceled : CanonicalTransitionInput → Result Updated
  mark_canonical_purchase_canceled input =
      if same_status r.status canceled
        || (not (same_status r.status submitted)
            && not (same_status r.status queued)
            && not (same_status r.status purchase_failed_retryable))
      then ok (same r)
      else move_to p r canceled input

  abbrev is_bought : CanonicalPurchaseStatus → Bool
  is_bought s =
      same_status s purchased || same_status s awaiting_draw_close || same_status s settled

  -- `externalTicketReference` of a bought purchase is replaced by another one that is not empty
  abbrev with_reference : Option String → Option String → Updated
  with_reference none held = same r
  with_reference (some reference) none =
      if is_empty reference
      then same r
      else changed (record r { external_ticket_reference = some reference })
  with_reference (some reference) (some held) =
      if is_empty reference || held == reference
      then same r
      else changed (record r { external_ticket_reference = some reference })

  unfoldable pub apply_canonical_attempt_outcome :
      TerminalAttemptOutcome → CanonicalTransitionInput → Result Updated
  apply_canonical_attempt_outcome retrying input =
      if same_status r.status purchase_failed_retryable || not (same_status r.status processing)
      then ok (same r)
      else move_to p r purchase_failed_retryable input
  apply_canonical_attempt_outcome error input =
      if same_status r.status purchase_failed_final || not (same_status r.status processing)
      then ok (same r)
      else move_to p r purchase_failed_final input
  apply_canonical_attempt_outcome outcome input =
      if is_bought r.status
      then ok (with_reference input.external_ticket_reference r.external_ticket_reference)
      else if not (same_status r.status processing)
      then ok (same r)
      else move_to p r purchased input

  unfoldable pub mark_canonical_purchase_awaiting_draw_close :
      CanonicalTransitionInput → Result Updated
  mark_canonical_purchase_awaiting_draw_close input =
      if same_status r.status awaiting_draw_close
        || same_status r.status settled
        || not (same_status r.status purchased)
      then ok (same r)
      else move_to p r awaiting_draw_close input
