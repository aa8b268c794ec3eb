-- ===== src/Tests/Purchase.antt =====
-- Tests of purchase requests and of canonical purchases.
use gambling.Base.{
  ◌≡◌, ◌≢◌, ◌⊎◌, ◌↔◌, inr, inl, refl, true, false, some, none, [], ◌∷◌, ◌++◌, integer, ok, trim,
  is_empty, is_space, template, trim_option,
}
use gambling.Base.Int.{pos}
use gambling.Base.Platform.{require_text, require_date, is_nan_date}
use gambling.Domain.RequestState.{
  RequestState, CanonicalPurchaseStatus, pending, win, hidden, visible, settled,
  apply_request_state_transition, apply_canonical_purchase_status_transition,
}
use gambling.Domain.RequestState.Paths.{
  ◌⟶*◌, here, ◌⇒*◌, start, then, final_absorbs, IsFinal-reachable, IsFinal, settled_visits, visits,
}
use gambling.Domain.PurchaseDraft.Payload.{end, clone_purchase_draft_payload}
use gambling.Domain.PurchaseRequest.Request.{
  PurchaseRequestRecord, CreateAwaitingConfirmationRequestInput, TransitionInput, clone_snapshot,
  create_awaiting_confirmation_request, append_purchase_request_transition,
}
use gambling.Domain.PurchaseRequest.Journal.{Reached, created, IsChain, Reached-IsChain}
use gambling.Domain.PurchaseRequest.Canonical.{
  append_canonical_purchase_transition, JournalKind, CanonicalPurchaseRecord,
  CreateSubmittedCanonicalPurchaseInput, create_submitted_canonical_purchase,
  clone_canonical_snapshot,
}
use gambling.Domain.PurchaseRequest.Outcome.{
  ResultInput, VisibilityInput, apply_canonical_purchase_result,
  set_canonical_purchase_result_visibility, with_visibility,
}
use gambling.Domain.PurchaseRequest.Lifecycle
use gambling.Domain.PurchaseRequest.Lifecycle.{IsAccounted, Reached-IsAccounted, publication}
use gambling.Domain.PurchaseRequest.Recording.{MayRecord, apply_canonical_purchase_result_iff}
use gambling.Application.Compatibility.{map_canonical_purchase_status_to_request_state}
use gambling.Application.Compatibility.Simulation.{Reached-projection}
use gambling.Tests.Engine.{engine, first_day, second_day}

abbrev request_input : CreateAwaitingConfirmationRequestInput
request_input = record {
  request_id = " r1";
  user_id = "ann";
  lottery_code = "lotto";
  draw_id = "d1";
  payload = end;
  cost_minor = integer (pos 100);
  currency = "RUB";
  created_at = first_day;
}

abbrev awaiting : PurchaseRequestRecord
awaiting = record {
  snapshot = record {
    request_id = "r1";
    user_id = "ann";
    lottery_code = "lotto";
    draw_id = "d1";
    payload = end;
    cost_minor = pos 100;
    currency = "RUB";
    created_at = first_day;
  };
  state = RequestState.awaiting_confirmation;
  journal =
      record {
        event_id = "r1:awaiting_confirmation";
        from_state = RequestState.created;
        to_state = RequestState.awaiting_confirmation;
        occurred_at = first_day;
        note = some "request snapshot persisted";
      }
      ∷ [];
}

abbrev event : TransitionInput
event = record { event_id = "e1"; occurred_at = first_day; note = none }

abbrev confirmed : PurchaseRequestRecord
confirmed = record awaiting {
  state = RequestState.confirmed;
  journal =
      awaiting.journal
      ++ record {
        event_id = "e1";
        from_state = RequestState.awaiting_confirmation;
        to_state = RequestState.confirmed;
        occurred_at = first_day;
        note = none;
      }
        ∷ [];
}

request_created : create_awaiting_confirmation_request engine request_input ≡ ok awaiting
unfolding create_awaiting_confirmation_request apply_request_state_transition require_text
    require_date trim is_space template clone_purchase_draft_payload
request_created = refl

request_confirmed :
    append_purchase_request_transition engine awaiting RequestState.confirmed event ≡ ok confirmed
unfolding append_purchase_request_transition apply_request_state_transition require_text
    require_date trim is_space clone_snapshot clone_purchase_draft_payload
request_confirmed = refl

Reached-IsChain_example :
    IsChain RequestState.created confirmed.journal RequestState.confirmed
    × (RequestState.created ⟶* RequestState.confirmed)
Reached-IsChain_example = Reached-IsChain (
    Reached.moved RequestState.confirmed event (created request_input request_created)
      request_confirmed)

final_absorbs_example : RequestState.success ≡ RequestState.success
final_absorbs_example = final_absorbs (inl refl) here

IsFinal-reachable_example :
    (t : RequestState) × IsFinal t × (RequestState.awaiting_confirmation ⟶* t)
IsFinal-reachable_example = IsFinal-reachable RequestState.awaiting_confirmation

path : CanonicalPurchaseStatus.submitted ⇒* settled
unfolding apply_canonical_purchase_status_transition
path =
    then {t = CanonicalPurchaseStatus.awaiting_draw_close}
      (then {t = CanonicalPurchaseStatus.purchased}
        (then {t = CanonicalPurchaseStatus.processing}
          (then {t = CanonicalPurchaseStatus.queued}
            (then {t = CanonicalPurchaseStatus.submitted} start refl) refl)
          refl)
        refl)
      refl

settled_visits_example :
    (visits CanonicalPurchaseStatus.processing path ≡ true)
    × (visits CanonicalPurchaseStatus.purchased path ≡ true)
    × (visits CanonicalPurchaseStatus.awaiting_draw_close path ≡ true)
settled_visits_example = settled_visits path

abbrev purchase_input : CreateSubmittedCanonicalPurchaseInput
purchase_input = record {
  purchase_id = "p1";
  legacy_request_id = none;
  user_id = "ann";
  lottery_code = "lotto";
  draw_id = "d1";
  payload = end;
  cost_minor = integer (pos 100);
  currency = "RUB";
  submitted_at = first_day;
}

abbrev submitted_purchase : CanonicalPurchaseRecord
submitted_purchase = record {
  snapshot = record {
    purchase_id = "p1";
    legacy_request_id = none;
    user_id = "ann";
    lottery_code = "lotto";
    draw_id = "d1";
    payload = end;
    cost_minor = pos 100;
    currency = "RUB";
    submitted_at = first_day;
  };
  status = CanonicalPurchaseStatus.submitted;
  result_status = pending;
  result_visibility = hidden;
  purchased_at = none;
  settled_at = none;
  external_ticket_reference = none;
  journal =
      record {
        event_id = "p1:submitted";
        kind = JournalKind.status;
        previous_value = none;
        next_value = "submitted";
        occurred_at = first_day;
        note = some "canonical purchase snapshot persisted";
      }
      ∷ [];
}

purchase_created : create_submitted_canonical_purchase engine purchase_input ≡ ok submitted_purchase
unfolding create_submitted_canonical_purchase require_text require_date trim is_space template
    trim_option clone_purchase_draft_payload
purchase_created = refl

abbrev queued_purchase : CanonicalPurchaseRecord
queued_purchase = record submitted_purchase {
  status = CanonicalPurchaseStatus.queued;
  journal =
      submitted_purchase.journal
      ++ record {
        event_id = "e1";
        kind = JournalKind.status;
        previous_value = some "submitted";
        next_value = "queued";
        occurred_at = first_day;
        note = none;
      }
        ∷ [];
}

purchase_queued :
    append_canonical_purchase_transition engine submitted_purchase CanonicalPurchaseStatus.queued
      event none
    ≡ ok queued_purchase
unfolding append_canonical_purchase_transition apply_canonical_purchase_status_transition
    require_text require_date trim is_space trim_option clone_canonical_snapshot
    clone_purchase_draft_payload
purchase_queued = refl

Reached-IsAccounted_example : IsAccounted queued_purchase
Reached-IsAccounted_example = Reached-IsAccounted (
    Lifecycle.stepped (Lifecycle.created purchase_input purchase_created)
      (Lifecycle.moving CanonicalPurchaseStatus.queued event none purchase_queued))

Reached-projection_example :
    (RequestState.confirmed ⟶* map_canonical_purchase_status_to_request_state submitted_purchase)
    × (map_canonical_purchase_status_to_request_state submitted_purchase
        ⟶* map_canonical_purchase_status_to_request_state queued_purchase)
Reached-projection_example =
    Reached-projection (Lifecycle.created purchase_input purchase_created)
      (Lifecycle.moving CanonicalPurchaseStatus.queued event none purchase_queued)

abbrev won_purchase : CanonicalPurchaseRecord
won_purchase = record submitted_purchase {
  status = settled;
  result_status = win;
  purchased_at = some first_day;
  settled_at = some second_day;
}

abbrev publish : VisibilityInput
publish = record {
  event_id = "e2";
  occurred_at = second_day;
  result_visibility = visible;
  note = none;
}

abbrev published_purchase : CanonicalPurchaseRecord
published_purchase = with_visibility won_purchase visible "e2" second_day none

purchase_published :
    set_canonical_purchase_result_visibility engine won_purchase publish ≡ ok published_purchase
unfolding set_canonical_purchase_result_visibility require_text require_date trim is_space
purchase_published = refl

publication_example :
    (published_purchase.result_visibility ≡ won_purchase.result_visibility)
    ⊎ ((won_purchase.result_visibility ≡ hidden)
        × (published_purchase.result_visibility ≡ visible)
        × (won_purchase.status ≡ settled)
        × (won_purchase.result_status ≢ pending))
publication_example = publication (Lifecycle.showing publish purchase_published)

abbrev reset : ResultInput
reset = record { event_id = "e3"; occurred_at = second_day; result_status = pending; note = none }

-- a published result, set back to pending
apply_canonical_purchase_result_iff_example :
    ((r' : CanonicalPurchaseRecord) × (apply_canonical_purchase_result engine published_purchase
          reset
        ≡ ok r')
      × (r'.result_status ≡ pending)
      × (r'.result_visibility ≡ visible))
    ↔ ((is_empty (trim "e3") ≡ false)
        × (is_empty (trim second_day) ≡ false)
        × (is_nan_date engine (trim second_day) ≡ false)
        × MayRecord settled win pending)
apply_canonical_purchase_result_iff_example =
    apply_canonical_purchase_result_iff engine published_purchase reset

reset_allowed :
    (is_empty (trim "e3") ≡ false)
    × (is_empty (trim second_day) ≡ false)
    × (is_nan_date engine (trim second_day) ≡ false)
    × MayRecord settled win pending
unfolding trim is_space
reset_allowed = (refl, refl, refl, inr (inl refl))
