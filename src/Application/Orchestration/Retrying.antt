-- ===== src/Application/Orchestration/Retrying.antt =====
-- A request that waits for its next attempt cannot be canceled.
use gambling.Base.{◌≡◌, refl, inl, inr, String, Error, ok, trim, some, false, ◌≢◌}
use gambling.Base.Action.{returned, threw, Outcome-cases}
use gambling.Base.Action.Returns.{split_call, split_guard, split_present, split_read, split_lift}
use gambling.Domain.RequestState.{
  RequestState, retrying, canceled, reserve_released, same_state, apply_request_state_transition,
  assert_cancelable_request_state,
}
use gambling.Domain.PurchaseRequest.Request.{PurchaseRequestRecord}
use gambling.Domain.PurchaseRequest.Canonical.{CanonicalPurchaseRecord}
use gambling.Domain.PurchaseRequest.Journal.{append_purchase_request_transition_adds}
use gambling.Application.World.{World, Surroundings}
use gambling.Application.Store.Requests.{get_request_by_id}
use gambling.Application.Orchestration.{
  CancelQueuedRequestInput, CancelQueuedRequestResult, clone_record_copies,
}
use gambling.Application.Orchestration.Cancel.{
  cancel_open, cancel_existing, cancel_found, cancel_queued_request,
}
use gambling.Application.Orchestration.CancelThrows.{cancel_queued_request_throws}

no_step :
    (t : RequestState) → t ≡ retrying → apply_request_state_transition t canceled ≢ ok canceled
no_step t e = rw e (unfold apply_request_state_transition in λ h. cc)

module _ (s : Surroundings) (x : PurchaseRequestRecord) (waits : x.state ≡ retrying)
    (id : String) where
  open_throws :
      (purchase : CanonicalPurchaseRecord) (w v : World) (r : CancelQueuedRequestResult)
      → cancel_open s x purchase id w ≢ returned r v
  unfolding cancel_open
  open_throws purchase w v r h = split_lift _ _ h λ _ guard h1. split_lift _ _ h1 λ updated _ h2.
      split_lift _ _ h2 λ next moved h3.
        let (_, _, step, _) =
          append_purchase_request_transition_adds s.platform x next canceled _
            (rw (clone_record_copies x) at moved) in
        no_step x.state waits step

  found_throws :
      (w v : World) (r : CancelQueuedRequestResult) → cancel_found s x id w ≢ returned r v
  unfolding cancel_existing
  found_throws w v r h =
      let not_released : same_state x.state reserve_released ≡ false = rw waits refl in
      let not_canceled : same_state x.state canceled ≡ false = rw waits refl in
      split_call _ _ (rw not_released at h)
        λ purchase u ensured h1. open_throws purchase u v r (rw not_canceled at h1)

no_return :
    (s : Surroundings) (input : CancelQueuedRequestInput) (w v : World) (x : PurchaseRequestRecord)
    (r : CancelQueuedRequestResult)
    → get_request_by_id w.requests (trim input.request_id) ≡ some x
    → x.state ≡ retrying
    → cancel_queued_request s input w ≢ returned r v
unfolding cancel_queued_request
no_return s input w v x r asked waits h = split_guard _ _ _ _ h λ _ h1.
    split_guard _ _ _ _ h1 λ _ h2. split_read _ _ h2 λ h3. split_present _ _ _ _ h3 λ y found h4.
      split_guard _ _ _ _ h4 λ owned h5.
        let waiting : y.state ≡ retrying = cc in
        found_throws s y waiting (trim input.request_id) w v r h5

-- A stored request that waits for its next attempt is never canceled: the guard of the cancellation
-- accepts its state, but the call throws, and the requests and the queue stay as they were.
pub cancel_retrying_throws :
    (s : Surroundings) (input : CancelQueuedRequestInput) (w : World) (x : PurchaseRequestRecord)
    → get_request_by_id w.requests (trim input.request_id) ≡ some x
    → x.state ≡ retrying
    → (assert_cancelable_request_state x.state ≡ ok tt)
      × ((e : Error) × (v : World) × (cancel_queued_request s input w ≡ threw e v)
          × (v.requests ≡ w.requests)
          × (v.queue ≡ w.queue))
cancel_retrying_throws s input w x asked waits = (
  rw waits (unfold assert_cancelable_request_state in refl),
  elim (Outcome-cases (cancel_queued_request s input w)) [
    | inl (r, v, h) ↦ absurd (no_return s input w v x r asked waits h)
    | inr (e, v, h) ↦
        let (asked_kept, queue_kept) = cancel_queued_request_throws s input w v e h in
        (e, v, h, asked_kept, queue_kept)
  ],
)
