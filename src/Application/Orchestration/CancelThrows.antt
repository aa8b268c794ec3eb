-- ===== src/Application/Orchestration/CancelThrows.antt =====
-- What a cancellation that throws leaves in the stores.
use gambling.Base.{◌≡◌, Error, refl, ap, inl, inr, String, false, Bool-cases}
use gambling.Base.Action.{returned, threw, ◌>>=◌, writes, give}
use gambling.Base.Action.Keeps.{
  KeepsOnThrow, >>=-KeepsOnThrow, raise_if-Keeps, present_or-Keeps, lift-Keeps, reads-Keeps,
  last-KeepsOnThrow,
}
use gambling.Domain.RequestState.{canceled, reserve_released, same_state}
use gambling.Domain.PurchaseRequest.Request.{PurchaseRequestRecord}
use gambling.Domain.PurchaseRequest.Canonical.{CanonicalPurchaseRecord}
use gambling.Application.World.{World, Surroundings, on_wallet-Keeps}
use gambling.Application.Store.Requests.{save_request}
use gambling.Application.Store.Queue.{complete}
use gambling.Application.Store.Purchases.{save_purchase}
use gambling.Application.PurchaseState.Frame.{ensure-Keeps}
use gambling.Application.Orchestration.{CancelQueuedRequestInput}
use gambling.Application.Orchestration.Throws.{orders, save_if_changed-Keeps}
use gambling.Application.Orchestration.Cancel.{
  cancel_again, save_cancellation, release_canceled, finish_canceled, cancel_open, cancel_existing,
  cancel_queued_request,
}

module _ (s : Surroundings) where
  -- the stores behind a cancellation
  abbrev pub saved : PurchaseRequestRecord → CanonicalPurchaseRecord → String → World → World
  saved next purchase id w = record w {
    requests = save_request w.requests next;
    purchases = save_purchase w.purchases purchase;
    queue = complete w.queue id;
  }

  pub save_cancellation_value :
      (next : PurchaseRequestRecord) (purchase : CanonicalPurchaseRecord) (id : String) (w : World)
      → save_cancellation s next purchase id w
        ≡ returned (record { request = next; replayed = false }) (saved next purchase id w)
  unfolding save_cancellation ◌>>=◌ writes give
  save_cancellation_value next purchase id w = refl

  save_cancellation-KeepsOnThrow :
      (next : PurchaseRequestRecord) (purchase : CanonicalPurchaseRecord) (id : String)
      → KeepsOnThrow orders (save_cancellation s next purchase id)
  save_cancellation-KeepsOnThrow next purchase id = record {
    at_throw = λ w v e h. cc (save_cancellation_value next purchase id w, h);
  }

  release-KeepsOnThrow :
      (r : PurchaseRequestRecord) (purchase : CanonicalPurchaseRecord) (id : String)
      → KeepsOnThrow orders (release_canceled s r purchase id)
  unfolding release_canceled
  release-KeepsOnThrow r purchase id =
      >>=-KeepsOnThrow (on_wallet-Keeps _ (λ w entries. refl))
        λ _. >>=-KeepsOnThrow (lift-Keeps _) λ next. save_cancellation-KeepsOnThrow next purchase id

  again-KeepsOnThrow :
      (x : PurchaseRequestRecord) (id : String) → KeepsOnThrow orders (cancel_again s x id)
  unfolding cancel_again
  again-KeepsOnThrow x id =
      >>=-KeepsOnThrow (ensure-Keeps orders (λ w ps. refl) s.platform x) λ purchase.
        >>=-KeepsOnThrow (lift-Keeps _) λ updated.
          >>=-KeepsOnThrow (save_if_changed-Keeps orders (λ w ps. refl) s _)
            λ _. last-KeepsOnThrow _ _

  existing-KeepsOnThrow :
      (x : PurchaseRequestRecord) (id : String) → KeepsOnThrow orders (cancel_existing s x id)
  unfolding cancel_existing finish_canceled cancel_open
  existing-KeepsOnThrow x id =
      >>=-KeepsOnThrow (ensure-Keeps orders (λ w ps. refl) s.platform x) λ purchase.
        elim (Bool-cases (same_state x.state canceled)) [
          | inl e ↦ rw e (>>=-KeepsOnThrow (lift-Keeps _) λ updated. release-KeepsOnThrow _ _ _)
          | inr e ↦ rw e (
              >>=-KeepsOnThrow (lift-Keeps _) λ _.
                >>=-KeepsOnThrow (lift-Keeps _)
                  λ updated. >>=-KeepsOnThrow (lift-Keeps _) λ next. release-KeepsOnThrow _ _ _)
        ]

  cancel-KeepsOnThrow :
      (input : CancelQueuedRequestInput) → KeepsOnThrow orders (cancel_queued_request s input)
  unfolding cancel_queued_request
  cancel-KeepsOnThrow input = >>=-KeepsOnThrow (raise_if-Keeps _ _ _) λ _.
      >>=-KeepsOnThrow (raise_if-Keeps _ _ _) λ _. >>=-KeepsOnThrow (reads-Keeps _) λ found.
        >>=-KeepsOnThrow (present_or-Keeps _ _ _) λ existing.
          >>=-KeepsOnThrow (raise_if-Keeps _ _ _) λ _.
            elim (Bool-cases (same_state existing.state reserve_released)) [
              | inl e ↦ rw e (again-KeepsOnThrow existing _)
              | inr e ↦ rw e (existing-KeepsOnThrow existing _)
            ]

  -- A cancellation that throws, wherever it does, leaves the requests and the queue as they were.
  pub cancel_queued_request_throws :
      (input : CancelQueuedRequestInput) (w v : World) (e : Error)
      → cancel_queued_request s input w ≡ threw e v
      → (v.requests ≡ w.requests) × (v.queue ≡ w.queue)
  cancel_queued_request_throws input w v e h =
      let kept = (cancel-KeepsOnThrow input).at_throw w v e h in
      (ap (λ o. o.0) kept, ap (λ o. o.1) kept)
