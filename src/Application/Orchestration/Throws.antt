-- ===== src/Application/Orchestration/Throws.antt =====
-- What a confirmation that throws leaves in the stores.
use gambling.Base.{◌≡◌, Error, refl, ap, inl, inr, String, Bool, Option, none, some, Bool-cases}
use gambling.Base.Action.{returned, threw, ◌>>=◌, writes, give}
use gambling.Base.Action.Keeps.{
  Keeps, KeepsOnThrow, >>=-Keeps, >>=-KeepsOnThrow, raise_if-Keeps, present_or-Keeps, lift-Keeps,
  Keeps-KeepsOnThrow, give-Keeps, reads-Keeps,
}
use gambling.Domain.RequestState.{queued, same_state}
use gambling.Domain.PurchaseRequest.Request.{PurchaseRequestRecord}
use gambling.Domain.PurchaseRequest.Canonical.{CanonicalPurchaseRecord}
use gambling.Application.World.{World, Surroundings, on_wallet-Keeps}
use gambling.Application.Store.Requests.{Requests, save_request}
use gambling.Application.Store.Purchases.{Purchases, save_purchase}
use gambling.Application.PurchaseState.Frame.{ensure-Keeps, save_canonical-Keeps}
use gambling.Application.Store.Queue.{Queue, PurchaseQueueItem, save_queue_item}
use gambling.Application.PurchaseState.{Updated, same, changed}
use gambling.Application.Orchestration.{ConfirmAndQueueInput, save_if_changed}
use gambling.Application.Orchestration.Confirm.{
  or_ensured, replay_confirmation, save_confirmation, confirm_existing, confirm_found,
  confirm_and_queue_request,
}

-- the requests and their queue
abbrev pub orders : World → Requests × Queue
orders w = (w.requests, w.queue)

module _ {κ} {C : Type κ} (part : World → C)
    (apart : (w : World) (ps : Purchases) → part (record w { purchases = ps }) ≡ part w)
    (s : Surroundings) where
  pub or_ensured-Keeps :
      (r : PurchaseRequestRecord) (loaded : Option CanonicalPurchaseRecord)
      → Keeps part (or_ensured s r loaded)
  or_ensured-Keeps r (some purchase) = give-Keeps _
  or_ensured-Keeps r none = ensure-Keeps part apart s.platform r

  pub save_if_changed-Keeps : (updated : Updated) → Keeps part (save_if_changed updated)
  save_if_changed-Keeps (same r) = give-Keeps _
  save_if_changed-Keeps (changed r) = save_canonical-Keeps part apart s.platform r

  pub replay-Keeps :
      (r : PurchaseRequestRecord) (item : PurchaseQueueItem)
      (loaded : Option CanonicalPurchaseRecord)
      → Keeps part (replay_confirmation s r item loaded)
  unfolding replay_confirmation
  replay-Keeps r item loaded = >>=-Keeps (or_ensured-Keeps _ _) λ purchase.
      >>=-Keeps (lift-Keeps _) λ updated. >>=-Keeps (save_if_changed-Keeps _) λ _. give-Keeps _

module _ (s : Surroundings) where
  -- the stores behind a confirmation
  abbrev pub saved :
      PurchaseRequestRecord → CanonicalPurchaseRecord → PurchaseQueueItem → World → World
  saved next purchase item w = record w {
    requests = save_request w.requests next;
    purchases = save_purchase w.purchases purchase;
    queue = save_queue_item w.queue item;
  }

  pub save_confirmation_value :
      (next : PurchaseRequestRecord) (purchase : CanonicalPurchaseRecord) (item : PurchaseQueueItem)
      (replayed : Bool) (w : World)
      → save_confirmation s next purchase item replayed w
        ≡ returned
            (record { request = next; queue_item = item; replayed = replayed })
            (saved next purchase item w)
  unfolding save_confirmation ◌>>=◌ writes give
  save_confirmation_value next purchase item replayed w = refl

  save_confirmation-KeepsOnThrow :
      (next : PurchaseRequestRecord) (purchase : CanonicalPurchaseRecord) (item : PurchaseQueueItem)
      (replayed : Bool)
      → KeepsOnThrow orders (save_confirmation s next purchase item replayed)
  save_confirmation-KeepsOnThrow next purchase item replayed = record {
    at_throw = λ w v e h. cc (save_confirmation_value next purchase item replayed w, h);
  }

  existing-KeepsOnThrow :
      (input : ConfirmAndQueueInput) (id : String) (r : PurchaseRequestRecord)
      (item : Option PurchaseQueueItem) (loaded : Option CanonicalPurchaseRecord)
      → KeepsOnThrow orders (confirm_existing s input id r item loaded)
  unfolding confirm_existing
  existing-KeepsOnThrow input id r item loaded = >>=-KeepsOnThrow (raise_if-Keeps _ _ _) λ _.
      >>=-KeepsOnThrow (on_wallet-Keeps _ (λ w entries. refl)) λ reservation.
        >>=-KeepsOnThrow (or_ensured-Keeps orders (λ w ps. refl) s _ _) λ purchase.
          >>=-KeepsOnThrow (lift-Keeps _) λ updated.
            >>=-KeepsOnThrow (lift-Keeps _) λ next. save_confirmation-KeepsOnThrow _ _ _ _

  found-KeepsOnThrow :
      (input : ConfirmAndQueueInput) (id : String) (r : PurchaseRequestRecord)
      (item : Option PurchaseQueueItem) (loaded : Option CanonicalPurchaseRecord)
      → KeepsOnThrow orders (confirm_found s input id r item loaded)
  found-KeepsOnThrow input id r none loaded = existing-KeepsOnThrow input id r none loaded
  found-KeepsOnThrow input id r (some item) loaded = elim (Bool-cases (same_state r.state queued)) [
    | inl e ↦ rw e (Keeps-KeepsOnThrow (replay-Keeps orders (λ w ps. refl) s r item loaded))
    | inr e ↦ rw e (existing-KeepsOnThrow input id r (some item) loaded)
  ]

  confirm-KeepsOnThrow :
      (input : ConfirmAndQueueInput) → KeepsOnThrow orders (confirm_and_queue_request s input)
  unfolding confirm_and_queue_request
  confirm-KeepsOnThrow input = >>=-KeepsOnThrow (raise_if-Keeps _ _ _) λ _.
      >>=-KeepsOnThrow (raise_if-Keeps _ _ _) λ _. >>=-KeepsOnThrow (reads-Keeps _) λ found.
        >>=-KeepsOnThrow (present_or-Keeps _ _ _) λ existing.
          >>=-KeepsOnThrow (raise_if-Keeps _ _ _) λ _. >>=-KeepsOnThrow (reads-Keeps _) λ item.
            >>=-KeepsOnThrow (reads-Keeps _)
              λ loaded. found-KeepsOnThrow input _ existing item loaded

  -- A confirmation that throws, wherever it does, leaves the requests and the queue as they were.
  pub confirm_and_queue_request_throws :
      (input : ConfirmAndQueueInput) (w v : World) (e : Error)
      → confirm_and_queue_request s input w ≡ threw e v
      → (v.requests ≡ w.requests) × (v.queue ≡ w.queue)
  confirm_and_queue_request_throws input w v e h =
      let same = (confirm-KeepsOnThrow input).at_throw w v e h in
      (ap (λ o. o.0) same, ap (λ o. o.1) same)
