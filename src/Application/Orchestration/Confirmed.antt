-- ===== src/Application/Orchestration/Confirmed.antt =====
-- What a confirmation leaves in the stores.
use gambling.Base.{
  arith, ◌==◌, eq_iff, ◌≡◌, ◌⊎◌, [], ◌∷◌, trim, template, or_else, refl, sym, ◌∙◌, ap, inl, inr,
  String, Bool, true, false, Option, none, some, ok, Bool-cases,
}
use gambling.Base.Action.{returned, returned_value, world_of}
use gambling.Base.Action.Keeps.{Keeps-returned}
use gambling.Base.Action.Returns.{
  split_call, split_guard, split_present, split_read, split_lift, split_give,
}
use gambling.Domain.RequestState.{RequestState, queued, same_state}
use gambling.Domain.PurchaseRequest.Request.{PurchaseRequestRecord}
use gambling.Domain.PurchaseRequest.Canonical.{CanonicalPurchaseRecord}
use gambling.Application.LedgerStore.{Entries}
use gambling.Application.WalletLedger.{WalletLedgerRecordResult}
use gambling.Application.WalletLedger.Commands.{reserve_funds}
use gambling.Application.World.{World, Surroundings, on_wallet-eq_returned}
use gambling.Application.Store.Requests.{get_request_by_id, get_request_id, get-save_request}
use gambling.Application.Store.Queue.{
  Queue, PurchaseQueueItem, PurchaseQueuePriority, get_queue_item, get_queue_item_id,
  get-save_queue_item,
}
use gambling.Application.PurchaseState.{purchase_of}
use gambling.Application.Orchestration.{
  ConfirmAndQueueInput, ConfirmAndQueueResult, wallet_command, clone_record_copies,
}
use gambling.Application.Orchestration.Advance.{advance-eq_ok}
use gambling.Application.Orchestration.Confirm.{
  or_ensured, new_item, replay_confirmation, confirm_existing, confirm_found,
  confirm_and_queue_request,
}
use gambling.Application.Orchestration.Throws.{
  orders, or_ensured-Keeps, replay-Keeps, saved, save_confirmation_value,
}

queued_state : (t : RequestState) → same_state t queued ≡ true → t ≡ queued
queued_state queued h = refl
queued_state t h = ground arith

module _ (s : Surroundings) where
  -- what a confirmation says of the stores behind it
  abbrev pub IsQueued : String → ConfirmAndQueueResult → World → Type 0
  IsQueued id r v =
      (r.request.state ≡ queued)
      × (get_request_by_id v.requests id ≡ some r.request)
      × (get_queue_item v.queue id ≡ some r.queue_item)

  -- The funds of the request were reserved between the two states of the entries.
  abbrev pub IsReserved : PurchaseRequestRecord → Entries → Entries → Type 0
  IsReserved r before after =
      let key = template (r.snapshot.request_id ∷ ":reserve" ∷ []) in
      (done : WalletLedgerRecordResult) × (reserve_funds s.platform (s.entry_id key) s.now
          (wallet_command r key) before
        ≡ ok (done, after))

  saved-IsQueued :
      (id : String) (next : PurchaseRequestRecord) (purchase : CanonicalPurchaseRecord)
      (item : PurchaseQueueItem) (replayed : Bool) (w : World)
      → next.state ≡ queued
      → next.snapshot.request_id ≡ trim id
      → item.request_id ≡ trim id
      → IsQueued id
          (record { request = next; queue_item = item; replayed = replayed })
          (saved s next purchase item w)
  saved-IsQueued id next purchase item replayed w now named listed =
      (now, get-save_request w.requests id next named, get-save_queue_item w.queue id item listed)

  item_id :
      (store : Queue) (id : String) (next : PurchaseRequestRecord)
      (priority : Option PurchaseQueuePriority) (item : Option PurchaseQueueItem)
      → get_queue_item store id ≡ item
      → next.snapshot.request_id ≡ trim id
      → (or_else item (new_item s next priority)).request_id ≡ trim id
  item_id store id next priority none found named = named
  item_id store id next priority (some item) found named = get_queue_item_id store id item found

  or_ensured-entries :
      (x : PurchaseRequestRecord) (loaded : Option CanonicalPurchaseRecord) (w v : World)
      (purchase : CanonicalPurchaseRecord)
      → or_ensured s x loaded w ≡ returned purchase v
      → v.entries ≡ w.entries
  or_ensured-entries x loaded w v purchase h =
      Keeps-returned (or_ensured-Keeps (λ z. z.entries) (λ z ps. refl) s x loaded) h

  existing-returned :
      (input : ConfirmAndQueueInput) (id : String) (x : PurchaseRequestRecord)
      (item : Option PurchaseQueueItem) (loaded : Option CanonicalPurchaseRecord) (w v : World)
      (r : ConfirmAndQueueResult)
      → x.snapshot.request_id ≡ trim id
      → get_queue_item w.queue id ≡ item
      → confirm_existing s input id x item loaded w ≡ returned r v
      → IsQueued id r v × (r.request.snapshot ≡ x.snapshot) × IsReserved x w.entries v.entries
  unfolding confirm_existing
  existing-returned input id x item loaded w v r named found h = split_guard _ _ _ _ h λ ready h1.
      split_call _ _ h1 λ done u wallet h2. split_call _ _ h2 λ purchase u' ensured h3.
        split_lift _ _ h3 λ updated _ h4. split_lift _ _ h4 λ next moved h5.
          let (kept, now) =
            advance-eq_ok s x next id (ground arith) (rw (clone_record_copies x) at moved) in
          let result = sym h5 ∙ save_confirmation_value s next (purchase_of updated) _ _ u' in
          let (entries, reserved, only) = on_wallet-eq_returned _ w wallet in
          let held = or_ensured-entries x loaded u u' purchase ensured ∙ ap (λ z. z.entries) only in
          let id_kept = ap (λ z. z.request_id) kept ∙ named in
          rw (returned_value result, world_of result)
            (
              saved-IsQueued id next (purchase_of updated) _ false u' now id_kept
                  (item_id w.queue id next input.priority item found id_kept),
              kept,
              (done, reserved ∙ ap (λ z. ok (done, z)) (sym held)),
            )

  replay_returned :
      (id : String) (x : PurchaseRequestRecord) (item : PurchaseQueueItem)
      (loaded : Option CanonicalPurchaseRecord) (w v : World) (r : ConfirmAndQueueResult)
      → get_request_by_id w.requests id ≡ some x
      → get_queue_item w.queue id ≡ some item
      → x.state ≡ queued
      → replay_confirmation s x item loaded w ≡ returned r v
      → IsQueued id r v
        × (r.request.snapshot ≡ x.snapshot)
        × (IsReserved x w.entries v.entries
            ⊎ ((r.replayed ≡ true) × (orders v ≡ orders w) × (v.entries ≡ w.entries)))
  unfolding replay_confirmation
  replay_returned id x item loaded w v r asked found now h =
      let apart = Keeps-returned (replay-Keeps orders (λ z ps. refl) s x item loaded) h in
      let paid = Keeps-returned (replay-Keeps (λ z. z.entries) (λ z ps. refl) s x item loaded) h in
      split_call _ _ h λ purchase u ensured h1. split_lift _ _ h1 λ updated _ h2.
        split_call _ _ h2 λ _ u' _ h3. rw (split_give _ h3).0 (
          (now, rw (ap (λ o. o.0) apart) asked, rw (ap (λ o. o.1) apart) found),
          refl,
          inr (refl, apart, paid),
        )

  found-returned :
      (input : ConfirmAndQueueInput) (id : String) (x : PurchaseRequestRecord)
      (item : Option PurchaseQueueItem) (loaded : Option CanonicalPurchaseRecord) (w v : World)
      (r : ConfirmAndQueueResult)
      → get_request_by_id w.requests id ≡ some x
      → get_queue_item w.queue id ≡ item
      → confirm_found s input id x item loaded w ≡ returned r v
      → IsQueued id r v
        × (r.request.snapshot ≡ x.snapshot)
        × (IsReserved x w.entries v.entries
            ⊎ ((r.replayed ≡ true) × (orders v ≡ orders w) × (v.entries ≡ w.entries)))
  found-returned input id x none loaded w v r asked found h =
      let (queued_now, kept, reserved) =
        existing-returned input id x none loaded w v r (get_request_id w.requests id x asked) found
          h in
      (queued_now, kept, inl reserved)
  found-returned input id x (some item) loaded w v r asked found h =
      elim (Bool-cases (same_state x.state queued)) [
        | inl e ↦
            replay_returned id x item loaded w v r asked found (queued_state x.state e) (rw e at h)
        | inr e ↦
            let (queued_now, kept, reserved) =
              existing-returned input id x (some item) loaded w v r
                (get_request_id w.requests id x asked) found (rw e at h) in
            (queued_now, kept, inl reserved)
      ]

  -- A confirmation that returns has left the request of the user queued, in the store of requests and
  -- in the queue, under the id that was given; its snapshot is the stored one, and either its funds
  -- were reserved, or it was queued before and the call changed nothing of the requests, the queue and
  -- the wallet.
  pub confirm_and_queue_request_queues :
      (input : ConfirmAndQueueInput) (w v : World) (r : ConfirmAndQueueResult)
      → confirm_and_queue_request s input w ≡ returned r v
      → IsQueued (trim input.request_id) r v
        × ((x : PurchaseRequestRecord) × (get_request_by_id w.requests (trim input.request_id)
              ≡ some x)
            × (x.snapshot.user_id ≡ trim input.user_id)
            × (r.request.snapshot ≡ x.snapshot)
            × (IsReserved x w.entries v.entries
                ⊎ ((r.replayed ≡ true) × (orders v ≡ orders w) × (v.entries ≡ w.entries))))
  unfolding confirm_and_queue_request
  confirm_and_queue_request_queues input w v r h = split_guard _ _ _ _ h λ _ h1.
      split_guard _ _ _ _ h1 λ _ h2. split_read _ _ h2 λ h3. split_present _ _ _ _ h3 λ x asked h4.
        split_guard _ _ _ _ h4 λ owned h5. split_read _ _ h5 λ h6. split_read _ _ h6 λ h7.
          let (queued_now, kept, paid) =
            found-returned input (trim input.request_id) x _ _ w v r asked refl h7 in
          let user : (x.snapshot.user_id == trim input.user_id) ≡ true = ground arith in
          (
            queued_now,
            (x, asked, (eq_iff x.snapshot.user_id (trim input.user_id)).0 user, kept, paid),
          )
