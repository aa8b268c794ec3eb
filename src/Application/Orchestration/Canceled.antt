-- ===== src/Application/Orchestration/Canceled.antt =====
-- What a cancellation leaves in the stores.
use gambling.Base.{
  arith, ◌==◌, eq_iff, ◌≡◌, ◌⊎◌, [], ◌∷◌, trim, template, refl, sym, ◌∙◌, ap, inl, inr, String,
  true, none, some, ok, Bool-cases,
}
use gambling.Base.Action.{returned, returned_value, world_of}
use gambling.Base.Action.Keeps.{Keeps-returned}
use gambling.Base.Action.Returns.{
  split_call, split_guard, split_present, split_read, split_lift, split_give, split_write,
}
use gambling.Domain.RequestState.{RequestState, canceled, reserve_released, same_state}
use gambling.Domain.PurchaseRequest.Request.{PurchaseRequestRecord}
use gambling.Domain.PurchaseRequest.Canonical.{CanonicalPurchaseRecord}
use gambling.Domain.PurchaseRequest.Journal.{append_purchase_request_transition_adds}
use gambling.Application.LedgerStore.{Entries}
use gambling.Application.WalletLedger.{WalletLedgerRecordResult}
use gambling.Application.WalletLedger.Commands.{release_reserved_funds}
use gambling.Application.World.{World, Surroundings, on_wallet-eq_returned}
use gambling.Application.Store.Requests.{get_request_by_id, get_request_id, get-save_request}
use gambling.Application.Store.Queue.{get_queue_item, get-complete}
use gambling.Application.PurchaseState.{purchase_of}
use gambling.Application.PurchaseState.Frame.{ensure-Keeps}
use gambling.Application.Orchestration.{
  CancelQueuedRequestInput, CancelQueuedRequestResult, wallet_command, clone_record_copies,
}
use gambling.Application.Orchestration.Throws.{save_if_changed-Keeps}
use gambling.Application.Orchestration.Cancel.{
  cancel_again, release_canceled, finish_canceled, cancel_open, cancel_existing,
  cancel_queued_request,
}
use gambling.Application.Orchestration.CancelThrows.{save_cancellation_value}

released_state : (t : RequestState) → same_state t reserve_released ≡ true → t ≡ reserve_released
released_state reserve_released h = refl
released_state t h = ground arith

module _ (s : Surroundings) where
  -- what a cancellation says of the stores behind it
  abbrev pub IsCanceled : String → PurchaseRequestRecord → World → Type 0
  IsCanceled id r v =
      (r.state ≡ reserve_released)
      × (get_request_by_id v.requests id ≡ some r)
      × (get_queue_item v.queue id ≡ none)

  -- The funds of the request were released between the two states of the entries.
  abbrev pub IsReleased : PurchaseRequestRecord → Entries → Entries → Type 0
  IsReleased r before after =
      let key = template (r.snapshot.request_id ∷ ":cancel-release" ∷ []) in
      (done : WalletLedgerRecordResult) × (release_reserved_funds s.platform (s.entry_id key) s.now
          (wallet_command r key) before
        ≡ ok (done, after))

  release-returned :
      (x : PurchaseRequestRecord) (purchase : CanonicalPurchaseRecord) (id : String) (w v : World)
      (r : CancelQueuedRequestResult)
      → x.snapshot.request_id ≡ trim id
      → release_canceled s x purchase id w ≡ returned r v
      → IsCanceled id r.request v
        × (r.request.snapshot ≡ x.snapshot)
        × IsReleased x w.entries v.entries
  unfolding release_canceled
  release-returned x purchase id w v r named h = split_call _ _ h λ done u wallet h1.
      split_lift _ _ h1 λ next moved h2.
        let adds =
          append_purchase_request_transition_adds s.platform x next reserve_released _ moved in
        let result = sym h2 ∙ save_cancellation_value s next purchase id u in
        let (entries, released, only) = on_wallet-eq_returned _ w wallet in
        rw (returned_value result, world_of result)
          (
            (
              adds.1,
              get-save_request u.requests id next (ap (λ z. z.request_id) adds.0 ∙ named),
              get-complete u.queue id,
            ),
            adds.0,
            (done, released ∙ ap (λ z. ok (done, z)) (sym (ap (λ z. z.entries) only))),
          )

  open-returned :
      (x : PurchaseRequestRecord) (purchase : CanonicalPurchaseRecord) (id : String) (w v : World)
      (r : CancelQueuedRequestResult)
      → x.snapshot.request_id ≡ trim id
      → cancel_open s x purchase id w ≡ returned r v
      → IsCanceled id r.request v
        × (r.request.snapshot ≡ x.snapshot)
        × IsReleased x w.entries v.entries
  unfolding cancel_open
  open-returned x purchase id w v r named h = split_lift _ _ h λ _ guard h1.
      split_lift _ _ h1 λ updated _ h2. split_lift _ _ h2 λ next moved h3.
        let adds =
          append_purchase_request_transition_adds s.platform x next canceled _
            (rw (clone_record_copies x) at moved) in
        let (gone, kept, paid) =
          release-returned next (purchase_of updated) id w v r
            (ap (λ z. z.request_id) adds.0 ∙ named) h3 in
        (gone, kept ∙ adds.0, rw adds.0 at paid)

  existing-returned :
      (x : PurchaseRequestRecord) (id : String) (w v : World) (r : CancelQueuedRequestResult)
      → x.snapshot.request_id ≡ trim id
      → cancel_existing s x id w ≡ returned r v
      → IsCanceled id r.request v
        × (r.request.snapshot ≡ x.snapshot)
        × IsReleased x w.entries v.entries
  unfolding cancel_existing finish_canceled
  existing-returned x id w v r named h = split_call _ _ h λ purchase u ensured h1.
      let held =
        Keeps-returned (ensure-Keeps (λ z. z.entries) (λ z ps. refl) s.platform x) ensured in
      elim (Bool-cases (same_state x.state canceled)) [
        | inl e ↦ split_lift _ _ (rw e at h1) λ updated _ h2.
            let (gone, kept, paid) =
              release-returned x (purchase_of updated) id u v r named
                (rw (clone_record_copies x) at h2) in
            (gone, kept, rw held at paid)
        | inr e ↦
            let (gone, kept, paid) = open-returned x purchase id u v r named (rw e at h1) in
            (gone, kept, rw held at paid)
      ]

  again-returned :
      (x : PurchaseRequestRecord) (id : String) (w v : World) (r : CancelQueuedRequestResult)
      → get_request_by_id w.requests id ≡ some x
      → x.state ≡ reserve_released
      → cancel_again s x id w ≡ returned r v
      → IsCanceled id r.request v
        × (r.request ≡ x)
        × ((r.replayed ≡ true) × (v.requests ≡ w.requests) × (v.entries ≡ w.entries))
  unfolding cancel_again
  again-returned x id w v r asked now h = split_call _ _ h λ purchase u ensured h1.
      split_lift _ _ h1 λ updated _ h2. split_call _ _ h2 λ _ u' changed h3.
        split_write _ _ h3 λ h4.
          let (result, world) = split_give _ h4 in
          let asked_kept =
            Keeps-returned (save_if_changed-Keeps (λ z. z.requests) (λ z ps. refl) s updated)
              changed
            ∙ Keeps-returned (ensure-Keeps (λ z. z.requests) (λ z ps. refl) s.platform x) ensured in
          let paid_kept =
            Keeps-returned (save_if_changed-Keeps (λ z. z.entries) (λ z ps. refl) s updated) changed
            ∙ Keeps-returned (ensure-Keeps (λ z. z.entries) (λ z ps. refl) s.platform x) ensured in
          rw (result, world)
            (
              (now, rw asked_kept asked, get-complete u'.queue id),
              refl,
              (refl, asked_kept, paid_kept),
            )

  -- A cancellation that returns has left the request of the user with its reserve released, in the
  -- store of requests, and taken it out of the queue; its snapshot is the stored one, and either its
  -- funds were released in the wallet, or its reserve was released before and the call changed nothing
  -- of the requests and the wallet.
  pub cancel_queued_request_releases :
      (input : CancelQueuedRequestInput) (w v : World) (r : CancelQueuedRequestResult)
      → cancel_queued_request s input w ≡ returned r v
      → IsCanceled (trim input.request_id) r.request v
        × ((x : PurchaseRequestRecord) × (get_request_by_id w.requests (trim input.request_id)
              ≡ some x)
            × (x.snapshot.user_id ≡ trim input.user_id)
            × (r.request.snapshot ≡ x.snapshot)
            × (IsReleased x w.entries v.entries
                ⊎ ((r.replayed ≡ true) × (v.requests ≡ w.requests) × (v.entries ≡ w.entries))))
  unfolding cancel_queued_request
  cancel_queued_request_releases input w v r h = split_guard _ _ _ _ h λ _ h1.
      split_guard _ _ _ _ h1 λ _ h2. split_read _ _ h2 λ h3. split_present _ _ _ _ h3 λ x asked h4.
        split_guard _ _ _ _ h4 λ owned h5.
          let user : (x.snapshot.user_id == trim input.user_id) ≡ true = ground arith in
          let same_user = (eq_iff x.snapshot.user_id (trim input.user_id)).0 user in
          elim (Bool-cases (same_state x.state reserve_released)) [
            | inl e ↦
                let (gone, kept, rest) =
                  again-returned x (trim input.request_id) w v r asked (released_state x.state e)
                    (rw e at h5) in
                (gone, (x, asked, same_user, ap (λ z. z.snapshot) kept, inr rest))
            | inr e ↦
                let (gone, kept, paid) =
                  existing-returned x (trim input.request_id) w v r
                    (get_request_id w.requests (trim input.request_id) x asked) (rw e at h5) in
                (gone, (x, asked, same_user, kept, inl paid))
          ]
