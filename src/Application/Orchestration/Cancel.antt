-- ===== src/Application/Orchestration/Cancel.antt =====
-- `cancelQueuedRequest`: the request is canceled and its reserve is released.
use gambling.Base.{
  String, true, false, not, [], ◌∷◌, ◌==◌, if◌then◌else◌, is_empty, trim, template, Result, ok, err,
  throw,
}
use gambling.Base.Action.{Action, give, lift, raise_if, present_or, reads, writes, ◌>>=◌, ◌>>◌}
use gambling.Domain.RequestState.{
  RequestState, canceled, reserve_released, same_state, state_text, assert_cancelable_request_state,
}
use gambling.Domain.PurchaseRequest.Request.{
  PurchaseRequestRecord, append_purchase_request_transition,
}
use gambling.Domain.PurchaseRequest.Canonical.{CanonicalPurchaseRecord}
use gambling.Application.World.{World, Surroundings, on_wallet}
use gambling.Application.Store.Requests.{get_request_by_id}
use gambling.Application.Store.Queue.{complete}
use gambling.Application.WalletLedger.Commands.{release_reserved_funds}
use gambling.Application.PurchaseState.{
  Updated, ensure_canonical_purchase_for_request, mark_canonical_purchase_canceled, purchase_of,
  save_canonical,
}
use gambling.Application.Orchestration.{
  CancelQueuedRequestInput, CancelQueuedRequestResult, request_not_found, request_user_mismatch,
  request_state_invalid, about_request, not_owned, clone_record, noted, canonical_noted,
  wallet_command, save_record, save_if_changed,
}

module _ (s : Surroundings) where
  -- `markCanonicalPurchaseCanceled` with the event of this service
  abbrev pub mark_canceled : CanonicalPurchaseRecord → Result Updated
  mark_canceled purchase = mark_canonical_purchase_canceled s.platform purchase (
      canonical_noted (template (purchase.snapshot.purchase_id ∷ ":canceled" ∷ [])) s.now
        "purchase canceled before execution")

  abbrev pub complete_item : String → Action World (Unit {0})
  complete_item id = writes λ w. record w { queue = complete w.queue id }

  -- the reserve was released before
  unfoldable pub cancel_again :
      PurchaseRequestRecord → String → Action World CancelQueuedRequestResult
  cancel_again existing id = do
    purchase ← ensure_canonical_purchase_for_request s.platform existing
    updated ← lift (mark_canceled purchase)
    save_if_changed updated
    complete_item id
    give (record { request = existing; replayed = true })

  -- what a cancellation saves and returns
  unfoldable pub save_cancellation :
      PurchaseRequestRecord
      → CanonicalPurchaseRecord
      → String
      → Action World CancelQueuedRequestResult
  save_cancellation next purchase id = do
    save_record next
    save_canonical purchase
    complete_item id
    give (record { request = next; replayed = false })

  -- the release of the funds of a canceled request, and what follows it
  unfoldable pub release_canceled :
      PurchaseRequestRecord
      → CanonicalPurchaseRecord
      → String
      → Action World CancelQueuedRequestResult
  release_canceled r purchase id = do
    let key = template (r.snapshot.request_id ∷ ":cancel-release" ∷ [])
    released ←
        on_wallet (release_reserved_funds s.platform (s.entry_id key) s.now (wallet_command r key))
    next ← lift (
        append_purchase_request_transition s.platform r reserve_released (
          noted (template (id ∷ ":reserve_released" ∷ [])) s.now
            "reserve released after cancellation"))
    save_cancellation next purchase id

  -- The `catch` behind the guard gives its error the service's own class.
  abbrev guarded : String → RequestState → Result (Unit {0}) → Result (Unit {0})
  guarded id state (ok u) = ok u
  guarded id state (err e) = throw request_state_invalid (
      about_request id
        (template ("cannot be canceled from state \"" ∷ state_text state ∷ "\"" ∷ [])))

  -- a canceled request whose reserve is not released yet
  unfoldable pub finish_canceled :
      PurchaseRequestRecord
      → CanonicalPurchaseRecord
      → String
      → Action World CancelQueuedRequestResult
  finish_canceled existing purchase id = do
    updated ← lift (mark_canceled purchase)
    release_canceled (clone_record existing) (purchase_of updated) id

  -- a request that is not canceled yet
  unfoldable pub cancel_open :
      PurchaseRequestRecord
      → CanonicalPurchaseRecord
      → String
      → Action World CancelQueuedRequestResult
  cancel_open existing purchase id = do
    lift (guarded id existing.state (assert_cancelable_request_state existing.state))
    updated ← lift (mark_canceled purchase)
    next ← lift (
        append_purchase_request_transition s.platform (clone_record existing) canceled (
          noted (template (id ∷ ":canceled" ∷ [])) s.now
            "request canceled before terminal execution"))
    release_canceled next (purchase_of updated) id

  unfoldable pub cancel_existing :
      PurchaseRequestRecord → String → Action World CancelQueuedRequestResult
  cancel_existing existing id = do
    purchase ← ensure_canonical_purchase_for_request s.platform existing
    if same_state existing.state canceled
        then finish_canceled existing purchase id
        else cancel_open existing purchase id

  abbrev pub cancel_found : PurchaseRequestRecord → String → Action World CancelQueuedRequestResult
  cancel_found existing id =
      if same_state existing.state reserve_released
      then cancel_again existing id
      else cancel_existing existing id

  unfoldable pub cancel_queued_request :
      CancelQueuedRequestInput → Action World CancelQueuedRequestResult
  cancel_queued_request input = do
    let id = trim input.request_id
    let user_id = trim input.user_id
    raise_if (is_empty id) request_not_found "requestId is required"
    raise_if (is_empty user_id) request_user_mismatch "userId is required"
    found ← reads (λ w. get_request_by_id w.requests id)
    existing ← present_or found request_not_found (about_request id "not found")
    raise_if (not (existing.snapshot.user_id == user_id)) request_user_mismatch
        (not_owned id user_id)
    cancel_found existing id
