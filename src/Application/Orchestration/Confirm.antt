-- ===== src/Application/Orchestration/Confirm.antt =====
-- `confirmAndQueueRequest`: the funds are reserved, and the request is confirmed and queued.
use gambling.Base.{
  String, Bool, true, not, ◌&&◌, Option, none, some, [], ◌∷◌, ◌==◌, if◌then◌else◌, or_else, is_some,
  is_empty, trim, template,
}
use gambling.Base.Action.{Action, give, lift, raise_if, present_or, reads, writes, ◌>>=◌, ◌>>◌}
use gambling.Domain.RequestState.{queued, same_state, state_text}
use gambling.Domain.PurchaseRequest.Request.{PurchaseRequestRecord}
use gambling.Domain.PurchaseRequest.Canonical.{CanonicalPurchaseRecord}
use gambling.Application.World.{World, Surroundings, on_wallet}
use gambling.Application.Store.Requests.{get_request_by_id}
use gambling.Application.Store.Queue
use gambling.Application.Store.Queue.{
  PurchaseQueuePriority, PurchaseQueueItem, regular, get_queue_item, save_queue_item,
}
use gambling.Application.WalletLedger.Commands.{reserve_funds}
use gambling.Application.PurchaseState.{
  load_canonical_purchase_for_request, ensure_canonical_purchase_for_request,
  queue_canonical_purchase, purchase_of, save_canonical,
}
use gambling.Application.Orchestration.Advance.{is_confirmable, advance}
use gambling.Application.Orchestration.{
  ConfirmAndQueueInput, ConfirmAndQueueResult, request_not_found, request_user_mismatch,
  request_state_invalid, about_request, not_owned, clone_record, canonical_noted, wallet_command,
  save_record, save_if_changed,
}

module _ (s : Surroundings) where
  -- `canonicalPurchase ??= await ensureCanonicalPurchaseForRequest(...)`
  abbrev pub or_ensured :
      PurchaseRequestRecord → Option CanonicalPurchaseRecord → Action World CanonicalPurchaseRecord
  or_ensured r (some purchase) = give purchase
  or_ensured r none = ensure_canonical_purchase_for_request s.platform r

  abbrev pub new_item : PurchaseRequestRecord → Option PurchaseQueuePriority → PurchaseQueueItem
  new_item r priority = record {
    request_id = r.snapshot.request_id;
    lottery_code = r.snapshot.lottery_code;
    user_id = r.snapshot.user_id;
    draw_id = r.snapshot.draw_id;
    attempt_count = 0;
    priority = or_else priority regular;
    enqueued_at = s.now;
    status = Queue.queued;
  }

  -- the request is queued and has its item
  unfoldable pub replay_confirmation :
      PurchaseRequestRecord
      → PurchaseQueueItem
      → Option CanonicalPurchaseRecord
      → Action World ConfirmAndQueueResult
  replay_confirmation existing item loaded = do
    purchase ← or_ensured existing loaded
    updated ← lift (
        queue_canonical_purchase s.platform purchase (
          canonical_noted (template (purchase.snapshot.purchase_id ∷ ":queued" ∷ [])) s.now
            "canonical purchase aligned with queued compatibility request"))
    save_if_changed updated
    give (record { request = existing; queue_item = item; replayed = true })

  -- what a confirmation saves and returns
  unfoldable pub save_confirmation :
      PurchaseRequestRecord
      → CanonicalPurchaseRecord
      → PurchaseQueueItem
      → Bool
      → Action World ConfirmAndQueueResult
  save_confirmation next purchase item replayed = do
    save_record next
    save_canonical purchase
    writes (λ w. record w { queue = save_queue_item w.queue item })
    give (record { request = next; queue_item = item; replayed = replayed })

  -- the guard, the reservation, and what is saved afterwards
  unfoldable pub confirm_existing :
      ConfirmAndQueueInput
      → String
      → PurchaseRequestRecord
      → Option PurchaseQueueItem
      → Option CanonicalPurchaseRecord
      → Action World ConfirmAndQueueResult
  confirm_existing input id existing queued_item loaded = do
    raise_if (not (is_confirmable existing.state)) request_state_invalid (
        about_request id
          (template ("cannot be queued from state \"" ∷ state_text existing.state ∷ "\"" ∷ [])))
    let key = template (existing.snapshot.request_id ∷ ":reserve" ∷ [])
    reservation ←
        on_wallet (reserve_funds s.platform (s.entry_id key) s.now (wallet_command existing key))
    purchase ← or_ensured existing loaded
    updated ← lift (
        queue_canonical_purchase s.platform purchase (
          canonical_noted (template (purchase.snapshot.purchase_id ∷ ":queued" ∷ [])) s.now
            "purchase inserted into compatibility queue"))
    next ← lift (advance s (clone_record existing) id)
    let item = or_else queued_item (new_item next input.priority)
    save_confirmation next (purchase_of updated) item
        (same_state existing.state queued && is_some queued_item)

  abbrev pub confirm_found :
      ConfirmAndQueueInput
      → String
      → PurchaseRequestRecord
      → Option PurchaseQueueItem
      → Option CanonicalPurchaseRecord
      → Action World ConfirmAndQueueResult
  confirm_found input id existing none loaded = confirm_existing input id existing none loaded
  confirm_found input id existing (some item) loaded =
      if same_state existing.state queued
      then replay_confirmation existing item loaded
      else confirm_existing input id existing (some item) loaded

  unfoldable pub confirm_and_queue_request :
      ConfirmAndQueueInput → Action World ConfirmAndQueueResult
  confirm_and_queue_request input = do
    let id = trim input.request_id
    let user_id = trim input.user_id
    raise_if (is_empty id) request_not_found "requestId is required"
    raise_if (is_empty user_id) request_user_mismatch "userId is required"
    found ← reads (λ w. get_request_by_id w.requests id)
    existing ← present_or found request_not_found (about_request id "not found")
    raise_if (not (existing.snapshot.user_id == user_id)) request_user_mismatch
        (not_owned id user_id)
    queued_item ← reads (λ w. get_queue_item w.queue id)
    loaded ←
        reads (λ w. load_canonical_purchase_for_request w.purchases existing.snapshot.request_id)
    confirm_found input id existing queued_item loaded
