-- ===== src/Application/Orchestration/Reconcile.antt =====
-- `reconcileDetachedReserves`: a reserve whose request is not in the queue is debited or released.
use gambling.Base.{
  ℕ, suc, String, Bool, true, false, ◌||◌, Option, none, some, List, [], ◌∷◌, ◌==◌, if◌then◌else◌,
  or_else, is_empty, trim, template, integer, non_empty,
}
use mathlib.Core.List.{reverse}
use gambling.Base.Lists.{find, keep}
use gambling.Base.Action.{Action, give, lift, raise_if, reads, ◌>>=◌, ◌>>◌}
use gambling.Domain.RequestState.{RequestState, CanonicalPurchaseStatus, same_state, same_status}
use gambling.Domain.PurchaseRequest.Request.{
  PurchaseRequestRecord, append_purchase_request_transition,
}
use gambling.Domain.PurchaseRequest.Canonical.{CanonicalPurchaseRecord}
use gambling.Application.World.{World, Surroundings, on_wallet}
use gambling.Application.Store.Requests.{list_requests}
use gambling.Application.Store.Queue.{PurchaseQueueItem, list_queue_items}
use gambling.Application.Store.Purchases.{list_purchases}
use gambling.Application.WalletLedger.{WalletLedgerRequestCommandInput, list_user_entries}
use gambling.Application.WalletLedger.Commands.{debit_reserved_funds, release_reserved_funds}
use gambling.Application.Orchestration.{request_user_mismatch, noted, save_record}
use gambling.Application.Orchestration.Recover.{trimmed}
use gambling.Application.Orchestration.Reserves.{
  PendingReserveGroup, collect_pending_reserve_groups,
}

pub record ReconcileDetachedReservesInput : Type 0 where
  pub user_id : String
  pub lottery_code : Option String
  pub currency : Option String

pub record ReconcileDetachedReservesResult : Type 0 where
  pub debited_requests : ℕ
  pub released_requests : ℕ
  pub skipped_active_requests : ℕ

abbrev has_state : Option PurchaseRequestRecord → RequestState → Bool
has_state none state = false
has_state (some r) state = same_state r.state state

abbrev has_status : Option CanonicalPurchaseRecord → CanonicalPurchaseStatus → Bool
has_status none status = false
has_status (some r) status = same_status r.status status

unfoldable pub should_debit_detached_reserve :
    Option PurchaseRequestRecord → Option CanonicalPurchaseRecord → Bool
should_debit_detached_reserve request purchase =
    has_state request RequestState.success
    || has_status purchase CanonicalPurchaseStatus.purchased
    || has_status purchase CanonicalPurchaseStatus.awaiting_draw_close
    || has_status purchase CanonicalPurchaseStatus.settled

unfoldable pub is_reserve_release_transition_allowed : RequestState → Bool
is_reserve_release_transition_allowed state =
    same_state state RequestState.confirmed
    || same_state state RequestState.queued
    || same_state state RequestState.executing
    || same_state state RequestState.retrying
    || same_state state RequestState.canceled
    || same_state state RequestState.error

-- `new Map(...).get(key)`: the last element with the key
abbrev last_with {ℓ} : {A : Type ℓ} → (A → Bool) → List A → Option A
last_with p xs = find p (reverse xs)

-- what the call reads at its start
pub record Snapshot : Type 0 where
  pub requests : List PurchaseRequestRecord
  pub items : List PurchaseQueueItem
  pub purchases : List CanonicalPurchaseRecord

abbrev pub request_for : Snapshot → String → String → Option PurchaseRequestRecord
request_for t user_id id =
    last_with (λ r. r.snapshot.request_id == id)
      (keep (λ r. r.snapshot.user_id == user_id) t.requests)

abbrev pub purchase_for : Snapshot → String → String → Option CanonicalPurchaseRecord
purchase_for t user_id id =
    last_with (λ r. or_else r.snapshot.legacy_request_id r.snapshot.purchase_id == id)
      (keep (λ r. r.snapshot.user_id == user_id) t.purchases)

-- an item in the queue, whose status is "queued" or "executing" by its type
abbrev pub is_active : Snapshot → String → Bool
is_active t id = elim (last_with (λ item. item.request_id == id) t.items) [
  | none ↦ false
  | some item ↦ true
]

abbrev code_of : Option PurchaseRequestRecord → Option CanonicalPurchaseRecord → String
code_of request (some purchase) = purchase.snapshot.lottery_code
code_of (some r) none = r.snapshot.lottery_code
code_of none none = ""

-- `drawId`, passed on where it is not empty
abbrev draw_of :
    Option PurchaseRequestRecord
    → Option CanonicalPurchaseRecord
    → PendingReserveGroup
    → Option String
draw_of request (some purchase) g = non_empty purchase.snapshot.draw_id
draw_of (some r) none g = non_empty r.snapshot.draw_id
draw_of none none g = elim g.draw_id [ none ↦ none | some d ↦ non_empty d ]

abbrev group_command :
    String → PendingReserveGroup → Option String → String → WalletLedgerRequestCommandInput
group_command user_id g draw_id key = record {
  user_id = user_id;
  request_id = g.request_id;
  amount_minor = integer g.amount_minor;
  currency = g.currency;
  idempotency_key = key;
  ticket_id = none;
  draw_id = draw_id;
  entry_id = none;
  created_at = none;
}

module _ (s : Surroundings) where
  -- the request moves on, where its state lets it
  abbrev release_transition :
      PendingReserveGroup → Option PurchaseRequestRecord → Action World (Unit {0})
  release_transition g none = give tt
  release_transition g (some r) =
      if is_reserve_release_transition_allowed r.state
      then (do
        next ← lift (
            append_purchase_request_transition s.platform r RequestState.reserve_released (
              noted (template (g.request_id ∷ ":reserve-reconcile:reserve-released" ∷ [])) s.now
                "stale reserve released because request is no longer in active queue"))
        save_record next)
      else give tt

  unfoldable pub debit_group :
      String
      → PendingReserveGroup
      → Option String
      → ReconcileDetachedReservesResult
      → Action World ReconcileDetachedReservesResult
  debit_group user_id g draw_id counts = do
    let key = template (g.request_id ∷ ":reserve-reconcile:debit" ∷ [])
    debited ← on_wallet (
        debit_reserved_funds s.platform (s.entry_id key) s.now
          (group_command user_id g draw_id key))
    give (record counts { debited_requests = suc counts.debited_requests })

  unfoldable pub release_group :
      String
      → PendingReserveGroup
      → Option PurchaseRequestRecord
      → Option String
      → ReconcileDetachedReservesResult
      → Action World ReconcileDetachedReservesResult
  release_group user_id g request draw_id counts = do
    let key = template (g.request_id ∷ ":reserve-reconcile:release" ∷ [])
    released ← on_wallet (
        release_reserved_funds s.platform (s.entry_id key) s.now
          (group_command user_id g draw_id key))
    release_transition g request
    give (record counts { released_requests = suc counts.released_requests })

  -- one pass of the loop behind its `continue` for other lotteries
  unfoldable pub settle_group :
      String
      → Snapshot
      → ReconcileDetachedReservesResult
      → PendingReserveGroup
      → Action World ReconcileDetachedReservesResult
  settle_group user_id t counts g =
      let request = request_for t user_id g.request_id in
      let purchase = purchase_for t user_id g.request_id in
      if is_active t g.request_id
      then give (record counts { skipped_active_requests = suc counts.skipped_active_requests })
      else if should_debit_detached_reserve request purchase
      then debit_group user_id g (draw_of request purchase g) counts
      else release_group user_id g request (draw_of request purchase g) counts

  -- the lottery of the group is the one that was asked for
  abbrev pub is_of_lottery : String → String → Snapshot → PendingReserveGroup → Bool
  is_of_lottery user_id code t g =
      is_empty code
      || code_of (request_for t user_id g.request_id) (purchase_for t user_id g.request_id) == code

  unfoldable pub settle_groups :
      String
      → String
      → Snapshot
      → ReconcileDetachedReservesResult
      → List PendingReserveGroup
      → Action World ReconcileDetachedReservesResult
  settle_groups user_id code t counts [] = give counts
  settle_groups user_id code t counts (g ∷ groups) =
      if is_of_lottery user_id code t g
      then (do next ← settle_group user_id t counts g; settle_groups user_id code t next groups)
      else settle_groups user_id code t counts groups

  abbrev pub no_counts : ReconcileDetachedReservesResult
  no_counts = record { debited_requests = 0; released_requests = 0; skipped_active_requests = 0 }

  unfoldable pub reconcile_detached_reserves :
      ReconcileDetachedReservesInput → Action World ReconcileDetachedReservesResult
  reconcile_detached_reserves input = do
    let user_id = trim input.user_id
    raise_if (is_empty user_id) request_user_mismatch "userId is required"
    let code = s.platform.to_lower_case (trimmed input.lottery_code)
    let currency = s.platform.to_upper_case (trimmed input.currency)
    found ← reads (λ w. list_user_entries s.platform w.entries user_id)
    entries ← lift found
    snapshot ← reads (λ w. record {
      requests = list_requests s.platform w.requests;
      items = list_queue_items s.platform w.queue;
      purchases = list_purchases s.platform w.purchases;
    })
    settle_groups user_id code snapshot no_counts (collect_pending_reserve_groups entries currency)
