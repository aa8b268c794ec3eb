-- ===== src/Application/Orchestration/Counts.antt =====
-- What the counts of a reconciliation stand for.
use gambling.Base.{ℕ, suc, ◌+◌, ◌≡◌, inl, inr, String, List, [], ◌∷◌, ok, Bool-cases, arith, trim}
use gambling.Base.Lists.{length, keep}
use gambling.Base.Action.{returned}
use gambling.Base.Action.Returns.{split_call, split_guard, split_read, split_lift, split_give}
use gambling.Application.World.{World, Surroundings}
use gambling.Application.Store.Requests.{list_requests}
use gambling.Application.Store.Queue.{list_queue_items}
use gambling.Application.Store.Purchases.{list_purchases}
use gambling.Application.WalletLedger.{list_user_entries}
use gambling.Domain.Ledger.Entry.{LedgerEntry}
use gambling.Application.Orchestration.Recover.{trimmed}
use gambling.Application.Orchestration.Reserves.{
  PendingReserveGroup, collect_pending_reserve_groups,
}
use gambling.Application.Orchestration.Reconcile.{
  ReconcileDetachedReservesInput, ReconcileDetachedReservesResult, Snapshot, is_active, debit_group,
  release_group, settle_group, is_of_lottery, settle_groups, reconcile_detached_reserves,
  request_for, purchase_for, should_debit_detached_reserve, no_counts,
}

-- the groups that a call dealt with
abbrev pub handled : ReconcileDetachedReservesResult → ℕ
handled r = r.debited_requests + r.released_requests + r.skipped_active_requests

module _ (s : Surroundings) (user_id : String) where
  debit_handled :
      (g : PendingReserveGroup) (draw_id : _) (counts r : ReconcileDetachedReservesResult)
      (w v : World)
      → debit_group s user_id g draw_id counts w ≡ returned r v
      → handled r ≡ suc (handled counts)
  unfolding debit_group
  debit_handled g draw_id counts r w v h =
      split_call _ _ h λ _ u wallet h1. rw (split_give _ h1).0 (ground arith)

  release_handled :
      (g : PendingReserveGroup) (request draw_id : _) (counts r : ReconcileDetachedReservesResult)
      (w v : World)
      → release_group s user_id g request draw_id counts w ≡ returned r v
      → handled r ≡ suc (handled counts)
  unfolding release_group
  release_handled g request draw_id counts r w v h =
      split_call _ _ h
        λ _ u wallet h1. split_call _ _ h1 λ _ u' moved h2. rw (split_give _ h2).0 (ground arith)

  settle_handled :
      (t : Snapshot) (counts r : ReconcileDetachedReservesResult) (g : PendingReserveGroup)
      (w v : World)
      → settle_group s user_id t counts g w ≡ returned r v
      → handled r ≡ suc (handled counts)
  unfolding settle_group
  settle_handled t counts r g w v h = elim (Bool-cases (is_active t g.request_id)) [
    | inl e ↦ rw (split_give _ (rw e at h)).0 (ground arith)
    | inr e ↦
        elim (Bool-cases (
          should_debit_detached_reserve (request_for t user_id g.request_id)
            (purchase_for t user_id g.request_id))) [
              | inl f ↦ debit_handled g _ counts r w v (rw (e, f) at h)
              | inr f ↦ release_handled g _ _ counts r w v (rw (e, f) at h)
            ]
  ]

  groups_handled :
      (code : String) (t : Snapshot) (groups : List PendingReserveGroup)
      (counts r : ReconcileDetachedReservesResult) (w v : World)
      → settle_groups s user_id code t counts groups w ≡ returned r v
      → handled r ≡ handled counts + length (keep (is_of_lottery s user_id code t) groups)
  unfolding settle_groups
  groups_handled code t [] counts r w v h = rw (split_give _ h).0 (ground arith)
  groups_handled code t (g ∷ groups) counts r w v h =
      elim (Bool-cases (is_of_lottery s user_id code t g)) [
        | inl e ↦ split_call _ _ (rw e at h) λ next u settled h1.
            let one = settle_handled t counts next g w u settled in
            let others = groups_handled code t groups next r u v h1 in
            rw e (ground (arith, one, others))
        | inr e ↦ rw e (groups_handled code t groups counts r w v (rw e at h))
      ]

-- what a reconciliation reads of the stores
abbrev pub snapshot_of : Surroundings → World → Snapshot
snapshot_of s w = record {
  requests = list_requests s.platform w.requests;
  items = list_queue_items s.platform w.queue;
  purchases = list_purchases s.platform w.purchases;
}

-- A reconciliation that returns has debited, released or passed over as active every pending reserve
-- of the user's entries in the lottery and the currency that were asked for: the counts add up to
-- their number.
pub reconcile_detached_reserves_counts :
    (s : Surroundings) (input : ReconcileDetachedReservesInput) (w v : World)
    (r : ReconcileDetachedReservesResult)
    → reconcile_detached_reserves s input w ≡ returned r v
    → (entries : List LedgerEntry) × (list_user_entries s.platform w.entries (trim input.user_id)
        ≡ ok entries)
      × (handled r
          ≡ length (
              keep
                (is_of_lottery s
                  (trim input.user_id)
                  (s.platform.to_lower_case (trimmed input.lottery_code))
                  (snapshot_of s w))
                (collect_pending_reserve_groups entries
                  (s.platform.to_upper_case (trimmed input.currency)))))
unfolding reconcile_detached_reserves
reconcile_detached_reserves_counts s input w v r h = split_guard _ _ _ _ h λ _ h1.
    split_read _ _ h1 λ h2. split_lift _ _ h2 λ entries listed h3. split_read _ _ h3 λ h4.
      let counted = groups_handled s (trim input.user_id) _ _ _ (no_counts s) r w v h4 in
      (entries, listed, ground (arith, counted))
