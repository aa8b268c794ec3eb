-- ===== src/Domain/RequestState/Paths.antt =====
-- What the two transition tables allow over any number of steps.
use gambling.Base.{
  err, thrown, plain, template, ◌||◌, [], ◌∷◌, ◌≡◌, refl, ◌⊎◌, inl, inr, Bool, true, ok, arith,
}
use gambling.Domain.RequestState.{
  RequestState, CanonicalPurchaseStatus, apply_request_state_transition,
  assert_cancelable_request_state, same_status, apply_canonical_purchase_status_transition,
}

-- The states that `apply_request_state_transition` leads to, one after the other.
infix 40 ◌⟶*◌ ◌⇒*◌
pub data ◌⟶*◌ (s : RequestState) : RequestState → Type 0 where
  here : s ⟶* s
  next : {t u : RequestState} → s ⟶* t → apply_request_state_transition t u ≡ ok u → s ⟶* u

pub data ◌⇒*◌ (s : CanonicalPurchaseStatus) : CanonicalPurchaseStatus → Type 0 where
  start : s ⇒* s
  then :
      {t u : CanonicalPurchaseStatus}
      → s ⇒* t
      → apply_canonical_purchase_status_transition t u ≡ ok u
      → s ⇒* u

-- the states after which nothing more can happen
abbrev pub IsFinal : RequestState → Type 0
IsFinal s = (s ≡ RequestState.success) ⊎ (s ≡ RequestState.reserve_released)

final_stuck : (s t : RequestState) → IsFinal s → apply_request_state_transition s t ≡ ok t → ⊥
unfolding apply_request_state_transition
final_stuck s t f h = ground arith

abbrev refunded : RequestState
refunded = RequestState.reserve_released

abbrev end : RequestState → RequestState
end RequestState.added_to_cart = RequestState.success
end RequestState.success = RequestState.success
end s = refunded

end-IsFinal : (s : RequestState) → IsFinal (end s)
end-IsFinal s = ground arith

-- two steps of the table in a row
two_steps :
    {s : RequestState} (t u : RequestState)
    → apply_request_state_transition s t ≡ ok t
    → apply_request_state_transition t u ≡ ok u
    → s ⟶* u
two_steps t u h k = next (next here h) k

end_path : (s : RequestState) → s ⟶* end s
unfolding apply_request_state_transition
end_path RequestState.created = two_steps RequestState.canceled refunded refl refl
end_path RequestState.awaiting_confirmation = two_steps RequestState.canceled refunded refl refl
end_path RequestState.added_to_cart = next here refl
end_path RequestState.success = here
end_path RequestState.reserve_released = here
end_path s = next here refl

-- A successful request and one whose reserve was released stay as they are, whatever is tried: no
-- request is both paid for and refunded.
pub final_absorbs : {s t : RequestState} → IsFinal s → s ⟶* t → t ≡ s
final_absorbs f here = refl
final_absorbs {s} f (next {t = m} {u} r h) = absurd (final_stuck s u f (rw (← final_absorbs f r) h))

-- Every state of a request leads to success or to the release of the reserve in some steps.
pub IsFinal-reachable : (s : RequestState) → (t : RequestState) × IsFinal t × (s ⟶* t)
IsFinal-reachable s = (end s, end-IsFinal s, end_path s)

-- The guard before a cancellation passes exactly for queued and retrying requests, but the step to
-- `canceled` that follows it succeeds for a queued request and throws for a retrying one.
pub cancel_guard_gap :
    (s : RequestState)
    → assert_cancelable_request_state s ≡ ok tt
    → ((s ≡ RequestState.queued)
        × (apply_request_state_transition s RequestState.canceled ≡ ok RequestState.canceled))
      ⊎ ((s ≡ RequestState.retrying)
          × (apply_request_state_transition s RequestState.canceled
              ≡ err (
                  thrown plain (
                    template (
                      "transition from " ∷ "retrying" ∷ " to " ∷ "canceled" ∷ " is not allowed"
                      ∷ [])))))
unfolding assert_cancelable_request_state apply_request_state_transition
cancel_guard_gap RequestState.queued h = inl (refl, refl)
cancel_guard_gap RequestState.retrying h = inr (refl, refl)
cancel_guard_gap s h = cc

-- the statuses that a path has gone through, its two ends included
pub visits : {s t : CanonicalPurchaseStatus} → CanonicalPurchaseStatus → s ⇒* t → Bool
visits {s} u start = same_status s u
visits u (then {u = last} r h) = same_status last u || visits u r

-- what holds at each status, of whether processing, purchased and awaiting_draw_close were visited
abbrev Passed : CanonicalPurchaseStatus → Bool → Bool → Bool → Type 0
Passed CanonicalPurchaseStatus.processing a b c = a ≡ true
Passed CanonicalPurchaseStatus.purchased a b c = (a ≡ true) × (b ≡ true)
Passed CanonicalPurchaseStatus.awaiting_draw_close a b c = (a ≡ true) × (b ≡ true) × (c ≡ true)
Passed CanonicalPurchaseStatus.settled a b c = (a ≡ true) × (b ≡ true) × (c ≡ true)
Passed t a b c = Unit

pub before_purchased :
    (t : CanonicalPurchaseStatus)
    → apply_canonical_purchase_status_transition t CanonicalPurchaseStatus.purchased
      ≡ ok CanonicalPurchaseStatus.purchased
    → t ≡ CanonicalPurchaseStatus.processing
unfolding apply_canonical_purchase_status_transition
before_purchased CanonicalPurchaseStatus.processing h = refl
before_purchased t h = cc

pub before_awaiting :
    (t : CanonicalPurchaseStatus)
    → apply_canonical_purchase_status_transition t CanonicalPurchaseStatus.awaiting_draw_close
      ≡ ok CanonicalPurchaseStatus.awaiting_draw_close
    → t ≡ CanonicalPurchaseStatus.purchased
unfolding apply_canonical_purchase_status_transition
before_awaiting CanonicalPurchaseStatus.purchased h = refl
before_awaiting t h = cc

before_settled :
    (t : CanonicalPurchaseStatus)
    → apply_canonical_purchase_status_transition t CanonicalPurchaseStatus.settled
      ≡ ok CanonicalPurchaseStatus.settled
    → t ≡ CanonicalPurchaseStatus.awaiting_draw_close
unfolding apply_canonical_purchase_status_transition
before_settled CanonicalPurchaseStatus.awaiting_draw_close h = refl
before_settled t h = cc

Passed-step :
    (t u : CanonicalPurchaseStatus) (a b c : Bool)
    → apply_canonical_purchase_status_transition t u ≡ ok u
    → Passed t a b c
    → Passed u
        (same_status u CanonicalPurchaseStatus.processing || a)
        (same_status u CanonicalPurchaseStatus.purchased || b)
        (same_status u CanonicalPurchaseStatus.awaiting_draw_close || c)
Passed-step t CanonicalPurchaseStatus.purchased a b c h p =
    let q = rw (before_purchased t h) at p in (q, refl)
Passed-step t CanonicalPurchaseStatus.awaiting_draw_close a b c h p =
    let q = rw (before_awaiting t h) at p in (q.0, q.1, refl)
Passed-step t CanonicalPurchaseStatus.settled a b c h p = rw (before_settled t h) at p
Passed-step t CanonicalPurchaseStatus.processing a b c h p = refl
Passed-step t u a b c h p = tt

Passed-path :
    {t : CanonicalPurchaseStatus} (r : CanonicalPurchaseStatus.submitted ⇒* t)
    → Passed t
        (visits CanonicalPurchaseStatus.processing r)
        (visits CanonicalPurchaseStatus.purchased r)
        (visits CanonicalPurchaseStatus.awaiting_draw_close r)
unfolding visits
Passed-path start = tt
Passed-path (then {t} {u} r h) = Passed-step t u _ _ _ h (Passed-path r)

-- A canonical purchase that is settled was in processing, was purchased and waited for the close of
-- its draw before, on every path from its submission.
pub settled_visits :
    (r : CanonicalPurchaseStatus.submitted ⇒* CanonicalPurchaseStatus.settled)
    → (visits CanonicalPurchaseStatus.processing r ≡ true)
      × (visits CanonicalPurchaseStatus.purchased r ≡ true)
      × (visits CanonicalPurchaseStatus.awaiting_draw_close r ≡ true)
settled_visits r = Passed-path r

abbrev pub IsClosed : CanonicalPurchaseStatus → Type 0
IsClosed s =
    (s ≡ CanonicalPurchaseStatus.settled)
    ⊎ (s ≡ CanonicalPurchaseStatus.purchase_failed_final)
    ⊎ (s ≡ CanonicalPurchaseStatus.canceled)

closed_stuck :
    (s t : CanonicalPurchaseStatus)
    → IsClosed s
    → apply_canonical_purchase_status_transition s t ≡ ok t
    → ⊥
unfolding apply_canonical_purchase_status_transition
closed_stuck s t f h = ground arith

-- A settled, finally failed or canceled purchase keeps its status for good.
pub closed_absorbs : {s t : CanonicalPurchaseStatus} → IsClosed s → s ⇒* t → t ≡ s
closed_absorbs f start = refl
closed_absorbs {s} f (then {t = m} {u} r h) =
    absurd (closed_stuck s u f (rw (← closed_absorbs f r) h))
