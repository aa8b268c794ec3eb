-- ===== src/Application/Compatibility/Simulation.antt =====
-- The lifecycle of a canonical purchase against that of the request that stands for it.
use gambling.Base.{◌≡◌, ◌⊎◌, inl, inr, refl, ok, arith, String, Option}
use gambling.Base.Platform.{Platform}
use gambling.Domain.RequestState.{
  RequestState, CanonicalPurchaseStatus, apply_request_state_transition,
  apply_canonical_purchase_status_transition,
}
use gambling.Domain.PurchaseRequest.Request.{TransitionInput}
use gambling.Domain.RequestState.Paths.{◌⟶*◌, here, next}
use gambling.Domain.PurchaseRequest.Canonical.{
  CanonicalPurchaseRecord, CreateSubmittedCanonicalPurchaseInput,
  append_canonical_purchase_transition, create_submitted_canonical_purchase,
}
use gambling.Domain.PurchaseRequest.Lifecycle.{
  Step, moving, resulting, showing, Reached, created, stepped, move_inv, result_inv, show_inv,
  transition_to,
}
use gambling.Application.Compatibility.{
  request_state_of, map_canonical_purchase_status_to_request_state,
}

⟶*_trans : {s t u : RequestState} → s ⟶* t → t ⟶* u → s ⟶* u
⟶*_trans first here = first
⟶*_trans first (next second step) = next (⟶*_trans first second) step

-- A step of the purchase is no step of the request, a step of it, or a cancellation while it waits for
-- the next attempt, which the request reaches by way of the queue.
simulate_step :
    (s t : CanonicalPurchaseStatus)
    → apply_canonical_purchase_status_transition s t ≡ ok t
    → (request_state_of t ≡ request_state_of s)
      ⊎ ((apply_request_state_transition (request_state_of s) (request_state_of t)
            ≡ ok (request_state_of t))
          ⊎ ((request_state_of s ≡ RequestState.retrying)
              × (request_state_of t ≡ RequestState.canceled)))
unfolding apply_canonical_purchase_status_transition apply_request_state_transition
simulate_step CanonicalPurchaseStatus.submitted CanonicalPurchaseStatus.submitted h = ground arith
simulate_step CanonicalPurchaseStatus.queued CanonicalPurchaseStatus.submitted h = ground arith
simulate_step CanonicalPurchaseStatus.processing CanonicalPurchaseStatus.submitted h = ground arith
simulate_step CanonicalPurchaseStatus.purchase_failed_retryable CanonicalPurchaseStatus.submitted
      h =
    ground arith
simulate_step CanonicalPurchaseStatus.purchase_failed_final CanonicalPurchaseStatus.submitted h =
    ground arith
simulate_step CanonicalPurchaseStatus.purchased CanonicalPurchaseStatus.submitted h = ground arith
simulate_step CanonicalPurchaseStatus.awaiting_draw_close CanonicalPurchaseStatus.submitted h =
    ground arith
simulate_step CanonicalPurchaseStatus.settled CanonicalPurchaseStatus.submitted h = ground arith
simulate_step CanonicalPurchaseStatus.canceled CanonicalPurchaseStatus.submitted h = ground arith
simulate_step s t h = ground arith

cancel_path : RequestState.retrying ⟶* RequestState.canceled
unfolding apply_request_state_transition
cancel_path = next {t = RequestState.queued} (next here refl) refl

simulates :
    (s t : CanonicalPurchaseStatus)
    → apply_canonical_purchase_status_transition s t ≡ ok t
    → request_state_of s ⟶* request_state_of t
simulates s t h = elim (simulate_step s t h) [
  | inl e ↦ rw e here
  | inr (inl step) ↦ next here step
  | inr (inr (from, to)) ↦ rw (from, to) cancel_path
]

-- the statuses before and after each of the calls
move_status :
    (p : Platform) (r r' : CanonicalPurchaseRecord) (to : CanonicalPurchaseStatus)
    (input : TransitionInput) (reference : Option String)
    → append_canonical_purchase_transition p r to input reference ≡ ok r'
    → apply_canonical_purchase_status_transition r.status r'.status ≡ ok r'.status
move_status p r r' to input reference h =
    let by_table = (move_inv p r r' to input reference h).0 in
    (transition_to r.status to r'.status by_table).1

created_status :
    (p : Platform) (input : CreateSubmittedCanonicalPurchaseInput) (r : CanonicalPurchaseRecord)
    → create_submitted_canonical_purchase p input ≡ ok r
    → r.status ≡ CanonicalPurchaseStatus.submitted
unfolding create_submitted_canonical_purchase
created_status p input r h = ground arith

-- What a call on a canonical purchase does is a path of the request that stands for it.
step_path :
    {p : Platform} {r r' : CanonicalPurchaseRecord}
    → Step p r r'
    → request_state_of r.status ⟶* request_state_of r'.status
step_path {p} {r} {r'} (moving to input reference h) =
    simulates r.status r'.status (move_status p r r' to input reference h)
step_path {p} {r} {r'} (resulting input h) = rw (result_inv p r r' input h).0.0 here
step_path {p} {r} {r'} (showing input h) = rw (show_inv p r r' input h).0.0 here

from_confirmed :
    {p : Platform} {r : CanonicalPurchaseRecord}
    → Reached p r
    → RequestState.confirmed ⟶* request_state_of r.status
from_confirmed {p} {r} (created input h) = rw (created_status p input r h) here
from_confirmed (stepped q step) = ⟶*_trans (from_confirmed q) (step_path step)

-- The request state that a reached canonical purchase is shown with is reached by the table of
-- requests from `confirmed`, and each further call moves it along a path of that table.
pub Reached-projection :
    {p : Platform} {r r' : CanonicalPurchaseRecord}
    → Reached p r
    → Step p r r'
    → (RequestState.confirmed ⟶* map_canonical_purchase_status_to_request_state r)
      × (map_canonical_purchase_status_to_request_state r
          ⟶* map_canonical_purchase_status_to_request_state r')
unfolding map_canonical_purchase_status_to_request_state
Reached-projection q step = (from_confirmed q, step_path step)
