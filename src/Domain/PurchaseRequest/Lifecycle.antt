-- ===== src/Domain/PurchaseRequest/Lifecycle.antt =====
-- What holds of every canonical purchase that was created and moved by calls that did not throw.
use gambling.Base.{
  ◌≡◌, ◌||◌, ◌&&◌, not, inl, inr, ◌∙◌, ◌≢◌, ◌⊎◌, refl, Bool, true, false, String, Option, ok, arith,
  >>=-eq-ok, purchase_request_validation, is_some,
}
use gambling.Base.Platform.{Platform, require_text, require_date}
use gambling.Domain.RequestState.{
  CanonicalPurchaseStatus, PurchaseResultStatus, PurchaseResultVisibility, pending, hidden, visible,
  same_status, settled, apply_canonical_purchase_status_transition, lose, win,
}
use gambling.Domain.RequestState.Paths.{before_purchased, before_awaiting}
use gambling.Domain.PurchaseRequest.Request.{TransitionInput}
use gambling.Domain.PurchaseRequest.Canonical.{
  CanonicalPurchaseRecord, CreateSubmittedCanonicalPurchaseInput,
  create_submitted_canonical_purchase, append_canonical_purchase_transition, same_result,
  same_visibility, should_set_purchased_at, clone_canonical_purchase_record,
}
use gambling.Domain.PurchaseRequest.Outcome.{
  result_refused, ResultInput, VisibilityInput, apply_canonical_purchase_result,
  set_canonical_purchase_result_visibility,
}

-- One call on a canonical purchase that did not throw.
pub data Step (p : Platform) (r r' : CanonicalPurchaseRecord) : Type 0 where
  moving :
      (to : CanonicalPurchaseStatus) (input : TransitionInput) (reference : Option String)
      → append_canonical_purchase_transition p r to input reference ≡ ok r'
      → Step p r r'
  resulting :
      (input : ResultInput) → apply_canonical_purchase_result p r input ≡ ok r' → Step p r r'
  showing :
      (input : VisibilityInput)
      → set_canonical_purchase_result_visibility p r input ≡ ok r'
      → Step p r r'

pub data Reached (p : Platform) : CanonicalPurchaseRecord → Type 0 where
  created :
      {r : CanonicalPurchaseRecord} (input : CreateSubmittedCanonicalPurchaseInput)
      → create_submitted_canonical_purchase p input ≡ ok r
      → Reached p r
  stepped : {r r' : CanonicalPurchaseRecord} → Reached p r → Step p r r' → Reached p r'

-- the fields that belong to each status: whether the two times are there, and what the result may be
abbrev pub Fields :
    CanonicalPurchaseStatus → Bool → Bool → PurchaseResultStatus → PurchaseResultVisibility → Type 0
Fields CanonicalPurchaseStatus.purchased at settled_at result seen =
    (at ≡ true) × (settled_at ≡ false) × (result ≡ pending) × (seen ≡ hidden)
Fields CanonicalPurchaseStatus.awaiting_draw_close at settled_at result seen =
    (at ≡ true) × (settled_at ≡ false) × (seen ≡ hidden)
Fields CanonicalPurchaseStatus.settled at settled_at result seen = (at ≡ true) × (settled_at ≡ true)
Fields s at settled_at result seen =
    (at ≡ false) × (settled_at ≡ false) × (result ≡ pending) × (seen ≡ hidden)

abbrev pub IsAccounted : CanonicalPurchaseRecord → Type 0
IsAccounted r =
    Fields r.status (is_some r.purchased_at) (is_some r.settled_at) r.result_status
      r.result_visibility

create-IsAccounted :
    (p : Platform) (input : CreateSubmittedCanonicalPurchaseInput) (r : CanonicalPurchaseRecord)
    → create_submitted_canonical_purchase p input ≡ ok r
    → IsAccounted r
unfolding create_submitted_canonical_purchase
create-IsAccounted p input r h = ground arith

-- the fields of a purchase that its invariant reads
abbrev Same : CanonicalPurchaseRecord → CanonicalPurchaseRecord → Type 0
Same r r' =
    (r'.status ≡ r.status) × (r'.purchased_at ≡ r.purchased_at) × (r'.settled_at ≡ r.settled_at)

-- what a transition that does not throw has done
pub move_inv :
    (p : Platform) (r r' : CanonicalPurchaseRecord) (to : CanonicalPurchaseStatus)
    (input : TransitionInput) (reference : Option String)
    → append_canonical_purchase_transition p r to input reference ≡ ok r'
    → (apply_canonical_purchase_status_transition r.status to ≡ ok r'.status)
      × (r'.result_status ≡ r.result_status)
      × (r'.result_visibility ≡ r.result_visibility)
      × (is_some r'.purchased_at ≡ (should_set_purchased_at r'.status || is_some r.purchased_at))
      × (is_some r'.settled_at ≡ (same_status r'.status settled || is_some r.settled_at))
unfolding append_canonical_purchase_transition
move_inv p r r' to input reference h =
    let (a, ha, h1) =
      >>=-eq-ok (require_text purchase_request_validation input.event_id "eventId") _ h in
    let (b, hb, h2) =
      >>=-eq-ok (require_date p purchase_request_validation input.occurred_at "occurredAt") _ h1 in
    let (n, hn, h3) = >>=-eq-ok (apply_canonical_purchase_status_transition r.status to) _ h2 in
    ground arith

-- a transition that does not throw gives the status that was asked for
pub transition_to :
    (s t n : CanonicalPurchaseStatus)
    → apply_canonical_purchase_status_transition s t ≡ ok n
    → (n ≡ t) × (apply_canonical_purchase_status_transition s n ≡ ok n)
unfolding apply_canonical_purchase_status_transition
transition_to s t n h = ground arith

Fields-move :
    (s n : CanonicalPurchaseStatus) (a b : Bool) (result : PurchaseResultStatus)
    (seen : PurchaseResultVisibility)
    → apply_canonical_purchase_status_transition s n ≡ ok n
    → Fields s a b result seen
    → Fields n (should_set_purchased_at n || a) (same_status n settled || b) result seen
unfolding should_set_purchased_at
Fields-move s CanonicalPurchaseStatus.purchased a b result seen h w =
    let q = rw (before_purchased s h) at w in (refl, q.1, q.2, q.3)
Fields-move s CanonicalPurchaseStatus.awaiting_draw_close a b result seen h w =
    let q = rw (before_awaiting s h) at w in (refl, q.1, q.3)
Fields-move s CanonicalPurchaseStatus.settled a b result seen h w = (refl, refl)
Fields-move CanonicalPurchaseStatus.purchased n a b result seen h w =
    unfold apply_canonical_purchase_status_transition in cc
Fields-move CanonicalPurchaseStatus.awaiting_draw_close n a b result seen h w =
    unfold apply_canonical_purchase_status_transition in cc
Fields-move CanonicalPurchaseStatus.settled n a b result seen h w =
    unfold apply_canonical_purchase_status_transition in cc
Fields-move s n a b result seen h w = w

pub result_inv :
    (p : Platform) (r r' : CanonicalPurchaseRecord) (input : ResultInput)
    → apply_canonical_purchase_result p r input ≡ ok r'
    → Same r r'
      × (r'.result_visibility ≡ r.result_visibility)
      × ((r'.result_status ≡ r.result_status)
          ⊎ ((r'.result_status ≡ input.result_status)
              × (result_refused r.status input.result_status ≡ false)))
unfolding apply_canonical_purchase_result clone_canonical_purchase_record
result_inv p r r' input h = ground arith

-- the guards before a result is shown or hidden
abbrev show_refused :
    CanonicalPurchaseStatus
    → PurchaseResultStatus
    → PurchaseResultVisibility
    → PurchaseResultVisibility
    → Bool
show_refused status result seen next =
    (same_visibility seen visible && same_visibility next hidden)
    || (same_visibility next visible && not (same_status status settled))
    || (same_visibility next visible && same_result result pending)

pub show_inv :
    (p : Platform) (r r' : CanonicalPurchaseRecord) (input : VisibilityInput)
    → set_canonical_purchase_result_visibility p r input ≡ ok r'
    → Same r r'
      × (r'.result_status ≡ r.result_status)
      × ((r'.result_visibility ≡ r.result_visibility)
          ⊎ ((r'.result_visibility ≡ input.result_visibility)
              × (show_refused r.status r.result_status r.result_visibility input.result_visibility
                  ≡ false)))
unfolding set_canonical_purchase_result_visibility clone_canonical_purchase_record
show_inv p r r' input h = ground arith

-- what the guards leave: nothing changes, or a settled purchase's result is shown for the first time
show_cases :
    (s : CanonicalPurchaseStatus) (result : PurchaseResultStatus)
    (seen next : PurchaseResultVisibility)
    → show_refused s result seen next ≡ false
    → (next ≡ seen) ⊎ ((seen ≡ hidden) × (next ≡ visible) × (s ≡ settled) × (result ≢ pending))
show_cases s result hidden hidden h = inl refl
show_cases s result visible visible h = inl refl
show_cases s result visible hidden h = cc
show_cases settled lose hidden visible h = inr (refl, refl, refl, λ e. cc)
show_cases settled win hidden visible h = inr (refl, refl, refl, λ e. cc)
show_cases settled pending hidden visible h = cc
show_cases s result hidden visible h = cc

-- One call leaves the visibility of the result as it is, or publishes the result of a settled
-- purchase that is not pending; a published result is never hidden again.
pub publication :
    {p : Platform} {r r' : CanonicalPurchaseRecord}
    → Step p r r'
    → (r'.result_visibility ≡ r.result_visibility)
      ⊎ ((r.result_visibility ≡ hidden)
          × (r'.result_visibility ≡ visible)
          × (r.status ≡ settled)
          × (r.result_status ≢ pending))
publication {p} {r} {r'} (moving to input reference h) =
    inl (move_inv p r r' to input reference h).2
publication {p} {r} {r'} (resulting input h) = inl (result_inv p r r' input h).1
publication {p} {r} {r'} (showing input h) =
    let (same, result, seen) = show_inv p r r' input h in
    elim seen [
      | inl e ↦ inl e
      | inr (e, guard) ↦
          elim (show_cases r.status r.result_status r.result_visibility input.result_visibility
            guard) [
              | inl k ↦ inl (e ∙ k)
              | inr (was, now, done, set) ↦ inr (was, e ∙ now, done, set)
            ]
    ]

Fields-result :
    (s : CanonicalPurchaseStatus) (a b : Bool) (result next : PurchaseResultStatus)
    (seen : PurchaseResultVisibility)
    → result_refused s next ≡ false
    → Fields s a b result seen
    → Fields s a b next seen
Fields-result CanonicalPurchaseStatus.awaiting_draw_close a b result next seen h w = w
Fields-result CanonicalPurchaseStatus.settled a b result next seen h w = w
Fields-result s a b result pending seen h w = (w.0, w.1, refl, w.3)
Fields-result s a b result next seen h w = cc

-- Every purchase that was created and changed by calls that did not throw has the times that belong
-- to its status, and no others; before its draw is waited for its result is pending, and before it
-- is settled its result is hidden.
pub Reached-IsAccounted : {p : Platform} {r : CanonicalPurchaseRecord} → Reached p r → IsAccounted r
Reached-IsAccounted {p} {r} (created input h) = create-IsAccounted p input r h
Reached-IsAccounted {p} (stepped {r} {r'} q (moving to input reference h)) =
    let (moved, result, seen, at, settled_at) = move_inv p r r' to input reference h in
    let step = (transition_to r.status to r'.status moved).1 in
    rw (result, seen, at, settled_at)
      (Fields-move r.status r'.status _ _ r.result_status r.result_visibility step
        (Reached-IsAccounted q))
Reached-IsAccounted {p} (stepped {r} {r'} q (resulting input h)) =
    let ((s, at, settled_at), seen, result) = result_inv p r r' input h in
    rw (s, at, settled_at, seen)
      (elim result [
        | inl e ↦ rw e (Reached-IsAccounted q)
        | inr (e, guard) ↦ rw e (
            Fields-result r.status _ _ r.result_status input.result_status r.result_visibility guard
              (Reached-IsAccounted q))
      ])
Reached-IsAccounted {p} (stepped {r} {r'} q (showing input h)) =
    let ((s, at, settled_at), result, seen) = show_inv p r r' input h in
    elim (publication (showing input h)) [
      | inl e ↦ rw (s, at, settled_at, result, e) (Reached-IsAccounted q)
      | inr (was, now, done, set) ↦
          let w : Fields settled (is_some r.purchased_at) (is_some r.settled_at) r.result_status
              r.result_visibility =
            rw done at (Reached-IsAccounted q) in
          rw (s, at, settled_at, result, now, done) w
    ]
