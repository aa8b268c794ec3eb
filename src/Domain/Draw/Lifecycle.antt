-- ===== src/Domain/Draw/Lifecycle.antt =====
-- The lifecycle of a canonical draw, and of its compatibility closure record.
use gambling.Base.{
  ◌≡◌, refl, ◌↔◌, true, false, String, some, none, ok, arith, is_empty, trim, >>=-eq-ok,
  canonical_draw_validation,
}
use gambling.Base.Platform.{
  Platform, require_text, require_date, require_text-eq_ok, require_date-eq_ok, is_nan_date,
}
use gambling.Domain.RequestState.{hidden, visible}
use gambling.Domain.Draw.Canonical.{
  CanonicalDrawStatus, opened, closed, settled, CanonicalDrawRecord, CreateOpenCanonicalDrawInput,
  create_open_canonical_draw, close_canonical_draw, settle_canonical_draw,
  apply_canonical_draw_status_transition, is_canonical_draw_result_visible,
}
use gambling.Domain.Draw.Closure.{DrawClosureRecord, close_draw_closure, is_draw_closed}

-- What the fields of a draw are like in each status: results are published by settlement only, and
-- who closed or settled the draw, and when, is on record as soon as that has happened.
abbrev pub Matches : CanonicalDrawStatus → CanonicalDrawRecord → Type 0
Matches opened r =
    (r.result_visibility ≡ hidden)
    × (r.closed_at ≡ none)
    × (r.closed_by ≡ none)
    × (r.settled_at ≡ none)
    × (r.settled_by ≡ none)
Matches closed r =
    (r.result_visibility ≡ hidden)
    × ((at : String) × (r.closed_at ≡ some at))
    × ((by : String) × (r.closed_by ≡ some by))
    × (r.settled_at ≡ none)
    × (r.settled_by ≡ none)
Matches settled r =
    (r.result_visibility ≡ visible)
    × ((at : String) × (r.closed_at ≡ some at))
    × ((by : String) × (r.closed_by ≡ some by))
    × ((at : String) × (r.settled_at ≡ some at))
    × ((by : String) × (r.settled_by ≡ some by))

abbrev pub IsWellFormed : CanonicalDrawRecord → Type 0
IsWellFormed r = Matches r.status r

-- a draw that was created and then closed and settled in any way that did not throw
pub data Reached (p : Platform) : CanonicalDrawRecord → Type 0 where
  created :
      {r : CanonicalDrawRecord} (input : CreateOpenCanonicalDrawInput)
      → create_open_canonical_draw p input ≡ ok r
      → Reached p r
  closing :
      {r r' : CanonicalDrawRecord} (at by : String)
      → Reached p r
      → close_canonical_draw p r at by ≡ ok r'
      → Reached p r'
  settling :
      {r r' : CanonicalDrawRecord} (at by : String)
      → Reached p r
      → settle_canonical_draw p r at by ≡ ok r'
      → Reached p r'

create-IsWellFormed :
    (p : Platform) (input : CreateOpenCanonicalDrawInput) (r : CanonicalDrawRecord)
    → create_open_canonical_draw p input ≡ ok r
    → IsWellFormed r
unfolding create_open_canonical_draw
create-IsWellFormed p input r h = ground arith

-- only an open draw closes, and only a closed one settles
before_closed :
    (s : CanonicalDrawStatus) (n : CanonicalDrawStatus)
    → apply_canonical_draw_status_transition s closed ≡ ok n
    → (s ≡ opened) × (n ≡ closed)
unfolding apply_canonical_draw_status_transition
before_closed opened n h = ground arith
before_closed s n h = cc

before_settled :
    (s : CanonicalDrawStatus) (n : CanonicalDrawStatus)
    → apply_canonical_draw_status_transition s settled ≡ ok n
    → (s ≡ closed) × (n ≡ settled)
unfolding apply_canonical_draw_status_transition
before_settled closed n h = ground arith
before_settled s n h = cc

-- what a successful closing has done
close_inv :
    (p : Platform) (r r' : CanonicalDrawRecord) (at by : String)
    → close_canonical_draw p r at by ≡ ok r'
    → (r.status ≡ opened)
      × (r' ≡ record r { status = closed; closed_at = some (trim at); closed_by = some (trim by) })
unfolding close_canonical_draw
close_inv p r r' at by h =
    let (n, hn, h1) = >>=-eq-ok (apply_canonical_draw_status_transition r.status closed) _ h in
    let (a, ha, h2) = >>=-eq-ok (require_date p canonical_draw_validation at "closedAt") _ h1 in
    let (b, hb, h3) = >>=-eq-ok (require_text canonical_draw_validation by "closedBy") _ h2 in
    ground (
      arith,
      before_closed r.status n hn,
      require_date-eq_ok p canonical_draw_validation at "closedAt" a ha,
      require_text-eq_ok canonical_draw_validation by "closedBy" b hb,
    )

settle_inv :
    (p : Platform) (r r' : CanonicalDrawRecord) (at by : String)
    → settle_canonical_draw p r at by ≡ ok r'
    → (r.status ≡ closed)
      × (r' ≡ record r {
        status = settled;
        result_visibility = visible;
        settled_at = some (trim at);
        settled_by = some (trim by);
      })
unfolding settle_canonical_draw
settle_inv p r r' at by h =
    let (n, hn, h1) = >>=-eq-ok (apply_canonical_draw_status_transition r.status settled) _ h in
    let (a, ha, h2) = >>=-eq-ok (require_date p canonical_draw_validation at "settledAt") _ h1 in
    let (b, hb, h3) = >>=-eq-ok (require_text canonical_draw_validation by "settledBy") _ h2 in
    ground (
      arith,
      before_settled r.status n hn,
      require_date-eq_ok p canonical_draw_validation at "settledAt" a ha,
      require_text-eq_ok canonical_draw_validation by "settledBy" b hb,
    )

-- Every draw that was created and then closed and settled by calls that did not throw has, in each
-- status, the visibility, the times and the actors that belong to it.
pub Reached-IsWellFormed : {p : Platform} {r : CanonicalDrawRecord} → Reached p r → IsWellFormed r
Reached-IsWellFormed {p} {r} (created input h) = create-IsWellFormed p input r h
Reached-IsWellFormed {p} (closing {r} {r'} at by q h) =
    let (was, now) = close_inv p r r' at by h in
    let w : Matches opened r = rw was at (Reached-IsWellFormed q) in
    rw now (w.0, (trim at, refl), (trim by, refl), w.3, w.4)
Reached-IsWellFormed {p} (settling {r} {r'} at by q h) =
    let (was, now) = settle_inv p r r' at by h in
    let w : Matches closed r = rw was at (Reached-IsWellFormed q) in
    rw now (refl, w.1, w.2, (trim at, refl), (trim by, refl))

visible_iff :
    (s : CanonicalDrawStatus) (r : CanonicalDrawRecord)
    → Matches s r
    → (is_canonical_draw_result_visible r ≡ true) ↔ (s ≡ settled)
unfolding is_canonical_draw_result_visible
visible_iff opened r h = rw h.0 (λ e. cc, λ e. cc)
visible_iff closed r h = rw h.0 (λ e. cc, λ e. cc)
visible_iff settled r h = rw h.0 (λ e. refl, λ e. refl)

-- The result of a reached draw is visible exactly when the draw is settled.
pub visible_iff_settled :
    {p : Platform} {r : CanonicalDrawRecord}
    → Reached p r
    → (is_canonical_draw_result_visible r ≡ true) ↔ (r.status ≡ settled)
visible_iff_settled {r} q = visible_iff r.status r (Reached-IsWellFormed q)

abbrev closed_now : CanonicalDrawRecord → String → String → CanonicalDrawRecord
closed_now r at by = record r {
  status = closed;
  closed_at = some (trim at);
  closed_by = some (trim by);
}

-- Closing succeeds exactly for an open draw with a date and an actor that are not blank.
pub close_ok_iff :
    (p : Platform) (r : CanonicalDrawRecord) (at by : String)
    → ((r' : CanonicalDrawRecord) × (close_canonical_draw p r at by ≡ ok r')) ↔ (
        (r.status ≡ opened)
        × (is_empty (trim at) ≡ false)
        × (is_nan_date p (trim at) ≡ false)
        × (is_empty (trim by) ≡ false))
unfolding close_canonical_draw
close_ok_iff p r at by = (
  λ (r', h).
      let (n, hn, h1) = >>=-eq-ok (apply_canonical_draw_status_transition r.status closed) _ h in
      let (a, ha, h2) = >>=-eq-ok (require_date p canonical_draw_validation at "closedAt") _ h1 in
      let (b, hb, h3) = >>=-eq-ok (require_text canonical_draw_validation by "closedBy") _ h2 in
      ground (
        arith,
        before_closed r.status n hn,
        require_date-eq_ok p canonical_draw_validation at "closedAt" a ha,
        require_text-eq_ok canonical_draw_validation by "closedBy" b hb,
      ),
  λ h. (
    closed_now r at by,
    unfold apply_canonical_draw_status_transition require_date require_text in
        rw h.0 (rw h.1 (rw h.2 (rw h.3))),
  ),
)

-- The first closing of the compatibility record wins: a second one changes nothing, and the record
-- counts as closed from then on.
pub close_draw_closure_once :
    (r : DrawClosureRecord) (by at by' at' : String)
    → (close_draw_closure (close_draw_closure r by at) by' at' ≡ close_draw_closure r by at)
      × (is_draw_closed (some (close_draw_closure r by at)) ≡ true)
unfolding close_draw_closure is_draw_closed
close_draw_closure_once r by at by' at' = ground arith
