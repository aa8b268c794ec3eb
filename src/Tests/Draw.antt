-- ===== src/Tests/Draw.antt =====
-- Tests of draws and of draw snapshots.
use gambling.Base.{◌≡◌, ◌≢◌, ◌↔◌, refl, true, false, some, none, ok, trim, is_empty, is_space}
use gambling.Base.Int.{pos, ◌-ℤ◌, ◌+ℤ◌, ◌≤ℤ◌}
use gambling.Base.Platform.{require_text, require_date, is_nan_date, iso_string}
use gambling.Domain.RequestState.{hidden}
use gambling.Domain.Draw.Canonical.{
  CanonicalDrawRecord, CreateOpenCanonicalDrawInput, opened, closed, create_open_canonical_draw,
  close_canonical_draw, apply_canonical_draw_status_transition,
}
use gambling.Domain.Draw.Lifecycle.{
  created, closing, IsWellFormed, Reached-IsWellFormed, close_ok_iff,
}
use gambling.Domain.Draw.Availability.{
  DrawSnapshot, DrawAvailabilityState, stale, warn_only, resolve_draw_availability_state,
  evaluate_draw_freshness,
}
use gambling.Domain.Draw.Freshness.{blocked_iff}
use gambling.Tests.Engine.{engine, first_day, second_day}

abbrev draw_input : CreateOpenCanonicalDrawInput
draw_input = record {
  lottery_code = "lotto";
  draw_id = "d1";
  draw_at = second_day;
  opened_at = first_day;
}

abbrev open_draw : CanonicalDrawRecord
open_draw = record {
  lottery_code = "lotto";
  draw_id = "d1";
  draw_at = second_day;
  status = opened;
  result_visibility = hidden;
  opened_at = first_day;
  closed_at = none;
  settled_at = none;
  closed_by = none;
  settled_by = none;
}

abbrev closed_draw : CanonicalDrawRecord
closed_draw = record open_draw {
  status = closed;
  closed_at = some second_day;
  closed_by = some "root";
}

draw_created : create_open_canonical_draw engine draw_input ≡ ok open_draw
unfolding create_open_canonical_draw require_text require_date trim is_space
draw_created = refl

draw_closed : close_canonical_draw engine open_draw second_day "root" ≡ ok closed_draw
unfolding close_canonical_draw apply_canonical_draw_status_transition require_text require_date trim
    is_space
draw_closed = refl

Reached-IsWellFormed_example : IsWellFormed closed_draw
Reached-IsWellFormed_example =
    Reached-IsWellFormed (closing second_day "root" (created draw_input draw_created) draw_closed)

close_ok_iff_example :
    ((r : CanonicalDrawRecord) × (close_canonical_draw engine open_draw second_day "root" ≡ ok r))
    ↔ ((opened ≡ opened)
        × (is_empty (trim second_day) ≡ false)
        × (is_nan_date engine (trim second_day) ≡ false)
        × (is_empty (trim "root") ≡ false))
close_ok_iff_example = close_ok_iff engine open_draw second_day "root"

abbrev old_snapshot : DrawSnapshot
old_snapshot = record {
  lottery_code = "lotto";
  draw_id = "d1";
  draw_at = second_day;
  fetched_at = first_day;
  freshness_ttl_seconds = pos 0;
  available_draws = none;
}

abbrev blocked_state : DrawAvailabilityState
blocked_state = record {
  lottery_code = "lotto";
  status = stale;
  is_purchase_blocked = true;
  snapshot = some old_snapshot;
  freshness = some (record { is_fresh = false; stale_since = some first_day });
}

old_blocked :
    resolve_draw_availability_state engine "lotto" (some old_snapshot) second_day none
    ≡ ok blocked_state
unfolding resolve_draw_availability_state evaluate_draw_freshness iso_string ◌-ℤ◌ ◌+ℤ◌
old_blocked = refl

blocked_iff_example :
    (true ≡ true) ↔ (¬ (pos 1767312000000 -ℤ pos 1767225600000 ≤ℤ pos 0) × (none ≢ some warn_only))
blocked_iff_example =
    blocked_iff engine "lotto" old_snapshot second_day none blocked_state (pos 1767312000000)
      (pos 1767225600000) refl refl old_blocked
