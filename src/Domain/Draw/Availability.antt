-- ===== src/Domain/Draw/Availability.antt =====
-- The freshness of a draw snapshot, the availability that follows from it and the list of draw
-- options (packages/domain/src/draw.ts).
use Prim.Native.Nat.{Ordering, compare}
use gambling.Base.{
  suc, ◌+◌, ◌*◌, String, Bool, true, false, Option, none, some, List, [], ◌∷◌, if◌then◌else◌,
  Result, ok, throw, range_error, ◌>>=◌,
}
use gambling.Base.Int.{ℤ, pos, negsuc, pos_part, neg_part, sub_ℕ, ◌+ℤ◌, ◌-ℤ◌, leb_ℤ}
use gambling.Base.Sort.{sort}
use gambling.Base.Platform.{Platform, iso_string}

pub record DrawOption : Type 0 where
  pub draw_id : String
  pub draw_at : String
  pub label : String
  pub price_minor : Option ℤ

pub record DrawSnapshot : Type 0 where
  pub lottery_code : String
  pub draw_id : String
  pub draw_at : String
  pub fetched_at : String
  pub freshness_ttl_seconds : ℤ
  pub available_draws : Option (List DrawOption)

pub record DrawFreshness : Type 0 where
  pub is_fresh : Bool
  pub stale_since : Option String

pub data DrawAvailabilityStatus : Type 0 where
  fresh stale missing : DrawAvailabilityStatus

pub record DrawAvailabilityState : Type 0 where
  pub lottery_code : String
  pub status : DrawAvailabilityStatus
  pub is_purchase_blocked : Bool
  pub snapshot : Option DrawSnapshot
  pub freshness : Option DrawFreshness

-- the values of `freshnessMode`
pub data FreshnessMode : Type 0 where
  block warn_only : FreshnessMode

-- `seconds * 1000`
abbrev pub to_ms : ℤ → ℤ
to_ms (pos n) = pos (n * 1000)
to_ms (negsuc n) = sub_ℕ 0 (suc n * 1000)

-- `now - fetchedAt <= ttl`, which is false where either date is NaN
abbrev pub is_within : Option ℤ → Option ℤ → ℤ → Bool
is_within (some now) (some fetched) ttl = leb_ℤ (now -ℤ fetched) ttl
is_within now fetched ttl = false

-- `new Date(fetchedAt + ttl).toISOString()`
abbrev pub expiry : Platform → Option ℤ → ℤ → Result String
expiry p none ttl = throw range_error "Invalid time value"
expiry p (some fetched) ttl = iso_string p (fetched +ℤ ttl)

unfoldable pub evaluate_draw_freshness : Platform → DrawSnapshot → String → Result DrawFreshness
evaluate_draw_freshness p snapshot now_iso =
    let fetched = p.date_parse snapshot.fetched_at in
    let ttl = to_ms snapshot.freshness_ttl_seconds in
    if is_within (p.date_parse now_iso) fetched ttl
    then ok (record { is_fresh = true; stale_since = none })
    else expiry p fetched ttl >>= λ since.
        ok (record { is_fresh = false; stale_since = some since })

-- `freshnessMode !== "warn_only"`
abbrev pub blocks_stale : Option FreshnessMode → Bool
blocks_stale (some warn_only) = false
blocks_stale mode = true

-- the state for a snapshot whose freshness is known
abbrev pub availability_of :
    String → DrawSnapshot → Option FreshnessMode → DrawFreshness → DrawAvailabilityState
availability_of code snapshot mode freshness =
    if freshness.is_fresh
    then record {
      lottery_code = code;
      status = fresh;
      is_purchase_blocked = false;
      snapshot = some snapshot;
      freshness = some freshness;
    }
    else record {
      lottery_code = code;
      status = stale;
      is_purchase_blocked = blocks_stale mode;
      snapshot = some snapshot;
      freshness = some freshness;
    }

unfoldable pub resolve_draw_availability_state :
    Platform
    → String
    → Option DrawSnapshot
    → String
    → Option FreshnessMode
    → Result DrawAvailabilityState
resolve_draw_availability_state p code none now_iso mode = ok (record {
  lottery_code = code;
  status = missing;
  is_purchase_blocked = true;
  snapshot = none;
  freshness = none;
})
resolve_draw_availability_state p code (some snapshot) now_iso mode =
    evaluate_draw_freshness p snapshot now_iso >>= λ freshness.
    ok (availability_of code snapshot mode freshness)

-- `Date.parse(left) - Date.parse(right)` as a comparator: NaN counts as 0
abbrev pub compare_dates : Option ℤ → Option ℤ → Ordering
compare_dates (some l) (some r) = compare (pos_part l + neg_part r) (pos_part r + neg_part l)
compare_dates l r = Ordering.eq

abbrev pub compare_options : Platform → DrawOption → DrawOption → Ordering
compare_options p l r = compare_dates (p.date_parse l.draw_at) (p.date_parse r.draw_at)

-- the single option of a snapshot that lists none
abbrev pub own_option : DrawSnapshot → DrawOption
own_option s = record {
  draw_id = s.draw_id;
  draw_at = s.draw_at;
  label = s.draw_id;
  price_minor = none;
}

unfoldable pub snapshot_options :
    Platform → DrawSnapshot → Option (List DrawOption) → List DrawOption
unfolding sort
snapshot_options p s (some (d ∷ draws)) = sort (compare_options p) (d ∷ draws)
snapshot_options p s other = own_option s ∷ []

unfoldable pub list_snapshot_draw_options : Platform → Option DrawSnapshot → List DrawOption
unfolding snapshot_options
list_snapshot_draw_options p none = []
list_snapshot_draw_options p (some s) = snapshot_options p s s.available_draws
