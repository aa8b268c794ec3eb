-- ===== src/Domain/Draw/Freshness.antt =====
-- When a draw snapshot blocks purchases, and what its list of draw options holds.
use mathlib.Core.List.{Perm}
use mathlib.Core.List.Perm
use gambling.Base.{
  ◌≡◌, refl, ◌≢◌, ◌↔◌, ◌⊎◌, inl, inr, true, false, String, Option, some, none, List, [], ◌∷◌, ok,
  arith, Bool-cases, if◌then◌else◌, >>=-eq-ok,
}
use gambling.Base.Int.{ℤ, ◌-ℤ◌, ◌≤ℤ◌, leb_ℤ}
use gambling.Base.Sort.{sort, sort-perm}
use gambling.Base.Platform.{Platform}
use gambling.Domain.Draw.Availability.{
  DrawOption, DrawSnapshot, DrawFreshness, DrawAvailabilityState, FreshnessMode, warn_only, to_ms,
  own_option, compare_options, evaluate_draw_freshness, resolve_draw_availability_state,
  snapshot_options, availability_of, blocks_stale, list_snapshot_draw_options,
}

blocks_iff : (m : Option FreshnessMode) → (blocks_stale m ≡ true) ↔ (m ≢ some warn_only)
blocks_iff none = (λ e. ground arith, λ e. refl)
blocks_iff (some m) = (λ e. ground arith, λ e. ground arith)

leb_ℤ→≤ℤ : (a b : ℤ) → leb_ℤ a b ≡ true → a ≤ℤ b
leb_ℤ→≤ℤ a b h = ground arith

leb_ℤ-false : (a b : ℤ) → leb_ℤ a b ≡ false → ¬ (a ≤ℤ b)
leb_ℤ-false a b h = ground arith

is_fresh_value :
    (p : Platform) (s : DrawSnapshot) (now_iso : String) (f : DrawFreshness) (now fetched : ℤ)
    → p.date_parse now_iso ≡ some now
    → p.date_parse s.fetched_at ≡ some fetched
    → evaluate_draw_freshness p s now_iso ≡ ok f
    → f.is_fresh ≡ leb_ℤ (now -ℤ fetched) (to_ms s.freshness_ttl_seconds)
unfolding evaluate_draw_freshness
is_fresh_value p s now_iso f now fetched hn hf h = ground arith

blocked_value :
    (code : String) (s : DrawSnapshot) (mode : Option FreshnessMode) (f : DrawFreshness)
    (st : DrawAvailabilityState)
    → ok (availability_of code s mode f) ≡ ok st
    → st.is_purchase_blocked ≡ (if f.is_fresh then false else blocks_stale mode)
blocked_value code s mode f st h = ground arith

-- A purchase against a snapshot with a readable date, at a readable time, is blocked exactly when
-- the snapshot is older than its time to live and the lottery does not merely warn.
pub blocked_iff :
    (p : Platform) (code : String) (s : DrawSnapshot) (now_iso : String)
    (mode : Option FreshnessMode) (st : DrawAvailabilityState) (now fetched : ℤ)
    → p.date_parse now_iso ≡ some now
    → p.date_parse s.fetched_at ≡ some fetched
    → resolve_draw_availability_state p code (some s) now_iso mode ≡ ok st
    → (st.is_purchase_blocked ≡ true)
      ↔ (¬ (now -ℤ fetched ≤ℤ to_ms s.freshness_ttl_seconds) × (mode ≢ some warn_only))
unfolding resolve_draw_availability_state
blocked_iff p code s now_iso mode st now fetched hn hf h =
    let (f, hf1, hs) = >>=-eq-ok (evaluate_draw_freshness p s now_iso) _ h in
    let age = is_fresh_value p s now_iso f now fetched hn hf hf1 in
    let verdict = blocked_value code s mode f st hs in
    elim (Bool-cases (leb_ℤ (now -ℤ fetched) (to_ms s.freshness_ttl_seconds))) [
      | inl young ↦ (
        λ e. cc (verdict, age, young, e),
        λ (old, m). absurd (old (leb_ℤ→≤ℤ (now -ℤ fetched) (to_ms s.freshness_ttl_seconds) young)),
      )
      | inr old ↦ (
        λ e. (
          leb_ℤ-false (now -ℤ fetched) (to_ms s.freshness_ttl_seconds) old,
          (blocks_iff mode).0 (cc (verdict, age, old, e)),
        ),
        λ (o, m). cc (verdict, age, old, (blocks_iff mode).1 m),
      )
    ]

-- what a list of options offers of a snapshot that lists `o`
abbrev Offers : Platform → DrawSnapshot → Option (List DrawOption) → List DrawOption → Type 0
Offers p s o offered =
    (offered ≢ [])
    × (((d : DrawOption) × (draws : List DrawOption) × (o ≡ some (d ∷ draws))
          × Perm offered (d ∷ draws))
        ⊎ (offered ≡ own_option s ∷ []))

Offers-sort :
    (p : Platform) (s : DrawSnapshot) (d : DrawOption) (draws : List DrawOption)
    → Offers p s (some (d ∷ draws)) (sort (compare_options p) (d ∷ draws))
Offers-sort p s d draws =
    let perm = sort-perm (compare_options p) (d ∷ draws) in
    (λ e. cc (Perm.nil-eq (rw e at perm)), inl (d, draws, refl, perm))

snapshot_options-Offers :
    (p : Platform) (s : DrawSnapshot) (o : Option (List DrawOption))
    → Offers p s o (snapshot_options p s o)
unfolding snapshot_options
snapshot_options-Offers p s none = (λ e. cc, inr refl)
snapshot_options-Offers p s (some []) = (λ e. cc, inr refl)
snapshot_options-Offers p s (some (d ∷ draws)) = Offers-sort p s d draws

-- A snapshot always offers at least one draw, and what it offers is what it lists, in some order, or
-- itself where it lists none.
pub options_of_snapshot :
    (p : Platform) (s : DrawSnapshot)
    → (list_snapshot_draw_options p (some s) ≢ [])
      × (((d : DrawOption) × (draws : List DrawOption) × (s.available_draws ≡ some (d ∷ draws))
            × Perm (list_snapshot_draw_options p (some s)) (d ∷ draws))
          ⊎ (list_snapshot_draw_options p (some s) ≡ own_option s ∷ []))
unfolding list_snapshot_draw_options
options_of_snapshot p s = snapshot_options-Offers p s s.available_draws
