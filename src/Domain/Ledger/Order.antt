-- ===== src/Domain/Ledger/Order.antt =====
-- The order of ledger entries: by time, then by the collation of their ids. It is a consistent
-- comparator on the entries whose date can be read, which normalized entries all have.
use Prim.Native.Nat.{Ordering}
use gambling.Base.{◌≡◌, refl, ◌∙◌, ap, true, false, some, List, [], ◌∷◌, ok, arith, >>=-eq-ok}
use gambling.Base.Int.{ℤ}
use gambling.Base.Lists.{All}
use gambling.Base.Sort.{
  IsConsistent, is_after, sort, IsSorted, All-sort, sort-IsSorted, sort_of_IsSorted,
}
use gambling.Base.Platform.{Platform, IsLawful}
use gambling.Domain.Ledger.Entry.{LedgerEntry, normalize_ledger_entry}
use gambling.Domain.Ledger.Balance.{
  compare_times, compare_entries, normalize_all, sort_ledger_entries,
}
use gambling.Domain.Ledger.Normal.{normalize_idem, normalized_date}

abbrev pub HasDate : Platform → LedgerEntry → Type 0
HasDate p e = (t : ℤ) × (p.date_parse e.created_at ≡ some t)

compare_times_total :
    (l r : ℤ) (a b : Ordering)
    → (is_after a ≡ true → is_after b ≡ false)
    → is_after (compare_times (some l) (some r) a) ≡ true
    → is_after (compare_times (some r) (some l) b) ≡ false
compare_times_total l r a b f h = ground arith

compare_times_trans :
    (x y z : ℤ) (a b c : Ordering)
    → (is_after a ≡ false → is_after b ≡ false → is_after c ≡ false)
    → is_after (compare_times (some x) (some y) a) ≡ false
    → is_after (compare_times (some y) (some z) b) ≡ false
    → is_after (compare_times (some x) (some z) c) ≡ false
compare_times_trans x y z a b c f h k = ground arith

pub compare_entries-IsConsistent :
    (p : Platform) → IsLawful p → IsConsistent (HasDate p) (compare_entries p)
unfolding compare_entries
compare_entries-IsConsistent p lawful = record {
  total = λ x y (tx, ex) (ty, ey).
      rw (ex, ey)
        (compare_times_total tx ty _ _
          (lawful.locale_compare-IsConsistent.total x.entry_id y.entry_id tt tt));
  trans = λ x y z (tx, ex) (ty, ey) (tz, ez).
      rw (ex, ey, ez)
        (compare_times_trans tx ty tz _ _ _
          (lawful.locale_compare-IsConsistent.trans x.entry_id y.entry_id z.entry_id tt tt tt));
}

-- a normalized entry
abbrev pub IsNormal : Platform → LedgerEntry → Type 0
IsNormal p e = normalize_ledger_entry p e ≡ ok e

module _ (p : Platform) (lawful : IsLawful p) where
  pub IsNormal-HasDate : (e : LedgerEntry) → IsNormal p e → HasDate p e
  IsNormal-HasDate e h = normalized_date p e e lawful h

  pub All-HasDate : (es : List LedgerEntry) → All (IsNormal p) es → All (HasDate p) es
  All-HasDate [] h = tt
  All-HasDate (e ∷ es) h = (IsNormal-HasDate e h.0, All-HasDate es h.1)

  pub normalize_all-IsNormal :
      (es ns : List LedgerEntry) → normalize_all p es ≡ ok ns → All (IsNormal p) ns
  unfolding normalize_all
  normalize_all-IsNormal [] ns h = let e : [] ≡ ns = ground arith in rw (← e) tt
  normalize_all-IsNormal (e ∷ es) ns h =
      let (n, hn, h1) = >>=-eq-ok (normalize_ledger_entry p e) _ h in
      let (ms, hm, h2) = >>=-eq-ok (normalize_all p es) _ h1 in
      let same : n ∷ ms ≡ ns = ground arith in
      rw (← same) (normalize_idem p e n lawful hn, normalize_all-IsNormal es ms hm)

  pub normalize_all_of_IsNormal :
      (es : List LedgerEntry) → All (IsNormal p) es → normalize_all p es ≡ ok es
  unfolding normalize_all
  normalize_all_of_IsNormal [] h = refl
  normalize_all_of_IsNormal (e ∷ es) h = rw h.0 (rw (normalize_all_of_IsNormal es h.1))

  pub sort_ledger_entries_of_IsNormal :
      (es : List LedgerEntry)
      → All (IsNormal p) es
      → sort_ledger_entries p es ≡ ok (sort (compare_entries p) es)
  unfolding sort_ledger_entries
  sort_ledger_entries_of_IsNormal es h = rw (normalize_all_of_IsNormal es h)

  -- A sorted list of ledger entries is normalized and in order, so that sorting it once more
  -- changes nothing.
  pub sort_ledger_entries_idem :
      (es ns : List LedgerEntry)
      → sort_ledger_entries p es ≡ ok ns
      → All (IsNormal p) ns × IsSorted (compare_entries p) ns × (sort_ledger_entries p ns ≡ ok ns)
  unfolding sort_ledger_entries
  sort_ledger_entries_idem es ns h =
      let (ms, hm, h1) = >>=-eq-ok (normalize_all p es) _ h in
      let same : sort (compare_entries p) ms ≡ ns = ground arith in
      let normal = normalize_all-IsNormal es ms hm in
      let normal' = rw same at (All-sort (compare_entries p) (IsNormal p) ms normal) in
      let sorted = rw same at (
        sort-IsSorted (compare_entries p) (HasDate p) (compare_entries-IsConsistent p lawful) ms
          (All-HasDate ms normal)) in
      (
        normal',
        sorted,
        sort_ledger_entries_of_IsNormal ns normal'
            ∙ ap ok (sort_of_IsSorted (compare_entries p) ns sorted),
      )
