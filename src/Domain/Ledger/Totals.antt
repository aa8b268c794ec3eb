-- ===== src/Domain/Ledger/Totals.antt =====
-- The balance of a list of entries is the opening balance and what the entries moved, whatever
-- the order in which they are listed.
use Prim.Native.Nat.{Ordering}
use gambling.Base.{
  ℕ, zero, suc, ◌+◌, ◌≡◌, refl, ap, ◌∙◌, throw_if, or_else, String, Bool, true, false, not, Option,
  some, none, List, [], ◌∷◌, ◌++◌, Number, trunc, ok, arith, if◌then◌else◌, Bool-cases, inl, inr,
  >>=-eq-ok, ◌==◌, ◌>>=◌, ledger_validation,
}
use gambling.Base.Int.{ℤ, pos, negsuc, ◌+ℤ◌, ◌≤ℤ◌, int_laws, gains_add}
use gambling.Base.Sort.{sort, insert, is_after}
use gambling.Base.Platform.{Platform, require_text}
use gambling.Domain.Ledger.Entry.{
  LedgerOperationType, reserve, debit, release, credit, manual_credit, manual_debit, LedgerEntry,
  normalize_ledger_entry, normalize_amount_minor, positive, non_negative,
  normalize_non_negative_minor, normalize_currency,
}
use gambling.Domain.Ledger.Balance.{
  BalanceSnapshot, LedgerMovementDelta, BalanceAggregationInput, movement,
  resolve_ledger_movement_delta, move_balance, apply_ledger_entry, normalize_all, compare_entries,
  sort_ledger_entries, apply_all, create_balance_snapshot, build_balance_snapshot,
}
use gambling.Domain.Ledger.Normal.{normalize_inv}

-- the whole part of an amount that is at least 0
abbrev pub whole : Option ℤ → ℕ
whole (some (pos n)) = n
whole other = 0

abbrev pub amount_of : LedgerEntry → ℕ
amount_of e = whole (trunc e.amount_minor)

-- Which operations add to the available and to the reserved balance, and which take from them.
abbrev pub adds_available : LedgerOperationType → Bool
adds_available release = true
adds_available credit = true
adds_available manual_credit = true
adds_available operation = false

abbrev pub takes_available : LedgerOperationType → Bool
takes_available reserve = true
takes_available manual_debit = true
takes_available operation = false

abbrev pub adds_reserved : LedgerOperationType → Bool
adds_reserved reserve = true
adds_reserved operation = false

abbrev pub takes_reserved : LedgerOperationType → Bool
takes_reserved debit = true
takes_reserved release = true
takes_reserved operation = false

-- the share of one entry, and of all entries, in the operations that `q` selects
abbrev pub share : (LedgerOperationType → Bool) → LedgerEntry → ℕ
share q e = if q e.operation then amount_of e else 0

unfoldable pub total : (LedgerOperationType → Bool) → List LedgerEntry → ℕ
total q [] = 0
total q (e ∷ es) = share q e + total q es

whole-positive : (o : Option ℤ) (n : ℕ) → positive o ≡ ok n → whole o ≡ n
whole-positive (some (pos (suc m))) n h = ground arith
whole-positive (some (pos zero)) n h = cc
whole-positive (some (negsuc m)) n h = cc
whole-positive none n h = cc

share-normalize :
    (p : Platform) (q : LedgerOperationType → Bool) (e n : LedgerEntry)
    → normalize_ledger_entry p e ≡ ok n
    → share q n ≡ share q e
unfolding normalize_amount_minor
share-normalize p q e n h =
    let f = normalize_inv p e n h in
    let (a, ha, na) = f.amount in
    rw f.operation (rw na (rw (whole-positive (trunc e.amount_minor) a ha)))

-- Two snapshots of one wallet, between which the two balances have gained and lost these amounts.
pub record Moved (s s' : BalanceSnapshot) (gain loss gain_reserved loss_reserved : ℕ) : Type 0 where
  pub available : s'.available_minor +ℤ pos loss ≡ s.available_minor +ℤ pos gain
  pub reserved : s'.reserved_minor +ℤ pos loss_reserved ≡ s.reserved_minor +ℤ pos gain_reserved
  pub available_nonneg : pos 0 ≤ℤ s'.available_minor
  pub reserved_nonneg : pos 0 ≤ℤ s'.reserved_minor
  pub user : s'.user_id ≡ s.user_id
  pub currency : s'.currency ≡ s.currency

move_balance_inv :
    (s s' : BalanceSnapshot) (op : LedgerOperationType) (n : ℕ)
    → move_balance s op (movement op n) ≡ ok s'
    → Moved s s'
        (if adds_available op then n else 0)
        (if takes_available op then n else 0)
        (if adds_reserved op then n else 0)
        (if takes_reserved op then n else 0)
unfolding move_balance movement
move_balance_inv s s' reserve n h = grind int_laws
move_balance_inv s s' op n h = grind int_laws

delta_inv :
    (op : LedgerOperationType) (a : Number) (d : LedgerMovementDelta)
    → resolve_ledger_movement_delta op a ≡ ok d
    → d ≡ movement op (whole (trunc a))
unfolding resolve_ledger_movement_delta normalize_amount_minor
delta_inv op a d h =
    let (n, hn, k) = >>=-eq-ok (normalize_amount_minor a) _ h in
    rw (whole-positive (trunc a) n hn) (ground arith)

-- what applying one entry does
abbrev MovedBy : BalanceSnapshot → BalanceSnapshot → List LedgerEntry → Type 0
MovedBy s s' es =
    Moved s s' (total adds_available es) (total takes_available es) (total adds_reserved es)
      (total takes_reserved es)

apply_parts :
    (p : Platform) (s s' : BalanceSnapshot) (e n : LedgerEntry)
    → normalize_ledger_entry p e ≡ ok n
    → apply_ledger_entry p s e ≡ ok s'
    → (resolve_ledger_movement_delta n.operation n.amount_minor >>= λ d.
        move_balance s n.operation d)
      ≡ ok s'
unfolding apply_ledger_entry
apply_parts p s s' e n hn h = ground arith

apply-Moved :
    (p : Platform) (s s' : BalanceSnapshot) (e : LedgerEntry)
    → apply_ledger_entry p s e ≡ ok s'
    → Moved s s'
        (share adds_available e)
        (share takes_available e)
        (share adds_reserved e)
        (share takes_reserved e)
unfolding apply_ledger_entry
apply-Moved p s s' e h =
    let (n, hn, rest) = >>=-eq-ok (normalize_ledger_entry p e) _ h in
    let (d, hd, moved) =
      >>=-eq-ok (resolve_ledger_movement_delta n.operation n.amount_minor) _
        (apply_parts p s s' e n hn h) in
    rw (← share-normalize p adds_available e n hn) (
      rw (← share-normalize p takes_available e n hn) (
        rw (← share-normalize p adds_reserved e n hn) (
          rw (← share-normalize p takes_reserved e n hn) (
            move_balance_inv s s' n.operation (amount_of n)
              (rw (delta_inv n.operation n.amount_minor d hd) at moved)))))

Moved-trans :
    (s t u : BalanceSnapshot) (a b c d a' b' c' d' : ℕ)
    → Moved s t a b c d
    → Moved t u a' b' c' d'
    → Moved s u (a + a') (b + b') (c + c') (d + d')
Moved-trans s t u a b c d a' b' c' d' m n = record {
  available =
      gains_add s.available_minor t.available_minor u.available_minor a b a' b' m.available
        n.available;
  reserved =
      gains_add s.reserved_minor t.reserved_minor u.reserved_minor c d c' d' m.reserved n.reserved;
  available_nonneg = n.available_nonneg;
  reserved_nonneg = n.reserved_nonneg;
  user = n.user ∙ m.user;
  currency = n.currency ∙ m.currency;
}

Moved-nothing :
    (s : BalanceSnapshot)
    → pos 0 ≤ℤ s.available_minor
    → pos 0 ≤ℤ s.reserved_minor
    → Moved s s 0 0 0 0
Moved-nothing s ha hr = record {
  available = refl;
  reserved = refl;
  available_nonneg = ha;
  reserved_nonneg = hr;
  user = refl;
  currency = refl;
}

pub apply_all-Moved :
    (p : Platform) (user : String) (s s' : BalanceSnapshot) (es : List LedgerEntry)
    → pos 0 ≤ℤ s.available_minor
    → pos 0 ≤ℤ s.reserved_minor
    → apply_all p user s es ≡ ok s'
    → MovedBy s s' es
unfolding apply_all total
apply_all-Moved p user s s' [] ha hr h =
    let e : s ≡ s' = ground arith in rw (← e) (Moved-nothing s ha hr)
apply_all-Moved p user s s' (e ∷ es) ha hr h =
    let (x, hx, h1) = >>=-eq-ok (throw_if (not (e.user_id == user)) ledger_validation _) _ h in
    let (t, ht, h2) = >>=-eq-ok (apply_ledger_entry p s e) _ h1 in
    let m = apply-Moved p s t e ht in
    Moved-trans s t s' _ _ _ _ _ _ _ _ m
      (apply_all-Moved p user t s' es m.available_nonneg m.reserved_nonneg h2)

total-insert :
    (q : LedgerOperationType → Bool) (c : LedgerEntry → LedgerEntry → Ordering) (e : LedgerEntry)
    (es : List LedgerEntry)
    → total q (insert c e es) ≡ share q e + total q es
unfolding insert total
total-insert q c e [] = refl
total-insert q c e (x ∷ es) = elim (Bool-cases (is_after (c e x))) [
  | inl h ↦ rw h (omega (arith, total-insert q c e es))
  | inr h ↦ rw h
]

-- Sorting changes no total.
pub total-sort :
    (q : LedgerOperationType → Bool) (c : LedgerEntry → LedgerEntry → Ordering)
    (es : List LedgerEntry)
    → total q (sort c es) ≡ total q es
unfolding sort total
total-sort q c [] = refl
total-sort q c (e ∷ es) =
    total-insert q c e (sort c es) ∙ ap (λ (t : ℕ). share q e + t) (total-sort q c es)

pub total-normalize_all :
    (p : Platform) (q : LedgerOperationType → Bool) (es ns : List LedgerEntry)
    → normalize_all p es ≡ ok ns
    → total q ns ≡ total q es
unfolding normalize_all total
total-normalize_all p q [] ns h = let e : [] ≡ ns = ground arith in rw (← e)
total-normalize_all p q (e ∷ es) ns h =
    let (n, hn, h1) = >>=-eq-ok (normalize_ledger_entry p e) _ h in
    let (ms, hm, h2) = >>=-eq-ok (normalize_all p es) _ h1 in
    let same : n ∷ ms ≡ ns = ground arith in
    rw (← same) (omega (arith, share-normalize p q e n hn, total-normalize_all p q es ms hm))

total-sort_ledger_entries :
    (p : Platform) (q : LedgerOperationType → Bool) (es ns : List LedgerEntry)
    → sort_ledger_entries p es ≡ ok ns
    → total q ns ≡ total q es
unfolding sort_ledger_entries
total-sort_ledger_entries p q es ns h =
    let (ms, hm, h1) = >>=-eq-ok (normalize_all p es) _ h in
    let same : sort (compare_entries p) ms ≡ ns = ground arith in
    rw (← same) (total-sort q (compare_entries p) ms ∙ total-normalize_all p q es ms hm)

-- an opening amount, 0 where it is absent
abbrev pub opening : Option Number → ℕ
opening o = whole (trunc (or_else o (Number.integer (pos 0))))

opening_value :
    (label : String) (a : Number) (n : ℕ)
    → normalize_non_negative_minor a label ≡ ok n
    → whole (trunc a) ≡ n
unfolding normalize_non_negative_minor
opening_value label a n h = value_at (trunc a) h
  where
    value_at : (o : Option ℤ) → non_negative label o ≡ ok n → whole o ≡ n
    value_at none k = cc
    value_at (some (pos m)) k = ground arith
    value_at (some (negsuc m)) k = cc

base_inv :
    (p : Platform) (user currency : String) (a r : Option Number) (base : BalanceSnapshot)
    → create_balance_snapshot p user currency a r ≡ ok base
    → (base.available_minor ≡ pos (opening a)) × (base.reserved_minor ≡ pos (opening r))
unfolding create_balance_snapshot
base_inv p user currency a r base h =
    let (u, hu, h1) = >>=-eq-ok (require_text ledger_validation user "snapshot userId") _ h in
    let (c, hc, h2) = >>=-eq-ok (normalize_currency p currency) _ h1 in
    let (x, hx, h3) =
      >>=-eq-ok
        (normalize_non_negative_minor (or_else a (Number.integer (pos 0)))
          "snapshot availableMinor")
        _ h2 in
    let (y, hy, h4) =
      >>=-eq-ok
        (normalize_non_negative_minor (or_else r (Number.integer (pos 0))) "snapshot reservedMinor")
        _ h3 in
    ground (
      arith,
      opening_value "snapshot availableMinor" (or_else a (Number.integer (pos 0))) x hx,
      opening_value "snapshot reservedMinor" (or_else r (Number.integer (pos 0))) y hy,
    )

-- If the balance of a list of entries is computed, neither balance is negative, and each is the
-- opening amount with what the entries of each operation added to it and took from it, in whatever
-- order they are listed.
pub build_balance_totals :
    (p : Platform) (input : BalanceAggregationInput) (s : BalanceSnapshot)
    → build_balance_snapshot p input ≡ ok s
    → (s.available_minor +ℤ pos (total takes_available input.entries)
        ≡ pos (opening input.opening_available_minor) +ℤ pos (total adds_available input.entries))
      × (s.reserved_minor +ℤ pos (total takes_reserved input.entries)
          ≡ pos (opening input.opening_reserved_minor) +ℤ pos (total adds_reserved input.entries))
      × (pos 0 ≤ℤ s.available_minor)
      × (pos 0 ≤ℤ s.reserved_minor)
unfolding build_balance_snapshot
build_balance_totals p input s h =
    let (base, hb, h1) =
      >>=-eq-ok
        (create_balance_snapshot p input.user_id input.currency input.opening_available_minor
          input.opening_reserved_minor)
        _ h in
    let (sorted, hs, h2) = >>=-eq-ok (sort_ledger_entries p input.entries) _ h1 in
    let (ea, er) = base_inv p input.user_id input.currency _ _ base hb in
    let m =
      apply_all-Moved p base.user_id base s sorted (rw ea (omega arith)) (rw er (omega arith)) h2 in
    let same =
      λ (q : LedgerOperationType → Bool). total-sort_ledger_entries p q input.entries sorted hs in
    (
      rw (← ea, ← same takes_available, ← same adds_available) m.available,
      rw (← er, ← same takes_reserved, ← same adds_reserved) m.reserved,
      m.available_nonneg,
      m.reserved_nonneg,
    )

pub total-append_one :
    (q : LedgerOperationType → Bool) (es : List LedgerEntry) (n : LedgerEntry)
    → total q (es ++ n ∷ []) ≡ total q es + share q n
unfolding total
total-append_one q [] n = omega arith
total-append_one q (e ∷ es) n = omega (arith, total-append_one q es n)
