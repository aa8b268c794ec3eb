-- ===== src/Application/Orchestration/Outstanding.antt =====
-- What the groups of `collectPendingReserveGroups` hold, against sums over the entries.
use gambling.Base.{
  ◌≡◌, refl, ◌∙◌, ap, inl, inr, String, Bool, true, false, not, ◌||◌, ◌&&◌, Option, none, some,
  List, [], ◌∷◌, ◌==◌, if◌then◌else◌, or_else, is_space, is_empty, trim, template, trunc,
  Bool-cases, arith, eq_refl, eq_iff,
}
use gambling.Base.Int.{int_laws, ℤ, pos, ◌+ℤ◌, ◌-ℤ◌}
use gambling.Base.Lists.{find}
use gambling.Domain.Ledger.Entry.{LedgerOperationType, reserve, debit, release, LedgerEntry}
use gambling.Application.Orchestration.Reserves.{
  PendingReserveGroup, text_of, request_of, key_of, group_key, amount_of, moved, add_to_groups,
  is_skipped, group_entries,
}

-- what is held under a key
abbrev held_at : Option PendingReserveGroup → ℤ
held_at none = pos 0
held_at (some g) = g.amount_minor

abbrev pub held : List PendingReserveGroup → String → ℤ
held groups key = held_at (find (λ g. group_key g == key) groups)

-- the loop at one key, over an amount from before
abbrev fold_held : String → String → List LedgerEntry → ℤ → ℤ
fold_held currency key [] total = total
fold_held currency key (e ∷ entries) total = fold_held currency key entries (
    if not (is_skipped currency e) && key_of e == key
    then moved e.operation (amount_of e) total
    else total)

held-add_self :
    (groups : List PendingReserveGroup) (e : LedgerEntry)
    → held (add_to_groups groups e) (key_of e)
      ≡ moved e.operation (amount_of e) (held groups (key_of e))
unfolding add_to_groups
held-add_self [] e = rw (eq_refl (key_of e)) refl
held-add_self (g ∷ groups) e = elim (Bool-cases (group_key g == key_of e)) [
  | inl h ↦ rw h (rw h refl)
  | inr h ↦ rw h (rw h (held-add_self groups e))
]

different : (s t u : String) → (s == t) ≡ true → (t == u) ≡ false → (s == u) ≡ false
different s t u h k = rw ((eq_iff s t).0 h) k

held-add_other :
    (groups : List PendingReserveGroup) (e : LedgerEntry) (key : String)
    → (key_of e == key) ≡ false
    → held (add_to_groups groups e) key ≡ held groups key
unfolding add_to_groups
held-add_other [] e key other = rw other refl
held-add_other (g ∷ groups) e key other = elim (Bool-cases (group_key g == key_of e)) [
  | inl h ↦ let apart = different (group_key g) (key_of e) key h other in rw (h, apart) refl
  | inr h ↦ elim (Bool-cases (group_key g == key)) [
    | inl k ↦ rw (h, k) refl
    | inr k ↦ rw (h, k) (held-add_other groups e key other)
  ]
]

held-add_at :
    (groups : List PendingReserveGroup) (e : LedgerEntry) (key : String)
    → key_of e ≡ key
    → held (add_to_groups groups e) key ≡ moved e.operation (amount_of e) (held groups key)
held-add_at groups e key same = rw (← same) (held-add_self groups e)

held-group :
    (currency key : String) (entries : List LedgerEntry) (groups : List PendingReserveGroup)
    → held (group_entries currency groups entries) key
      ≡ fold_held currency key entries (held groups key)
unfolding group_entries
held-group currency key [] groups = refl
held-group currency key (e ∷ entries) groups = elim (Bool-cases (is_skipped currency e)) [
  | inl h ↦ rw h (held-group currency key entries groups)
  | inr h ↦ elim (Bool-cases (key_of e == key)) [
    | inl k ↦
        rw (h, k)
          (held-group currency key entries (add_to_groups groups e)
            ∙ ap (fold_held currency key entries)
                (held-add_at groups e key ((eq_iff (key_of e) key).0 k)))
    | inr k ↦
        rw (h, k)
          (held-group currency key entries (add_to_groups groups e)
            ∙ ap (fold_held currency key entries) (held-add_other groups e key k))
  ]
]

-- The reference, which stands apart from the code: the entries of a request in a currency, and what
-- each of them adds to its reserve or takes from it.
abbrev pub names : Option String → String → String → Bool
names none currency key = false
names (some id) currency key =
    not (is_empty (trim id)) && template (currency ∷ ":" ∷ trim id ∷ []) == key

-- an empty filter asks for every currency
abbrev pub concerns : String → String → LedgerEntry → Bool
concerns filter key e =
    (is_empty filter || e.currency == filter) && names e.reference.request_id e.currency key

abbrev pub adds : LedgerOperationType → ℤ → ℤ
adds LedgerOperationType.reserve amount = amount
adds operation amount = pos 0

abbrev pub takes : LedgerOperationType → ℤ → ℤ
takes LedgerOperationType.debit amount = amount
takes LedgerOperationType.release amount = amount
takes operation amount = pos 0

-- the sum over the entries that concern the key
unfoldable pub sum_over :
    (LedgerOperationType → ℤ → ℤ) → (LedgerEntry → Bool) → List LedgerEntry → ℤ
sum_over share counts [] = pos 0
sum_over share counts (e ∷ entries) =
    let rest = sum_over share counts entries in
    if counts e then share e.operation (or_else (trunc e.amount_minor) (pos 0)) +ℤ rest else rest

abbrev pub outstanding : String → String → List LedgerEntry → ℤ
outstanding filter key entries =
    sum_over adds (concerns filter key) entries -ℤ sum_over takes (concerns filter key) entries

counted :
    (skips every same named : Bool)
    → (not (skips || (not every && not same)) && named) ≡ ((every || same) && (not skips && named))
counted skips every same named = ground arith

names_text :
    (request : Option String) (currency key : String)
    → (not (is_empty (trim (text_of request)))
        && template (currency ∷ ":" ∷ trim (text_of request) ∷ []) == key)
      ≡ names request currency key
unfolding trim is_space
names_text none currency key = refl
names_text (some id) currency key = refl

counts_same :
    (filter key : String) (e : LedgerEntry)
    → (not (is_skipped filter e) && key_of e == key) ≡ concerns filter key e
counts_same filter key e =
    counted (is_empty (request_of e)) (is_empty filter) (e.currency == filter) (key_of e == key)
    ∙ ap (λ named. (is_empty filter || e.currency == filter) && named)
        (names_text e.reference.request_id e.currency key)

moved_shares :
    (operation : LedgerOperationType) (amount total : ℤ)
    → moved operation amount total ≡ total +ℤ adds operation amount -ℤ takes operation amount
moved_shares reserve amount total = omega int_laws
moved_shares debit amount total = omega int_laws
moved_shares release amount total = omega int_laws
moved_shares operation amount total = omega int_laws

add_up : (total r t rs ts : ℤ) → total +ℤ r -ℤ t +ℤ (rs -ℤ ts) ≡ total +ℤ (r +ℤ rs -ℤ (t +ℤ ts))
add_up total r t rs ts = omega int_laws

add_zero : (x : ℤ) → pos 0 +ℤ x ≡ x
add_zero x = omega int_laws

fold_held-eq-sums :
    (filter key : String) (entries : List LedgerEntry) (total : ℤ)
    → fold_held filter key entries total ≡ total +ℤ outstanding filter key entries
unfolding sum_over
fold_held-eq-sums filter key [] total = omega int_laws
fold_held-eq-sums filter key (e ∷ entries) total = elim (Bool-cases (concerns filter key e)) [
  | inl h ↦
      rw (counts_same filter key e, h)
        (fold_held-eq-sums filter key entries (moved e.operation (amount_of e) total)
          ∙ ap (λ x. x +ℤ outstanding filter key entries)
              (moved_shares e.operation (amount_of e) total)
          ∙ add_up total (adds e.operation (amount_of e)) (takes e.operation (amount_of e))
              (sum_over adds (concerns filter key) entries)
              (sum_over takes (concerns filter key) entries))
  | inr h ↦ rw (counts_same filter key e, h) (fold_held-eq-sums filter key entries total)
]

-- What the groups hold for a request and a currency is the sum of its reserves less the sum of its
-- debits and releases, over the entries that name the request, in the currency that was asked for;
-- an amount counts with its whole part.
pub held-outstanding :
    (filter key : String) (entries : List LedgerEntry)
    → held (group_entries filter [] entries) key ≡ outstanding filter key entries
held-outstanding filter key entries =
    held-group filter key entries []
    ∙ fold_held-eq-sums filter key entries (pos 0)
    ∙ add_zero (outstanding filter key entries)
