-- ===== src/Domain/Ledger/Balance.antt =====
-- Balances: what an entry moves, and the balance of a list of entries
-- (packages/domain/src/ledger.ts).
use Prim.Native.Nat.{Ordering, compare}
use gambling.Base.{
  ℕ, ◌+◌, String, Bool, true, false, not, Option, some, List, [], ◌∷◌, ◌==◌, or_else, template,
  Number, Result, ok, throw_if, ledger_validation, ◌>>=◌, ◌>>◌,
}
use gambling.Base.Int.{ℤ, pos, negsuc, pos_part, neg_part, sub_ℕ, ◌+ℤ◌}
use gambling.Base.Sort.{sort}
use gambling.Base.Platform.{Platform, require_text}
use gambling.Domain.Ledger.Entry.{
  LedgerOperationType, reserve, debit, release, credit, manual_credit, manual_debit, operation_text,
  LedgerEntry, normalize_amount_minor, normalize_non_negative_minor, normalize_currency,
  normalize_ledger_entry,
}

pub record BalanceSnapshot : Type 0 where
  pub user_id : String
  pub available_minor : ℤ
  pub reserved_minor : ℤ
  pub currency : String

pub record LedgerMovementDelta : Type 0 where
  pub available_minor_delta : ℤ
  pub reserved_minor_delta : ℤ

pub record BalanceAggregationInput : Type 0 where
  pub user_id : String
  pub currency : String
  pub entries : List LedgerEntry
  pub opening_available_minor : Option Number
  pub opening_reserved_minor : Option Number

-- `-amount`
abbrev pub minus : ℕ → ℤ
minus n = sub_ℕ 0 n

-- the `switch` of `resolveLedgerMovementDelta`, at a normalized amount
unfoldable pub movement : LedgerOperationType → ℕ → LedgerMovementDelta
movement reserve n = record { available_minor_delta = minus n; reserved_minor_delta = pos n }
movement debit n = record { available_minor_delta = pos 0; reserved_minor_delta = minus n }
movement release n = record { available_minor_delta = pos n; reserved_minor_delta = minus n }
movement credit n = record { available_minor_delta = pos n; reserved_minor_delta = pos 0 }
movement manual_credit n = record { available_minor_delta = pos n; reserved_minor_delta = pos 0 }
movement manual_debit n = record { available_minor_delta = minus n; reserved_minor_delta = pos 0 }

unfoldable pub resolve_ledger_movement_delta :
    LedgerOperationType → Number → Result LedgerMovementDelta
resolve_ledger_movement_delta operation amount =
    normalize_amount_minor amount >>= λ n. ok (movement operation n)

unfoldable pub create_balance_snapshot :
    Platform → String → String → Option Number → Option Number → Result BalanceSnapshot
create_balance_snapshot p user_id currency available reserved = do
  user ← require_text ledger_validation user_id "snapshot userId"
  currency' ← normalize_currency p currency
  available' ←
      normalize_non_negative_minor (or_else available (Number.integer (pos 0)))
        "snapshot availableMinor"
  reserved' ←
      normalize_non_negative_minor (or_else reserved (Number.integer (pos 0)))
        "snapshot reservedMinor"
  ok (record {
    user_id = user;
    available_minor = pos available';
    reserved_minor = pos reserved';
    currency = currency';
  })

abbrev pub is_negative : ℤ → Bool
is_negative (pos n) = false
is_negative (negsuc n) = true

-- the two balance guards, and the new snapshot
unfoldable pub move_balance :
    BalanceSnapshot → LedgerOperationType → LedgerMovementDelta → Result BalanceSnapshot
move_balance s operation delta = do
  let available = s.available_minor +ℤ delta.available_minor_delta
  let reserved = s.reserved_minor +ℤ delta.reserved_minor_delta
  throw_if (is_negative available) ledger_validation (
      template (
        "operation \""
        ∷ operation_text operation
        ∷ "\" would result in negative available balance for user \""
        ∷ s.user_id
        ∷ "\""
        ∷ []))
  throw_if (is_negative reserved) ledger_validation (
      template (
        "operation \""
        ∷ operation_text operation
        ∷ "\" would result in negative reserved balance for user \""
        ∷ s.user_id
        ∷ "\""
        ∷ []))
  ok (record s { available_minor = available; reserved_minor = reserved })

unfoldable pub apply_ledger_entry :
    Platform → BalanceSnapshot → LedgerEntry → Result BalanceSnapshot
apply_ledger_entry p s entry = do
  e ← normalize_ledger_entry p entry
  throw_if (not (e.user_id == s.user_id)) ledger_validation (
      template
        ("entry user \"" ∷ e.user_id ∷ "\" does not match wallet user \"" ∷ s.user_id ∷ "\"" ∷ []))
  throw_if (not (e.currency == s.currency)) ledger_validation (
      template (
        "entry currency \"" ∷ e.currency ∷ "\" does not match wallet currency \"" ∷ s.currency
        ∷ "\"" ∷ []))
  delta ← resolve_ledger_movement_delta e.operation e.amount_minor
  move_balance s e.operation delta

-- `entries.map(normalizeLedgerEntry)`
unfoldable pub normalize_all : Platform → List LedgerEntry → Result (List LedgerEntry)
normalize_all p [] = ok []
normalize_all p (e ∷ es) = do n ← normalize_ledger_entry p e; ns ← normalize_all p es; ok (n ∷ ns)

-- `left - right` as a comparator at two times that differ, else the collation of the ids; a
-- difference with NaN counts as 0
abbrev pub compare_times : Option ℤ → Option ℤ → Ordering → Ordering
compare_times (some l) (some r) ids =
    elim (compare (pos_part l + neg_part r) (pos_part r + neg_part l)) [
      | Ordering.eq ↦ ids
      | Ordering.lt ↦ Ordering.lt
      | Ordering.gt ↦ Ordering.gt
    ]
compare_times l r ids = Ordering.eq

unfoldable pub compare_entries : Platform → LedgerEntry → LedgerEntry → Ordering
compare_entries p l r =
    compare_times (p.date_parse l.created_at) (p.date_parse r.created_at)
      (p.locale_compare l.entry_id r.entry_id)

unfoldable pub sort_ledger_entries : Platform → List LedgerEntry → Result (List LedgerEntry)
sort_ledger_entries p entries = normalize_all p entries >>= λ ns. ok (sort (compare_entries p) ns)

-- the loop of `buildBalanceSnapshot`; `user` is that of the base snapshot
unfoldable pub apply_all :
    Platform → String → BalanceSnapshot → List LedgerEntry → Result BalanceSnapshot
apply_all p user s [] = ok s
apply_all p user s (e ∷ es) =
    throw_if (not (e.user_id == user)) ledger_validation (
      template (
        "entry \"" ∷ e.entry_id ∷ "\" belongs to user \"" ∷ e.user_id
        ∷ "\" but aggregate expects \"" ∷ user ∷ "\"" ∷ []))
    >> (apply_ledger_entry p s e >>= λ s'. apply_all p user s' es)

unfoldable pub build_balance_snapshot : Platform → BalanceAggregationInput → Result BalanceSnapshot
build_balance_snapshot p input = do
  base ←
      create_balance_snapshot p input.user_id input.currency input.opening_available_minor
        input.opening_reserved_minor
  sorted ← sort_ledger_entries p input.entries
  apply_all p base.user_id base sorted
