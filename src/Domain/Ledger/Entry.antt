-- ===== src/Domain/Ledger/Entry.antt =====
-- Ledger entries and their normalization (packages/domain/src/ledger.ts). The test that an
-- operation is one of LEDGER_OPERATIONS always passes here: the model's type has those six only.
use gambling.Base.{
  ℕ, suc, String, Bool, true, false, not, ◌&&◌, ◌||◌, Option, none, some, [], ◌∷◌, if◌then◌else◌,
  is_empty, is_currency, trim, trim_option, template, Number, trunc, Result, ok, throw, throw_if,
  ledger_validation, ◌>>=◌, ◌>>◌,
}
use gambling.Base.Int.{ℤ, pos}
use gambling.Base.Platform.{Platform, iso_string, require_text}

-- LEDGER_OPERATIONS
pub data LedgerOperationType : Type 0 where
  reserve debit release credit manual_credit manual_debit : LedgerOperationType

abbrev pub operation_text : LedgerOperationType → String
operation_text reserve = "reserve"
operation_text debit = "debit"
operation_text release = "release"
operation_text credit = "credit"
operation_text manual_credit = "manual_credit"
operation_text manual_debit = "manual_debit"

pub record LedgerReference : Type 0 where
  pub purchase_id : Option String
  pub request_id : Option String
  pub ticket_id : Option String
  pub draw_id : Option String
  pub admin_adjustment_id : Option String

pub record LedgerEntry : Type 0 where
  pub entry_id : String
  pub user_id : String
  pub operation : LedgerOperationType
  pub amount_minor : Number
  pub currency : String
  pub idempotency_key : String
  pub reference : LedgerReference
  pub created_at : String

unfoldable pub normalize_ledger_reference : LedgerReference → LedgerReference
normalize_ledger_reference r = record {
  purchase_id = trim_option r.purchase_id;
  request_id = trim_option r.request_id;
  ticket_id = trim_option r.ticket_id;
  draw_id = trim_option r.draw_id;
  admin_adjustment_id = trim_option r.admin_adjustment_id;
}

-- `Boolean(text)` where the text may be absent
abbrev pub truthy : Option String → Bool
truthy none = false
truthy (some s) = not (is_empty s)

unfoldable pub has_ledger_reference : LedgerReference → Bool
has_ledger_reference r =
    truthy r.purchase_id
    || truthy r.request_id
    || truthy r.ticket_id
    || truthy r.admin_adjustment_id

unfoldable pub requires_request_reference : LedgerOperationType → Bool
requires_request_reference reserve = true
requires_request_reference debit = true
requires_request_reference release = true
requires_request_reference operation = false

unfoldable pub requires_admin_adjustment_reference : LedgerOperationType → Bool
requires_admin_adjustment_reference manual_credit = true
requires_admin_adjustment_reference manual_debit = true
requires_admin_adjustment_reference operation = false

-- `Math.trunc(amount)`, if it is finite and above 0
abbrev pub positive : Option ℤ → Result ℕ
positive (some (pos (suc n))) = ok (suc n)
positive other = throw ledger_validation "amountMinor must be a positive integer"

unfoldable pub normalize_amount_minor : Number → Result ℕ
normalize_amount_minor amount = positive (trunc amount)

abbrev pub non_negative : String → Option ℤ → Result ℕ
non_negative label (some (pos n)) = ok n
non_negative label other =
    throw ledger_validation (template (label ∷ " must be a non-negative integer" ∷ []))

unfoldable pub normalize_non_negative_minor : Number → String → Result ℕ
normalize_non_negative_minor amount label = non_negative label (trunc amount)

unfoldable pub normalize_currency : Platform → String → Result String
normalize_currency p currency =
    let normalized = p.to_upper_case (trim currency) in
    if is_currency normalized
    then ok normalized
    else throw ledger_validation
        (template ("currency \"" ∷ currency ∷ "\" must be a 3-letter ISO code" ∷ []))

unfoldable pub normalize_iso_timestamp : Platform → String → String → Result String
normalize_iso_timestamp p value label = elim (p.date_parse value) [
  | none ↦ throw ledger_validation (template (label ∷ " must be a valid ISO timestamp" ∷ []))
  | some t ↦ iso_string p t
]

-- the three checks of an entry's reference
unfoldable pub check_reference : String → LedgerOperationType → LedgerReference → Result (Unit {0})
unfolding has_ledger_reference requires_request_reference requires_admin_adjustment_reference
check_reference entry_id operation r = do
  throw_if (not (has_ledger_reference r)) ledger_validation (
      template
        ("entry \"" ∷ entry_id ∷ "\" must include at least one request/ticket reference" ∷ []))
  throw_if (requires_request_reference operation && not (truthy r.request_id)) ledger_validation (
      template (
        "entry \""
        ∷ entry_id
        ∷ "\" operation \""
        ∷ operation_text operation
        ∷ "\" requires requestId reference"
        ∷ []))
  throw_if (requires_admin_adjustment_reference operation && not (truthy r.admin_adjustment_id))
      ledger_validation
      (template (
        "entry \""
        ∷ entry_id
        ∷ "\" operation \""
        ∷ operation_text operation
        ∷ "\" requires adminAdjustmentId reference"
        ∷ []))

unfoldable pub normalize_ledger_entry : Platform → LedgerEntry → Result LedgerEntry
normalize_ledger_entry p entry = do
  entry_id ← require_text ledger_validation entry.entry_id "entryId"
  user_id ← require_text ledger_validation entry.user_id "userId"
  amount ← normalize_amount_minor entry.amount_minor
  currency ← normalize_currency p entry.currency
  key ← require_text ledger_validation entry.idempotency_key "idempotencyKey"
  let reference = normalize_ledger_reference entry.reference
  check_reference entry_id entry.operation reference
  created_at ←
      normalize_iso_timestamp p entry.created_at
        (template ("entry \"" ∷ entry_id ∷ "\" createdAt" ∷ []))
  ok (record {
    entry_id = entry_id;
    user_id = user_id;
    operation = entry.operation;
    amount_minor = Number.integer (pos amount);
    currency = currency;
    idempotency_key = key;
    reference = reference;
    created_at = created_at;
  })
