-- ===== src/Application/WalletLedger.antt =====
-- The wallet ledger service (packages/application/src/services/wallet-ledger-service.ts). A call
-- that throws leaves the store as it was, since appending is the last thing that a call does; so a
-- call returns the new entries of the store beside its result. What the entry factory and the clock
-- return enters as `fresh_id` and `now`.
pub mod Commands
pub mod Store
pub mod Replay
pub mod Retry
pub mod Wallet
pub mod Race
use gambling.Base.{
  ◌≡◌, String, Bool, true, false, not, ◌&&◌, Option, none, some, List, [], ◌∷◌, ◌++◌, ◌==◌,
  if◌then◌else◌, or_else, is_empty, is_currency, trim, trim_option, template, Number, Result, ok,
  err, Error, thrown, throw, throw_if, ErrorClass, ledger_validation, wallet_ledger_validation,
  ◌>>=◌, ◌>>◌,
}
use gambling.Base.Int.{leb_ℤ}
use gambling.Base.Lists.{find}
use gambling.Base.Platform.{Platform, require_text}
use gambling.Domain.Ledger.Entry.{
  LedgerOperationType, reserve, debit, release, credit, operation_text, LedgerReference,
  LedgerEntry, normalize_ledger_entry,
}
use gambling.Domain.Ledger.Balance.{
  BalanceSnapshot, BalanceAggregationInput, build_balance_snapshot, sort_ledger_entries,
}
use gambling.Application.LedgerStore.{Entries, list_entries, list_entries_by_user, append_entry}

pub record WalletLedgerRecordInput : Type 0 where
  pub user_id : String
  pub operation : LedgerOperationType
  pub amount_minor : Number
  pub currency : String
  pub idempotency_key : String
  pub reference : LedgerReference
  pub entry_id : Option String
  pub created_at : Option String

pub record WalletLedgerRequestCommandInput : Type 0 where
  pub user_id : String
  pub request_id : String
  pub amount_minor : Number
  pub currency : String
  pub idempotency_key : String
  pub ticket_id : Option String
  pub draw_id : Option String
  pub entry_id : Option String
  pub created_at : Option String

pub record WalletLedgerWinningsCommandInput : Type 0 where
  pub user_id : String
  pub purchase_id : Option String
  pub request_id : String
  pub ticket_id : String
  pub source_event_id : Option String
  pub verification_event_id : String
  pub amount_minor : Number
  pub currency : String
  pub draw_id : Option String
  pub entry_id : Option String
  pub created_at : Option String

pub record WalletLedgerRecordResult : Type 0 where
  pub entry : LedgerEntry
  pub snapshot : BalanceSnapshot
  pub replayed : Bool

-- `normalizeUserId` and `requireNonEmpty` of this file
unfoldable pub normalize_user_id : String → Result String
normalize_user_id user_id = require_text wallet_ledger_validation user_id "userId"

unfoldable pub normalize_wallet_currency : Platform → String → Result String
normalize_wallet_currency p currency =
    let normalized = p.to_upper_case (trim currency) in
    if is_currency normalized
    then ok normalized
    else throw wallet_ledger_validation
        (template ("currency \"" ∷ currency ∷ "\" must be a 3-letter ISO code" ∷ []))

-- `(left ?? null) === (right ?? null)`
abbrev pub same_option : Option String → Option String → Bool
same_option none none = true
same_option (some l) (some r) = l == r
same_option l r = false

unfoldable pub is_same_reference : LedgerReference → LedgerReference → Bool
is_same_reference l r =
    same_option l.purchase_id r.purchase_id
    && same_option l.request_id r.request_id
    && same_option l.ticket_id r.ticket_id
    && same_option l.draw_id r.draw_id

-- `===` on the amounts of two normalized entries, which are integers
abbrev pub same_amount : Number → Number → Bool
same_amount (Number.integer a) (Number.integer b) = leb_ℤ a b && leb_ℤ b a
same_amount a b = false

unfoldable pub assert_replay_matches : LedgerEntry → LedgerEntry → Result (Unit {0})
unfolding is_same_reference
assert_replay_matches existing next =
    throw_if
      (not (
        operation_text existing.operation == operation_text next.operation
        && same_amount existing.amount_minor next.amount_minor
        && existing.currency == next.currency
        && is_same_reference existing.reference next.reference))
      wallet_ledger_validation
      (template (
        "idempotency key \"" ∷ next.idempotency_key ∷ "\" already exists with different payload"
        ∷ []))

-- The `catch` of `buildEntry` gives a ledger error the service's own class.
abbrev pub rethrow {ℓ} : {A : Type ℓ} → Result A → Result A
rethrow (ok a) = ok a
rethrow (err (thrown ledger_validation m)) = err (thrown wallet_ledger_validation m)
rethrow (err (thrown c m)) = err (thrown c m)

-- the entry that `buildEntry` hands to `normalizeLedgerEntry`
abbrev pub draft_entry : String → String → WalletLedgerRecordInput → String → LedgerEntry
draft_entry fresh_id now input user_id = record {
  entry_id = or_else (trim_option input.entry_id) fresh_id;
  user_id = user_id;
  operation = input.operation;
  amount_minor = input.amount_minor;
  currency = input.currency;
  idempotency_key = input.idempotency_key;
  reference = input.reference;
  created_at = or_else input.created_at now;
}

unfoldable pub build_entry :
    Platform → String → String → WalletLedgerRecordInput → String → Result LedgerEntry
build_entry p fresh_id now input user_id =
    rethrow (normalize_ledger_entry p (draft_entry fresh_id now input user_id))

unfoldable pub list_all_entries : Platform → Entries → Result (List LedgerEntry)
unfolding list_entries
list_all_entries p store = sort_ledger_entries p (list_entries store)

unfoldable pub list_user_entries : Platform → Entries → String → Result (List LedgerEntry)
unfolding list_entries_by_user
list_user_entries p store user_id = do
  normalized ← normalize_user_id user_id
  sort_ledger_entries p (list_entries_by_user store normalized)

abbrev pub balance_input : String → String → List LedgerEntry → BalanceAggregationInput
balance_input user_id currency entries = record {
  user_id = user_id;
  currency = currency;
  entries = entries;
  opening_available_minor = none;
  opening_reserved_minor = none;
}

unfoldable pub get_wallet_snapshot : Platform → Entries → String → String → Result BalanceSnapshot
get_wallet_snapshot p store user_id currency = do
  user ← normalize_user_id user_id
  normalized ← normalize_wallet_currency p currency
  entries ← list_user_entries p store user
  build_balance_snapshot p (balance_input user normalized entries)

-- `recordEntry` once its entry is known not to be there: the balance first, then the append
unfoldable pub record_new :
    Platform
    → Entries
    → String
    → List LedgerEntry
    → LedgerEntry
    → Result (WalletLedgerRecordResult × Entries)
record_new p store user entries next = do
  snapshot ← build_balance_snapshot p (balance_input user next.currency (entries ++ next ∷ []))
  store' ← append_entry p store next
  ok (record { entry = next; snapshot = snapshot; replayed = false }, store')

-- `recordEntry` where an entry with the key is there
unfoldable pub replay :
    Platform
    → Entries
    → String
    → List LedgerEntry
    → LedgerEntry
    → LedgerEntry
    → Result (WalletLedgerRecordResult × Entries)
replay p store user entries existing next = do
  assert_replay_matches existing next
  snapshot ← build_balance_snapshot p (balance_input user existing.currency entries)
  ok (record { entry = existing; snapshot = snapshot; replayed = true }, store)

abbrev pub has_key : String → LedgerEntry → Bool
has_key key e = e.idempotency_key == key

-- `recordEntry` with its entries read and its entry built
abbrev pub record_with :
    Platform
    → Entries
    → String
    → List LedgerEntry
    → LedgerEntry
    → Option LedgerEntry
    → Result (WalletLedgerRecordResult × Entries)
record_with p store user entries next none = record_new p store user entries next
record_with p store user entries next (some existing) = replay p store user entries existing next

unfoldable pub record_entry :
    Platform
    → String
    → String
    → WalletLedgerRecordInput
    → Entries
    → Result (WalletLedgerRecordResult × Entries)
record_entry p fresh_id now input store = do
  user ← normalize_user_id input.user_id
  next ← build_entry p fresh_id now input user
  entries ← list_user_entries p store user
  record_with p store user entries next (find (has_key next.idempotency_key) entries)
