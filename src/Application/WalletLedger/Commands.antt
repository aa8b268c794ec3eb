-- ===== src/Application/WalletLedger/Commands.antt =====
-- The commands of the wallet ledger service: reserving, debiting and releasing the funds of a
-- request, crediting winnings and importing entries
-- (packages/application/src/services/wallet-ledger-service.ts).
use gambling.Base.{
  ℕ, suc, String, non_empty, err, Option, none, some, List, [], ◌∷◌, or_else, trim, is_empty,
  trim_option, template, Result, ok, throw_if, wallet_ledger_validation, ◌>>=◌, ◌>>◌,
}
use mathlib.Core.List.{reverse}
use gambling.Base.Lists.{find}
use gambling.Base.Platform.{Platform, require_text}
use gambling.Domain.Ledger.Entry.{
  LedgerOperationType, reserve, debit, release, credit, LedgerReference, LedgerEntry,
}
use gambling.Domain.Ledger.Balance.{normalize_all, sort_ledger_entries}
use gambling.Application.LedgerStore.{Entries, append_entry}
use gambling.Application.WalletLedger.{
  WalletLedgerRecordInput, WalletLedgerRequestCommandInput, WalletLedgerWinningsCommandInput,
  WalletLedgerRecordResult, record_entry, list_all_entries, assert_replay_matches, has_key,
}

unfoldable pub build_request_reference : WalletLedgerRequestCommandInput → Result LedgerReference
build_request_reference input = do
  let request_id = trim input.request_id
  throw_if (is_empty request_id) wallet_ledger_validation
      "requestId is required for reserve/debit/release operations"
  ok (record {
    purchase_id = none;
    request_id = some request_id;
    ticket_id = trim_option input.ticket_id;
    draw_id = trim_option input.draw_id;
    admin_adjustment_id = none;
  })

unfoldable pub build_winnings_reference :
    WalletLedgerWinningsCommandInput → String → Option String → Result LedgerReference
build_winnings_reference input ticket_id purchase_id = do
  let request_id = trim input.request_id
  throw_if (is_empty request_id) wallet_ledger_validation
      "requestId is required for winnings credit operations"
  ok (record {
    purchase_id = purchase_id;
    request_id = some request_id;
    ticket_id = some ticket_id;
    draw_id = trim_option input.draw_id;
    admin_adjustment_id = none;
  })

-- `createdAt` and `entryId` are passed on where they are not empty
abbrev pub present : Option String → Option String
present none = none
present (some s) = non_empty s

-- the input that the three commands for a request hand to `recordEntry`
unfoldable pub request_record :
    LedgerOperationType
    → WalletLedgerRequestCommandInput
    → LedgerReference
    → WalletLedgerRecordInput
request_record operation input reference = record {
  user_id = input.user_id;
  operation = operation;
  amount_minor = input.amount_minor;
  currency = input.currency;
  idempotency_key = input.idempotency_key;
  reference = reference;
  entry_id = present input.entry_id;
  created_at = present input.created_at;
}

module _ (p : Platform) (fresh_id now : String) where
  unfoldable pub reserve_funds :
      WalletLedgerRequestCommandInput → Entries → Result (WalletLedgerRecordResult × Entries)
  reserve_funds input store = do
    reference ← build_request_reference input
    record_entry p fresh_id now (request_record reserve input reference) store

  unfoldable pub debit_reserved_funds :
      WalletLedgerRequestCommandInput → Entries → Result (WalletLedgerRecordResult × Entries)
  debit_reserved_funds input store = do
    reference ← build_request_reference input
    record_entry p fresh_id now (request_record debit input reference) store

  unfoldable pub release_reserved_funds :
      WalletLedgerRequestCommandInput → Entries → Result (WalletLedgerRecordResult × Entries)
  release_reserved_funds input store = do
    reference ← build_request_reference input
    record_entry p fresh_id now (request_record release input reference) store

  unfoldable pub credit_winnings :
      WalletLedgerWinningsCommandInput → Entries → Result (WalletLedgerRecordResult × Entries)
  credit_winnings input store = do
    ticket_id ← require_text wallet_ledger_validation input.ticket_id "ticketId"
    source_event_id ←
        require_text wallet_ledger_validation
          (or_else input.source_event_id input.verification_event_id) "verificationEventId"
    let purchase_id = trim_option input.purchase_id
    reference ← build_winnings_reference input ticket_id purchase_id
    record_entry p fresh_id now
        (record {
          user_id = input.user_id;
          operation = credit;
          amount_minor = input.amount_minor;
          currency = input.currency;
          idempotency_key =
              template (or_else purchase_id ticket_id ∷ ":winnings:" ∷ source_event_id ∷ []);
          reference = reference;
          entry_id = present input.entry_id;
          created_at = present input.created_at;
        })
        store

-- The loop of `ensureEntries`. The map of known entries by key is `known`, the latest first. An
-- error leaves the entries that were appended before it in the store.
unfoldable pub ensure_all :
    Platform → List LedgerEntry → List LedgerEntry → ℕ → Entries → Result ℕ × Entries
ensure_all p known [] inserted store = (ok inserted, store)
ensure_all p known (next ∷ rest) inserted store = elim (find (has_key next.idempotency_key) known) [
  | some existing ↦ elim (assert_replay_matches existing next) [
    | ok u ↦ ensure_all p known rest inserted store
    | err e ↦ (err e, store)
  ]
  | none ↦ elim (append_entry p store next) [
    | ok store' ↦ ensure_all p (next ∷ known) rest (suc inserted) store'
    | err e ↦ (err e, store)
  ]
]

unfoldable pub ensure_entries : Platform → List LedgerEntry → Entries → Result ℕ × Entries
unfolding ensure_all
ensure_entries p entries store = elim (list_all_entries p store) [
  | err e ↦ (err e, store)
  | ok existing ↦ elim (normalize_all p entries >>= sort_ledger_entries p) [
    | err e ↦ (err e, store)
    | ok sorted ↦ ensure_all p (reverse existing) sorted 0 store
  ]
]
