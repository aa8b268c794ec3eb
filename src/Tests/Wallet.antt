-- ===== src/Tests/Wallet.antt =====
-- Tests of the ledger and of the wallet ledger service.
use gambling.Base.{
  ℕ, ◌+◌, ◌<◌, is_space, template, is_currency, trim_option, ◌≡◌, refl, ◌≢◌, String, true, false,
  some, none, List, [], ◌∷◌, integer, ok, integer, arith, trim, is_empty, eq_iff,
}
use gambling.Base.Int.{pos, ◌+ℤ◌, ◌≤ℤ◌}
use gambling.Base.Sort.{sort, insert}
use gambling.Base.Platform.{require_text, iso_string}
use gambling.Domain.Ledger.Entry.{
  LedgerEntry, LedgerReference, credit, reserve, LedgerOperationType, normalize_ledger_entry,
  normalize_amount_minor, normalize_currency, normalize_ledger_reference, check_reference,
  normalize_iso_timestamp, normalize_non_negative_minor,
}
use gambling.Domain.Ledger.Balance.{
  BalanceSnapshot, normalize_all, create_balance_snapshot, apply_all, apply_ledger_entry,
  move_balance, resolve_ledger_movement_delta, movement, compare_entries, build_balance_snapshot,
  sort_ledger_entries,
}
use gambling.Application.LedgerStore.{
  Entries, append_entry, normalize_entries, list_entries_by_user,
}
use gambling.Application.WalletLedger.{
  WalletLedgerRecordInput, WalletLedgerRecordResult, normalize_user_id, build_entry, replay,
  record_new, assert_replay_matches, record_entry, get_wallet_snapshot, list_user_entries,
  balance_input,
}
use gambling.Application.WalletLedger.Retry.{record_entry_replay}
use gambling.Application.WalletLedger.Replay.{record_entry-IsStore}
use gambling.Application.WalletLedger.Store.{IsStore}
use gambling.Application.WalletLedger.Wallet.{
  snapshot-record_entry, list_user_entries-record_entry_other,
}
use gambling.Application.WalletLedger.Race.{overlapping_reserves_break_wallet}
use gambling.Domain.Ledger.Totals.{
  build_balance_totals, total, adds_available, takes_available, adds_reserved, takes_reserved,
}
use gambling.Tests.Engine.{engine, engine-IsLawful, first_day, second_day}

abbrev for_request : LedgerReference
for_request = record {
  purchase_id = none;
  request_id = some "r1";
  ticket_id = none;
  draw_id = none;
  admin_adjustment_id = none;
}

-- what is asked of the service
abbrev order : LedgerOperationType → String → WalletLedgerRecordInput
order operation key = record {
  user_id = " ann ";
  operation = operation;
  amount_minor = integer (pos 60);
  currency = "RUB";
  idempotency_key = key;
  reference = for_request;
  entry_id = none;
  created_at = none;
}

-- the entry that it makes of it
abbrev entry : String → LedgerOperationType → String → LedgerEntry
entry id operation key = record {
  entry_id = id;
  user_id = "ann";
  operation = operation;
  amount_minor = integer (pos 60);
  currency = "RUB";
  idempotency_key = key;
  reference = for_request;
  created_at = first_day;
}

abbrev balance : ℕ → ℕ → BalanceSnapshot
balance available reserved = record {
  user_id = "ann";
  available_minor = pos available;
  reserved_minor = pos reserved;
  currency = "RUB";
}

abbrev paid_in : WalletLedgerRecordResult
paid_in = record { entry = entry "e1" credit "k1"; snapshot = balance 60 0; replayed = false }

abbrev one_entry : Entries
one_entry = entry "e1" credit "k1" ∷ []

first_record : record_entry engine "e1" first_day (order credit "k1") [] ≡ ok (paid_in, one_entry)
unfolding record_entry normalize_user_id require_text trim is_space template build_entry
    normalize_ledger_entry normalize_amount_minor normalize_currency is_currency
    normalize_ledger_reference trim_option check_reference normalize_iso_timestamp iso_string
    list_user_entries list_entries_by_user sort_ledger_entries normalize_all sort insert replay
    record_new assert_replay_matches build_balance_snapshot create_balance_snapshot
    normalize_non_negative_minor apply_all apply_ledger_entry move_balance
    resolve_ledger_movement_delta movement ◌+ℤ◌ append_entry normalize_entries compare_entries
first_record = refl

e2_filled : is_empty (trim "e2") ≡ false
unfolding trim is_space
e2_filled = refl

second_day_read : engine.date_parse second_day ≡ some (pos 1767312000000)
second_day_read = refl

bob_normal : normalize_user_id "bob" ≡ ok "bob"
unfolding normalize_user_id require_text trim is_space
bob_normal = refl

apart : false ≡ true → ⊥
apart h = cc

ann_not_bob : trim " ann " ≢ "bob"
unfolding trim is_space
ann_not_bob e = apart ((eq_iff (trim " ann ") "bob").1 e)

-- the store after the first call
one_entry-IsStore : IsStore engine one_entry
one_entry-IsStore =
    record_entry-IsStore engine engine-IsLawful "e1" first_day (order credit "k1") [] one_entry
      paid_in (tt, tt) first_record

record_entry_replay_example :
    record_entry engine "e2" second_day (order credit "k1") one_entry
    ≡ ok (record paid_in { replayed = true }, one_entry)
record_entry_replay_example =
    record_entry_replay engine engine-IsLawful "e1" first_day "e2" second_day (pos 1767312000000)
      (order credit "k1") [] one_entry paid_in (tt, tt) e2_filled second_day_read first_record

snapshot-record_entry_example :
    get_wallet_snapshot engine one_entry " ann " "RUB" ≡ ok (balance 60 0)
snapshot-record_entry_example =
    snapshot-record_entry engine engine-IsLawful "e1" first_day (order credit "k1") [] one_entry
      paid_in (tt, tt) first_record

record_entry-IsStore_example : IsStore engine one_entry
record_entry-IsStore_example =
    record_entry-IsStore engine engine-IsLawful "e1" first_day (order credit "k1") [] one_entry
      paid_in (tt, tt) first_record

list_user_entries-record_entry_other_example :
    list_user_entries engine one_entry "bob" ≡ list_user_entries engine [] "bob"
list_user_entries-record_entry_other_example =
    list_user_entries-record_entry_other engine engine-IsLawful "e1" first_day (order credit "k1")
      [] one_entry paid_in "bob" "bob" (tt, tt) first_record bob_normal ann_not_bob

-- two reservations against the same contents of the store
abbrev reserved : String → String → WalletLedgerRecordResult
reserved id key = record { entry = entry id reserve key; snapshot = balance 0 60; replayed = false }

abbrev store_after : String → String → Entries
store_after id key = entry "e1" credit "k1" ∷ entry id reserve key ∷ []

first_reserve :
    record_entry engine "e2" first_day (order reserve "k2") one_entry
    ≡ ok (reserved "e2" "k2", store_after "e2" "k2")
unfolding record_entry normalize_user_id require_text trim is_space template build_entry
    normalize_ledger_entry normalize_amount_minor normalize_currency is_currency
    normalize_ledger_reference trim_option check_reference normalize_iso_timestamp iso_string
    list_user_entries list_entries_by_user sort_ledger_entries normalize_all sort insert replay
    record_new assert_replay_matches build_balance_snapshot create_balance_snapshot
    normalize_non_negative_minor apply_all apply_ledger_entry move_balance
    resolve_ledger_movement_delta movement ◌+ℤ◌ append_entry normalize_entries compare_entries
first_reserve = refl

second_reserve :
    record_entry engine "e3" first_day (order reserve "k3") one_entry
    ≡ ok (reserved "e3" "k3", store_after "e3" "k3")
unfolding record_entry normalize_user_id require_text trim is_space template build_entry
    normalize_ledger_entry normalize_amount_minor normalize_currency is_currency
    normalize_ledger_reference trim_option check_reference normalize_iso_timestamp iso_string
    list_user_entries list_entries_by_user sort_ledger_entries normalize_all sort insert replay
    record_new assert_replay_matches build_balance_snapshot create_balance_snapshot
    normalize_non_negative_minor apply_all apply_ledger_entry move_balance
    resolve_ledger_movement_delta movement ◌+ℤ◌ append_entry normalize_entries compare_entries
second_reserve = refl

abbrev both : Entries
both = entry "e1" credit "k1" ∷ entry "e2" reserve "k2" ∷ entry "e3" reserve "k3" ∷ []

both_appended : append_entry engine (store_after "e2" "k2") (entry "e3" reserve "k3") ≡ ok both
unfolding record_entry normalize_user_id require_text trim is_space template build_entry
    normalize_ledger_entry normalize_amount_minor normalize_currency is_currency
    normalize_ledger_reference trim_option check_reference normalize_iso_timestamp iso_string
    list_user_entries list_entries_by_user sort_ledger_entries normalize_all sort insert replay
    record_new assert_replay_matches build_balance_snapshot create_balance_snapshot
    normalize_non_negative_minor apply_all apply_ledger_entry move_balance
    resolve_ledger_movement_delta movement ◌+ℤ◌ append_entry normalize_entries compare_entries
both_appended = refl

enough : total adds_available one_entry < total takes_available one_entry + 60 + 60
unfolding total
enough = omega arith

overlapping_reserves_break_wallet_example :
    get_wallet_snapshot engine both " ann " "RUB" ≢ ok (balance 60 0)
overlapping_reserves_break_wallet_example =
    overlapping_reserves_break_wallet engine engine-IsLawful "e2" first_day "e3" first_day
      (order reserve "k2") (order reserve "k3") one_entry (store_after "e2" "k2")
      (store_after "e3" "k3") both (reserved "e2" "k2") (reserved "e3" "k3") one_entry-IsStore
      first_reserve second_reserve both_appended refl refl refl refl refl enough "RUB"
      (balance 60 0)

abbrev later_entry : LedgerEntry
later_entry = record (entry "e2" reserve "k2") { created_at = second_day }

abbrev in_order : List LedgerEntry
in_order = entry "e1" credit "k1" ∷ later_entry ∷ []

unsorted_sorted :
    sort_ledger_entries engine (later_entry ∷ entry "e1" credit "k1" ∷ []) ≡ ok in_order
unfolding record_entry normalize_user_id require_text trim is_space template build_entry
    normalize_ledger_entry normalize_amount_minor normalize_currency is_currency
    normalize_ledger_reference trim_option check_reference normalize_iso_timestamp iso_string
    list_user_entries list_entries_by_user sort_ledger_entries normalize_all sort insert replay
    record_new assert_replay_matches build_balance_snapshot create_balance_snapshot
    normalize_non_negative_minor apply_all apply_ledger_entry move_balance
    resolve_ledger_movement_delta movement ◌+ℤ◌ append_entry normalize_entries compare_entries
unsorted_sorted = refl

abbrev untrimmed : LedgerEntry
untrimmed = record (entry " e1" credit " k1 ") { user_id = "ann " }

untrimmed_normal : normalize_ledger_entry engine untrimmed ≡ ok (entry "e1" credit "k1")
unfolding record_entry normalize_user_id require_text trim is_space template build_entry
    normalize_ledger_entry normalize_amount_minor normalize_currency is_currency
    normalize_ledger_reference trim_option check_reference normalize_iso_timestamp iso_string
    list_user_entries list_entries_by_user sort_ledger_entries normalize_all sort insert replay
    record_new assert_replay_matches build_balance_snapshot create_balance_snapshot
    normalize_non_negative_minor apply_all apply_ledger_entry move_balance
    resolve_ledger_movement_delta movement ◌+ℤ◌ append_entry normalize_entries compare_entries
untrimmed_normal = refl

balance_built :
    build_balance_snapshot engine (balance_input "ann" "RUB" (store_after "e2" "k2"))
    ≡ ok (balance 0 60)
unfolding record_entry normalize_user_id require_text trim is_space template build_entry
    normalize_ledger_entry normalize_amount_minor normalize_currency is_currency
    normalize_ledger_reference trim_option check_reference normalize_iso_timestamp iso_string
    list_user_entries list_entries_by_user sort_ledger_entries normalize_all sort insert replay
    record_new assert_replay_matches build_balance_snapshot create_balance_snapshot
    normalize_non_negative_minor apply_all apply_ledger_entry move_balance
    resolve_ledger_movement_delta movement ◌+ℤ◌ append_entry normalize_entries compare_entries
balance_built = refl

build_balance_totals_example :
    (pos 0 +ℤ pos (total takes_available (store_after "e2" "k2"))
      ≡ pos 0 +ℤ pos (total adds_available (store_after "e2" "k2")))
    × (pos 60 +ℤ pos (total takes_reserved (store_after "e2" "k2"))
        ≡ pos 0 +ℤ pos (total adds_reserved (store_after "e2" "k2")))
    × (pos 0 ≤ℤ pos 0)
    × (pos 0 ≤ℤ pos 60)
build_balance_totals_example =
    build_balance_totals engine (balance_input "ann" "RUB" (store_after "e2" "k2")) (balance 0 60)
      balance_built
