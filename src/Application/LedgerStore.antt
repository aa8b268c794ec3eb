-- ===== src/Application/LedgerStore.antt =====
-- The in-memory ledger store (packages/infrastructure/src/ledger/in-memory-ledger-store.ts), which
-- implements the port packages/application/src/ports/ledger-store.ts. Its state is its list of
-- entries; copies of entries are equal to the entries here.
use gambling.Base.{String, List, [], ◌∷◌, ◌++◌, ◌==◌, Result, ◌>>=◌}
use gambling.Base.Lists.{keep}
use gambling.Base.Platform.{Platform}
use gambling.Domain.Ledger.Entry.{LedgerEntry}
use gambling.Domain.Ledger.Balance.{normalize_all, sort_ledger_entries}

abbrev pub Entries : Type 0
Entries = List LedgerEntry

-- `normalizeEntries`
unfoldable pub normalize_entries : Platform → List LedgerEntry → Result Entries
normalize_entries p entries = normalize_all p entries >>= sort_ledger_entries p

-- the constructor
unfoldable pub create_ledger_store : Platform → List LedgerEntry → Result Entries
create_ledger_store p initial_entries = normalize_entries p initial_entries

unfoldable pub list_entries : Entries → List LedgerEntry
list_entries store = store

unfoldable pub list_entries_by_user : Entries → String → List LedgerEntry
list_entries_by_user store user_id = keep (λ e. e.user_id == user_id) store

unfoldable pub append_entry : Platform → Entries → LedgerEntry → Result Entries
append_entry p store entry = normalize_entries p (store ++ entry ∷ [])

unfoldable pub clear_all : Entries → Entries
clear_all store = []
