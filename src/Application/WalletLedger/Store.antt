-- ===== src/Application/WalletLedger/Store.antt =====
-- What the store holds after an append, and what the service reads from it.
use gambling.Base.{◌≡◌, refl, ap, ◌∙◌, String, true, false, List, [], ◌∷◌, ◌++◌, ◌==◌, ok}
use gambling.Base.Lists.{All, keep}
use gambling.Base.Sort.{IsSorted, sort, All-sort, sort-IsSorted, sort_of_IsSorted}
use gambling.Base.Sort.Select.{All-keep, All-append, keep-append, IsSorted-keep, keep-sort}
use gambling.Base.Platform.{Platform, IsLawful}
use gambling.Domain.Ledger.Entry.{LedgerEntry}
use gambling.Domain.Ledger.Balance.{compare_entries}
use gambling.Domain.Ledger.Order.{
  IsNormal, HasDate, All-HasDate, compare_entries-IsConsistent, normalize_all_of_IsNormal,
  sort_ledger_entries_of_IsNormal,
}
use gambling.Application.LedgerStore.{Entries, normalize_entries, append_entry}
use gambling.Application.WalletLedger.{normalize_user_id, list_user_entries}

-- The store's invariant: every entry is normalized, and the entries are in order.
abbrev pub IsStore : Platform → Entries → Type 0
IsStore p store = All (IsNormal p) store × IsSorted (compare_entries p) store

-- the entries of one user
abbrev pub owned : String → Entries → List LedgerEntry
owned user = keep (λ e. e.user_id == user)

module _ (p : Platform) (lawful : IsLawful p) where
  pub sort-IsStore :
      (es : List LedgerEntry) → All (IsNormal p) es → IsStore p (sort (compare_entries p) es)
  sort-IsStore es h = (
    All-sort (compare_entries p) (IsNormal p) es h,
    sort-IsSorted (compare_entries p) (HasDate p) (compare_entries-IsConsistent p lawful) es
        (All-HasDate p lawful es h),
  )

  -- Appending a normalized entry puts it in its place.
  pub append_value :
      (store : Entries) (n : LedgerEntry)
      → IsStore p store
      → IsNormal p n
      → append_entry p store n ≡ ok (sort (compare_entries p) (store ++ n ∷ []))
  unfolding append_entry normalize_entries
  append_value store n h k =
      let all = All-append (IsNormal p) store (n ∷ []) h.0 (k, tt) in
      rw (normalize_all_of_IsNormal p lawful (store ++ n ∷ []) all)
        (sort_ledger_entries_of_IsNormal p lawful (store ++ n ∷ []) all)

  pub append-IsStore :
      (store : Entries) (n : LedgerEntry)
      → IsStore p store
      → IsNormal p n
      → IsStore p (sort (compare_entries p) (store ++ n ∷ []))
  append-IsStore store n h k =
      sort-IsStore (store ++ n ∷ []) (All-append (IsNormal p) store (n ∷ []) h.0 (k, tt))

  -- The service reads a user's entries in the order of the store.
  pub list_user_value :
      (store : Entries) (user_id user : String)
      → IsStore p store
      → normalize_user_id user_id ≡ ok user
      → list_user_entries p store user_id ≡ ok (owned user store)
  unfolding list_user_entries
  list_user_value store user_id user h e = rw e (
      sort_ledger_entries_of_IsNormal p lawful (owned user store)
        (All-keep (IsNormal p) _ store h.0)
      ∙ ap ok (
          sort_of_IsSorted (compare_entries p) (owned user store)
            (IsSorted-keep (compare_entries p) _ store h.1)))

  owned-sort :
      (store : Entries) (n : LedgerEntry) (user : String)
      → IsStore p store
      → IsNormal p n
      → owned user (sort (compare_entries p) (store ++ n ∷ []))
        ≡ sort (compare_entries p) (owned user store ++ owned user (n ∷ []))
  owned-sort store n user h k =
      keep-sort (compare_entries p) (HasDate p) (compare_entries-IsConsistent p lawful) _
        (store ++ n ∷ [])
        (All-HasDate p lawful (store ++ n ∷ [])
          (All-append (IsNormal p) store (n ∷ []) h.0 (k, tt)))
      ∙ ap (sort (compare_entries p)) (keep-append _ store (n ∷ []))

  -- The owner of a new entry sees it among the entries from before.
  pub owned-append_self :
      (store : Entries) (n : LedgerEntry) (user : String)
      → IsStore p store
      → IsNormal p n
      → (n.user_id == user) ≡ true
      → owned user (sort (compare_entries p) (store ++ n ∷ []))
        ≡ sort (compare_entries p) (owned user store ++ n ∷ [])
  owned-append_self store n user h k e = owned-sort store n user h k ∙ (rw e)

  append_nil : (xs : List LedgerEntry) → xs ++ [] ≡ xs
  append_nil [] = refl
  append_nil (x ∷ xs) = ap (◌∷◌ x) (append_nil xs)

  -- Any other user sees what was there before.
  pub owned-append_other :
      (store : Entries) (n : LedgerEntry) (user : String)
      → IsStore p store
      → IsNormal p n
      → (n.user_id == user) ≡ false
      → owned user (sort (compare_entries p) (store ++ n ∷ [])) ≡ owned user store
  owned-append_other store n user h k e =
      owned-sort store n user h k
      ∙ (rw e (
          rw (append_nil (owned user store)) (
            sort_of_IsSorted (compare_entries p) (owned user store)
              (IsSorted-keep (compare_entries p) _ store h.1))))
