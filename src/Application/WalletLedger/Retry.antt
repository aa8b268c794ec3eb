-- ===== src/Application/WalletLedger/Retry.antt =====
-- A call that recorded an entry can be made again: the second call finds the entry, changes nothing
-- and returns the same entry and the same balance.
use mathlib.Core.Path.{subst}
use gambling.Base.{
  ℕ, ◌≡◌, refl, sym, ap, ◌∙◌, inl, inr, String, true, false, Option, some, none, List, [], ◌∷◌,
  ◌++◌, ok, arith, Option-cases, trim, trim_idem, is_empty, trim_option, or_else, ledger_validation,
  eq_refl, Number,
}
use gambling.Base.Int.{ℤ, pos}
use gambling.Base.Lists.{All, find}
use gambling.Base.Sort.{sort, sort_of_IsSorted}
use gambling.Base.Sort.Select.{find-sort_new, All-keep, All-append}
use gambling.Base.Platform.{Platform, IsLawful, require_text, iso_string}
use gambling.Domain.Ledger.Entry.{
  operation_text, LedgerEntry, normalize_ledger_entry, normalize_iso_timestamp,
}
use gambling.Domain.Ledger.Balance.{BalanceSnapshot, compare_entries, build_balance_snapshot}
use gambling.Domain.Ledger.Normal.{normalize_inv, normalize_idem, normalize_retry, iso_label}
use gambling.Domain.Ledger.Order.{IsNormal, sort_ledger_entries_of_IsNormal}
use gambling.Application.LedgerStore.{Entries}
use gambling.Application.WalletLedger.{
  WalletLedgerRecordInput, WalletLedgerRecordResult, normalize_user_id, draft_entry, balance_input,
  replay, has_key, record_with, record_entry, assert_replay_matches, same_option, same_amount,
}
use gambling.Application.WalletLedger.Store.{IsStore, owned, owned-append_self, sort-IsStore}
use gambling.Application.WalletLedger.Replay.{
  record_inv, record_of, record_new_inv, replay_inv, record_entry-IsStore,
}

pick_id :
    (o : Option String) (i i' n : String)
    → require_text ledger_validation (or_else o i) "entryId" ≡ ok n
    → is_empty (trim i') ≡ false
    → (j : String) × (require_text ledger_validation (or_else o i') "entryId" ≡ ok j)
unfolding require_text
pick_id none i i' n h k = (trim i', rw k)
pick_id (some s) i i' n h k = (n, h)

same_option_refl : (o : Option String) → same_option o o ≡ true
same_option_refl none = refl
same_option_refl (some s) = eq_refl s

same_integer : (a : ℕ) → same_amount (Number.integer (pos a)) (Number.integer (pos a)) ≡ true
same_integer a = ground arith

same_amount_refl : (x : Number) (a : ℕ) → x ≡ Number.integer (pos a) → same_amount x x ≡ true
same_amount_refl x a h = subst (λ y. same_amount y y ≡ true) (sym h) (same_integer a)

module _ (p : Platform) (lawful : IsLawful p) where
  iso_of_date :
      (v : String) (t : ℤ)
      → p.date_parse v ≡ some t
      → normalize_iso_timestamp p v "" ≡ ok (p.to_iso_string t)
  unfolding normalize_iso_timestamp iso_string
  iso_of_date v t h =
      rw (h, normalize_iso_timestamp) (rw (lawful.date_parse_range v t h, iso_string))

  pick_date :
      (o : Option String) (now now' l d : String) (t : ℤ)
      → normalize_iso_timestamp p (or_else o now) l ≡ ok d
      → p.date_parse now' ≡ some t
      → (c : String) × (normalize_iso_timestamp p (or_else o now') "" ≡ ok c)
  pick_date none now now' l d t h k = (p.to_iso_string t, iso_of_date now' t k)
  pick_date (some s) now now' l d t h k = (d, iso_label p lawful s l "" d h)

  -- the entry that a retry builds differs in its id and its date only
  retry_next :
      (i now i' now' : String) (input : WalletLedgerRecordInput) (user : String) (n : LedgerEntry)
      (t : ℤ)
      → normalize_ledger_entry p (draft_entry i now input user) ≡ ok n
      → is_empty (trim i') ≡ false
      → p.date_parse now' ≡ some t
      → (j : String) × (d : String) × (normalize_ledger_entry p (draft_entry i' now' input user)
          ≡ ok (record n { entry_id = j; created_at = d }))
  retry_next i now i' now' input user n t h hi ht =
      let f = normalize_inv p (draft_entry i now input user) n h in
      let (j, hj) = pick_id (trim_option input.entry_id) i i' n.entry_id f.entry_id hi in
      let (d, hd) = pick_date input.created_at now now' _ n.created_at t f.created_at ht in
      (j, d, normalize_retry p (draft_entry i now input user) n _ j d _ lawful h hj hd)

  matches_itself :
      (e n : LedgerEntry) (j d : String)
      → normalize_ledger_entry p e ≡ ok n
      → assert_replay_matches n (record n { entry_id = j; created_at = d }) ≡ ok tt
  unfolding assert_replay_matches
  matches_itself e n j d h =
      let (a, ha, na) = (normalize_inv p e n h).amount in
      ground (
        arith,
        eq_refl (operation_text n.operation),
        eq_refl n.currency,
        same_option_refl n.reference.purchase_id,
        same_option_refl n.reference.request_id,
        same_option_refl n.reference.ticket_id,
        same_option_refl n.reference.draw_id,
        same_amount_refl n.amount_minor a na,
      )

  matches_any :
      (x n : LedgerEntry) (j d : String)
      → assert_replay_matches x n ≡ ok tt
      → assert_replay_matches x (record n { entry_id = j; created_at = d }) ≡ ok tt
  unfolding assert_replay_matches
  matches_any x n j d h = h

  pub build_sorted :
      (user currency : String) (es : List LedgerEntry)
      → All (IsNormal p) es
      → build_balance_snapshot p (balance_input user currency (sort (compare_entries p) es))
        ≡ build_balance_snapshot p (balance_input user currency es)
  unfolding build_balance_snapshot
  build_sorted user currency es h =
      let s = sort-IsStore p lawful es h in
      let again =
        sort_ledger_entries_of_IsNormal p lawful (sort (compare_entries p) es) s.0
        ∙ ap ok (sort_of_IsSorted (compare_entries p) (sort (compare_entries p) es) s.1)
        ∙ sym (sort_ledger_entries_of_IsNormal p lawful es h) in
      rw again

  -- a replay of an entry that is there
  replay_value :
      (store : Entries) (user : String) (es : List LedgerEntry) (x n : LedgerEntry)
      (s : BalanceSnapshot)
      → assert_replay_matches x n ≡ ok tt
      → build_balance_snapshot p (balance_input user x.currency es) ≡ ok s
      → replay p store user es x n ≡ ok (record { entry = x; snapshot = s; replayed = true }, store)
  unfolding replay
  replay_value store user es x n s h k = rw h (rw k)

  replay_of_new :
      (store : Entries) (user j d : String) (n : LedgerEntry) (s : BalanceSnapshot)
      → IsStore p store
      → IsNormal p n
      → n.user_id ≡ user
      → find (has_key n.idempotency_key) (owned user store) ≡ none
      → build_balance_snapshot p (balance_input user n.currency (owned user store ++ n ∷ [])) ≡ ok s
      → let store' = sort (compare_entries p) (store ++ n ∷ []) in
        record_with p store' user
          (owned user store')
          (record n { entry_id = j; created_at = d })
          (find (has_key n.idempotency_key) (owned user store'))
        ≡ ok (record { entry = n; snapshot = s; replayed = true }, store')
  replay_of_new store user j d n s inv normal mine new built =
      rw (owned-append_self p lawful store n user inv normal (rw (← mine) (eq_refl n.user_id))) (
        rw
          (find-sort_new (compare_entries p) (has_key n.idempotency_key) (owned user store) n new
            (eq_refl n.idempotency_key))
          (replay_value _ user _ n _ s (matches_itself n n j d normal) (
            build_sorted user n.currency (owned user store ++ n ∷ []) (
              All-append (IsNormal p) (owned user store) (n ∷ [])
                (All-keep (IsNormal p) _ store inv.0) (normal, tt))
            ∙ built)))

  pub user_fixed :
      (u v n : String)
      → normalize_user_id u ≡ ok v
      → require_text ledger_validation v "userId" ≡ ok n
      → n ≡ v
  unfolding normalize_user_id require_text
  user_fixed u v n h k = ground (arith, trim_idem u)

  replay_done :
      (store store' : Entries) (user j d : String) (n : LedgerEntry) (r : WalletLedgerRecordResult)
      → IsStore p store
      → IsNormal p n
      → n.user_id ≡ user
      → record_with p store user
          (owned user store)
          n
          (find (has_key n.idempotency_key) (owned user store))
        ≡ ok (r, store')
      → record_with p store' user
          (owned user store')
          (record n { entry_id = j; created_at = d })
          (find (has_key n.idempotency_key) (owned user store'))
        ≡ ok (record r { replayed = true }, store')
  replay_done store store' user j d n r inv normal mine h =
      elim (Option-cases (find (has_key n.idempotency_key) (owned user store))) [
        | inl e ↦
            let v =
              record_new_inv p lawful store store' user (owned user store) n r inv normal
                (rw e at h) in
            rw v.2 (rw v.0 (replay_of_new store user j d n r.snapshot inv normal mine e v.3))
        | inr (x, e) ↦
            let v = replay_inv p lawful store store' user (owned user store) x n r (rw e at h) in
            rw v.2 (
              rw e (
                rw v.0 (
                  replay_value store user (owned user store) x _ r.snapshot
                    (matches_any x n j d v.3) v.4)))
      ]

  -- Calling again with the same input, at any later time and with any fresh id, succeeds, leaves the
  -- store as it is, and returns the entry and the balance of the first call, marked as a replay.
  pub record_entry_replay :
      (i now i' now' : String) (t : ℤ) (input : WalletLedgerRecordInput) (store store' : Entries)
      (r : WalletLedgerRecordResult)
      → IsStore p store
      → is_empty (trim i') ≡ false
      → p.date_parse now' ≡ some t
      → record_entry p i now input store ≡ ok (r, store')
      → record_entry p i' now' input store' ≡ ok (record r { replayed = true }, store')
  record_entry_replay i now i' now' t input store store' r inv hi ht h =
      let c = record_inv p lawful i now input store store' r inv h in
      let normal = normalize_idem p _ c.next lawful c.next_ok in
      let mine =
        user_fixed input.user_id c.user _ c.user_ok (normalize_inv p _ c.next c.next_ok).user_id in
      let (j, d, hn') = retry_next i now i' now' input c.user c.next t c.next_ok hi ht in
      record_of p lawful i' now' input store' store' (record r { replayed = true })
        (record_entry-IsStore p lawful i now input store store' r inv h)
        (record {
          user = c.user;
          user_ok = c.user_ok;
          next = record c.next { entry_id = j; created_at = d };
          next_ok = hn';
          done = replay_done store store' c.user j d c.next r inv normal mine c.done;
        })
