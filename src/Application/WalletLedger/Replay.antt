-- ===== src/Application/WalletLedger/Replay.antt =====
-- Recording an entry: what a first call does to the store and to the wallet, and that a repeated
-- call is a replay.
use gambling.Base.{
  ◌≡◌, inl, inr, String, true, false, List, [], ◌∷◌, ◌++◌, Result, ok, err, thrown, arith,
  >>=-eq-ok, Option-cases, wallet_ledger_validation, ledger_validation,
}
use gambling.Base.Lists.{find}
use gambling.Base.Sort.{sort}
use gambling.Base.Platform.{Platform, IsLawful}
use gambling.Domain.Ledger.Entry.{LedgerEntry, normalize_ledger_entry}
use gambling.Domain.Ledger.Balance.{compare_entries, build_balance_snapshot}
use gambling.Domain.Ledger.Normal.{require_text_again, normalize_idem}
use gambling.Domain.Ledger.Order.{IsNormal}
use gambling.Application.LedgerStore.{Entries}
use gambling.Application.WalletLedger.{
  WalletLedgerRecordInput, WalletLedgerRecordResult, normalize_user_id, build_entry, draft_entry,
  rethrow, balance_input, record_new, replay, has_key, record_with, record_entry,
  assert_replay_matches,
}
use gambling.Application.WalletLedger.Store.{
  IsStore, owned, append_value, append-IsStore, list_user_value,
}

rethrow-eq_ok {ℓ} : {A : Type ℓ} (r : Result A) (a : A) → rethrow r ≡ ok a → r ≡ ok a
rethrow-eq_ok (ok a) b h = h
rethrow-eq_ok (err (thrown ledger_validation m)) b h = cc
rethrow-eq_ok (err (thrown c m)) b h = cc

-- the parts of a call that succeeds
pub record Recorded (p : Platform) (fresh_id now : String) (input : WalletLedgerRecordInput)
    (store : Entries) (r : WalletLedgerRecordResult) (store' : Entries) : Type 0 where
  pub user : String
  pub user_ok : normalize_user_id input.user_id ≡ ok user
  pub next : LedgerEntry
  pub next_ok : normalize_ledger_entry p (draft_entry fresh_id now input user) ≡ ok next
  pub done :
      record_with p store user
        (owned user store)
        next
        (find (has_key next.idempotency_key) (owned user store))
      ≡ ok (r, store')

module _ (p : Platform) (lawful : IsLawful p) where
  pub user_again : (u v : String) → normalize_user_id u ≡ ok v → normalize_user_id v ≡ ok v
  unfolding normalize_user_id
  user_again u v h = require_text_again wallet_ledger_validation u "userId" v h

  pub record_inv :
      (fresh_id now : String) (input : WalletLedgerRecordInput) (store store' : Entries)
      (r : WalletLedgerRecordResult)
      → IsStore p store
      → record_entry p fresh_id now input store ≡ ok (r, store')
      → Recorded p fresh_id now input store r store'
  unfolding record_entry build_entry
  record_inv fresh_id now input store store' r inv h =
      let (u, hu, h1) = >>=-eq-ok (normalize_user_id input.user_id) _ h in
      let (n, hn, h2) =
        >>=-eq-ok (rethrow (normalize_ledger_entry p (draft_entry fresh_id now input u))) _ h1 in
      record {
        user = u;
        user_ok = hu;
        next = n;
        next_ok = rethrow-eq_ok _ n hn;
        done = rw (list_user_value p lawful store u u inv (user_again input.user_id u hu)) at h2;
      }

  -- the other way round
  pub record_of :
      (fresh_id now : String) (input : WalletLedgerRecordInput) (store store' : Entries)
      (r : WalletLedgerRecordResult)
      → IsStore p store
      → Recorded p fresh_id now input store r store'
      → record_entry p fresh_id now input store ≡ ok (r, store')
  unfolding record_entry build_entry
  record_of fresh_id now input store store' r inv c = rw c.user_ok (
      rw c.next_ok (
        rw
          (list_user_value p lawful store c.user c.user inv
            (user_again input.user_id c.user c.user_ok))
          c.done))

  -- A first call has built the balance with the new entry, and has appended that entry.
  pub record_new_inv :
      (store store' : Entries) (user : String) (es : List LedgerEntry) (n : LedgerEntry)
      (r : WalletLedgerRecordResult)
      → IsStore p store
      → IsNormal p n
      → record_new p store user es n ≡ ok (r, store')
      → (r.entry ≡ n)
        × (r.replayed ≡ false)
        × (store' ≡ sort (compare_entries p) (store ++ n ∷ []))
        × (build_balance_snapshot p (balance_input user n.currency (es ++ n ∷ [])) ≡ ok r.snapshot)
  unfolding record_new
  record_new_inv store store' user es n r inv k h =
      let (s, hs, h1) =
        >>=-eq-ok (build_balance_snapshot p (balance_input user n.currency (es ++ n ∷ []))) _ h in
      let h2 = rw (append_value p lawful store n inv k) at h1 in ground arith

  pub replay_inv :
      (store store' : Entries) (user : String) (es : List LedgerEntry) (x n : LedgerEntry)
      (r : WalletLedgerRecordResult)
      → replay p store user es x n ≡ ok (r, store')
      → (r.entry ≡ x)
        × (r.replayed ≡ true)
        × (store' ≡ store)
        × (assert_replay_matches x n ≡ ok tt)
        × (build_balance_snapshot p (balance_input user x.currency es) ≡ ok r.snapshot)
  unfolding replay
  replay_inv store store' user es x n r h = ground arith

  -- Recording an entry keeps the store's invariant.
  pub record_entry-IsStore :
      (fresh_id now : String) (input : WalletLedgerRecordInput) (store store' : Entries)
      (r : WalletLedgerRecordResult)
      → IsStore p store
      → record_entry p fresh_id now input store ≡ ok (r, store')
      → IsStore p store'
  record_entry-IsStore fresh_id now input store store' r inv h =
      let c = record_inv fresh_id now input store store' r inv h in
      let normal = normalize_idem p _ c.next lawful c.next_ok in
      elim (Option-cases (find (has_key c.next.idempotency_key) (owned c.user store))) [
        | inl e ↦
            let v =
              record_new_inv store store' c.user (owned c.user store) c.next r inv normal
                (rw e at c.done) in
            rw v.2 (append-IsStore p lawful store c.next inv normal)
        | inr (x, e) ↦
            let v =
              replay_inv store store' c.user (owned c.user store) x c.next r (rw e at c.done) in
            rw v.2 inv
      ]
