-- ===== src/Application/WalletLedger/Wallet.antt =====
-- What a user's wallet shows after entries were recorded, one call after the other and interleaved.
use gambling.Base.{
  ◌≡◌, ◌≢◌, sym, ap, ◌∙◌, inl, inr, String, Bool, false, some, List, [], ◌∷◌, ◌++◌, ◌==◌, ok, arith,
  Option-cases, Bool-cases, eq_iff, eq_refl, trim, wallet_ledger_validation,
}
use gambling.Base.Lists.{All, find}
use gambling.Base.Sort.{sort}
use gambling.Base.Sort.Select.{All-keep, All-append}
use gambling.Base.Platform.{Platform, IsLawful, require_text-eq_ok}
use gambling.Domain.Ledger.Entry.{LedgerEntry, normalize_currency}
use gambling.Domain.Ledger.Balance.{compare_entries, build_balance_snapshot}
use gambling.Domain.Ledger.Normal.{normalize_inv, normalize_idem}
use gambling.Domain.Ledger.Order.{IsNormal}
use gambling.Application.LedgerStore.{Entries}
use gambling.Application.WalletLedger.{
  WalletLedgerRecordInput, WalletLedgerRecordResult, normalize_user_id, normalize_wallet_currency,
  list_user_entries, balance_input, get_wallet_snapshot, has_key, record_entry, record_with,
}
use gambling.Application.WalletLedger.Store.{
  IsStore, owned, append-IsStore, owned-append_self, owned-append_other, list_user_value,
}
use gambling.Application.WalletLedger.Replay.{
  record_inv, record_new_inv, replay_inv, record_entry-IsStore, user_again,
}
use gambling.Application.WalletLedger.Retry.{build_sorted, user_fixed}

find-All {ℓ κ} :
    {A : Type ℓ} (P : A → Type κ) (q : A → Bool) (xs : List A) (x : A)
    → All P xs
    → find q xs ≡ some x
    → P x
find-All P q [] x a h = cc
find-All P q (y ∷ ys) x a h = elim (Bool-cases (q y)) [
  | inl e ↦ let same : y ≡ x = cc (rw e at h) in rw (← same) a.0
  | inr e ↦ find-All P q ys x a.1 (rw e at h)
]

str_ne : (s t : String) → s ≢ t → (s == t) ≡ false
str_ne s t h = elim (Bool-cases (s == t)) [ inl e ↦ absurd (h ((eq_iff s t).0 e)) | inr e ↦ e ]

user_value : (u v : String) → normalize_user_id u ≡ ok v → v ≡ trim u
unfolding normalize_user_id
user_value u v h = (require_text-eq_ok wallet_ledger_validation u "userId" v h).0

module _ (p : Platform) (lawful : IsLawful p) where
  currency_fixed :
      (e : LedgerEntry) → IsNormal p e → normalize_wallet_currency p e.currency ≡ ok e.currency
  unfolding normalize_wallet_currency normalize_currency
  currency_fixed e h = let c = (normalize_inv p e e h).currency in ground arith

  snapshot_value :
      (store : Entries) (user_id user currency : String)
      → IsStore p store
      → normalize_user_id user_id ≡ ok user
      → normalize_wallet_currency p currency ≡ ok currency
      → get_wallet_snapshot p store user_id currency
        ≡ build_balance_snapshot p (balance_input user currency (owned user store))
  unfolding get_wallet_snapshot
  snapshot_value store user_id user currency inv hu hc = rw hu (
      rw hc
        (rw (list_user_value p lawful store user user inv (user_again p lawful user_id user hu))))

  -- After a call that succeeded, the wallet that the user reads is the one that the call returned.
  pub snapshot-record_entry :
      (i now : String) (input : WalletLedgerRecordInput) (store store' : Entries)
      (r : WalletLedgerRecordResult)
      → IsStore p store
      → record_entry p i now input store ≡ ok (r, store')
      → get_wallet_snapshot p store' input.user_id r.entry.currency ≡ ok r.snapshot
  snapshot-record_entry i now input store store' r inv h =
      let c = record_inv p lawful i now input store store' r inv h in
      let normal = normalize_idem p _ c.next lawful c.next_ok in
      let mine =
        user_fixed p lawful input.user_id c.user _ c.user_ok
          (normalize_inv p _ c.next c.next_ok).user_id in
      elim (Option-cases (find (has_key c.next.idempotency_key) (owned c.user store))) [
        | inl e ↦
            let v =
              record_new_inv p lawful store store' c.user (owned c.user store) c.next r inv normal
                (rw e at c.done) in
            rw v.2 (
              rw v.0 (
                snapshot_value (sort (compare_entries p) (store ++ c.next ∷ [])) input.user_id
                  c.user c.next.currency (append-IsStore p lawful store c.next inv normal) c.user_ok
                  (currency_fixed c.next normal)
                ∙ ap (λ es. build_balance_snapshot p (balance_input c.user c.next.currency es))
                    (owned-append_self p lawful store c.next c.user inv normal
                      (rw (← mine) (eq_refl c.next.user_id)))
                ∙ build_sorted p lawful c.user c.next.currency (owned c.user store ++ c.next ∷ []) (
                    All-append (IsNormal p) (owned c.user store) (c.next ∷ [])
                      (All-keep (IsNormal p) _ store inv.0) (normal, tt))
                ∙ v.3))
        | inr (x, e) ↦
            let v =
              replay_inv p lawful store store' c.user (owned c.user store) x c.next r
                (rw e at c.done) in
            rw v.2 (
              rw v.0 (
                snapshot_value store input.user_id c.user x.currency inv c.user_ok (
                  currency_fixed x
                    (find-All (IsNormal p) _ _ x (All-keep (IsNormal p) _ store inv.0) e))
                ∙ v.4))
      ]

  owned-record_other :
      (store store' : Entries) (user other : String) (n : LedgerEntry)
      (r : WalletLedgerRecordResult)
      → IsStore p store
      → IsNormal p n
      → n.user_id ≢ other
      → record_with p store user
          (owned user store)
          n
          (find (has_key n.idempotency_key) (owned user store))
        ≡ ok (r, store')
      → owned other store' ≡ owned other store
  owned-record_other store store' user other n r inv normal ne h =
      elim (Option-cases (find (has_key n.idempotency_key) (owned user store))) [
        | inl e ↦
            let v =
              record_new_inv p lawful store store' user (owned user store) n r inv normal
                (rw e at h) in
            rw v.2
              (owned-append_other p lawful store n other inv normal (str_ne n.user_id other ne))
        | inr (x, e) ↦
            let v = replay_inv p lawful store store' user (owned user store) x n r (rw e at h) in
            ap (owned other) v.2
      ]

  -- What one user records, no other user sees.
  pub list_user_entries-record_entry_other :
      (i now : String) (input : WalletLedgerRecordInput) (store store' : Entries)
      (r : WalletLedgerRecordResult) (other_id other : String)
      → IsStore p store
      → record_entry p i now input store ≡ ok (r, store')
      → normalize_user_id other_id ≡ ok other
      → trim input.user_id ≢ other
      → list_user_entries p store' other_id ≡ list_user_entries p store other_id
  list_user_entries-record_entry_other i now input store store' r other_id other inv h ho ne =
      let c = record_inv p lawful i now input store store' r inv h in
      let normal = normalize_idem p _ c.next lawful c.next_ok in
      let mine =
        user_fixed p lawful input.user_id c.user _ c.user_ok
          (normalize_inv p _ c.next c.next_ok).user_id in
      let inv' = record_entry-IsStore p lawful i now input store store' r inv h in
      list_user_value p lawful store' other_id other inv' ho
      ∙ ap ok (
          owned-record_other store store' c.user other c.next r inv normal
            (λ e. ne (sym (user_value input.user_id c.user c.user_ok) ∙ sym mine ∙ e)) c.done)
      ∙ sym (list_user_value p lawful store other_id other inv ho)
