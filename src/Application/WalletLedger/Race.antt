-- ===== src/Application/WalletLedger/Race.antt =====
-- Two calls of `recordEntry` that overlap. A call waits between reading the entries of the user and
-- appending its own, and nothing keeps a second call from reading in between.
use gambling.Base.{
  ℕ, ◌+◌, ◌≡◌, ◌≢◌, ap, ◌∙◌, String, Bool, false, [], ◌∷◌, ◌++◌, ◌<◌, ◌≤◌, ok, arith, inl, inr,
  >>=-eq-ok, Option-cases, eq_refl,
}
use gambling.Base.Int.{pos_part, neg_part, int_laws}
use gambling.Base.Lists.{find}
use gambling.Base.Sort.{sort}
use gambling.Base.Platform.{Platform, IsLawful}
use gambling.Domain.Ledger.Entry.{LedgerOperationType, LedgerEntry, reserve}
use gambling.Domain.Ledger.Balance.{BalanceSnapshot, compare_entries}
use gambling.Domain.Ledger.Normal.{normalize_inv, normalize_idem}
use gambling.Domain.Ledger.Order.{IsNormal}
use gambling.Domain.Ledger.Totals.{
  total, share, amount_of, adds_available, takes_available, total-sort, total-append_one,
  build_balance_totals,
}
use gambling.Application.LedgerStore.{Entries, append_entry}
use gambling.Application.WalletLedger.{
  WalletLedgerRecordInput, WalletLedgerRecordResult, normalize_user_id, normalize_wallet_currency,
  balance_input, get_wallet_snapshot, has_key, record_entry,
}
use gambling.Application.WalletLedger.Store.{
  IsStore, owned, append_value, append-IsStore, owned-append_self, list_user_value,
}
use gambling.Application.WalletLedger.Replay.{record_inv, record_new_inv, replay_inv, user_again}
use gambling.Application.WalletLedger.Retry.{user_fixed}

module _ (p : Platform) (lawful : IsLawful p) where
  -- A wallet that can be read has taken no more than it was given.
  readable_bound :
      (store : Entries) (user_id user currency : String) (s : BalanceSnapshot)
      → IsStore p store
      → normalize_user_id user_id ≡ ok user
      → get_wallet_snapshot p store user_id currency ≡ ok s
      → total takes_available (owned user store) ≤ total adds_available (owned user store)
  unfolding get_wallet_snapshot
  readable_bound store user_id user currency s inv hu h =
      let h1 = rw hu at h in
      let (c, hc, h2) = >>=-eq-ok (normalize_wallet_currency p currency) _ h1 in
      let h3 =
        rw (list_user_value p lawful store user user inv (user_again p lawful user_id user hu)) at
          h2 in
      let b = build_balance_totals p (balance_input user c (owned user store)) s h3 in
      omega (int_laws, ap pos_part b.0, ap neg_part b.0, b.2)

  -- what a call that is no replay has added for its user
  fresh_inv :
      (i now : String) (input : WalletLedgerRecordInput) (store store' : Entries)
      (r : WalletLedgerRecordResult)
      → IsStore p store
      → record_entry p i now input store ≡ ok (r, store')
      → r.replayed ≡ false
      → (user : String) × (normalize_user_id input.user_id ≡ ok user)
        × (r.entry.user_id ≡ user)
        × IsNormal p r.entry
        × (store' ≡ sort (compare_entries p) (store ++ r.entry ∷ []))
  fresh_inv i now input store store' r inv h new =
      let c = record_inv p lawful i now input store store' r inv h in
      let normal = normalize_idem p _ c.next lawful c.next_ok in
      let mine =
        user_fixed p lawful input.user_id c.user _ c.user_ok
          (normalize_inv p _ c.next c.next_ok).user_id in
      elim (Option-cases (find (has_key c.next.idempotency_key) (owned c.user store))) [
        | inl e ↦
            let v =
              record_new_inv p lawful store store' c.user (owned c.user store) c.next r inv normal
                (rw e at c.done) in
            (c.user, c.user_ok, rw v.0 mine, rw v.0 normal, rw v.0 v.2)
        | inr (x, e) ↦
            let v =
              replay_inv p lawful store store' c.user (owned c.user store) x c.next r
                (rw e at c.done) in
            cc (v.1, new)
      ]

  total-owned-append :
      (q : LedgerOperationType → Bool) (store : Entries) (n : LedgerEntry) (user : String)
      → IsStore p store
      → IsNormal p n
      → n.user_id ≡ user
      → total q (owned user (sort (compare_entries p) (store ++ n ∷ [])))
        ≡ total q (owned user store) + share q n
  total-owned-append q store n user inv normal mine =
      ap (total q)
        (owned-append_self p lawful store n user inv normal (rw (← mine) (eq_refl n.user_id)))
      ∙ total-sort q (compare_entries p) (owned user store ++ n ∷ [])
      ∙ total-append_one q (owned user store) n

  -- the two appends, one after the other
  total-owned-two :
      (q : LedgerOperationType → Bool) (store : Entries) (n m : LedgerEntry) (user : String)
      → IsStore p store
      → IsNormal p n
      → IsNormal p m
      → n.user_id ≡ user
      → m.user_id ≡ user
      → total q (
          owned user
            (sort (compare_entries p) (sort (compare_entries p) (store ++ n ∷ []) ++ m ∷ [])))
        ≡ total q (owned user store) + share q n + share q m
  total-owned-two q store n m user inv kn km mn mm =
      total-owned-append q (sort (compare_entries p) (store ++ n ∷ [])) m user
        (append-IsStore p lawful store n inv kn) km mm
      ∙ ap (λ (t : ℕ). t + share q m) (total-owned-append q store n user inv kn mn)

  -- The totals say that the wallet cannot be read.
  overdrawn :
      (store u : Entries) (user_id user currency : String) (n m : LedgerEntry) (s : BalanceSnapshot)
      → IsStore p store
      → IsNormal p n
      → IsNormal p m
      → normalize_user_id user_id ≡ ok user
      → n.user_id ≡ user
      → m.user_id ≡ user
      → u ≡ sort (compare_entries p) (sort (compare_entries p) (store ++ n ∷ []) ++ m ∷ [])
      → share adds_available n ≡ 0
      → share adds_available m ≡ 0
      → total adds_available (owned user store)
        < total takes_available (owned user store)
          + share takes_available n
          + share takes_available m
      → get_wallet_snapshot p u user_id currency ≢ ok s
  overdrawn store u user_id user currency n m s inv kn km hu mn mm hsort zn zm over read =
      let inv' =
        append-IsStore p lawful (sort (compare_entries p) (store ++ n ∷ [])) m
          (append-IsStore p lawful store n inv kn) km in
      let bound = readable_bound _ user_id user currency s inv' hu (rw hsort at read) in
      absurd (
        omega (
          arith,
          bound,
          total-owned-two takes_available store n m user inv kn km mn mm,
          total-owned-two adds_available store n m user inv kn km mn mm,
        ))

  share_of_reserve :
      (n : LedgerEntry)
      → n.operation ≡ reserve
      → (share adds_available n ≡ 0) × (share takes_available n ≡ amount_of n)
  share_of_reserve n h = ground arith

  -- If two reservations of one user, neither of them a replay, are both accepted against the same
  -- contents of the store and are then both appended, and together they exceed what is available, the
  -- user's wallet cannot be read any more, in any currency.
  pub overlapping_reserves_break_wallet :
      (i now j now' : String) (first second : WalletLedgerRecordInput) (store t t' u : Entries)
      (r r' : WalletLedgerRecordResult)
      → IsStore p store
      → record_entry p i now first store ≡ ok (r, t)
      → record_entry p j now' second store ≡ ok (r', t')
      → append_entry p t r'.entry ≡ ok u
      → r.replayed ≡ false
      → r'.replayed ≡ false
      → second.user_id ≡ first.user_id
      → r.entry.operation ≡ reserve
      → r'.entry.operation ≡ reserve
      → total adds_available (owned r.entry.user_id store)
        < total takes_available (owned r.entry.user_id store)
          + amount_of r.entry
          + amount_of r'.entry
      → (currency : String) (s : BalanceSnapshot)
      → get_wallet_snapshot p u first.user_id currency ≢ ok s
  overlapping_reserves_break_wallet i now j now' first second store t t' u r r' inv h h' ha new new'
        same op op' over currency s =
      let (user, hu, mine, normal, ht) = fresh_inv i now first store t r inv h new in
      let (user', hu', mine', normal', ht') = fresh_inv j now' second store t' r' inv h' new' in
      let one : user' ≡ user = cc (rw same at hu', hu) in
      let inv_t = append-IsStore p lawful store r.entry inv normal in
      let appended =
        append_value p lawful (sort (compare_entries p) (store ++ r.entry ∷ [])) r'.entry inv_t
          normal' in
      let hu_sort : u
          ≡ sort (compare_entries p)
              (sort (compare_entries p) (store ++ r.entry ∷ []) ++ r'.entry ∷ []) =
        cc (rw ht at ha, appended) in
      let (zero_n, all_n) = share_of_reserve r.entry op in
      let (zero_m, all_m) = share_of_reserve r'.entry op' in
      overdrawn store u first.user_id user currency r.entry r'.entry s inv normal normal' hu mine
        (mine' ∙ one) hu_sort zero_n zero_m (rw all_n (rw all_m (rw mine at over)))
