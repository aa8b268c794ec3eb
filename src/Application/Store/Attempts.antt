-- ===== src/Application/Store/Attempts.antt =====
-- The store of attempts at the terminal
-- (packages/infrastructure/src/purchase/in-memory-purchase-attempt-store.ts).
use Prim.Native.Nat.{Ordering}
use gambling.Base.{
  String, Bool, false, not, Option, none, some, List, [], ◌∷◌, ◌++◌, ◌==◌, trim, if◌then◌else◌,
}
use gambling.Base.Int.{ℤ, ltb_ℤ}
use gambling.Base.Lists.{find, keep}
use gambling.Base.Sort.{sort, or_next}
use gambling.Base.Platform.{Platform}
use gambling.Domain.Attempt.TerminalAttempt.{PurchaseAttemptRecord}

abbrev pub Attempts : Type 0
Attempts = List PurchaseAttemptRecord

-- the sign of `left - right`
abbrev pub compare_numbers : ℤ → ℤ → Ordering
compare_numbers l r =
    if ltb_ℤ l r then Ordering.lt else if ltb_ℤ r l then Ordering.gt else Ordering.eq

-- `compareRecords`
abbrev compare_attempts : Platform → PurchaseAttemptRecord → PurchaseAttemptRecord → Ordering
compare_attempts p l r =
    or_next (compare_numbers l.attempt_number r.attempt_number)
      (p.locale_compare l.attempt_id r.attempt_id)

unfoldable pub list_attempts_by_purchase_id :
    Platform → Attempts → String → List PurchaseAttemptRecord
list_attempts_by_purchase_id p store purchase_id =
    sort (compare_attempts p) (keep (λ e. e.purchase_id == trim purchase_id) store)

-- `legacyRequestId === normalized`, where the field may be null
abbrev is_text : Option String → String → Bool
is_text none s = false
is_text (some t) s = t == s

unfoldable pub list_attempts_by_legacy_request_id :
    Platform → Attempts → String → List PurchaseAttemptRecord
list_attempts_by_legacy_request_id p store request_id =
    sort (compare_attempts p) (keep (λ e. is_text e.legacy_request_id (trim request_id)) store)

unfoldable pub get_attempt_by_id : Attempts → String → Option PurchaseAttemptRecord
get_attempt_by_id store attempt_id = find (λ e. e.attempt_id == trim attempt_id) store

unfoldable pub save_attempt : Attempts → PurchaseAttemptRecord → Attempts
save_attempt store a = keep (λ e. not (e.attempt_id == a.attempt_id)) store ++ a ∷ []

unfoldable pub clear_all : Attempts → Attempts
clear_all store = []
