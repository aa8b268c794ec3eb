-- ===== src/Application/Store/Purchases.antt =====
-- The store of canonical purchases
-- (packages/infrastructure/src/purchase/in-memory-canonical-purchase-store.ts).
use Prim.Native.Nat.{Ordering}
use gambling.Base.{
  ◌≡◌, String, Bool, false, not, Option, none, some, List, [], ◌∷◌, ◌++◌, ◌==◌, trim,
}
use gambling.Base.Lists.{find, keep}
use gambling.Base.Keyed.{lookup-put_self}
use gambling.Base.Sort.{sort, or_next}
use gambling.Base.Platform.{Platform}
use gambling.Domain.PurchaseRequest.Canonical.{CanonicalPurchaseRecord}

abbrev pub Purchases : Type 0
Purchases = List CanonicalPurchaseRecord

-- `compareRecords`
abbrev compare_purchases : Platform → CanonicalPurchaseRecord → CanonicalPurchaseRecord → Ordering
compare_purchases p l r =
    or_next (p.locale_compare l.snapshot.submitted_at r.snapshot.submitted_at)
      (p.locale_compare l.snapshot.purchase_id r.snapshot.purchase_id)

unfoldable pub list_purchases : Platform → Purchases → List CanonicalPurchaseRecord
list_purchases p store = sort (compare_purchases p) store

unfoldable pub get_purchase_by_id : Purchases → String → Option CanonicalPurchaseRecord
get_purchase_by_id store purchase_id = find (λ e. e.snapshot.purchase_id == trim purchase_id) store

-- `legacyRequestId === normalized`, where the field may be null
abbrev is_text : Option String → String → Bool
is_text none s = false
is_text (some t) s = t == s

unfoldable pub get_purchase_by_legacy_request_id :
    Purchases → String → Option CanonicalPurchaseRecord
get_purchase_by_legacy_request_id store request_id =
    find (λ e. is_text e.snapshot.legacy_request_id (trim request_id)) store

unfoldable pub save_purchase : Purchases → CanonicalPurchaseRecord → Purchases
save_purchase store r =
    keep (λ e. not (e.snapshot.purchase_id == r.snapshot.purchase_id)) store ++ r ∷ []

unfoldable pub clear_all : Purchases → Purchases
clear_all store = []

-- A saved purchase is found under its id.
pub get-save_purchase :
    (store : Purchases) (id : String) (r : CanonicalPurchaseRecord)
    → r.snapshot.purchase_id ≡ trim id
    → get_purchase_by_id (save_purchase store r) id ≡ some r
unfolding get_purchase_by_id save_purchase
get-save_purchase store id r h = lookup-put_self (λ e. e.snapshot.purchase_id) store r (trim id) h
