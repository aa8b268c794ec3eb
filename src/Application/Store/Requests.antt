-- ===== src/Application/Store/Requests.antt =====
-- The store of purchase requests
-- (packages/infrastructure/src/purchase/in-memory-purchase-request-store.ts).
use Prim.Native.Nat.{Ordering}
use gambling.Base.{◌≡◌, String, not, Option, some, List, [], ◌∷◌, ◌++◌, ◌==◌, trim}
use gambling.Base.Lists.{find, keep}
use gambling.Base.Keyed.{key-lookup, lookup-put_self}
use gambling.Base.Sort.{sort, or_next}
use gambling.Base.Platform.{Platform}
use gambling.Domain.PurchaseRequest.Request.{PurchaseRequestRecord}

abbrev pub Requests : Type 0
Requests = List PurchaseRequestRecord

-- `compareRecordsByCreatedAt`
abbrev compare_records_by_created_at :
    Platform → PurchaseRequestRecord → PurchaseRequestRecord → Ordering
compare_records_by_created_at p l r =
    or_next (p.locale_compare l.snapshot.created_at r.snapshot.created_at)
      (p.locale_compare l.snapshot.request_id r.snapshot.request_id)

unfoldable pub list_requests : Platform → Requests → List PurchaseRequestRecord
list_requests p store = sort (compare_records_by_created_at p) store

unfoldable pub get_request_by_id : Requests → String → Option PurchaseRequestRecord
get_request_by_id store request_id = find (λ e. e.snapshot.request_id == trim request_id) store

unfoldable pub save_request : Requests → PurchaseRequestRecord → Requests
save_request store r =
    keep (λ e. not (e.snapshot.request_id == r.snapshot.request_id)) store ++ r ∷ []

unfoldable pub clear_all : Requests → Requests
clear_all store = []

-- A request that is found has the id that was looked for, without its surrounding space.
pub get_request_id :
    (store : Requests) (id : String) (r : PurchaseRequestRecord)
    → get_request_by_id store id ≡ some r
    → r.snapshot.request_id ≡ trim id
unfolding get_request_by_id
get_request_id store id r h = key-lookup (λ e. e.snapshot.request_id) store (trim id) r h

-- A saved request is found under its id.
pub get-save_request :
    (store : Requests) (id : String) (r : PurchaseRequestRecord)
    → r.snapshot.request_id ≡ trim id
    → get_request_by_id (save_request store r) id ≡ some r
unfolding get_request_by_id save_request
get-save_request store id r h = lookup-put_self (λ e. e.snapshot.request_id) store r (trim id) h
