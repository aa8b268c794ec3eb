-- ===== src/Application/Store/Queue.antt =====
-- The queue of purchases for the terminal
-- (packages/infrastructure/src/purchase/in-memory-purchase-queue-store.ts), and its item
-- (packages/application/src/ports/purchase-queue-store.ts). `getByRequestId`, `listSnapshot` and
-- `enqueue` are `getQueueItemByRequestId`, `listQueueItems` and `saveQueueItem`.
pub mod Map
use Prim.Native.Nat.{Ordering}
use gambling.Base.{
  ℕ, suc, ◌≡◌, String, Bool, true, false, not, Option, none, some, List, [], ◌∷◌, ◌++◌, ◌==◌, trim,
  if◌then◌else◌,
}
use gambling.Base.Lists.{find, keep}
use gambling.Base.Keyed.{key-lookup, lookup-put_self, lookup-without_self}
use gambling.Base.Sort.{sort, or_next}
use gambling.Base.Platform.{Platform}

pub data PurchaseQueuePriority : Type 0 where
  regular admin_priority : PurchaseQueuePriority

-- the literal type of `status`
pub data QueueStatus : Type 0 where
  queued executing : QueueStatus

pub record PurchaseQueueItem : Type 0 where
  pub request_id : String
  pub lottery_code : String
  pub user_id : String
  pub draw_id : String
  pub attempt_count : ℕ
  pub priority : PurchaseQueuePriority
  pub enqueued_at : String
  pub status : QueueStatus

abbrev pub Queue : Type 0
Queue = List PurchaseQueueItem

-- `===` on statuses and priorities
abbrev pub is_queued : QueueStatus → Bool
is_queued queued = true
is_queued executing = false

abbrev pub same_priority : PurchaseQueuePriority → PurchaseQueuePriority → Bool
same_priority regular regular = true
same_priority admin_priority admin_priority = true
same_priority a b = false

-- `compareQueueItems`
abbrev compare_stored : Platform → PurchaseQueueItem → PurchaseQueueItem → Ordering
compare_stored p l r =
    or_next (p.locale_compare l.enqueued_at r.enqueued_at)
      (p.locale_compare l.request_id r.request_id)

unfoldable pub list_queue_items : Platform → Queue → List PurchaseQueueItem
list_queue_items p store = sort (compare_stored p) store

unfoldable pub get_queue_item : Queue → String → Option PurchaseQueueItem
get_queue_item store request_id = find (λ e. e.request_id == trim request_id) store

unfoldable pub save_queue_item : Queue → PurchaseQueueItem → Queue
save_queue_item store item = keep (λ e. not (e.request_id == item.request_id)) store ++ item ∷ []

unfoldable pub remove_queue_item : Queue → String → Queue
remove_queue_item store request_id = keep (λ e. not (e.request_id == trim request_id)) store

-- the item of a running attempt
abbrev pub reserved : PurchaseQueueItem → PurchaseQueueItem
reserved item = record item { attempt_count = suc item.attempt_count; status = executing }

-- `reserve` at the item that it finds
abbrev reserve_found : Queue → Option PurchaseQueueItem → Option PurchaseQueueItem × Queue
reserve_found store none = (none, store)
reserve_found store (some item) =
    if is_queued item.status
    then (some (reserved item), save_queue_item store (reserved item))
    else (none, store)

unfoldable pub reserve : Queue → String → Option PurchaseQueueItem × Queue
reserve store request_id = reserve_found store (get_queue_item store request_id)

-- the item back in the queue; a queued item is left as it is
abbrev pub requeued : PurchaseQueueItem → PurchaseQueueItem
requeued item = if is_queued item.status then item else record item { status = queued }

abbrev requeue_found : Queue → Option PurchaseQueueItem → Option PurchaseQueueItem × Queue
requeue_found store none = (none, store)
requeue_found store (some item) = (some (requeued item), save_queue_item store (requeued item))

unfoldable pub requeue : Queue → String → Option PurchaseQueueItem × Queue
requeue store request_id = requeue_found store (get_queue_item store request_id)

-- the item with another priority
abbrev pub with_priority : PurchaseQueuePriority → PurchaseQueueItem → PurchaseQueueItem
with_priority priority item =
    if same_priority item.priority priority then item else record item { priority = priority }

abbrev reprioritize_found :
    Queue → PurchaseQueuePriority → Option PurchaseQueueItem → Option PurchaseQueueItem × Queue
reprioritize_found store priority none = (none, store)
reprioritize_found store priority (some item) =
    (some (with_priority priority item), save_queue_item store (with_priority priority item))

unfoldable pub reprioritize :
    Queue → String → PurchaseQueuePriority → Option PurchaseQueueItem × Queue
reprioritize store request_id priority =
    reprioritize_found store priority (get_queue_item store request_id)

unfoldable pub complete : Queue → String → Queue
unfolding remove_queue_item
complete store request_id = remove_queue_item store request_id

unfoldable pub clear_all : Queue → Queue
clear_all store = []

-- An item that is found has the id that was looked for, without its surrounding space.
pub get_queue_item_id :
    (store : Queue) (id : String) (item : PurchaseQueueItem)
    → get_queue_item store id ≡ some item
    → item.request_id ≡ trim id
unfolding get_queue_item
get_queue_item_id store id item h = key-lookup (λ e. e.request_id) store (trim id) item h

-- A saved item is found under its id.
pub get-save_queue_item :
    (store : Queue) (id : String) (item : PurchaseQueueItem)
    → item.request_id ≡ trim id
    → get_queue_item (save_queue_item store item) id ≡ some item
unfolding get_queue_item save_queue_item
get-save_queue_item store id item h = lookup-put_self (λ e. e.request_id) store item (trim id) h

-- A completed item is gone.
pub get-complete : (store : Queue) (id : String) → get_queue_item (complete store id) id ≡ none
unfolding get_queue_item complete remove_queue_item
get-complete store id = lookup-without_self (λ e. e.request_id) store (trim id)
