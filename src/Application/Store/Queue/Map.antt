-- ===== src/Application/Store/Queue/Map.antt =====
-- The queue as a map from request ids to items: every operation of the store is an operation of the
-- map, so the order of the stored list and what was overwritten in it are forgotten.
use gambling.Base.{
  ◌≡◌, ◌⊎◌, Bool, true, false, suc, refl, sym, ◌∙◌, ap, String, Option, none, some, List, [], ◌∷◌,
  trim, Bool-cases, Option-cases, ◌==◌, eq_iff, inl, inr, if◌then◌else◌, arith,
}
use mathlib.Core.Path.{fun_ext}
use gambling.Base.Keyed.{update, lookup, key-lookup, lookup-put, lookup-without}
use gambling.Application.Store.Queue.{
  PurchaseQueueItem, PurchaseQueuePriority, regular, admin_priority, QueueStatus, queued, executing,
  Queue, is_queued, same_priority, reserved, requeued, with_priority, get_queue_item,
  save_queue_item, remove_queue_item, reserve, requeue, reprioritize, complete, clear_all,
}

abbrev pub QueueMap : Type 0
QueueMap = String → Option PurchaseQueueItem

abbrev id_of : PurchaseQueueItem → String
id_of item = item.request_id

-- what the store holds under each id
abbrev pub view : Queue → QueueMap
view store = lookup id_of store

-- a call that writes to the queue
pub data QueueCall : Type 0 where
  enqueueing : PurchaseQueueItem → QueueCall
  reserving requeueing completing : String → QueueCall
  reprioritizing : String → PurchaseQueuePriority → QueueCall
  clearing : QueueCall

-- the store after a call
unfoldable pub apply_call : QueueCall → Queue → Queue
apply_call (enqueueing item) store = save_queue_item store item
apply_call (reserving id) store = (reserve store id).1
apply_call (requeueing id) store = (requeue store id).1
apply_call (completing id) store = complete store id
apply_call (reprioritizing id priority) store = (reprioritize store id priority).1
apply_call clearing store = clear_all store

-- the item under the id, changed
abbrev change_found :
    QueueMap
    → String
    → (PurchaseQueueItem → PurchaseQueueItem)
    → Option PurchaseQueueItem
    → QueueMap
change_found m id f none = m
change_found m id f (some item) = update m id (some (f item))

abbrev change : QueueMap → String → (PurchaseQueueItem → PurchaseQueueItem) → QueueMap
change m id f = change_found m id f (m id)

-- `reserve` takes only a queued item.
abbrev take : PurchaseQueueItem → PurchaseQueueItem
take item = if is_queued item.status then reserved item else item

-- The same changes, stated apart from the store: a queued item is handed out and counts one more
-- attempt, an item goes back as queued, and an item gets a priority.
abbrev hand_out_as : QueueStatus → PurchaseQueueItem → PurchaseQueueItem
hand_out_as queued item = record item { status = executing; attempt_count = suc item.attempt_count }
hand_out_as executing item = item

abbrev pub hand_out : PurchaseQueueItem → PurchaseQueueItem
hand_out item = hand_out_as item.status item

abbrev pub put_back : PurchaseQueueItem → PurchaseQueueItem
put_back item = record item { status = queued }

abbrev pub give_priority : PurchaseQueuePriority → PurchaseQueueItem → PurchaseQueueItem
give_priority priority item = record item { priority = priority }

status_cases : (s : QueueStatus) → (s ≡ queued) ⊎ (s ≡ executing)
status_cases queued = inl refl
status_cases executing = inr refl

hand_out_lem : (item : PurchaseQueueItem) → take item ≡ hand_out item
hand_out_lem item = elim (status_cases item.status) [ inl e ↦ rw e refl | inr e ↦ rw e refl ]

put_back_as :
    (item : PurchaseQueueItem) (status : QueueStatus)
    → item.status ≡ status
    → (if is_queued status then item else record item { status = queued }) ≡ put_back item
put_back_as item queued e = ap (λ s. record item { status = s }) e
put_back_as item executing e = refl

put_back_lem : (item : PurchaseQueueItem) → requeued item ≡ put_back item
put_back_lem item = put_back_as item item.status refl

same_priority-eq : (a b : PurchaseQueuePriority) → same_priority a b ≡ true → a ≡ b
same_priority-eq regular regular h = refl
same_priority-eq admin_priority admin_priority h = refl
same_priority-eq a b h = absurd cc

give_priority_as :
    (priority : PurchaseQueuePriority) (item : PurchaseQueueItem) (same : Bool)
    → same_priority item.priority priority ≡ same
    → (if same then item else record item { priority = priority }) ≡ give_priority priority item
give_priority_as priority item true e =
    ap (λ given. record item { priority = given }) (same_priority-eq item.priority priority e)
give_priority_as priority item false e = refl

give_priority_lem :
    (priority : PurchaseQueuePriority) (item : PurchaseQueueItem)
    → with_priority priority item ≡ give_priority priority item
give_priority_lem priority item = give_priority_as priority item _ refl

-- the map after a call
unfoldable pub apply_abstract : QueueCall → QueueMap → QueueMap
apply_abstract (enqueueing item) m = update m item.request_id (some item)
apply_abstract (reserving id) m = change m (trim id) hand_out
apply_abstract (requeueing id) m = change m (trim id) put_back
apply_abstract (completing id) m = update m (trim id) none
apply_abstract (reprioritizing id priority) m = change m (trim id) (give_priority priority)
apply_abstract clearing m = λ id. none

abbrev pub run : List QueueCall → Queue → Queue
run [] store = store
run (call ∷ calls) store = run calls (apply_call call store)

abbrev pub run_abstract : List QueueCall → QueueMap → QueueMap
run_abstract [] m = m
run_abstract (call ∷ calls) m = run_abstract calls (apply_abstract call m)

view-save :
    (store : Queue) (item : PurchaseQueueItem)
    → view (save_queue_item store item) ≡ update (view store) item.request_id (some item)
unfolding save_queue_item
view-save store item = lookup-put id_of store item

-- Saving what a change that keeps the id makes of the item under an id is that change of the map.
view-change :
    (store : Queue) (id : String) (item changed : PurchaseQueueItem)
    → view store id ≡ some item
    → changed.request_id ≡ item.request_id
    → view (save_queue_item store changed) ≡ update (view store) id (some changed)
view-change store id item changed found kept =
    view-save store changed
    ∙ ap (λ at. update (view store) at (some changed)) (kept ∙ key-lookup id_of store id item found)

-- Changing the item under an id to itself changes nothing.
update_self :
    (store : Queue) (id : String) (item : PurchaseQueueItem)
    → view store id ≡ some item
    → update (view store) id (some item) ≡ view store
update_self store id item found = fun_ext λ other. elim (Bool-cases (id == other)) [
  | inl e ↦ rw e (sym found ∙ ap (view store) ((eq_iff id other).0 e))
  | inr e ↦ rw e refl
]

module _ (store : Queue) (id : String) where
  view-reserve : view (reserve store id).1 ≡ change (view store) (trim id) take
  unfolding reserve get_queue_item
  view-reserve = elim (Option-cases (view store (trim id))) [
    | inl e ↦ rw e refl
    | inr (item, e) ↦ elim (Bool-cases (is_queued item.status)) [
      | inl q ↦ rw (e, q) (view-change store (trim id) item (reserved item) e refl)
      | inr q ↦ rw (e, q) (sym (update_self store (trim id) item e))
    ]
  ]

  requeued_id : (item : PurchaseQueueItem) → (requeued item).request_id ≡ item.request_id
  requeued_id item = ground arith

  view-requeue : view (requeue store id).1 ≡ change (view store) (trim id) requeued
  unfolding requeue get_queue_item
  view-requeue = elim (Option-cases (view store (trim id))) [
    | inl e ↦ rw e refl
    | inr (item, e) ↦ rw e (view-change store (trim id) item (requeued item) e (requeued_id item))
  ]

  with_priority_id :
      (priority : PurchaseQueuePriority) (item : PurchaseQueueItem)
      → (with_priority priority item).request_id ≡ item.request_id
  with_priority_id priority item = ground arith

  view-reprioritize :
      (priority : PurchaseQueuePriority)
      → view (reprioritize store id priority).1
        ≡ change (view store) (trim id) (with_priority priority)
  unfolding reprioritize get_queue_item
  view-reprioritize priority = elim (Option-cases (view store (trim id))) [
    | inl e ↦ rw e refl
    | inr (item, e) ↦ rw e (
        view-change store (trim id) item (with_priority priority item) e
          (with_priority_id priority item))
  ]

-- each call on the store is its operation on the map
view-apply_call :
    (call : QueueCall) (store : Queue)
    → view (apply_call call store) ≡ apply_abstract call (view store)
unfolding apply_call apply_abstract complete remove_queue_item clear_all
view-apply_call (enqueueing item) store = view-save store item
view-apply_call (reserving id) store =
    view-reserve store id ∙ ap (change (view store) (trim id)) (fun_ext hand_out_lem)
view-apply_call (requeueing id) store =
    view-requeue store id ∙ ap (change (view store) (trim id)) (fun_ext put_back_lem)
view-apply_call (completing id) store = lookup-without id_of store (trim id)
view-apply_call (reprioritizing id priority) store =
    view-reprioritize store id priority
    ∙ ap (change (view store) (trim id)) (fun_ext (give_priority_lem priority))
view-apply_call clearing store = refl

-- Any sequence of calls on the queue store acts as the same sequence on a map from request ids to
-- items: enqueueing sets an item, reserving takes a queued item for execution and leaves an executing
-- one as it is, requeueing and reprioritizing change the item that is there, completing removes it.
pub run_refines :
    (calls : List QueueCall) (store : Queue)
    → view (run calls store) ≡ run_abstract calls (view store)
run_refines [] store = refl
run_refines (call ∷ calls) store =
    run_refines calls (apply_call call store) ∙ ap (run_abstract calls) (view-apply_call call store)
