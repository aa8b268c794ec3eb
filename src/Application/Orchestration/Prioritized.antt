-- ===== src/Application/Orchestration/Prioritized.antt =====
-- What a confirmation with priority leaves in the queue.
use gambling.Base.{
  ◌≡◌, ◌⊎◌, ◌||◌, not, refl, sym, ◌∙◌, inl, inr, String, true, false, some, trim, trim_idem,
  Bool-cases, arith,
}
use gambling.Base.Action.{returned, returned_value, world_of}
use gambling.Base.Action.Returns.{
  split_call, split_guard, split_present, split_read, split_give, last_present,
}
use gambling.Application.World.{World, Surroundings}
use gambling.Application.Store.Queue.{
  QueueStatus, executing, PurchaseQueuePriority, admin_priority, PurchaseQueueItem, is_queued,
  same_priority, with_priority, get_queue_item, get_queue_item_id, reprioritize, save_queue_item,
  get-save_queue_item,
}
use gambling.Application.Orchestration.{ConfirmAndQueueResult}
use gambling.Application.Orchestration.Confirmed.{IsQueued, confirm_and_queue_request_queues}
use gambling.Application.Orchestration.Priority.{
  reprioritize_item, reprioritize_queued_request, confirm_and_queue_as_admin_priority,
}

-- the item goes first, or is already at the terminal
abbrev pub IsFirst : PurchaseQueueItem → Type 0
IsFirst item = (item.priority ≡ admin_priority) ⊎ (item.status ≡ executing)

is_admin_of :
    (a : PurchaseQueuePriority) → same_priority a admin_priority ≡ true → a ≡ admin_priority
is_admin_of a h = ground arith

is_executing_of : (a : QueueStatus) → is_queued a ≡ false → a ≡ executing
is_executing_of a h = ground arith

IsFirst-of :
    (item : PurchaseQueueItem)
    → (same_priority item.priority admin_priority || not (is_queued item.status)) ≡ true
    → IsFirst item
IsFirst-of item h = elim (Bool-cases (same_priority item.priority admin_priority)) [
  | inl e ↦ inl (is_admin_of item.priority e)
  | inr e ↦ inr (is_executing_of item.status (ground arith))
]

some_inv : {A : Type 0} {a b : A} → some a ≡ some b → a ≡ b
some_inv h = cc

reprioritize_value :
    (id : String) (old : PurchaseQueueItem) (w : World)
    → get_queue_item w.queue id ≡ some old
    → reprioritize_item id admin_priority w
      ≡ returned
          (some (with_priority admin_priority old))
          (record w { queue = save_queue_item w.queue (with_priority admin_priority old) })
unfolding reprioritize_item reprioritize
reprioritize_value id old w asked = rw asked refl

raised_item :
    (w : World) (id : String) (old item : PurchaseQueueItem)
    → get_queue_item w.queue id ≡ some old
    → same_priority old.priority admin_priority ≡ false
    → some (with_priority admin_priority old) ≡ some item
    → (w.requests ≡ w.requests)
      × (get_queue_item (save_queue_item w.queue (with_priority admin_priority old)) id ≡ some item)
      × (item.priority ≡ admin_priority)
raised_item w id old item asked e first =
    let now : with_priority admin_priority old ≡ record old { priority = admin_priority } =
      rw e refl in
    let named : (with_priority admin_priority old).request_id ≡ trim id =
      rw now (get_queue_item_id w.queue id old asked) in
    (
      refl,
      get-save_queue_item w.queue id (with_priority admin_priority old) named ∙ first,
      rw (← some_inv first) (rw now refl),
    )

-- an item that was given priority
raised :
    (id : String) (item : PurchaseQueueItem) (w v : World)
    → reprioritize_queued_request (record { request_id = id; priority = admin_priority }) w
      ≡ returned item v
    → (v.requests ≡ w.requests)
      × (get_queue_item v.queue (trim id) ≡ some item)
      × (item.priority ≡ admin_priority)
unfolding reprioritize_queued_request
raised id item w v h = split_guard _ _ _ _ h λ _ h1. split_read _ _ h1 λ h2.
    split_present _ _ _ _ h2 λ old asked h3. split_guard _ _ _ _ h3 λ waits h4.
      elim (Bool-cases (same_priority old.priority admin_priority)) [
        | inl e ↦
            let (result, world) = split_give old (rw e at h4) in
            rw (result, world) (refl, asked, is_admin_of old.priority e)
        | inr e ↦ split_call _ _ (rw e at h4) λ next u done h5.
            let result = sym (reprioritize_value (trim id) old w asked) ∙ done in
            let (present, world) = last_present next _ _ h5 in
            let first : some (with_priority admin_priority old) ≡ some item =
              returned_value result ∙ present in
            rw (world, sym (world_of result)) (raised_item w (trim id) old item asked e first)
      ]

-- Confirming with priority, where it returns, leaves the request queued under the given id, and its
-- item in the queue has the priority of an administrator, unless the terminal is working on it.
pub confirm_and_queue_as_admin_priority-IsFirst :
    (s : Surroundings) (request_id : String) (w v : World) (r : ConfirmAndQueueResult)
    → confirm_and_queue_as_admin_priority s request_id w ≡ returned r v
    → IsQueued s (trim request_id) r v × IsFirst r.queue_item
unfolding confirm_and_queue_as_admin_priority
confirm_and_queue_as_admin_priority-IsFirst s request_id w v r h = split_guard _ _ _ _ h λ _ h1.
    split_read _ _ h1 λ h2. split_present _ _ _ _ h2 λ x asked h3.
      split_call _ _ h3 λ done u confirmed h4.
        let queues =
          rw (trim_idem request_id) at
            (confirm_and_queue_request_queues s _ w u done confirmed).0 in
        elim (Bool-cases (
          same_priority done.queue_item.priority admin_priority
          || not (is_queued done.queue_item.status))) [
            | inl e ↦
                let (result, world) = split_give done (rw e at h4) in
                rw (result, world) (queues, IsFirst-of done.queue_item e)
            | inr e ↦ split_call _ _ (rw e at h4) λ item u' moved h5.
                let (result, world) = split_give _ h5 in
                let (kept, listed, first) = raised (trim request_id) item u u' moved in
                rw (result, world)
                  ((queues.0, rw kept queues.1, rw (trim_idem request_id) at listed), inl first)
          ]
