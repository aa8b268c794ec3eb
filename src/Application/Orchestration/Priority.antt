-- ===== src/Application/Orchestration/Priority.antt =====
-- `reprioritizeQueuedRequest` and `confirmAndQueueAsAdminPriority`.
use gambling.Base.{
  String, not, ◌||◌, Option, some, [], ◌∷◌, if◌then◌else◌, is_empty, trim, template,
}
use gambling.Base.Action.{Outcome, returned, Action, give, raise_if, present_or, reads, ◌>>=◌, ◌>>◌}
use gambling.Application.World.{World, Surroundings}
use gambling.Application.Store.Requests.{get_request_by_id}
use gambling.Application.Store.Queue.{
  Queue, QueueStatus, queued, executing, PurchaseQueuePriority, admin_priority, PurchaseQueueItem,
  is_queued, same_priority, get_queue_item, reprioritize,
}
use gambling.Application.Orchestration.{
  ConfirmAndQueueResult, request_not_found, request_state_invalid, about_request,
}
use gambling.Application.Orchestration.Confirm.{confirm_and_queue_request}

pub record ReprioritizeQueuedRequestInput : Type 0 where
  pub request_id : String
  pub priority : PurchaseQueuePriority

abbrev queue_status_text : QueueStatus → String
queue_status_text queued = "queued"
queue_status_text executing = "executing"

abbrev not_queued : String → String
not_queued id = template ("queued request \"" ∷ id ∷ "\" not found" ∷ [])

-- `queueStore.reprioritize`
abbrev queue_after :
    World → Option PurchaseQueueItem × Queue → Outcome World (Option PurchaseQueueItem)
queue_after w (item, queue) = returned item (record w { queue = queue })

unfoldable pub reprioritize_item :
    String → PurchaseQueuePriority → Action World (Option PurchaseQueueItem)
reprioritize_item id priority w = queue_after w (reprioritize w.queue id priority)

unfoldable pub reprioritize_queued_request :
    ReprioritizeQueuedRequestInput → Action World PurchaseQueueItem
reprioritize_queued_request input = do
  let id = trim input.request_id
  raise_if (is_empty id) request_not_found "requestId is required"
  found ← reads (λ w. get_queue_item w.queue id)
  item ← present_or found request_not_found (not_queued id)
  raise_if (not (is_queued item.status)) request_state_invalid (
      about_request id (
        template (
          "cannot be reprioritized from queue status \""
          ∷ queue_status_text item.status
          ∷ "\""
          ∷ [])))
  if same_priority item.priority input.priority then give item else do
    next ← reprioritize_item id input.priority
    present_or next request_not_found (not_queued id)

-- what follows the confirmation
abbrev pub raise_priority : String → ConfirmAndQueueResult → Action World ConfirmAndQueueResult
raise_priority id result =
    if same_priority result.queue_item.priority admin_priority
      || not (is_queued result.queue_item.status)
    then give result
    else do
      item ← reprioritize_queued_request (record { request_id = id; priority = admin_priority })
      give (record result { queue_item = item })

-- The input is the request's id, the one field of `ConfirmAndQueueAsAdminPriorityInput`.
unfoldable pub confirm_and_queue_as_admin_priority :
    Surroundings → String → Action World ConfirmAndQueueResult
confirm_and_queue_as_admin_priority s request_id = do
  let id = trim request_id
  raise_if (is_empty id) request_not_found "requestId is required"
  found ← reads (λ w. get_request_by_id w.requests id)
  existing ← present_or found request_not_found (about_request id "not found")
  result ← confirm_and_queue_request s (record {
    request_id = id;
    user_id = existing.snapshot.user_id;
    priority = some admin_priority;
  })
  raise_priority id result
