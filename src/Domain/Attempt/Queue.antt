-- ===== src/Domain/Attempt/Queue.antt =====
-- The order in which the terminal takes the requests of its queue
-- (packages/domain/src/terminal-execution.ts).
use Prim.Native.Nat.{Ordering, compare}
use mathlib.Core.List.{Perm}
use gambling.Base.{ℕ, ◌≡◌, String, Bool, true, false, not, List, ◌++◌, arith}
use gambling.Base.Lists.{keep}
use gambling.Base.Sort.{is_after, sort, sort-perm, or_next}
use gambling.Base.Sort.Split.{sort-split}
use gambling.Base.Platform.{Platform}

pub data TerminalExecutionPriority : Type 0 where
  regular admin_priority : TerminalExecutionPriority

pub record TerminalExecutionQueueItem : Type 0 where
  pub request_id : String
  pub priority : TerminalExecutionPriority
  pub enqueued_at : String

abbrev pub priority_rank : TerminalExecutionPriority → ℕ
priority_rank admin_priority = 0
priority_rank regular = 1

unfoldable pub compare_queue_items :
    Platform → TerminalExecutionQueueItem → TerminalExecutionQueueItem → Ordering
compare_queue_items p left right =
    or_next (compare (priority_rank left.priority) (priority_rank right.priority)) (
      or_next (p.locale_compare left.enqueued_at right.enqueued_at)
        (p.locale_compare left.request_id right.request_id))

unfoldable pub rank_queue_for_execution :
    Platform → List TerminalExecutionQueueItem → List TerminalExecutionQueueItem
unfolding sort
rank_queue_for_execution p items = sort (compare_queue_items p) items

abbrev is_admin_priority : TerminalExecutionPriority → Bool
is_admin_priority admin_priority = true
is_admin_priority regular = false

abbrev pub is_admin : TerminalExecutionQueueItem → Bool
is_admin item = is_admin_priority item.priority

admin_front :
    (p : Platform) (x y : TerminalExecutionQueueItem)
    → is_admin x ≡ true
    → is_admin y ≡ false
    → is_after (compare_queue_items p x y) ≡ false
unfolding compare_queue_items
admin_front p x y h k = ground arith

admin_back :
    (p : Platform) (x y : TerminalExecutionQueueItem)
    → is_admin x ≡ false
    → is_admin y ≡ true
    → is_after (compare_queue_items p x y) ≡ true
unfolding compare_queue_items
admin_back p x y h k = ground arith

-- The ranked queue holds the items of the queue, and in it all the items with admin priority, ranked
-- among themselves, come before all the regular ones, ranked among themselves.
pub rank_queue_for_execution_split :
    (p : Platform) (items : List TerminalExecutionQueueItem)
    → Perm (rank_queue_for_execution p items) items
      × (rank_queue_for_execution p items
          ≡ rank_queue_for_execution p (keep is_admin items)
            ++ rank_queue_for_execution p (keep (λ item. not (is_admin item)) items))
unfolding rank_queue_for_execution
rank_queue_for_execution_split p items = (
  sort-perm (compare_queue_items p) items,
  sort-split (compare_queue_items p) is_admin (admin_front p) (admin_back p) items,
)
