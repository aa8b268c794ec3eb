-- ===== src/Tests/Attempt.antt =====
-- Tests of attempts at the terminal, of the queue and of the registry.
use mathlib.Core.List.{Perm}
use gambling.Base.{
  ◌+◌, ◌<◌, ◌≡◌, ◌↔◌, ◌⊎◌, refl, not, String, true, false, some, none, List, [], ◌∷◌, ◌++◌, ok,
  integer, trim, is_space, includes,
}
use gambling.Base.Int.{ℤ, pos, ◌-ℤ◌, ◌≤ℤ◌, ltb_ℤ}
use gambling.Base.Lists.{keep}
use gambling.Base.Platform.{require_text, require_date}
use gambling.Domain.Attempt.RetryPolicy.{decide_retry_outcome}
use gambling.Domain.Attempt.TerminalAttempt.{
  NormalizeTerminalAttemptInput, NormalizedTerminalAttempt, retrying, normalize_terminal_attempt,
  normalize_terminal_attempt_times,
}
use gambling.Domain.Attempt.Queue.{
  TerminalExecutionQueueItem, regular, admin_priority, is_admin, rank_queue_for_execution,
  rank_queue_for_execution_split,
}
use gambling.Domain.Catalog.LotteryRegistry.{LotteryRegistryEntry, fixed}
use gambling.Application.TerminalRetry.{
  ResolveTerminalRetryInput, is_permanent, classify_failure_class, resolve_next_state,
  resolve_next_state_iff,
}
use gambling.Application.Store.Queue
use gambling.Application.Store.Queue.{
  PurchaseQueueItem, get_queue_item, requeue, reserve, save_queue_item,
}
use gambling.Application.TerminalRetry.Rounds.{and_then, attempts, none_yet, retried, Rounds-below}
use gambling.Tests.Engine.{engine, first_day, second_day}

abbrev retry_input : ResolveTerminalRetryInput
retry_input = record {
  attempt = integer (pos 1);
  candidate_state = retrying;
  raw_output = "timeout";
}

retry_resolved : resolve_next_state engine (integer (pos 3)) retry_input ≡ ok retrying
unfolding resolve_next_state classify_failure_class includes decide_retry_outcome
retry_resolved = refl

resolve_next_state_iff_example :
    ((retrying ≡ retrying) ↔ (
      (retrying ≡ retrying)
      × (is_permanent engine "timeout" ≡ false)
      × (ltb_ℤ (pos 1) (pos 3) ≡ true)))
    × ((retrying ≡ retrying) ⊎ (retrying ≡ retrying))
resolve_next_state_iff_example =
    resolve_next_state_iff engine (integer (pos 3)) retry_input retrying (pos 1) (pos 3) refl refl
      retry_resolved

abbrev attempt_input : NormalizeTerminalAttemptInput
attempt_input = record {
  request_id = "r1";
  attempt = integer (pos 1);
  outcome = retrying;
  started_at = first_day;
  finished_at = second_day;
  raw_output = "timeout";
}

abbrev normalized : NormalizedTerminalAttempt
normalized = record {
  request_id = "r1";
  attempt = pos 1;
  outcome = retrying;
  started_at = first_day;
  finished_at = second_day;
  raw_output = "timeout";
  duration_ms = pos 86400000;
}

attempt_normalized : normalize_terminal_attempt engine attempt_input ≡ ok normalized
unfolding normalize_terminal_attempt require_text require_date trim is_space ◌-ℤ◌
attempt_normalized = refl

normalize_terminal_attempt_times_example :
    (pos 1 ≤ℤ pos 1)
    × (pos 0 ≤ℤ pos 86400000)
    × ((started : ℤ) × (finished : ℤ) × (engine.date_parse normalized.started_at ≡ some started)
        × (engine.date_parse normalized.finished_at ≡ some finished)
        × (pos 86400000 ≡ finished -ℤ started))
normalize_terminal_attempt_times_example =
    normalize_terminal_attempt_times engine attempt_input normalized attempt_normalized

abbrev items : List TerminalExecutionQueueItem
items =
    record { request_id = "r1"; priority = regular; enqueued_at = first_day }
    ∷ record { request_id = "r2"; priority = admin_priority; enqueued_at = second_day }
    ∷ []

rank_queue_for_execution_split_example :
    Perm (rank_queue_for_execution engine items) items
    × (rank_queue_for_execution engine items
        ≡ rank_queue_for_execution engine (keep is_admin items)
          ++ rank_queue_for_execution engine (keep (λ item. not (is_admin item)) items))
rank_queue_for_execution_split_example = rank_queue_for_execution_split engine items

abbrev lottery : String → ℤ → LotteryRegistryEntry
lottery code order = record {
  lottery_code = code;
  title = "Lottery";
  enabled = true;
  display_order = order;
  form_schema_version = "v1";
  form_fields = [];
  pricing = record { strategy = fixed; base_amount_minor = integer (pos 100) };
  handlers = record { purchase_handler = "buy"; result_handler = "read" };
  purchase_completion_mode = none;
  draw_freshness_mode = none;
}

abbrev lotteries : List LotteryRegistryEntry
lotteries = lottery "b" (pos 2) ∷ lottery "a" (pos 1) ∷ []

-- an item that waits for its first attempt
abbrev waiting_item : PurchaseQueueItem
waiting_item = record {
  request_id = "r1";
  lottery_code = "lotto";
  user_id = "ann";
  draw_id = "d1";
  attempt_count = 0;
  priority = Queue.regular;
  enqueued_at = first_day;
  status = Queue.queued;
}

abbrev once : List PurchaseQueueItem
once = record waiting_item { attempt_count = 1 } ∷ []

abbrev handed_out : PurchaseQueueItem
handed_out = record waiting_item { attempt_count = 1; status = Queue.executing }

handed_out_run : reserve (waiting_item ∷ []) "r1" ≡ (some handed_out, handed_out ∷ [])
unfolding reserve get_queue_item save_queue_item trim is_space
handed_out_run = refl

back_run : (requeue (handed_out ∷ []) "r1").1 ≡ once
unfolding requeue get_queue_item save_queue_item trim is_space
back_run = refl

Rounds-below_example :
    (attempts "r1" once ≡ attempts "r1" (waiting_item ∷ []) + 1)
    × (attempts "r1" (waiting_item ∷ []) + 1 < 3)
Rounds-below_example = Rounds-below engine 3 "r1" (
    and_then none_yet (
      retried handed_out retrying "timeout" (handed_out ∷ []) handed_out_run retry_resolved
        back_run))
