-- ===== src/Tests/Orders.antt =====
-- Tests of the purchase orchestration service and of the stores behind it.
use gambling.Domain.PurchaseRequest.Canonical.{
  append_canonical_purchase_transition, clone_canonical_snapshot,
  create_submitted_canonical_purchase, should_set_purchased_at,
}
use gambling.Domain.Ledger.Balance.{
  apply_all, apply_ledger_entry, build_balance_snapshot, compare_entries, create_balance_snapshot,
  move_balance, movement, normalize_all, resolve_ledger_movement_delta, sort_ledger_entries,
}
use gambling.Application.Store.Purchases.{
  get_purchase_by_id, get_purchase_by_legacy_request_id, save_purchase, list_purchases,
}
use gambling.Application.PurchaseState.{
  ensure_canonical_purchase_for_request, load_canonical_purchase_for_request,
  queue_canonical_purchase,
}
use gambling.Application.Orchestration.Advance.{advance}
use gambling.Application.LedgerStore.{append_entry, list_entries_by_user, normalize_entries}
use gambling.Application.WalletLedger.{
  record_entry, normalize_user_id, build_entry, assert_replay_matches, is_same_reference,
  list_user_entries, record_new, replay,
}
use gambling.Application.WalletLedger.Commands.{
  reserve_funds, build_request_reference, request_record, debit_reserved_funds,
}
use gambling.Application.Store.Requests.{get_request_by_id, save_request, list_requests}
use gambling.Base.{
  ◌≡◌, ◌≢◌, ◌==◌, eq_iff, sym, refl, String, true, false, none, some, List, [], ◌∷◌, integer, ok,
  Error, thrown, trim, is_empty, is_space, template, is_currency, trim_option,
}
use gambling.Base.Int.{pos, ◌+ℤ◌, ◌-ℤ◌}
use gambling.Base.Sort.{sort, insert}
use gambling.Base.Platform.{require_text, require_date, iso_string}
use gambling.Base.Action.{
  returned, threw, stores_after, ◌>>=◌, raise_if, reads, present_or, lift, give, writes,
}
use gambling.Domain.RequestState.{
  RequestState, apply_canonical_purchase_status_transition, apply_request_state_transition,
  can_transition_canonical_purchase_status, can_transition_request_state,
  canonical_purchase_transitions, request_transitions,
}
use gambling.Domain.PurchaseDraft.Payload.{end, clone_purchase_draft_payload}
use gambling.Domain.PurchaseRequest.Request.{
  PurchaseRequestRecord, PurchaseRequestJournalEntry, append_purchase_request_transition,
  clone_snapshot,
}
use gambling.Domain.Ledger.Entry.{
  LedgerEntry, LedgerOperationType, credit, reserve, normalize_ledger_entry, normalize_amount_minor,
  normalize_currency, check_reference, normalize_ledger_reference, normalize_iso_timestamp,
  has_ledger_reference, normalize_non_negative_minor, requires_admin_adjustment_reference,
  requires_request_reference,
}
use gambling.Application.World.{World, Surroundings, on_wallet}
use gambling.Application.Store.Queue.{
  PurchaseQueueItem, regular, queued, get_queue_item, save_queue_item, list_queue_items,
}
use gambling.Application.Orchestration.{ConfirmAndQueueInput, ConfirmAndQueueResult, clone_record}
use gambling.Application.Orchestration.Confirm.{
  confirm_and_queue_request, confirm_existing, replay_confirmation, save_confirmation,
}
use gambling.Application.Orchestration.Confirmed.{confirm_and_queue_request_queues, IsQueued}
use gambling.Domain.RequestState.{assert_cancelable_request_state}
use gambling.Application.Store.Queue.{admin_priority}
use gambling.Application.Orchestration.{CancelQueuedRequestInput, CancelQueuedRequestResult}
use gambling.Application.Orchestration.Confirmed.{IsReserved}
use gambling.Application.Orchestration.Throws.{orders, confirm_and_queue_request_throws}
use gambling.Application.Orchestration.Cancel.{cancel_queued_request}
use gambling.Application.Orchestration.Canceled.{
  IsCanceled, IsReleased, cancel_queued_request_releases,
}
use gambling.Application.Orchestration.CancelThrows.{cancel_queued_request_throws}
use gambling.Application.Orchestration.Retrying.{cancel_retrying_throws}
use gambling.Application.Orchestration.Recover.{
  RecoverInterruptedRequestsInput, RecoverInterruptedRequestResult, recover_interrupted_requests,
  candidates_of,
}
use gambling.Application.Orchestration.Recovered.{IsReported, recover_interrupted_requests_returns}
use gambling.Application.Orchestration.Priority.{confirm_and_queue_as_admin_priority}
use gambling.Application.Orchestration.Prioritized.{
  IsFirst, confirm_and_queue_as_admin_priority-IsFirst,
}
use gambling.Base.Lists.{All, length}
use gambling.Base.{◌⊎◌, purchase_orchestration, ledger_validation}
use gambling.Domain.RequestState.{can_cancel_request_state}
use gambling.Application.Store.Queue.{complete, remove_queue_item}
use gambling.Application.WalletLedger.Commands.{release_reserved_funds}
use gambling.Application.PurchaseState.{mark_canonical_purchase_canceled}
use gambling.Application.Orchestration.Cancel.{
  cancel_existing, cancel_open, finish_canceled, release_canceled, save_cancellation,
}
use gambling.Application.Orchestration.Priority.{reprioritize_queued_request}
use gambling.Application.Store.Queue.Map
use gambling.Application.Store.Queue.Map.{
  QueueCall, enqueueing, reserving, completing, view, run_abstract, run_refines,
}
use gambling.Application.Store.Lock
use gambling.Application.Store.Lock.{
  LockCall, acquiring, releasing, acquire, normalize_owner_id, held-excludes,
}
use gambling.Domain.Ledger.Entry.{debit}
use gambling.Base.Lists.{keep}
use gambling.Application.Orchestration.Reserves.{
  add_to_groups, group_entries, collect_pending_reserve_groups,
}
use gambling.Application.Orchestration.Outstanding.{held, outstanding, held-outstanding}
use gambling.Application.Orchestration.Reconcile.{
  ReconcileDetachedReservesInput, ReconcileDetachedReservesResult, is_of_lottery,
  reconcile_detached_reserves, debit_group, is_reserve_release_transition_allowed, release_group,
  settle_group, settle_groups, should_debit_detached_reserve,
}
use gambling.Application.Orchestration.Counts.{
  handled, snapshot_of, reconcile_detached_reserves_counts,
}
use gambling.Application.Orchestration.Recover.{trimmed}
use gambling.Tests.Engine.{engine, first_day}

abbrev pub sur : Surroundings
sur = record { platform = engine; now = first_day; entry_id = λ key. key }

abbrev pub request : RequestState → List PurchaseRequestJournalEntry → PurchaseRequestRecord
request state journal = record {
  snapshot = record {
    request_id = "r1";
    user_id = "ann";
    lottery_code = "lotto";
    draw_id = "d1";
    payload = end;
    cost_minor = pos 60;
    currency = "RUB";
    created_at = first_day;
  };
  state = state;
  journal = journal;
}

abbrev pub entry : LedgerOperationType → LedgerEntry
entry operation = record {
  entry_id = "e1";
  user_id = "ann";
  operation = operation;
  amount_minor = integer (pos 60);
  currency = "RUB";
  idempotency_key = "k1";
  reference = record {
    purchase_id = none;
    request_id = some "r0";
    ticket_id = none;
    draw_id = none;
    admin_adjustment_id = none;
  };
  created_at = first_day;
}

abbrev pub empty_world : World
empty_world = record {
  requests = [];
  queue = [];
  purchases = [];
  attempts = [];
  lock = none;
  tickets = [];
  cash_desk = [];
  jobs = [];
  notifications = [];
  draws = [];
  closures = [];
  entries = [];
}

-- a request that waits for confirmation, and the funds for it
abbrev pub waiting : World
waiting = record empty_world {
  requests = request RequestState.awaiting_confirmation [] ∷ [];
  entries = entry credit ∷ [];
}

abbrev pub order : ConfirmAndQueueInput
order = record { request_id = "r1"; user_id = "ann"; priority = none }

abbrev pub journal_entry :
    String → RequestState → RequestState → String → PurchaseRequestJournalEntry
journal_entry id from to note = record {
  event_id = id;
  from_state = from;
  to_state = to;
  occurred_at = first_day;
  note = some note;
}

abbrev pub confirmed : ConfirmAndQueueResult
confirmed = record {
  request = request RequestState.queued (
      journal_entry "r1:confirmed" RequestState.awaiting_confirmation RequestState.confirmed
        "request confirmed for queueing"
      ∷ journal_entry "r1:queued" RequestState.confirmed RequestState.queued
          "request inserted into purchase queue"
      ∷ []);
  queue_item = record {
    request_id = "r1";
    lottery_code = "lotto";
    user_id = "ann";
    draw_id = "d1";
    attempt_count = 0;
    priority = regular;
    enqueued_at = first_day;
    status = queued;
  };
  replayed = false;
}

abbrev pub after_confirm : World
after_confirm = stores_after (confirm_and_queue_request sur order waiting)

pub confirm_run : confirm_and_queue_request sur order waiting ≡ returned confirmed after_confirm
unfolding confirm_and_queue_request confirm_existing ◌>>=◌ raise_if reads present_or lift give
    writes on_wallet trim is_space template get_request_by_id get_queue_item reserve_funds
    build_request_reference record_entry normalize_user_id require_text request_record build_entry
    normalize_ledger_entry trim_option normalize_amount_minor normalize_currency is_currency
    check_reference normalize_ledger_reference normalize_iso_timestamp append_entry
    list_entries_by_user normalize_entries advance replay_confirmation save_confirmation
    clone_record ensure_canonical_purchase_for_request load_canonical_purchase_for_request
    queue_canonical_purchase get_purchase_by_id get_purchase_by_legacy_request_id save_purchase
    save_queue_item save_request assert_replay_matches is_same_reference list_user_entries
    record_new replay ◌+ℤ◌ iso_string require_date insert sort apply_all apply_ledger_entry
    build_balance_snapshot compare_entries create_balance_snapshot move_balance movement
    normalize_all resolve_ledger_movement_delta sort_ledger_entries has_ledger_reference
    normalize_non_negative_minor requires_admin_adjustment_reference requires_request_reference
    clone_purchase_draft_payload append_canonical_purchase_transition clone_canonical_snapshot
    create_submitted_canonical_purchase should_set_purchased_at append_purchase_request_transition
    clone_snapshot apply_canonical_purchase_status_transition apply_request_state_transition
    can_transition_canonical_purchase_status can_transition_request_state
    canonical_purchase_transitions request_transitions
confirm_run = refl

confirm_and_queue_request_queues_example :
    IsQueued sur (trim "r1") confirmed after_confirm
    × ((x : PurchaseRequestRecord) × (get_request_by_id waiting.requests (trim "r1") ≡ some x)
        × (x.snapshot.user_id ≡ trim "ann")
        × (confirmed.request.snapshot ≡ x.snapshot)
        × (IsReserved sur x waiting.entries after_confirm.entries
            ⊎ ((confirmed.replayed ≡ true)
                × (orders after_confirm ≡ orders waiting)
                × (after_confirm.entries ≡ waiting.entries))))
confirm_and_queue_request_queues_example =
    confirm_and_queue_request_queues sur order waiting after_confirm confirmed confirm_run

-- the wallet is empty
abbrev poor : World
poor = record waiting { entries = [] }

abbrev no_funds : Error
no_funds =
    thrown ledger_validation
      "operation \"reserve\" would result in negative available balance for user \"ann\""

abbrev after_refusal : World
after_refusal = stores_after (confirm_and_queue_request sur order poor)

refused_run : confirm_and_queue_request sur order poor ≡ threw no_funds after_refusal
unfolding confirm_and_queue_request confirm_existing ◌>>=◌ raise_if reads present_or lift give
    writes on_wallet trim is_space template get_request_by_id get_queue_item reserve_funds
    build_request_reference record_entry normalize_user_id require_text request_record build_entry
    normalize_ledger_entry trim_option normalize_amount_minor normalize_currency is_currency
    check_reference normalize_ledger_reference normalize_iso_timestamp append_entry
    list_entries_by_user normalize_entries advance replay_confirmation save_confirmation
    clone_record ensure_canonical_purchase_for_request load_canonical_purchase_for_request
    queue_canonical_purchase get_purchase_by_id get_purchase_by_legacy_request_id save_purchase
    save_queue_item save_request assert_replay_matches is_same_reference list_user_entries
    record_new replay ◌+ℤ◌ iso_string require_date insert sort apply_all apply_ledger_entry
    build_balance_snapshot compare_entries create_balance_snapshot move_balance movement
    normalize_all resolve_ledger_movement_delta sort_ledger_entries has_ledger_reference
    normalize_non_negative_minor requires_admin_adjustment_reference requires_request_reference
    clone_purchase_draft_payload append_canonical_purchase_transition clone_canonical_snapshot
    create_submitted_canonical_purchase should_set_purchased_at append_purchase_request_transition
    clone_snapshot apply_canonical_purchase_status_transition apply_request_state_transition
    can_transition_canonical_purchase_status can_transition_request_state
    canonical_purchase_transitions request_transitions
refused_run = refl

confirm_and_queue_request_throws_example :
    (after_refusal.requests ≡ poor.requests) × (after_refusal.queue ≡ poor.queue)
confirm_and_queue_request_throws_example =
    confirm_and_queue_request_throws sur order poor after_refusal no_funds refused_run

abbrev withdrawal : CancelQueuedRequestInput
withdrawal = record { request_id = "r1"; user_id = "ann" }

abbrev canceled : CancelQueuedRequestResult
canceled = record {
  request = record confirmed.request {
    state = RequestState.reserve_released;
    journal =
        journal_entry "r1:confirmed" RequestState.awaiting_confirmation RequestState.confirmed
          "request confirmed for queueing"
        ∷ journal_entry "r1:queued" RequestState.confirmed RequestState.queued
            "request inserted into purchase queue"
        ∷ journal_entry "r1:canceled" RequestState.queued RequestState.canceled
            "request canceled before terminal execution"
        ∷ journal_entry "r1:reserve_released" RequestState.canceled RequestState.reserve_released
            "reserve released after cancellation"
        ∷ [];
  };
  replayed = false;
}

abbrev after_cancel : World
after_cancel = stores_after (cancel_queued_request sur withdrawal after_confirm)

cancel_run : cancel_queued_request sur withdrawal after_confirm ≡ returned canceled after_cancel
unfolding confirm_and_queue_request confirm_existing ◌>>=◌ raise_if reads present_or lift give
    writes on_wallet trim is_space template get_request_by_id get_queue_item reserve_funds
    build_request_reference record_entry normalize_user_id require_text request_record build_entry
    normalize_ledger_entry trim_option normalize_amount_minor normalize_currency is_currency
    check_reference normalize_ledger_reference normalize_iso_timestamp append_entry
    list_entries_by_user normalize_entries advance replay_confirmation save_confirmation
    clone_record ensure_canonical_purchase_for_request load_canonical_purchase_for_request
    queue_canonical_purchase get_purchase_by_id get_purchase_by_legacy_request_id save_purchase
    save_queue_item save_request assert_replay_matches is_same_reference list_user_entries
    record_new replay ◌+ℤ◌ iso_string require_date insert sort apply_all apply_ledger_entry
    build_balance_snapshot compare_entries create_balance_snapshot move_balance movement
    normalize_all resolve_ledger_movement_delta sort_ledger_entries has_ledger_reference
    normalize_non_negative_minor requires_admin_adjustment_reference requires_request_reference
    clone_purchase_draft_payload append_canonical_purchase_transition clone_canonical_snapshot
    create_submitted_canonical_purchase should_set_purchased_at append_purchase_request_transition
    clone_snapshot apply_canonical_purchase_status_transition apply_request_state_transition
    can_transition_canonical_purchase_status can_transition_request_state
    canonical_purchase_transitions request_transitions cancel_queued_request cancel_existing
    cancel_open finish_canceled release_canceled save_cancellation mark_canonical_purchase_canceled
    assert_cancelable_request_state can_cancel_request_state complete remove_queue_item
    release_reserved_funds
cancel_run = refl

cancel_queued_request_releases_example :
    IsCanceled sur (trim "r1") canceled.request after_cancel
    × ((x : PurchaseRequestRecord) × (get_request_by_id after_confirm.requests (trim "r1") ≡ some x)
        × (x.snapshot.user_id ≡ trim "ann")
        × (canceled.request.snapshot ≡ x.snapshot)
        × (IsReleased sur x after_confirm.entries after_cancel.entries
            ⊎ ((canceled.replayed ≡ true)
                × (after_cancel.requests ≡ after_confirm.requests)
                × (after_cancel.entries ≡ after_confirm.entries))))
cancel_queued_request_releases_example =
    cancel_queued_request_releases sur withdrawal after_confirm after_cancel canceled cancel_run

abbrev not_queued : Error
not_queued =
    thrown (purchase_orchestration "request_state_invalid")
      "request \"r1\" cannot be canceled from state \"awaiting_confirmation\""

abbrev after_early : World
after_early = stores_after (cancel_queued_request sur withdrawal waiting)

early_run : cancel_queued_request sur withdrawal waiting ≡ threw not_queued after_early
unfolding cancel_queued_request cancel_existing cancel_open ◌>>=◌ raise_if trim is_space reads
    present_or lift template get_request_by_id ensure_canonical_purchase_for_request
    load_canonical_purchase_for_request get_purchase_by_id get_purchase_by_legacy_request_id
    create_submitted_canonical_purchase require_text require_date save_purchase writes give
    clone_purchase_draft_payload trim_option assert_cancelable_request_state
    can_cancel_request_state
early_run = refl

cancel_queued_request_throws_example :
    (after_early.requests ≡ waiting.requests) × (after_early.queue ≡ waiting.queue)
cancel_queued_request_throws_example =
    cancel_queued_request_throws sur withdrawal waiting after_early not_queued early_run

abbrev retried : World
retried = record empty_world { requests = request RequestState.retrying [] ∷ [] }

retried_there :
    get_request_by_id retried.requests (trim "r1") ≡ some (request RequestState.retrying [])
unfolding get_request_by_id trim is_space
retried_there = refl

cancel_retrying_throws_example :
    (assert_cancelable_request_state RequestState.retrying ≡ ok tt)
    × ((e : Error) × (v : World) × (cancel_queued_request sur withdrawal retried ≡ threw e v)
        × (v.requests ≡ retried.requests)
        × (v.queue ≡ retried.queue))
cancel_retrying_throws_example =
    cancel_retrying_throws sur withdrawal retried (request RequestState.retrying []) retried_there
      refl

abbrev recovery : RecoverInterruptedRequestsInput
recovery = record { user_id = "ann"; lottery_code = none; request_id = none }

ann_named : is_empty (trim "ann") ≡ false
unfolding trim is_space
ann_named = refl

recover_interrupted_requests_returns_example :
    (results : List RecoverInterruptedRequestResult) × (v : World) × (recover_interrupted_requests
        sur recovery waiting
      ≡ returned results v)
    × All IsReported results
    × (length results ≡ length (candidates_of sur waiting "" (trim "ann") ""))
recover_interrupted_requests_returns_example =
    recover_interrupted_requests_returns sur recovery waiting ann_named

abbrev first : ConfirmAndQueueResult
first = record confirmed { queue_item = record confirmed.queue_item { priority = admin_priority } }

abbrev after_first : World
after_first = stores_after (confirm_and_queue_as_admin_priority sur "r1" waiting)

first_run : confirm_and_queue_as_admin_priority sur "r1" waiting ≡ returned first after_first
unfolding confirm_and_queue_request confirm_existing ◌>>=◌ raise_if reads present_or lift give
    writes on_wallet trim is_space template get_request_by_id get_queue_item reserve_funds
    build_request_reference record_entry normalize_user_id require_text request_record build_entry
    normalize_ledger_entry trim_option normalize_amount_minor normalize_currency is_currency
    check_reference normalize_ledger_reference normalize_iso_timestamp append_entry
    list_entries_by_user normalize_entries advance replay_confirmation save_confirmation
    clone_record ensure_canonical_purchase_for_request load_canonical_purchase_for_request
    queue_canonical_purchase get_purchase_by_id get_purchase_by_legacy_request_id save_purchase
    save_queue_item save_request assert_replay_matches is_same_reference list_user_entries
    record_new replay ◌+ℤ◌ iso_string require_date insert sort apply_all apply_ledger_entry
    build_balance_snapshot compare_entries create_balance_snapshot move_balance movement
    normalize_all resolve_ledger_movement_delta sort_ledger_entries has_ledger_reference
    normalize_non_negative_minor requires_admin_adjustment_reference requires_request_reference
    clone_purchase_draft_payload append_canonical_purchase_transition clone_canonical_snapshot
    create_submitted_canonical_purchase should_set_purchased_at append_purchase_request_transition
    clone_snapshot apply_canonical_purchase_status_transition apply_request_state_transition
    can_transition_canonical_purchase_status can_transition_request_state
    canonical_purchase_transitions request_transitions confirm_and_queue_as_admin_priority
    reprioritize_queued_request
first_run = refl

confirm_and_queue_as_admin_priority-IsFirst_example :
    IsQueued sur (trim "r1") first after_first × IsFirst first.queue_item
confirm_and_queue_as_admin_priority-IsFirst_example =
    confirm_and_queue_as_admin_priority-IsFirst sur "r1" waiting after_first first first_run

abbrev item : PurchaseQueueItem
item = confirmed.queue_item

abbrev calls : List QueueCall
calls = enqueueing item ∷ reserving "r1" ∷ reserving "r1" ∷ completing "r1" ∷ []

run_refines_example : view (Map.run calls []) ≡ run_abstract calls (view [])
run_refines_example = run_refines calls []

abbrev lock_calls : List LockCall
lock_calls = acquiring "w2" ∷ releasing "w2" ∷ []

w2_owner : normalize_owner_id "w2" ≡ ok "w2"
unfolding trim is_space require_text
w2_owner = refl

w2_other : ◌≢◌ {A = String} "w2" "w1"
w2_other e = let same : true ≡ ("w2" == "w1") = sym ((eq_iff "w2" "w1").1 e) in absurd cc

w2_trimmed : trim "w2" ≢ "w1"
unfolding trim is_space
w2_trimmed = w2_other

held-excludes_example :
    (Lock.run lock_calls (some "w1") ≡ some "w1")
    × (acquire (Lock.run lock_calls (some "w1")) "w2" ≡ ok (false, some "w1"))
held-excludes_example =
    held-excludes lock_calls "w1" "w2" "w2" (w2_trimmed, (w2_trimmed, tt)) w2_owner w2_other

held-outstanding_example :
    held (group_entries "RUB" [] (entry reserve ∷ entry debit ∷ [])) "RUB:r0"
    ≡ outstanding "RUB" "RUB:r0" (entry reserve ∷ entry debit ∷ [])
held-outstanding_example = held-outstanding "RUB" "RUB:r0" (entry reserve ∷ entry debit ∷ [])

-- a reserve that no request stands for
abbrev detached : World
detached = record empty_world {
  entries = entry credit ∷ record (entry reserve) { entry_id = "e2"; idempotency_key = "k2" } ∷ [];
}

abbrev reconciliation : ReconcileDetachedReservesInput
reconciliation = record { user_id = "ann"; lottery_code = none; currency = none }

abbrev counts : ReconcileDetachedReservesResult
counts = record { debited_requests = 0; released_requests = 1; skipped_active_requests = 0 }

abbrev after_reconcile : World
after_reconcile = stores_after (reconcile_detached_reserves sur reconciliation detached)

reconcile_run :
    reconcile_detached_reserves sur reconciliation detached ≡ returned counts after_reconcile
unfolding reconcile_detached_reserves ◌>>=◌ raise_if trim is_space reads lift list_user_entries
    normalize_user_id require_text sort_ledger_entries normalize_all normalize_ledger_entry
    normalize_amount_minor normalize_currency is_currency check_reference normalize_ledger_reference
    append_entry list_entries_by_user normalize_entries debit_group
    is_reserve_release_transition_allowed release_group settle_group settle_groups
    should_debit_detached_reserve add_to_groups collect_pending_reserve_groups group_entries
    list_purchases list_queue_items list_requests save_request build_request_reference
    debit_reserved_funds release_reserved_funds request_record assert_replay_matches build_entry
    is_same_reference record_entry record_new replay on_wallet give writes ◌+ℤ◌ ◌-ℤ◌ iso_string
    require_date insert sort template trim_option apply_all apply_ledger_entry
    build_balance_snapshot compare_entries create_balance_snapshot move_balance movement
    resolve_ledger_movement_delta has_ledger_reference normalize_iso_timestamp
    normalize_non_negative_minor requires_admin_adjustment_reference requires_request_reference
    clone_purchase_draft_payload append_purchase_request_transition clone_snapshot
    apply_request_state_transition can_transition_request_state request_transitions
reconcile_run = refl

reconcile_detached_reserves_counts_example :
    (entries : List LedgerEntry) × (list_user_entries sur.platform detached.entries (trim "ann")
      ≡ ok entries)
    × (handled counts
        ≡ length (
            keep
              (is_of_lottery sur
                (trim "ann")
                (engine.to_lower_case (trimmed none))
                (snapshot_of sur detached))
              (collect_pending_reserve_groups entries (engine.to_upper_case (trimmed none)))))
reconcile_detached_reserves_counts_example =
    reconcile_detached_reserves_counts sur reconciliation detached after_reconcile counts
      reconcile_run
