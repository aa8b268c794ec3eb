-- ===== src/Application/Orchestration.antt =====
-- The purchase orchestration service
-- (packages/application/src/services/purchase-orchestration-service.ts), with the canonical purchase
-- store that the program passes to it.
pub mod Advance
pub mod Confirm
pub mod Priority
pub mod Cancel
pub mod Recover
pub mod Reserves
pub mod Outstanding
pub mod Reconcile
pub mod Counts
pub mod Throws
pub mod Confirmed
pub mod CancelThrows
pub mod Canceled
pub mod Retrying
pub mod Recovered
pub mod Prioritized
use gambling.Base.{
  ◌≡◌, refl, String, Bool, ◌||◌, Option, none, some, List, [], ◌∷◌, template, ErrorClass,
  purchase_orchestration, integer,
}
use gambling.Base.Action.{Action, give, writes}
use gambling.Domain.RequestState.{RequestState, same_state, state_text}
use gambling.Domain.PurchaseRequest.Request.{PurchaseRequestRecord, TransitionInput, clone_snapshot}
use gambling.Domain.PurchaseRequest.Journal.{clone_snapshot_copies}
use gambling.Domain.PurchaseRequest.Canonical.{CanonicalPurchaseRecord}
use gambling.Application.World.{World, Surroundings}
use gambling.Application.Store.Requests.{save_request}
use gambling.Application.Store.Queue.{PurchaseQueuePriority, PurchaseQueueItem}
use gambling.Application.WalletLedger.{WalletLedgerRequestCommandInput}
use gambling.Application.PurchaseState.{
  CanonicalTransitionInput, Updated, same, changed, save_canonical,
}

pub record ConfirmAndQueueInput : Type 0 where
  pub request_id : String
  pub user_id : String
  pub priority : Option PurchaseQueuePriority

pub record ConfirmAndQueueResult : Type 0 where
  pub request : PurchaseRequestRecord
  pub queue_item : PurchaseQueueItem
  pub replayed : Bool

pub record CancelQueuedRequestInput : Type 0 where
  pub request_id : String
  pub user_id : String

pub record CancelQueuedRequestResult : Type 0 where
  pub request : PurchaseRequestRecord
  pub replayed : Bool

-- PurchaseOrchestrationErrorCode
abbrev pub request_not_found : ErrorClass
request_not_found = purchase_orchestration "request_not_found"

abbrev pub request_user_mismatch : ErrorClass
request_user_mismatch = purchase_orchestration "request_user_mismatch"

abbrev pub request_state_invalid : ErrorClass
request_state_invalid = purchase_orchestration "request_state_invalid"

-- `request "${id}" ...`
abbrev pub about_request : String → String → String
about_request id rest = template ("request \"" ∷ id ∷ "\" " ∷ rest ∷ [])

-- the message for a request of another user
abbrev pub not_owned : String → String → String
not_owned id user = about_request id (template ("does not belong to user \"" ∷ user ∷ "\"" ∷ []))

unfoldable pub clone_record : PurchaseRequestRecord → PurchaseRequestRecord
clone_record r = record r { snapshot = clone_snapshot r.snapshot }

pub clone_record_copies : (r : PurchaseRequestRecord) → clone_record r ≡ r
unfolding clone_record
clone_record_copies r = rw (clone_snapshot_copies r.snapshot) refl

-- the last argument of a transition of a request, and of a canonical purchase
abbrev pub noted : String → String → String → TransitionInput
noted event_id now note = record { event_id = event_id; occurred_at = now; note = some note }

abbrev pub canonical_noted : String → String → String → CanonicalTransitionInput
canonical_noted event_id now note = record {
  event_id = event_id;
  occurred_at = now;
  note = some note;
  external_ticket_reference = none;
}

-- what the service hands to the wallet for a request
abbrev pub wallet_command : PurchaseRequestRecord → String → WalletLedgerRequestCommandInput
wallet_command r key = record {
  user_id = r.snapshot.user_id;
  request_id = r.snapshot.request_id;
  amount_minor = integer r.snapshot.cost_minor;
  currency = r.snapshot.currency;
  idempotency_key = key;
  ticket_id = none;
  draw_id = some r.snapshot.draw_id;
  entry_id = none;
  created_at = none;
}

abbrev pub save_record : PurchaseRequestRecord → Action World (Unit {0})
save_record r = writes λ w. record w { requests = save_request w.requests r }

-- `if (next !== purchase) await savePurchase(next)`
abbrev pub save_if_changed : Updated → Action World (Unit {0})
save_if_changed (same r) = give tt
save_if_changed (changed r) = save_canonical r
