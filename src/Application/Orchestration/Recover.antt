-- ===== src/Application/Orchestration/Recover.antt =====
-- `recoverInterruptedRequests`: the requests of a user that wait for confirmation are confirmed.
use gambling.Base.{
  String, Bool, true, false, not, ◌&&◌, ◌||◌, Option, none, some, List, [], ◌∷◌, ◌==◌,
  if◌then◌else◌, is_empty, trim, Error, thrown,
}
use gambling.Base.Lists.{keep}
use gambling.Base.Action.{Action, give, raise_if, reads, attempt, ◌>>=◌, ◌>>◌}
use gambling.Base.Platform.{Platform}
use gambling.Domain.RequestState.{RequestState, awaiting_confirmation, confirmed, same_state}
use gambling.Domain.PurchaseRequest.Request.{PurchaseRequestRecord}
use gambling.Application.World.{World, Surroundings}
use gambling.Application.Store.Requests.{list_requests, get_request_by_id}
use gambling.Application.Orchestration.{request_user_mismatch}
use gambling.Application.Orchestration.Confirm.{confirm_and_queue_request}

pub record RecoverInterruptedRequestsInput : Type 0 where
  pub user_id : String
  pub lottery_code : Option String
  pub request_id : Option String

pub record RecoverInterruptedRequestResult : Type 0 where
  pub request_id : String
  pub recovered : Bool
  pub replayed : Bool
  pub state : Option RequestState
  pub message : Option String

unfoldable pub is_recoverable_request_state : RequestState → Bool
is_recoverable_request_state s = same_state s awaiting_confirmation || same_state s confirmed

-- the request is the user's, and of the lottery unless its code is empty
abbrev is_wanted : String → String → PurchaseRequestRecord → Bool
is_wanted user_id code r =
    r.snapshot.user_id == user_id && (is_empty code || r.snapshot.lottery_code == code)

unfoldable pub list_recoverable_requests :
    Platform → World → String → String → List PurchaseRequestRecord
list_recoverable_requests p w user_id code =
    keep (λ r. is_wanted user_id code r && is_recoverable_request_state r.state)
      (list_requests p w.requests)

abbrev recoverable_of : Option PurchaseRequestRecord → String → String → List PurchaseRequestRecord
recoverable_of none user_id code = []
recoverable_of (some r) user_id code =
    if not (r.snapshot.user_id == user_id)
    then []
    else if not (is_empty code) && not (r.snapshot.lottery_code == code)
    then []
    else if is_recoverable_request_state r.state
    then r ∷ []
    else []

unfoldable pub list_recoverable_requests_by_id :
    World → String → String → String → List PurchaseRequestRecord
list_recoverable_requests_by_id w id user_id code =
    recoverable_of (get_request_by_id w.requests id) user_id code

abbrev pub message_of : Error → String
message_of (thrown c m) = m

-- `input.value?.trim() ?? ""`
abbrev pub trimmed : Option String → String
trimmed none = ""
trimmed (some s) = trim s

module _ (s : Surroundings) where
  -- one pass of the loop, whose `catch` turns an error into a result
  unfoldable pub recover_one :
      String → PurchaseRequestRecord → Action World RecoverInterruptedRequestResult
  recover_one user_id candidate =
      attempt
        (do
          done ← confirm_and_queue_request s (record {
            request_id = candidate.snapshot.request_id;
            user_id = user_id;
            priority = none;
          })
          give (record {
            request_id = candidate.snapshot.request_id;
            recovered = true;
            replayed = done.replayed;
            state = some done.request.state;
            message = none;
          }))
        (λ e. give (record {
          request_id = candidate.snapshot.request_id;
          recovered = false;
          replayed = false;
          state = some candidate.state;
          message = some (message_of e);
        }))

  unfoldable pub recover_all :
      String → List PurchaseRequestRecord → Action World (List RecoverInterruptedRequestResult)
  recover_all user_id [] = give []
  recover_all user_id (candidate ∷ candidates) = do
    result ← recover_one user_id candidate
    results ← recover_all user_id candidates
    give (result ∷ results)

  abbrev pub candidates_of : World → String → String → String → List PurchaseRequestRecord
  candidates_of w id user_id code =
      if is_empty id
      then list_recoverable_requests s.platform w user_id code
      else list_recoverable_requests_by_id w id user_id code

  unfoldable pub recover_interrupted_requests :
      RecoverInterruptedRequestsInput → Action World (List RecoverInterruptedRequestResult)
  recover_interrupted_requests input = do
    let user_id = trim input.user_id
    raise_if (is_empty user_id) request_user_mismatch "userId is required"
    let id = trimmed input.request_id
    let code = s.platform.to_lower_case (trimmed input.lottery_code)
    candidates ← reads (λ w. candidates_of w id user_id code)
    recover_all user_id candidates
