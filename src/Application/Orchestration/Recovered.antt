-- ===== src/Application/Orchestration/Recovered.antt =====
-- What a recovery of interrupted requests returns.
use gambling.Base.{
  suc, ◌≡◌, ◌⊎◌, refl, ap, inl, inr, String, true, false, none, some, List, [], ◌∷◌, is_empty, trim,
}
use gambling.Base.Lists.{length, All}
use gambling.Base.Action.{returned, Outcome-cases, ◌>>=◌, give, attempt, raise_if, reads}
use gambling.Domain.RequestState.{queued}
use gambling.Domain.PurchaseRequest.Request.{PurchaseRequestRecord}
use gambling.Application.World.{World, Surroundings}
use gambling.Application.Orchestration.{ConfirmAndQueueInput}
use gambling.Application.Orchestration.Confirm.{confirm_and_queue_request}
use gambling.Application.Orchestration.Confirmed.{confirm_and_queue_request_queues}
use gambling.Application.Orchestration.Recover.{
  RecoverInterruptedRequestsInput, RecoverInterruptedRequestResult, recover_one, recover_all,
  candidates_of, recover_interrupted_requests, trimmed, message_of,
}

-- A recovered request is queued; for any other there is a message.
abbrev pub IsReported : RecoverInterruptedRequestResult → Type 0
IsReported r =
    ((r.recovered ≡ true) × (r.state ≡ some queued))
    ⊎ ((r.recovered ≡ false) × ((m : String) × (r.message ≡ some m)))

module _ (s : Surroundings) (user_id : String) where
  one_returns :
      (c : PurchaseRequestRecord) (w : World)
      → (r : RecoverInterruptedRequestResult) × (v : World) × (recover_one s user_id c w
          ≡ returned r v)
        × IsReported r
        × (r.request_id ≡ c.snapshot.request_id)
  unfolding recover_one attempt ◌>>=◌ give
  one_returns c w =
      let input : ConfirmAndQueueInput = record {
        request_id = c.snapshot.request_id;
        user_id = user_id;
        priority = none;
      } in
      elim (Outcome-cases (confirm_and_queue_request s input w)) [
        | inl (r, v, h) ↦
            let queues = confirm_and_queue_request_queues s input w v r h in
            rw h (_, v, refl, inl (refl, ap some queues.0.0), refl)
        | inr (e, v, h) ↦ rw h (_, v, refl, inr (refl, (message_of e, refl)), refl)
      ]

  All-return :
      (candidates : List PurchaseRequestRecord) (w : World)
      → (results : List RecoverInterruptedRequestResult) × (v : World) × (recover_all s user_id
            candidates w
          ≡ returned results v)
        × All IsReported results
        × (length results ≡ length candidates)
  unfolding recover_all ◌>>=◌ give
  All-return [] w = ([], w, refl, tt, refl)
  All-return (c ∷ candidates) w =
      let (r, u, first, reported, _) = one_returns c w in
      let (results, v, others, all, counted) = All-return candidates u in
      (r ∷ results, v, rw first (rw others refl), (reported, all), ap suc counted)

-- Recovering the interrupted requests of a user who is named never throws: it reports on each
-- candidate, and each is queued then or has a message why not.
pub recover_interrupted_requests_returns :
    (s : Surroundings) (input : RecoverInterruptedRequestsInput) (w : World)
    → is_empty (trim input.user_id) ≡ false
    → (results : List RecoverInterruptedRequestResult) × (v : World) × (recover_interrupted_requests
          s input w
        ≡ returned results v)
      × All IsReported results
      × (length results
          ≡ length (
              candidates_of s w
                (trimmed input.request_id)
                (trim input.user_id)
                (s.platform.to_lower_case (trimmed input.lottery_code))))
unfolding recover_interrupted_requests ◌>>=◌ raise_if reads
recover_interrupted_requests_returns s input w named = rw named (
    All-return s (trim input.user_id)
      (candidates_of s w (trimmed input.request_id) (trim input.user_id)
        (s.platform.to_lower_case (trimmed input.lottery_code)))
      w)
