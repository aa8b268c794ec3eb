-- ===== src/Application/Winnings/OnePath.antt =====
-- The fulfillment service pays a winning ticket along one path.
use gambling.Base.{◌≡◌, refl, ◌∙◌, ap, ◌||◌, Bool, false, Option, none, some, [], ◌∷◌, ◌==◌, trim}
use gambling.Base.Keyed.{find-eq_none, find-keep_append, ==-sym}
use gambling.Base.Lists.{All}
use gambling.Base.Sort.Select.{All-keep, All-append}
use gambling.Base.Action.{returned}
use gambling.Base.Action.Returns.{split_call, split_guard, split_read, split_give, split_write}
use gambling.Domain.Winnings.CashDesk.{
  WinningsCreditJob, CashDeskRequest, create_winnings_credit_job, create_cash_desk_request,
}
use gambling.Application.World.{World, Surroundings}
use gambling.Application.Store.Jobs.{Jobs, get_job_by_ticket_id, save_job}
use gambling.Application.Store.CashDesk.{
  CashDeskRequests, get_cash_desk_request_by_ticket_id, save_cash_desk_request,
}
use gambling.Application.Winnings.Credit.{new_job, enqueue_new_job, enqueue_credit_job}
use gambling.Application.Winnings.Desk.{new_request, create_new_desk_request, create_desk_request}
use gambling.Application.Winnings.Fulfillment.{
  FulfillmentInput, WinningFulfillmentTarget, enqueue_unless_desk, enqueue_for_target,
  enqueue_credit_for_request, create_unless_credit, create_for_target,
  create_cash_desk_request_for_request, is_present, credit_input, desk_input,
}
use gambling.Application.Winnings.Claims.{
  HasTrimmedIds, credit-Claims, desk-Claims, resolve-IsTrimmed,
}

-- No ticket has a job and a cash desk request.
abbrev pub IsExclusive : Jobs → CashDeskRequests → Type 0
IsExclusive jobs desk =
    All (λ job. get_cash_desk_request_by_ticket_id desk job.ticket_id ≡ none) jobs

abbrev pub IsFair : World → Type 0
IsFair w = IsExclusive w.jobs w.cash_desk × HasTrimmedIds w.tickets

-- A new job for a ticket without a cash desk request keeps the paths apart.
save_job-IsExclusive :
    (jobs : Jobs) (desk : CashDeskRequests) (job : WinningsCreditJob)
    → IsExclusive jobs desk
    → get_cash_desk_request_by_ticket_id desk job.ticket_id ≡ none
    → IsExclusive (save_job jobs job) desk
unfolding save_job
save_job-IsExclusive jobs desk job h free =
    All-append _ _ (job ∷ []) (All-keep _ _ jobs h) (free, tt)

-- A new cash desk request for a ticket without a job keeps the paths apart.
save_desk-IsExclusive :
    (jobs : Jobs) (desk : CashDeskRequests) (r : CashDeskRequest)
    → IsExclusive jobs desk
    → All (λ job. (job.ticket_id == r.ticket_id) ≡ false) jobs
    → IsExclusive jobs (save_cash_desk_request desk r)
unfolding get_cash_desk_request_by_ticket_id save_cash_desk_request
save_desk-IsExclusive [] desk r h free = tt
save_desk-IsExclusive (job ∷ jobs) desk r h free = (
  find-keep_append _ _ desk r h.0 (==-sym job.ticket_id r.ticket_id free.0),
  save_desk-IsExclusive jobs desk r h.1 free.1,
)

absent :
    {A : Type 0} (found : Option A) (legacy : Bool)
    → (is_present found || legacy) ≡ false
    → found ≡ none
absent none legacy h = refl
absent (some a) legacy h = absurd cc

module _ (s : Surroundings) where
  new_job_ticket :
      (t : WinningFulfillmentTarget) → (new_job s (credit_input s t)).ticket_id ≡ trim t.ticket_id
  unfolding create_winnings_credit_job
  new_job_ticket t = refl

  new_request_ticket :
      (t : WinningFulfillmentTarget) → (new_request s (desk_input s t)).ticket_id ≡ trim t.ticket_id
  unfolding create_cash_desk_request
  new_request_ticket t = refl

  enqueue_new-IsFair :
      (t : WinningFulfillmentTarget) (w v : World) (job : WinningsCreditJob)
      → IsFair w
      → trim t.ticket_id ≡ t.ticket_id
      → get_cash_desk_request_by_ticket_id w.cash_desk t.ticket_id ≡ none
      → enqueue_new_job s (credit_input s t) w ≡ returned job v
      → IsFair v
  unfolding enqueue_new_job
  enqueue_new-IsFair t w v job fair trimmed free e = split_call _ _ e λ _ u claim e1.
      split_write _ _ e1 λ e2.
        let (apart, ids) = credit-Claims w t.ticket_id fair.1 _ u claim in
        let jobs_kept = ap (λ o. o.0) apart in
        let desk_kept = ap (λ o. o.1) apart in
        let at_ticket = new_job_ticket t ∙ trimmed in
        rw (split_give _ e2).1 (
          save_job-IsExclusive u.jobs u.cash_desk (new_job s (credit_input s t))
              (rw (jobs_kept, desk_kept) fair.0) (rw (desk_kept, at_ticket) free),
          ids,
        )

  create_new-IsFair :
      (t : WinningFulfillmentTarget) (w v : World) (r : CashDeskRequest)
      → IsFair w
      → trim t.ticket_id ≡ t.ticket_id
      → get_job_by_ticket_id w.jobs t.ticket_id ≡ none
      → create_new_desk_request s (desk_input s t) w ≡ returned r v
      → IsFair v
  unfolding create_new_desk_request get_job_by_ticket_id
  create_new-IsFair t w v r fair trimmed free e = split_call _ _ e λ _ u claim e1.
      split_write _ _ e1 λ e2.
        let (apart, ids) = desk-Claims w t.ticket_id fair.1 _ u claim in
        let jobs_kept = ap (λ o. o.0) apart in
        let desk_kept = ap (λ o. o.1) apart in
        let at_ticket = new_request_ticket t ∙ trimmed in
        rw (split_give _ e2).1 (
          save_desk-IsExclusive u.jobs u.cash_desk (new_request s (desk_input s t))
              (rw (jobs_kept, desk_kept) fair.0)
              (rw (jobs_kept, at_ticket) (find-eq_none _ w.jobs free)),
          ids,
        )

  enqueue_target-IsFair :
      (t : WinningFulfillmentTarget) (found : Option WinningsCreditJob) (w v : World)
      (job : WinningsCreditJob)
      → IsFair w
      → trim t.ticket_id ≡ t.ticket_id
      → get_job_by_ticket_id w.jobs t.ticket_id ≡ found
      → enqueue_for_target s t found w ≡ returned job v
      → IsFair v
  unfolding enqueue_for_target enqueue_unless_desk enqueue_credit_job
  enqueue_target-IsFair t (some existing) w v job fair trimmed asked e =
      rw (split_give existing e).1 fair
  enqueue_target-IsFair t none w v job fair trimmed asked e = split_read _ _ e λ e1.
      split_guard _ _ _ _ e1 λ guard e2. split_read _ _ e2 λ e3.
        let free = absent (get_cash_desk_request_by_ticket_id w.cash_desk t.ticket_id) _ guard in
        enqueue_new-IsFair t w v job fair trimmed free (rw asked at e3)

  create_target-IsFair :
      (t : WinningFulfillmentTarget) (found : Option CashDeskRequest) (w v : World)
      (r : CashDeskRequest)
      → IsFair w
      → trim t.ticket_id ≡ t.ticket_id
      → get_cash_desk_request_by_ticket_id w.cash_desk t.ticket_id ≡ found
      → create_for_target s t found w ≡ returned r v
      → IsFair v
  unfolding create_for_target create_unless_credit create_desk_request
  create_target-IsFair t (some existing) w v r fair trimmed asked e =
      rw (split_give existing e).1 fair
  create_target-IsFair t none w v r fair trimmed asked e = split_read _ _ e λ e1.
      split_guard _ _ _ _ e1 λ guard e2. split_read _ _ e2 λ e3.
        let free = absent (get_job_by_ticket_id w.jobs t.ticket_id) _ guard in
        create_new-IsFair t w v r fair trimmed free (rw asked at e3)

  enqueue-IsFair :
      (input : FulfillmentInput) (w v : World) (job : WinningsCreditJob)
      → IsFair w
      → enqueue_credit_for_request s input w ≡ returned job v
      → IsFair v
  unfolding enqueue_credit_for_request
  enqueue-IsFair input w v job fair e = split_call _ _ e λ t u resolved e1. split_read _ _ e1 λ e2.
      let (here, trimmed) = resolve-IsTrimmed input w u t fair.1 resolved in
      enqueue_target-IsFair t _ u v job (rw here fair) trimmed refl e2

  create-IsFair :
      (input : FulfillmentInput) (w v : World) (r : CashDeskRequest)
      → IsFair w
      → create_cash_desk_request_for_request s input w ≡ returned r v
      → IsFair v
  unfolding create_cash_desk_request_for_request
  create-IsFair input w v r fair e = split_call _ _ e λ t u resolved e1. split_read _ _ e1 λ e2.
      let (here, trimmed) = resolve-IsTrimmed input w u t fair.1 resolved in
      create_target-IsFair t _ u v r (rw here fair) trimmed refl e2

-- One call of the service that returned, at any time.
pub data Fulfills (w v : World) : Type 0 where
  credits :
      (s : Surroundings) (input : FulfillmentInput) (job : WinningsCreditJob)
      → enqueue_credit_for_request s input w ≡ returned job v
      → Fulfills w v
  pays_at_desk :
      (s : Surroundings) (input : FulfillmentInput) (r : CashDeskRequest)
      → create_cash_desk_request_for_request s input w ≡ returned r v
      → Fulfills w v

-- Any number of calls, one after the other.
pub data FulfillsAll (w : World) : World → Type 0 where
  none_yet : FulfillsAll w w
  and_then : {u v : World} → FulfillsAll w u → Fulfills u v → FulfillsAll w v

-- However often `enqueueCreditForRequest` and `createCashDeskRequestForRequest` of the fulfillment
-- service return, for whichever users and at whatever times, and nothing else is called in between,
-- no ticket gets both a credit job and a cash desk request, where it was so before and the ids of the
-- stored tickets are trimmed; and they stay trimmed. A credit job that is enqueued past this service,
-- as the closing of a draw does, is not among these calls.
pub FulfillsAll-IsFair : {w v : World} → IsFair w → FulfillsAll w v → IsFair v
FulfillsAll-IsFair fair none_yet = fair
FulfillsAll-IsFair {w} fair (and_then {u} {v} calls (credits s input job h)) =
    enqueue-IsFair s input u v job (FulfillsAll-IsFair fair calls) h
FulfillsAll-IsFair {w} fair (and_then {u} {v} calls (pays_at_desk s input r h)) =
    create-IsFair s input u v r (FulfillsAll-IsFair fair calls) h
