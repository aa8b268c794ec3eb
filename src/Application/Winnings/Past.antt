-- ===== src/Application/Winnings/Past.antt =====
-- A credit job that is enqueued past the fulfillment service
-- (`enqueueCreditJob` as packages/application/src/services/draw-closure-service.ts calls it).
use gambling.Base.{◌≡◌, refl, none, some, ◌==◌, trim, eq_refl, true}
use gambling.Base.Keyed.{find-keep_append_new}
use gambling.Base.Action.{returned, ◌>>=◌, give, reads, writes}
use gambling.Domain.Winnings.CashDesk.{
  WinningsCreditJob, CashDeskRequest, create_winnings_credit_job,
}
use gambling.Application.World.{World, Surroundings}
use gambling.Application.TicketClaim.{get_ticket_by_id}
use gambling.Application.Store.Jobs.{get_job_by_ticket_id, save_job}
use gambling.Application.Store.CashDesk.{get_cash_desk_request_by_ticket_id}
use gambling.Application.Winnings.Credit.{
  EnqueueCreditJobInput, new_job, enqueue_new_job, enqueue_credit_job,
  start_credit_claim_if_legacy_ticket_exists,
}

module _ (s : Surroundings) (input : EnqueueCreditJobInput) where
  job_ticket :
      trim input.ticket_id ≡ input.ticket_id
      → ((new_job s input).ticket_id == input.ticket_id) ≡ true
  unfolding create_winnings_credit_job
  job_ticket trimmed = rw trimmed (eq_refl input.ticket_id)

  -- Enqueueing a credit job asks for no cash desk request: a ticket that has one, no job and no stored
  -- record gets a job beside it, so that it is to be paid twice.
  pub enqueue_credit_job-beside_desk :
      (w : World) (r : CashDeskRequest)
      → trim input.ticket_id ≡ input.ticket_id
      → get_ticket_by_id w.tickets input.ticket_id ≡ none
      → get_job_by_ticket_id w.jobs input.ticket_id ≡ none
      → get_cash_desk_request_by_ticket_id w.cash_desk input.ticket_id ≡ some r
      → (job : WinningsCreditJob) × (v : World) × (enqueue_credit_job s input w ≡ returned job v)
        × (get_job_by_ticket_id v.jobs input.ticket_id ≡ some job)
        × (get_cash_desk_request_by_ticket_id v.cash_desk input.ticket_id ≡ some r)
  unfolding enqueue_credit_job enqueue_new_job start_credit_claim_if_legacy_ticket_exists ◌>>=◌
      reads give writes get_job_by_ticket_id save_job
  enqueue_credit_job-beside_desk w r trimmed no_ticket no_job desk = (
    new_job s input,
    record w { jobs = save_job w.jobs (new_job s input) },
    rw no_job (rw no_ticket refl),
    find-keep_append_new _ _ w.jobs (new_job s input) no_job (job_ticket trimmed),
    desk,
  )
