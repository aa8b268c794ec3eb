-- ===== src/Application/Orchestration/Advance.antt =====
-- The transitions of a request that is confirmed: to `confirmed`, and on to `queued`.
use gambling.Base.{
  ◌≡◌, inl, inr, refl, ◌∙◌, String, Bool, true, ◌||◌, [], ◌∷◌, template, Result, ok, ◌>>=◌,
  >>=-eq-ok, if◌then◌else◌, arith, Bool-cases,
}
use gambling.Domain.RequestState.{
  RequestState, awaiting_confirmation, confirmed, queued, same_state,
}
use gambling.Domain.PurchaseRequest.Request.{
  PurchaseRequestRecord, append_purchase_request_transition,
}
use gambling.Domain.PurchaseRequest.Journal.{append_purchase_request_transition_adds}
use gambling.Application.World.{Surroundings}
use gambling.Application.Orchestration.{noted}

-- the states from which a request is queued
abbrev pub is_confirmable : RequestState → Bool
is_confirmable s =
    same_state s awaiting_confirmation || same_state s confirmed || same_state s queued

module _ (s : Surroundings) where
  -- the transition, where the request is in the state before it
  abbrev step_if :
      RequestState
      → RequestState
      → String
      → String
      → PurchaseRequestRecord
      → Result PurchaseRequestRecord
  step_if from to event_id note r =
      if same_state r.state from
      then append_purchase_request_transition s.platform r to (noted event_id s.now note)
      else ok r

  unfoldable pub advance : PurchaseRequestRecord → String → Result PurchaseRequestRecord
  advance r id = do
    first ←
        step_if awaiting_confirmation confirmed (template (id ∷ ":confirmed" ∷ []))
          "request confirmed for queueing" r
    step_if confirmed queued (template (id ∷ ":queued" ∷ [])) "request inserted into purchase queue"
        first

  -- the state after a step
  abbrev after : RequestState → RequestState → RequestState → RequestState
  after from to state = if same_state state from then to else state

  step_if_adds :
      (from to : RequestState) (event_id note : String) (r r' : PurchaseRequestRecord)
      → step_if from to event_id note r ≡ ok r'
      → (r'.snapshot ≡ r.snapshot) × (r'.state ≡ after from to r.state)
  step_if_adds from to event_id note r r' h = elim (Bool-cases (same_state r.state from)) [
    | inl e ↦
        let adds =
          append_purchase_request_transition_adds s.platform r r' to (noted event_id s.now note)
            (rw e at h) in
        (adds.0, rw e adds.1)
    | inr e ↦ rw e (let same : r ≡ r' = ground (arith, rw e at h) in rw same (refl, refl))
  ]

  after_queued :
      (state : RequestState)
      → is_confirmable state ≡ true
      → after confirmed queued (after awaiting_confirmation confirmed state) ≡ queued
  after_queued awaiting_confirmation h = refl
  after_queued state h = ground arith

  -- A request that may be confirmed keeps its snapshot and ends up queued.
  pub advance-eq_ok :
      (r r' : PurchaseRequestRecord) (id : String)
      → is_confirmable r.state ≡ true
      → advance r id ≡ ok r'
      → (r'.snapshot ≡ r.snapshot) × (r'.state ≡ queued)
  unfolding advance
  advance-eq_ok r r' id ready h =
      let (first, h1, h2) = >>=-eq-ok (step_if awaiting_confirmation confirmed _ _ r) _ h in
      let one = step_if_adds awaiting_confirmation confirmed _ _ r first h1 in
      let two = step_if_adds confirmed queued _ _ first r' h2 in
      (two.0 ∙ one.0, two.1 ∙ rw one.1 (after_queued r.state ready))
