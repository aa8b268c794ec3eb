-- ===== src/Application/TerminalRetry/Rounds.antt =====
-- The attempts at one request: the queue hands its item out (`reserve`), the retry service decides
-- about the outcome by the item's count of attempts, and an item to be retried goes back (`requeue`),
-- as apps/terminal-worker/src/main.ts and terminal-execution-attempt-service.ts compose the calls.
use gambling.Base.{
  ℕ, suc, ◌+◌, ◌<◌, ◌≡◌, refl, ◌∙◌, ap, inl, inr, String, integer, some, none, Option, ok, arith,
  Option-cases, Bool-cases,
}
use gambling.Base.Int.{pos}
use gambling.Base.Platform.{Platform}
use gambling.Domain.Attempt.TerminalAttempt.{TerminalAttemptOutcome, retrying}
use gambling.Application.TerminalRetry.{
  ResolveTerminalRetryInput, resolve_next_state, resolve_next_state_iff,
}
use gambling.Application.Store.Queue.{
  Queue, PurchaseQueueItem, is_queued, reserved, requeued, reserve, requeue, get_queue_item,
  save_queue_item, get_queue_item_id, get-save_queue_item,
}

-- how often an item was handed out
abbrev pub attempts_in : Option PurchaseQueueItem → ℕ
attempts_in none = 0
attempts_in (some item) = item.attempt_count

module _ (id : String) where
  abbrev pub attempts : Queue → ℕ
  attempts w = attempts_in (get_queue_item w id)

  -- An item is handed out once more than before, and stored so.
  reserve_inv :
      (w u : Queue) (item : PurchaseQueueItem)
      → reserve w id ≡ (some item, u)
      → (item.attempt_count ≡ suc (attempts w)) × (get_queue_item u id ≡ some item)
  unfolding reserve
  reserve_inv w u item h = elim (Option-cases (get_queue_item w id)) [
    | inl e ↦ let none_found = rw e at h in cc
    | inr (stored, e) ↦ elim (Bool-cases (is_queued stored.status)) [
      | inl q ↦
          let found : ◌≡◌ {A = Option PurchaseQueueItem × Queue}
              (some (reserved stored), save_queue_item w (reserved stored)) (some item, u) =
            rw (e, q) at h in
          let same : reserved stored ≡ item = cc in
          let saved : save_queue_item w (reserved stored) ≡ u = cc in
          (
            rw (← same, e) refl,
            rw (← saved, ← same)
                (get-save_queue_item w id (reserved stored) (get_queue_item_id w id stored e)),
          )
      | inr q ↦ let none_found = rw (e, q) at h in cc
    ]
  ]

  -- An item that goes back keeps its count.
  requeue-attempts :
      (u : Queue) (item : PurchaseQueueItem)
      → get_queue_item u id ≡ some item
      → attempts (requeue u id).1 ≡ item.attempt_count
  unfolding requeue
  requeue-attempts u item e =
      let same : (requeued item).request_id ≡ item.request_id = ground arith in
      let kept : (requeued item).attempt_count ≡ item.attempt_count = ground arith in
      let found = get-save_queue_item u id (requeued item) (same ∙ get_queue_item_id u id item e) in
      rw e (rw found kept)

module _ (p : Platform) (max : ℕ) (id : String) where
  -- what the retry service is asked about an attempt
  abbrev pub attempt_of :
      PurchaseQueueItem → TerminalAttemptOutcome → String → ResolveTerminalRetryInput
  attempt_of item candidate output = record {
    attempt = integer (pos item.attempt_count);
    candidate_state = candidate;
    raw_output = output;
  }

  -- One round: the request's item is handed out, its attempt is to be retried, and it goes back.
  pub data Round (w v : Queue) : Type 0 where
    retried :
        (item : PurchaseQueueItem) (candidate : TerminalAttemptOutcome) (output : String)
        (u : Queue)
        → reserve w id ≡ (some item, u)
        → resolve_next_state p (integer (pos max)) (attempt_of item candidate output) ≡ ok retrying
        → (requeue u id).1 ≡ v
        → Round w v

  -- Rounds, and their number. Between them other calls may change the queue, but not this item.
  pub data Rounds (w : Queue) : ℕ → Queue → Type 0 where
    none_yet : Rounds w 0 w
    and_then : {n : ℕ} {u v : Queue} → Rounds w n u → Round u v → Rounds w (suc n) v
    meanwhile :
        {n : ℕ} {u v : Queue}
        → Rounds w n u
        → get_queue_item v id ≡ get_queue_item u id
        → Rounds w n v

  Round-counts :
      (w v : Queue) → Round w v → (attempts id v ≡ suc (attempts id w)) × (attempts id v < max)
  Round-counts w v (retried item candidate output u h k back) =
      let (counted, stored) = reserve_inv id w u item h in
      let kept : attempts id v ≡ item.attempt_count =
        rw (← back) (requeue-attempts id u item stored) in
      let (_, _, below) =
        (resolve_next_state_iff p (integer (pos max)) (attempt_of item candidate output) retrying
            (pos item.attempt_count) (pos max) refl refl k).0.0
          refl in
      (kept ∙ counted, rw kept (ground (arith, below)))

  Rounds-counts : {w v : Queue} {n : ℕ} → Rounds w n v → attempts id v ≡ attempts id w + n
  Rounds-counts none_yet = omega arith
  Rounds-counts (and_then {n} {u} {v} rounds round) =
      let before = Rounds-counts rounds in
      let counted = (Round-counts u v round).0 in omega (arith, before, counted)
  Rounds-counts (meanwhile rounds same) = ap attempts_in same ∙ Rounds-counts rounds

  -- Each round in which a request is retried counts as one attempt of its item, and the count after it
  -- is below the maximum: from a count of `a` fewer than `max - a` rounds are possible, whatever the
  -- terminal puts out and whatever happens to other items in between.
  pub Rounds-below :
      {w v : Queue} {n : ℕ}
      → Rounds w (suc n) v
      → (attempts id v ≡ attempts id w + suc n) × (attempts id w + suc n < max)
  Rounds-below {w} {v} {n} (and_then {u = u} rounds round) =
      let counted = Rounds-counts (and_then rounds round) in
      (counted, rw (← counted) (Round-counts u v round).1)
  Rounds-below (meanwhile rounds same) =
      let (counted, below) = Rounds-below rounds in (ap attempts_in same ∙ counted, below)
