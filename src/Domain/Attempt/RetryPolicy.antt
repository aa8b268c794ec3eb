-- ===== src/Domain/Attempt/RetryPolicy.antt =====
-- When an attempt is retried (packages/domain/src/retry-policy.ts).
use gambling.Base.{
  suc, ◌≡◌, ◌↔◌, String, Bool, true, false, Number, trunc, Option, some, Result, ok, throw,
  retry_policy_validation, if◌then◌else◌, ◌>>=◌, arith,
}
use gambling.Base.Int.{ℤ, pos, ltb_ℤ}

pub data RetryFailureClass : Type 0 where
  transient terminal : RetryFailureClass

pub data RetryDecisionAction : Type 0 where
  retry final_error : RetryDecisionAction

pub data NextState : Type 0 where
  retrying error : NextState

pub data RetryReason : Type 0 where
  transient_with_attempts_left attempts_exhausted terminal_failure : RetryReason

pub record RetryPolicyInput : Type 0 where
  pub attempt : Number
  pub max_attempts : Number
  pub failure_class : RetryFailureClass

pub record RetryDecision : Type 0 where
  pub action : RetryDecisionAction
  pub next_state : NextState
  pub reason : RetryReason

-- `Math.trunc(x)`, if it is finite and above 0, else the error with this message
abbrev positive_whole : Option ℤ → String → Result ℤ
positive_whole (some (pos (suc n))) message = ok (pos (suc n))
positive_whole other message = throw retry_policy_validation message

abbrev positive : Number → String → Result ℤ
positive n message = positive_whole (trunc n) message

abbrev is_terminal : RetryFailureClass → Bool
is_terminal terminal = true
is_terminal transient = false

unfoldable pub decide_retry_outcome : RetryPolicyInput → Result RetryDecision
decide_retry_outcome input = do
  attempt ← positive input.attempt "attempt must be a positive integer"
  max_attempts ← positive input.max_attempts "maxAttempts must be a positive integer"
  ok (
      if is_terminal input.failure_class
      then record { action = final_error; next_state = error; reason = terminal_failure }
      else if ltb_ℤ attempt max_attempts
      then record { action = retry; next_state = retrying; reason = transient_with_attempts_left }
      else record { action = final_error; next_state = error; reason = attempts_exhausted })

-- Every decision is to retry or to end in an error; it is to retry exactly for a transient failure
-- with attempts left, whatever fractions the two numbers have.
pub decide_retry_outcome_iff :
    (input : RetryPolicyInput) (d : RetryDecision) (a m : ℤ)
    → decide_retry_outcome input ≡ ok d
    → trunc input.attempt ≡ some a
    → trunc input.max_attempts ≡ some m
    → ((d.action ≡ retry) ↔ ((input.failure_class ≡ transient) × (ltb_ℤ a m ≡ true)))
      × ((d.next_state ≡ retrying) ↔ (d.action ≡ retry))
unfolding decide_retry_outcome
decide_retry_outcome_iff input d a m h ha hm = ground arith
