-- ===== src/Application/TerminalRetry.antt =====
-- The retry service (packages/application/src/services/terminal-retry-service.ts).
pub mod Rounds
use gambling.Base.{
  ◌≡◌, refl, ◌↔◌, ◌⊎◌, inl, String, Bool, List, [], ◌∷◌, true, false, ◌||◌, Number, integer, Option,
  or_else, Result, ok, includes, if◌then◌else◌, ◌>>=◌, >>=-eq-ok, trunc, some, arith,
}
use gambling.Base.Int.{ℤ, pos, ltb_ℤ}
use gambling.Base.Lists.{any}
use gambling.Base.Platform.{Platform}
use gambling.Domain.Attempt.RetryPolicy.{
  RetryFailureClass, transient, terminal, NextState, RetryPolicyInput, decide_retry_outcome,
  decide_retry_outcome_iff,
}
use gambling.Domain.Attempt.TerminalAttempt.{TerminalAttemptOutcome, retrying, error}

-- the constructor: `config.maxAttempts ?? 3`
unfoldable pub max_attempts_of : Option Number → Number
max_attempts_of config = or_else config (integer (pos 3))

pub record ResolveTerminalRetryInput : Type 0 where
  pub attempt : Number
  pub candidate_state : TerminalAttemptOutcome
  pub raw_output : String

unfoldable pub classify_failure_class : Platform → String → RetryFailureClass
classify_failure_class p raw_output =
    let normalized = p.to_lower_case raw_output in
    if includes normalized "permanent"
      || includes normalized "non-retryable"
      || includes normalized "fatal"
    then terminal
    else transient

abbrev pub outcome_of : NextState → TerminalAttemptOutcome
outcome_of NextState.retrying = retrying
outcome_of NextState.error = error

-- the decision for a candidate that asks for a retry
unfoldable pub resolve_retry :
    Platform → Number → ResolveTerminalRetryInput → Result TerminalAttemptOutcome
resolve_retry p max input = do
  decision ← decide_retry_outcome (record {
    attempt = input.attempt;
    max_attempts = max;
    failure_class = classify_failure_class p input.raw_output;
  })
  ok (outcome_of decision.next_state)

abbrev pub resolve_candidate :
    Platform
    → Number
    → ResolveTerminalRetryInput
    → TerminalAttemptOutcome
    → Result TerminalAttemptOutcome
resolve_candidate p max input retrying = resolve_retry p max input
resolve_candidate p max input other = ok other

unfoldable pub resolve_next_state :
    Platform → Number → ResolveTerminalRetryInput → Result TerminalAttemptOutcome
unfolding resolve_retry
resolve_next_state p max input = resolve_candidate p max input input.candidate_state

retrying_only :
    (p : Platform) (max : Number) (input : ResolveTerminalRetryInput) (c o : TerminalAttemptOutcome)
    → resolve_candidate p max input c ≡ ok o
    → (c ≡ retrying) ⊎ (o ≡ c)
retrying_only p max input retrying o h = inl refl
retrying_only p max input c o h = ground arith

resolve_retry_iff :
    (p : Platform) (max : Number) (input : ResolveTerminalRetryInput) (o : TerminalAttemptOutcome)
    (a m : ℤ)
    → trunc input.attempt ≡ some a
    → trunc max ≡ some m
    → resolve_retry p max input ≡ ok o
    → (o ≡ retrying)
      ↔ ((classify_failure_class p input.raw_output ≡ transient) × (ltb_ℤ a m ≡ true))
unfolding resolve_retry
resolve_retry_iff p max input o a m ha hm h =
    let request : RetryPolicyInput = record {
      attempt = input.attempt;
      max_attempts = max;
      failure_class = classify_failure_class p input.raw_output;
    } in
    let (d, hd, h1) = >>=-eq-ok (decide_retry_outcome request) _ h in
    let (decision, state) = decide_retry_outcome_iff request d a m hd ha hm in
    let same : o ≡ outcome_of d.next_state = ground arith in
    (λ e. decision.0 (state.0 (ground arith)), λ k. ground (arith, state.1 (decision.1 k)))

candidate_iff :
    (p : Platform) (max : Number) (input : ResolveTerminalRetryInput) (c o : TerminalAttemptOutcome)
    (a m : ℤ)
    → trunc input.attempt ≡ some a
    → trunc max ≡ some m
    → resolve_candidate p max input c ≡ ok o
    → (o ≡ retrying) ↔ (
        (c ≡ retrying)
        × (classify_failure_class p input.raw_output ≡ transient)
        × (ltb_ℤ a m ≡ true))
candidate_iff p max input retrying o a m ha hm h =
    let (there, back) = resolve_retry_iff p max input o a m ha hm h in
    (λ e. let (kind, left) = there e in (refl, kind, left), λ (_, kind, left). back (kind, left))
candidate_iff p max input c o a m ha hm h = (λ e. ground arith, λ (k, _, _). cc)

-- the words of a failure for good
abbrev pub is_permanent : Platform → String → Bool
is_permanent p output =
    any (includes (p.to_lower_case output)) ("permanent" ∷ "non-retryable" ∷ "fatal" ∷ [])

classify_iff :
    (p : Platform) (output : String)
    → (classify_failure_class p output ≡ transient) ↔ (is_permanent p output ≡ false)
unfolding classify_failure_class
classify_iff p output = (λ h. ground arith, λ h. ground arith)

-- The service passes on every candidate but `retrying` as it is; a candidate `retrying` stays so
-- exactly while attempts are left and the output, in lower case, has none of the words "permanent",
-- "non-retryable" and "fatal".
pub resolve_next_state_iff :
    (p : Platform) (max : Number) (input : ResolveTerminalRetryInput) (o : TerminalAttemptOutcome)
    (a m : ℤ)
    → trunc input.attempt ≡ some a
    → trunc max ≡ some m
    → resolve_next_state p max input ≡ ok o
    → ((o ≡ retrying) ↔ (
        (input.candidate_state ≡ retrying)
        × (is_permanent p input.raw_output ≡ false)
        × (ltb_ℤ a m ≡ true)))
      × ((input.candidate_state ≡ retrying) ⊎ (o ≡ input.candidate_state))
unfolding resolve_next_state
resolve_next_state_iff p max input o a m ha hm h =
    let (there, back) = candidate_iff p max input input.candidate_state o a m ha hm h in
    let (kind, kind') = classify_iff p input.raw_output in
    (
      (
        λ e. let (asked, failure, left) = there e in (asked, kind failure, left),
        λ (asked, failure, left). back (asked, kind' failure, left),
      ),
      retrying_only p max input input.candidate_state o h,
    )
