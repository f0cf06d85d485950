-- ===== src/Delivery/Backoff.antt =====
-- What the error classes and the backoff promise (runtime/delivery/model.py).
use tdaudiibncba.Common.{
  ℕ, suc, ◌+◌, ◌-◌, ◌*◌, ◌^◌, ◌≤◌, ◌<◌, min, ◌≡◌, ◌↔◌, true, Option, none, some, arith,
}
use native.Mathlib.Nat.{pow-le-pow_right, pow-suc}
use tdaudiibncba.Delivery.Status.{JobStatus, can_transition, place}
use tdaudiibncba.Delivery.Errors.{
  ErrorClass, ErrorAction, classify_error, RetryPolicy, capped_delay, next_attempt_at,
}

-- How an action agrees with the edges of the job states.
pub record IsConsistent (action : ErrorAction) : Type 0 where
  pub legal :
      (s : JobStatus) → action.next_status ≡ some s → can_transition JobStatus.sending s ≡ true
  pub retries : (action.retryable ≡ true) ↔ (action.next_status ≡ some JobStatus.retry_wait)
  pub halts : action.next_status ≡ none → action.worker_halts ≡ true

-- The action for every error class agrees with the edges: where it moves the job, a job in `sending`
-- may move there; it is retryable exactly if it moves the job to `retry_wait`; and where it moves
-- nothing the worker halts.
pub classify_error-IsConsistent :
    (err : ErrorClass) (until : Option ℕ) → IsConsistent (classify_error err until)
unfolding classify_error can_transition place
classify_error-IsConsistent err until = record {
  legal = λ s h. ground arith;
  retries = (λ h. ground arith, λ h. ground arith);
  halts = λ h. ground arith;
}

-- The delay doubles with each attempt until the cap, and never falls.
pub capped_delay_mono :
    (policy : RetryPolicy) (m n : ℕ) → m ≤ n → capped_delay policy m ≤ capped_delay policy n
unfolding capped_delay
capped_delay_mono policy m n h =
    let grow : 2 ^ (m - 1) ≤ 2 ^ (n - 1) = pow-le-pow_right (omega arith) (omega arith) in
    let scaled : policy.base_delay_ms * 2 ^ (m - 1) ≤ policy.base_delay_ms * 2 ^ (n - 1) =
      grind arith in
    omega arith

pub capped_delay-suc :
    (policy : RetryPolicy) (n : ℕ)
    → capped_delay policy (suc (suc n)) ≡ min (2 * capped_delay policy (suc n)) policy.max_delay_ms
unfolding capped_delay
capped_delay-suc policy n =
    let upper : suc (suc n) - 1 ≡ suc n = omega arith in
    let lower : suc n - 1 ≡ n = omega arith in rw (upper, lower, pow-suc 2 n) (omega arith)

pub record IsScheduled (policy : RetryPolicy) (attempt_no now t : ℕ) : Type 0 where
  pub remaining : attempt_no < policy.max_attempts
  pub earliest : now + capped_delay policy attempt_no * (1000 - policy.jitter) ≤ t
  pub latest : t ≤ now + capped_delay policy attempt_no * (1000 + policy.jitter)
  pub capped : t ≤ now + policy.max_delay_ms * (1000 + policy.jitter)

capped_delay_le : (policy : RetryPolicy) (n : ℕ) → capped_delay policy n ≤ policy.max_delay_ms
unfolding capped_delay
capped_delay_le policy n = omega arith

scale_le : (d a b : ℕ) → a ≤ b → d * a ≤ d * b
scale_le d a b h = grind arith

scale_le_right : (d e a : ℕ) → d ≤ e → d * a ≤ e * a
scale_le_right d e a h = grind arith

-- If a next attempt is given then attempts remain, and for every draw of the jitter its time lies
-- within the jitter of the capped delay, and within the jitter of the largest delay.
pub next_attempt_at-IsScheduled :
    (policy : RetryPolicy) (attempt_no now draw t : ℕ)
    → draw ≤ 2 * policy.jitter
    → next_attempt_at policy attempt_no now draw ≡ some t
    → IsScheduled policy attempt_no now t
unfolding next_attempt_at
next_attempt_at-IsScheduled policy attempt_no now draw t hd h =
    let d = capped_delay policy attempt_no in
    let low = scale_le d (1000 - policy.jitter) (1000 + draw - policy.jitter) (omega arith) in
    let high = scale_le d (1000 + draw - policy.jitter) (1000 + policy.jitter) (omega arith) in
    let top : d * (1000 + policy.jitter) ≤ policy.max_delay_ms * (1000 + policy.jitter) =
      scale_le_right d policy.max_delay_ms (1000 + policy.jitter)
        (capped_delay_le policy attempt_no) in
    record {
      remaining = ground arith;
      earliest = ground arith;
      latest = ground arith;
      capped = ground arith;
    }

-- The attempts are exhausted exactly if no next attempt is given.
pub next_attempt_at_exhausted :
    (policy : RetryPolicy) (attempt_no now draw : ℕ)
    → (next_attempt_at policy attempt_no now draw ≡ none) ↔ (policy.max_attempts ≤ attempt_no)
unfolding next_attempt_at
next_attempt_at_exhausted policy attempt_no now draw = (λ h. ground arith, λ h. ground arith)
