-- ===== src/Delivery/Errors.antt =====
-- runtime/delivery/model.py: error classes, what each one asks for, and the retry backoff.
-- Times are microseconds, delays milliseconds and the jitter is in thousandths, so that a delay times
-- a jitter factor is again a whole number of microseconds.
use tdaudiibncba.Common.{
  ℕ, ◌+◌, ◌-◌, ◌*◌, ◌^◌, min, Bool, true, false, Option, none, some, leb, if◌then◌else◌,
}
use tdaudiibncba.Delivery.Status.{JobStatus}

pub data ErrorClass : Type 0 where
  flood_wait transient result_unknown auth_dead permission_blocked content_invalid : ErrorClass
  storage_down cache_down : ErrorClass

pub record ErrorAction : Type 0 where
  pub next_status : Option JobStatus
  pub worker_halts : Bool
  pub retryable : Bool
  pub flood_wait_until : Option ℕ

unfoldable pub classify_error : ErrorClass → Option ℕ → ErrorAction
classify_error ErrorClass.flood_wait until = record {
  next_status = some JobStatus.retry_wait;
  worker_halts = false;
  retryable = true;
  flood_wait_until = until;
}
classify_error ErrorClass.transient until = record {
  next_status = some JobStatus.retry_wait;
  worker_halts = false;
  retryable = true;
  flood_wait_until = none;
}
classify_error ErrorClass.result_unknown until = record {
  next_status = some JobStatus.uncertain;
  worker_halts = false;
  retryable = false;
  flood_wait_until = none;
}
classify_error ErrorClass.auth_dead until = record {
  next_status = none;
  worker_halts = true;
  retryable = false;
  flood_wait_until = none;
}
classify_error ErrorClass.permission_blocked until = record {
  next_status = some JobStatus.blocked;
  worker_halts = false;
  retryable = false;
  flood_wait_until = none;
}
classify_error ErrorClass.content_invalid until = record {
  next_status = some JobStatus.failed_permanent;
  worker_halts = false;
  retryable = false;
  flood_wait_until = none;
}
classify_error ErrorClass.storage_down until = record {
  next_status = none;
  worker_halts = true;
  retryable = false;
  flood_wait_until = none;
}
classify_error ErrorClass.cache_down until = record {
  next_status = some JobStatus.blocked;
  worker_halts = true;
  retryable = false;
  flood_wait_until = none;
}

pub record RetryPolicy : Type 0 where
  pub max_attempts : ℕ
  pub base_delay_ms : ℕ
  pub max_delay_ms : ℕ
  pub jitter : ℕ

abbrev pub default_policy : RetryPolicy
default_policy = record {
  max_attempts = 5;
  base_delay_ms = 5000;
  max_delay_ms = 1800000;
  jitter = 200;
}

-- min(base * 2 ** max(attempt_no - 1, 0), max_delay)
unfoldable pub capped_delay : RetryPolicy → ℕ → ℕ
capped_delay policy attempt_no =
    min (policy.base_delay_ms * 2 ^ (attempt_no - 1)) policy.max_delay_ms

-- `draw` places `rand.uniform(-jitter, jitter)` at -jitter + draw. Truncated subtraction is the
-- source's max(delay, 0.0): the factor is negative exactly if the delay is.
unfoldable pub next_attempt_at : RetryPolicy → ℕ → ℕ → ℕ → Option ℕ
unfolding capped_delay
next_attempt_at policy attempt_no now draw =
    if leb policy.max_attempts attempt_no
    then none
    else some (now + capped_delay policy attempt_no * (1000 + draw - policy.jitter))
