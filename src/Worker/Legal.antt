-- ===== src/Worker/Legal.antt =====
-- What `_record` writes is a legal move of the job, and what its error class asks for
-- (runtime/worker/runner.py with runtime/delivery/model.py).
use tdaudiibncba.Common.{
  ℕ, String, ◌≡◌, ◌⊎◌, inl, inr, true, Option, none, some, arith, Option-cases,
}
use tdaudiibncba.Planner.Model.{DeliveryPlan}
use tdaudiibncba.Delivery.Status.{JobStatus, can_transition, place}
use tdaudiibncba.Delivery.Errors.{ErrorClass, classify_error, RetryPolicy, next_attempt_at}
use tdaudiibncba.Delivery.Executor.{
  ResultStatus, DeliveryResult, TransportError, TransportErrorKind, Execution, result, raised,
  failure, class_status, error_class_map,
}
use tdaudiibncba.Storage.Closing.{ResultValues}
use tdaudiibncba.Worker.Outcomes.{
  Recording, records, raises, retry_values, retry_recording, recording_of, recording,
}

abbrev pub IsLegal : Recording → Type 0
IsLegal raises = Unit
IsLegal (records v halt) = can_transition JobStatus.sending v.new_status ≡ true

retry_legal :
    (until next : Option ℕ) (err : ErrorClass)
    → can_transition JobStatus.sending (retry_values until next err).new_status ≡ true
unfolding can_transition place
retry_legal until next err = ground arith

recording_of-IsLegal :
    (status : ResultStatus) (policy : RetryPolicy) (attempt now draw : ℕ) (r : DeliveryResult)
    → IsLegal (recording_of status policy attempt now draw r)
unfolding recording_of retry_recording can_transition place
recording_of-IsLegal ResultStatus.retryable policy attempt now draw r =
    elim (Option-cases r.error_class) [
      | inl e ↦ rw e tt
      | inr (err, e) ↦ rw e (
          retry_legal (classify_error err r.flood_wait_until).flood_wait_until
            (next_attempt_at policy attempt now draw) err)
    ]
recording_of-IsLegal ResultStatus.succeeded policy attempt now draw r = ground arith
recording_of-IsLegal _ policy attempt now draw r = ground arith

-- Whatever the executor reports, the status that `_record` writes is one that a job in `sending` may
-- legally move to.
pub recording-IsLegal :
    (policy : RetryPolicy) (attempt now draw : ℕ) (r : DeliveryResult)
    → IsLegal (recording policy attempt now draw r)
unfolding recording
recording-IsLegal policy attempt now draw r =
    recording_of-IsLegal r.status policy attempt now draw r

-- What is recorded does what the error's action asks for: the job moves where the action says, or to
-- the dead letters where that is a retry and the attempts are exhausted; the worker halts if it
-- should; and a flood wait is kept.
pub record Follows (err : ErrorClass) (until next : Option ℕ) (v : ResultValues)
    (halt : Option ErrorClass) : Type 0 where
  pub moved :
      (s : JobStatus)
      → (classify_error err until).next_status ≡ some s
      → (v.new_status ≡ s)
        ⊎ ((s ≡ JobStatus.retry_wait) × (v.new_status ≡ JobStatus.dead_letter) × (next ≡ none))
  pub halted : (classify_error err until).worker_halts ≡ true → halt ≡ some err
  pub waits :
      (t : ℕ) → (classify_error err until).flood_wait_until ≡ some t → v.flood_wait_until ≡ some t

abbrev pub RecordedAs : ErrorClass → Option ℕ → Option ℕ → Recording → Type 0
RecordedAs err until next raises = ⊥
RecordedAs err until next (records v halt) = Follows err until next v halt

abbrev pub recording_of_execution : RetryPolicy → ℕ → ℕ → ℕ → Execution → Recording
recording_of_execution policy attempt now draw (result r) = recording policy attempt now draw r
recording_of_execution policy attempt now draw (raised e) = raises

flood-Follows :
    (until next : Option ℕ)
    → Follows ErrorClass.flood_wait until next (retry_values until next ErrorClass.flood_wait) none
unfolding classify_error
flood-Follows none none = record {
  moved = λ s h. ground arith;
  halted = λ h. ground arith;
  waits = λ t h. ground arith;
}
flood-Follows none (some n) = record {
  moved = λ s h. ground arith;
  halted = λ h. ground arith;
  waits = λ t h. ground arith;
}
flood-Follows (some w) next = record {
  moved = λ s h. ground arith;
  halted = λ h. ground arith;
  waits = λ t h. ground arith;
}

transient-Follows :
    (until next : Option ℕ)
    → Follows ErrorClass.transient until next (retry_values none next ErrorClass.transient) none
unfolding classify_error
transient-Follows until none = record {
  moved = λ s h. ground arith;
  halted = λ h. ground arith;
  waits = λ t h. ground arith;
}
transient-Follows until (some n) = record {
  moved = λ s h. ground arith;
  halted = λ h. ground arith;
  waits = λ t h. ground arith;
}

module _ (plan : DeliveryPlan) (policy : RetryPolicy) (attempt now draw : ℕ) where
  kind_follows :
      (k : TransportErrorKind) (d : String) (u : Option ℕ)
      → RecordedAs (error_class_map k) u (next_attempt_at policy attempt now draw) (
          recording_of_execution policy attempt now draw
            (failure plan (record { kind = k; detail = d; flood_wait_until = u })))
  unfolding failure class_status error_class_map recording recording_of retry_recording
      classify_error
  kind_follows TransportErrorKind.flood_wait d u =
      flood-Follows u (next_attempt_at policy attempt now draw)
  kind_follows TransportErrorKind.transient d u =
      transient-Follows u (next_attempt_at policy attempt now draw)
  kind_follows _ d u = record {
    moved = λ s h. ground arith;
    halted = λ h. ground arith;
    waits = λ t h. ground arith;
  }

-- For every transport error that the executor handles, a recording is made, and it follows the action
-- that `classify_error` gives for the error's class.
pub failure-Follows :
    (plan : DeliveryPlan) (exc : TransportError) (policy : RetryPolicy) (attempt now draw : ℕ)
    → RecordedAs
        (error_class_map exc.kind)
        exc.flood_wait_until
        (next_attempt_at policy attempt now draw)
        (recording_of_execution policy attempt now draw (failure plan exc))
failure-Follows plan exc policy attempt now draw =
    kind_follows plan policy attempt now draw exc.kind exc.detail exc.flood_wait_until
