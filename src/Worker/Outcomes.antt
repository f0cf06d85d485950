-- ===== src/Worker/Outcomes.antt =====
-- runtime/worker/runner.py, `_record`: what of an executor's result goes into the tables, and whether
-- the runner halts.
use tdaudiibncba.Common.{
  ℕ, zero, suc, ℤ, String, Option, none, some, List, [], ◌∷◌, ◌==◌, if◌then◌else◌, string_eq,
}
use tdaudiibncba.Delivery.Status.{JobStatus}
use tdaudiibncba.Delivery.Errors.{ErrorClass, classify_error, RetryPolicy, next_attempt_at}
use tdaudiibncba.Delivery.Executor.{ResultStatus, DeliveryResult}
use tdaudiibncba.Storage.Closing.{ResultValues}

-- `s[:n]`
abbrev pub clip : ℕ → String → String
clip zero s = ""
clip (suc n) String.[] = ""
clip (suc n) (String.◌∷◌ c s) = String.◌∷◌ c (clip n s)

-- `(detail or '')[:200] or None`
abbrev pub request_ref : Option String → Option String
request_ref none = none
request_ref (some detail) = if clip 200 detail == "" then none else some (clip 200 detail)

abbrev pub first_id : List ℤ → Option ℤ
first_id [] = none
first_id (i ∷ is) = some i

abbrev pub values : JobStatus → Option ErrorClass → ResultValues
values status error_class = record {
  new_status = status;
  error_class = error_class;
  next_attempt_at = none;
  flood_wait_until = none;
  target_message_id = none;
  request_ref = none;
}

-- `_record` writes its values and may halt the runner; or `classify_error(None)` raises.
pub data Recording : Type 0 where
  records : ResultValues → Option ErrorClass → Recording
  raises : Recording

abbrev pub retry_at : Option ℕ → ErrorClass → ResultValues
retry_at none err = values JobStatus.dead_letter (some err)
retry_at (some t) err = record (values JobStatus.retry_wait (some err)) { next_attempt_at = some t }

-- A retryable result: `until` is the flood wait of its action.
abbrev pub retry_values : Option ℕ → Option ℕ → ErrorClass → ResultValues
retry_values none next err = retry_at next err
retry_values (some t) next err = record (values JobStatus.retry_wait (some err)) {
  flood_wait_until = some t;
}

abbrev pub halts_on : Option ErrorClass → Option ErrorClass
halts_on (some ErrorClass.auth_dead) = some ErrorClass.auth_dead
halts_on (some ErrorClass.storage_down) = some ErrorClass.storage_down
halts_on (some ErrorClass.cache_down) = some ErrorClass.cache_down
halts_on _ = none

unfoldable pub retry_recording :
    RetryPolicy → ℕ → ℕ → ℕ → DeliveryResult → Option ErrorClass → Recording
retry_recording policy attempt_no now draw result none = raises
retry_recording policy attempt_no now draw result (some err) =
    records
      (retry_values (classify_error err result.flood_wait_until).flood_wait_until
        (next_attempt_at policy attempt_no now draw) err)
      none

unfoldable pub recording_of : ResultStatus → RetryPolicy → ℕ → ℕ → ℕ → DeliveryResult → Recording
recording_of ResultStatus.succeeded policy attempt_no now draw result =
    records
      (record (values JobStatus.succeeded none) {
        target_message_id = first_id result.target_message_ids;
      })
      none
recording_of ResultStatus.policy_denied policy attempt_no now draw result =
    records (values JobStatus.blocked none) none
recording_of ResultStatus.blocked policy attempt_no now draw result =
    records (values JobStatus.blocked result.error_class) none
recording_of ResultStatus.uncertain policy attempt_no now draw result =
    records (values JobStatus.uncertain (some ErrorClass.result_unknown)) none
recording_of ResultStatus.retryable policy attempt_no now draw result =
    retry_recording policy attempt_no now draw result result.error_class
recording_of ResultStatus.failed policy attempt_no now draw result =
    records
      (record (values JobStatus.failed_permanent result.error_class) {
        request_ref = request_ref result.error_detail;
      })
      (halts_on result.error_class)

unfoldable pub recording : RetryPolicy → ℕ → ℕ → ℕ → DeliveryResult → Recording
recording policy attempt_no now draw result =
    recording_of result.status policy attempt_no now draw result
