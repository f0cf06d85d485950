-- ===== src/Platform/Deliveries.antt =====
-- telegram-platform/backend/app/tg/service/delivery_service.py: an operator retries or cancels a job of
-- the table that the workers share. What was read of the job is an argument of the rest, which runs on
-- the table of that later moment.
use tdaudiibncba.Common.{
  ℕ, String, Bool, true, false, not, Option, none, some, List, [], ◌∷◌, ◌==◌, contains, exists_by,
  if◌then◌else◌, nat_eq, string_eq,
}
use tdaudiibncba.Common.Dict
use tdaudiibncba.Common.Dict.{Dict}
use tdaudiibncba.Delivery.Status.{JobStatus, status_eq}
use tdaudiibncba.Storage.Jobs.{DeliveryJob, Jobs}
use tdaudiibncba.Platform.Store.{User, Owner, Membership, is_member}

-- `_RETRYABLE`
unfoldable pub retryable : List JobStatus
retryable = JobStatus.failed_permanent ∷ JobStatus.dead_letter ∷ []

-- `_CANCELLABLE`
unfoldable pub cancellable : List JobStatus
cancellable =
    JobStatus.pending ∷ JobStatus.waiting_approval ∷ JobStatus.ready ∷ JobStatus.retry_wait
    ∷ JobStatus.blocked ∷ JobStatus.uncertain ∷ []

-- What the scope of a job is looked up in.
pub record Scopes : Type 0 where
  pub memberships : List Membership
  pub tenants : Dict ℕ Owner
  pub projects : Dict ℕ Owner

-- `select_model_by_column(db, uuid=...)`: the id of the row, deleted or not.
unfoldable pub id_of : String → Dict ℕ Owner → Option ℕ
id_of uuid [] = none
id_of uuid ((id, o) ∷ owners) =
    let rest = id_of uuid owners in if o.uuid == uuid then some id else rest

pub data JobFailure : Type 0 where
  job_missing forbidden needs_review : JobFailure
  not_retryable not_cancellable : JobStatus → JobFailure

-- `_check_job_scope`: none is a pass.
abbrev pub scope_of : Option ℕ → Option ℕ → Scopes → User → Option JobFailure
scope_of (some tenant) (some project) scopes user =
    if exists_by (is_member tenant project user.id) scopes.memberships
    then none
    else some JobFailure.forbidden
scope_of (some tenant) none scopes user = some JobFailure.job_missing
scope_of none project scopes user = some JobFailure.job_missing

unfoldable pub check_job_scope : Scopes → User → DeliveryJob → Option JobFailure
check_job_scope scopes user job =
    if user.is_superuser
    then none
    else scope_of (id_of job.tenant_id scopes.tenants) (id_of job.project_id scopes.projects) scopes
        user

-- The number of updated rows, or an error.
pub data Count : Type 0 where
  updated : Bool → Count
  failed : JobFailure → Count

-- `update_model_by_column(db, obj, id=pk)`
abbrev pub update_found :
    Option DeliveryJob → String → (DeliveryJob → DeliveryJob) → Jobs → Count × Jobs
update_found none pk change jobs = (updated false, jobs)
update_found (some row) pk change jobs = (updated true, Dict.put jobs pk (change row))

unfoldable pub update_job : String → (DeliveryJob → DeliveryJob) → Jobs → Count × Jobs
update_job pk change jobs = update_found (Dict.get jobs pk) pk change jobs

abbrev pub retried : DeliveryJob → DeliveryJob
retried job = record job { status = JobStatus.ready; next_attempt_at = none }

abbrev pub cancelled : DeliveryJob → DeliveryJob
cancelled job = record job { status = JobStatus.cancelled }

-- A request on the job that was read, after its scope was checked.
abbrev pub in_scope :
    Option JobFailure → (DeliveryJob → Jobs → Count × Jobs) → DeliveryJob → Jobs → Count × Jobs
in_scope (some e) next job jobs = (failed e, jobs)
in_scope none next job jobs = next job jobs

abbrev pub retry_read : String → DeliveryJob → Jobs → Count × Jobs
retry_read pk job jobs =
    if job.status == JobStatus.uncertain
    then (failed JobFailure.needs_review, jobs)
    else if not (contains retryable job.status)
    then (failed (JobFailure.not_retryable job.status), jobs)
    else update_job pk retried jobs

abbrev pub cancel_read : String → DeliveryJob → Jobs → Count × Jobs
cancel_read pk job jobs =
    if not (contains cancellable job.status)
    then (failed (JobFailure.not_cancellable job.status), jobs)
    else update_job pk cancelled jobs

module _ (scopes : Scopes) (user : User) where
  unfoldable pub retry_given : Option DeliveryJob → String → Jobs → Count × Jobs
  retry_given none pk jobs = (failed JobFailure.job_missing, jobs)
  retry_given (some job) pk jobs =
      in_scope (check_job_scope scopes user job) (retry_read pk) job jobs

  unfoldable pub cancel_given : Option DeliveryJob → String → Jobs → Count × Jobs
  cancel_given none pk jobs = (failed JobFailure.job_missing, jobs)
  cancel_given (some job) pk jobs =
      in_scope (check_job_scope scopes user job) (cancel_read pk) job jobs

  unfoldable pub retry : String → Jobs → Count × Jobs
  retry pk jobs = retry_given (Dict.get jobs pk) pk jobs

  unfoldable pub cancel : String → Jobs → Count × Jobs
  cancel pk jobs = cancel_given (Dict.get jobs pk) pk jobs
