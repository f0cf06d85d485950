-- ===== src/Storage/Jobs.antt =====
-- runtime/storage/repos.py, DeliveryJobRepository: the delivery jobs and their attempts.
-- The jobs are a dict by id in the order of their creation, which is the order by `created_at`. A new
-- id is an argument. Times are microseconds.
use tdaudiibncba.Common.{
  ℕ, ◌+◌, ℤ, String, Bool, true, false, Option, none, some, List, [], ◌∷◌, ◌==◌, if◌then◌else◌,
  string_eq, nat_eq, list_eq,
}
use tdaudiibncba.Common.Decimal.{Text}
use tdaudiibncba.Common.Dict
use tdaudiibncba.Common.Dict.{Dict}
use tdaudiibncba.Planner.Model.{CloneMode, DeliveryPlan, plan_kind_value, idempotency_key}
use tdaudiibncba.Delivery.Status.{JobStatus, status_eq}
use tdaudiibncba.Delivery.Errors.{ErrorClass}

pub record DeliveryJob : Type 0 where
  pub id : String
  pub tenant_id : String
  pub project_id : String
  pub idempotency_key : Text
  pub kind : String
  pub route_id : String
  pub rule_id : String
  pub rule_version : ℕ
  pub account_id : String
  pub source_scope : Text
  pub source_chat_id : ℤ
  pub source_message_id : ℤ
  pub revision : ℕ
  pub target_chat_id : ℤ
  pub target_topic_id : Option ℤ
  pub mode : CloneMode
  pub payload_ref : Option String
  pub payload_hash : Option String
  pub requires_approval : Bool
  pub reply_to_target_message_id : Option ℤ
  pub grouped_id : Option ℤ
  pub status : JobStatus
  pub attempt_count : ℕ
  pub next_attempt_at : Option ℕ
  pub flood_wait_until : Option ℕ
  pub last_error_class : Option ErrorClass
  pub updated_at : ℕ

-- `result_status` is the status that the attempt's job moved to, or "abandoned".
pub data AttemptStatus : Type 0 where
  became : JobStatus → AttemptStatus
  abandoned : AttemptStatus

pub record DeliveryAttempt : Type 0 where
  pub job_id : String
  pub attempt_no : ℕ
  pub worker_generation : ℕ
  pub started_at : ℕ
  pub finished_at : Option ℕ
  pub result_status : Option AttemptStatus
  pub error_class : Option ErrorClass
  pub request_ref : Option String

abbrev pub Jobs : Type 0
Jobs = Dict String DeliveryJob

-- `_job_from_plan`
unfoldable pub job_from_plan : DeliveryPlan → String → String → String → ℕ → DeliveryJob
job_from_plan plan tenant_id project_id id now = record {
  id = id;
  tenant_id = tenant_id;
  project_id = project_id;
  idempotency_key = idempotency_key plan;
  kind = plan_kind_value plan.kind;
  route_id = plan.route_id;
  rule_id = plan.rule_id;
  rule_version = plan.rule_version;
  account_id = plan.account_id;
  source_scope = plan.source_scope;
  source_chat_id = plan.source_chat_id;
  source_message_id = plan.source_message_id;
  revision = plan.revision;
  target_chat_id = plan.target_chat_id;
  target_topic_id = plan.target_topic_id;
  mode = plan.mode;
  payload_ref = plan.payload_ref;
  payload_hash = plan.payload_hash;
  requires_approval = plan.requires_approval;
  reply_to_target_message_id = plan.reply_to_target_message_id;
  grouped_id = plan.grouped_id;
  status = if plan.requires_approval then JobStatus.waiting_approval else JobStatus.ready;
  attempt_count = 0;
  next_attempt_at = none;
  flood_wait_until = none;
  last_error_class = none;
  updated_at = now;
}

-- uq_delivery_job_idem
unfoldable pub key_taken : Jobs → Text → Bool
key_taken [] key = false
key_taken ((id, job) ∷ jobs) key =
    let rest = key_taken jobs key in if job.idempotency_key == key then true else rest

unfoldable pub create_from_plan :
    DeliveryPlan → String → String → String → ℕ → Jobs → Option String × Jobs
create_from_plan plan tenant_id project_id id now jobs =
    let job = job_from_plan plan tenant_id project_id id now in
    if key_taken jobs job.idempotency_key then (none, jobs) else (some id, Dict.put jobs id job)

-- The inner loop of `drain_to_jobs`: a key conflict rolls the savepoint back and the loop goes on.
-- `ids` gives the id of the n-th job that is inserted.
unfoldable pub insert_plans : List DeliveryPlan → String → String → (ℕ → String) → ℕ → Jobs → Jobs
insert_plans [] tenant_id project_id ids now jobs = jobs
insert_plans (plan ∷ plans) tenant_id project_id ids now jobs =
    let jobs' = (create_from_plan plan tenant_id project_id (ids 0) now jobs).1 in
    insert_plans plans tenant_id project_id (λ n. ids (n + 1)) now jobs'

-- UPDATE delivery_job SET change WHERE id = ... AND status = src.
abbrev pub guarded_row :
    Option DeliveryJob → String → JobStatus → (DeliveryJob → DeliveryJob) → Jobs → Bool × Jobs
guarded_row none id src change jobs = (false, jobs)
guarded_row (some job) id src change jobs =
    if job.status == src then (true, Dict.put jobs id (change job)) else (false, jobs)

unfoldable pub guarded : String → JobStatus → (DeliveryJob → DeliveryJob) → Jobs → Bool × Jobs
guarded id src change jobs = guarded_row (Dict.get jobs id) id src change jobs

abbrev pub moved_to :
    JobStatus → Option ℕ → Option ℕ → Option ErrorClass → ℕ → DeliveryJob → DeliveryJob
moved_to dst next_attempt_at flood_wait_until error_class now job = record job {
  status = dst;
  next_attempt_at = next_attempt_at;
  flood_wait_until = flood_wait_until;
  last_error_class = error_class;
  updated_at = now;
}

unfoldable pub transition :
    String
    → JobStatus
    → JobStatus
    → Option ℕ
    → Option ℕ
    → Option ErrorClass
    → ℕ
    → Jobs
    → Bool × Jobs
transition id src dst next_attempt_at flood_wait_until error_class now jobs =
    guarded id src (moved_to dst next_attempt_at flood_wait_until error_class now) jobs
