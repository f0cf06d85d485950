-- ===== src/Worker/Runner.antt =====
-- runtime/worker/runner.py: a job is claimed, gated, executed and recorded. What the providers answer
-- and the moments at which the clocks are read are arguments.
use tdaudiibncba.Common.{
  ℕ, ℤ, String, Bool, true, false, Option, none, some, List, [], ◌==◌, if◌then◌else◌, string_eq,
}
use tdaudiibncba.Planner.Model.{EventKind, PlanKind, SourceEvent, DeliveryPlan}
use tdaudiibncba.Delivery.Status.{JobStatus}
use tdaudiibncba.Delivery.Errors.{ErrorClass, RetryPolicy, next_attempt_at}
use tdaudiibncba.Delivery.Policy.{Decision, LiveAccount, PolicySnapshot, ApprovalRecord, check}
use tdaudiibncba.Delivery.Executor.{
  Call, SendTransport, ResultStatus, DeliveryResult, Execution, result, raised, checkable, execute,
}
use tdaudiibncba.Storage.Inbox.{EventInbox}
use tdaudiibncba.Storage.Jobs.{DeliveryJob, Jobs, transition}
use tdaudiibncba.Storage.Claiming.{Claim, claim_next}
use tdaudiibncba.Storage.Maps.{Maps, find_target_message_ids}
use tdaudiibncba.Storage.Closing.{ResultTables, record_result}
use tdaudiibncba.Worker.Outcomes.{Recording, records, raises, recording}

-- `_JOB_KIND_ALIAS.get(kind)`
unfoldable pub job_kind_alias : String → Option PlanKind
job_kind_alias kind =
    if kind == "send"
    then some PlanKind.send
    else if kind == "send_message"
    then some PlanKind.send
    else if kind == "edit"
    then some PlanKind.edit
    else if kind == "delete"
    then some PlanKind.delete
    else if kind == "tombstone"
    then some PlanKind.tombstone
    else none

abbrev pub plan_of_kind : Option PlanKind → DeliveryJob → Option DeliveryPlan
plan_of_kind none job = none
plan_of_kind (some kind) job = some (record {
  kind = kind;
  rule_id = job.rule_id;
  rule_version = job.rule_version;
  route_id = job.route_id;
  account_id = job.account_id;
  source_scope = job.source_scope;
  source_chat_id = job.source_chat_id;
  source_message_id = job.source_message_id;
  revision = job.revision;
  target_chat_id = job.target_chat_id;
  target_topic_id = job.target_topic_id;
  mode = job.mode;
  payload_ref = job.payload_ref;
  payload_hash = job.payload_hash;
  requires_approval = job.requires_approval;
  reply_to_target_message_id = job.reply_to_target_message_id;
  grouped_id = job.grouped_id;
  fetch_account_id = none;
  transform = false;
})

-- `plan_from_job`; an unknown kind is a ValueError.
unfoldable pub plan_from_job : DeliveryJob → Option DeliveryPlan
plan_from_job job = plan_of_kind (job_kind_alias job.kind) job

-- `EventKind(value)`; an unknown value is a ValueError.
unfoldable pub event_kind_of : String → Option EventKind
event_kind_of kind =
    if kind == "create"
    then some EventKind.create
    else if kind == "edit"
    then some EventKind.edit
    else if kind == "delete"
    then some EventKind.delete
    else none

abbrev pub event_of_kind : Option EventKind → EventInbox → Option SourceEvent
event_of_kind none row = none
event_of_kind (some kind) row = some (record {
  kind = kind;
  source_scope = row.source_scope;
  source_chat_id = row.source_chat_id;
  source_message_id = row.source_message_id;
  revision = row.revision;
  account_id = row.account_id;
  grouped_id = row.grouped_id;
  payload_ref = row.payload_ref;
  payload_hash = row.payload_hash;
  reply_to_source_id = row.reply_to_source_id;
  topic_id = row.topic_id;
  protected = row.protected;
  sender_id = row.source_sender_id;
  media_kind = row.source_media_kind;
  sender_is_bot = row.source_sender_bot;
})

unfoldable pub event_from_inbox : EventInbox → Option SourceEvent
event_from_inbox row = event_of_kind (event_kind_of row.kind) row

pub record RunnerDeps : Type 0 where
  pub transport : SendTransport
  pub live : String → LiveAccount
  pub policy : PolicySnapshot
  pub approvals : DeliveryJob → Option ApprovalRecord
  pub plan_hints : String → ℕ → Option (Option String × Bool)
  pub retry_policy : RetryPolicy

-- The clock readings of one round, the draw of the jitter and the id of a new map row.
pub record Moments : Type 0 where
  pub claims : ℕ
  pub checks : ℕ
  pub moves : ℕ
  pub executes : ℕ
  pub retries : ℕ
  pub writes : ℕ
  pub draw : ℕ
  pub map_id : String

pub data Halt : Type 0 where
  lease_lost : Halt
  error : ErrorClass → Halt

-- What a round of `send_next` ends with: the job it acted on, whether an exception left it, what
-- halts the runner, the tables, and the calls to Telegram.
pub record Round : Type 0 where
  pub acted : Option String
  pub raised : Bool
  pub halted : Option Halt
  pub tables : ResultTables
  pub calls : List Call

-- `hints[0] or plan.account_id`
abbrev pub hinted : Option (Option String × Bool) → DeliveryPlan → DeliveryPlan
hinted none plan = plan
hinted (some (none, transform)) plan = record plan {
  fetch_account_id = some plan.account_id;
  transform = transform;
}
hinted (some (some account, transform)) plan = record plan {
  fetch_account_id = some (if account == "" then plan.account_id else account);
  transform = transform;
}

-- The `except Exception` around the executor.
abbrev pub executed : DeliveryPlan → Execution → DeliveryResult
executed plan (result r) = r
executed plan (raised e) = record {
  plan = plan;
  status = ResultStatus.uncertain;
  target_message_ids = [];
  error_class = some ErrorClass.result_unknown;
  error_detail = some e;
  flood_wait_until = none;
  decision = none;
}

abbrev pub halt_of : Option ErrorClass → Option Halt
halt_of none = none
halt_of (some err) = some (error err)

abbrev pub with_jobs : ResultTables → Jobs → ResultTables
with_jobs db jobs = record db { tables = record (db.tables) { jobs = jobs } }

-- `_record` on the tables.
abbrev pub recorded : Recording → DeliveryJob → Moments → ResultTables → List Call → Round
recorded raises job at db calls = record {
  acted = none;
  raised = true;
  halted = none;
  tables = db;
  calls = calls;
}
recorded (records values halt) job at db calls = record {
  acted = some job.id;
  raised = false;
  halted = halt_of halt;
  tables = (record_result job job.attempt_count values at.map_id at.writes db).1;
  calls = calls;
}

abbrev pub targets_of : PlanKind → DeliveryJob → Maps → Option (List ℤ)
targets_of PlanKind.send job maps = none
targets_of _ job maps = some (
    find_target_message_ids job.route_id job.source_scope job.source_chat_id job.source_message_id
      maps)

module _ (deps : RunnerDeps) (account_id : String) (generation : ℕ) (at : Moments) where
  unfoldable pub run_executor : DeliveryPlan → DeliveryJob → Maps → Execution × List Call
  run_executor plan job maps =
      execute deps.transport plan (deps.live account_id) deps.policy (deps.approvals job) generation
        job.tenant_id job.project_id at.executes (targets_of plan.kind job maps)

  unfoldable pub send : DeliveryPlan → DeliveryJob → ResultTables → Round
  send plan job db =
      let jobs =
        (transition job.id JobStatus.leased JobStatus.sending none none none at.moves
          db.tables.jobs).1 in
      let (execution, calls) = run_executor plan job db.maps in
      recorded
        (recording deps.retry_policy job.attempt_count at.retries at.draw (executed plan execution))
        job at (with_jobs db jobs) calls

  abbrev pub put_back : JobStatus → Option ℕ → Option Halt → DeliveryJob → ResultTables → Round
  put_back dst next halt job db = record {
    acted = some job.id;
    raised = false;
    halted = halt;
    tables =
        with_jobs db
          (transition job.id JobStatus.leased dst next none none at.moves db.tables.jobs).1;
    calls = [];
  }

  abbrev pub after_gate : Decision → DeliveryPlan → DeliveryJob → ResultTables → Round
  after_gate Decision.allow plan job db = send plan job db
  after_gate Decision.blocked_lease plan job db =
      put_back JobStatus.ready none (some lease_lost) job db
  after_gate Decision.blocked_rate plan job db =
      put_back JobStatus.ready
        (next_attempt_at deps.retry_policy job.attempt_count at.checks at.draw) none job db
  after_gate _ plan job db = put_back JobStatus.blocked none none job db

  unfoldable pub gate : DeliveryPlan → DeliveryJob → Decision
  gate plan job =
      check (checkable deps.transport plan generation job.tenant_id job.project_id)
        (deps.live account_id) deps.policy (deps.approvals job) at.checks

  abbrev pub with_plan : Option DeliveryPlan → DeliveryJob → ResultTables → Round
  with_plan none job db = record {
    acted = none;
    raised = true;
    halted = none;
    tables = db;
    calls = [];
  }
  with_plan (some plan) job db =
      let plan' = hinted (deps.plan_hints plan.rule_id plan.rule_version) plan in
      after_gate (gate plan' job) plan' job db

  abbrev pub with_job : Claim → ResultTables → Round
  with_job Claim.nothing db = record {
    acted = none;
    raised = false;
    halted = none;
    tables = db;
    calls = [];
  }
  with_job Claim.raised db = record {
    acted = none;
    raised = true;
    halted = none;
    tables = db;
    calls = [];
  }
  with_job (Claim.won job) db = with_plan (plan_from_job job) job db

  unfoldable pub send_next : ResultTables → Round
  send_next db =
      let (claim, tables) = claim_next account_id generation at.claims db.tables in
      with_job claim (record db { tables = tables })
