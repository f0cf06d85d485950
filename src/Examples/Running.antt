-- ===== src/Examples/Running.antt =====
-- The theorems on the runner, on one ready job and a transport that crashes.
use tdaudiibncba.Common.{
  some_inj, none≢some, exists_by, update_by, int_eq, list_eq, pair_eq, pos, negsuc, String, ◌≡◌,
  refl, false, none, some, [], ◌∷◌, string_eq, nat_eq, ◌==◌, Bool-cases, inl, inr, ap, sym, ◌∙◌,
  eq_of_beq,
}
use tdaudiibncba.Common.Dict
use tdaudiibncba.Common.Dict.{Dict}
use tdaudiibncba.Planner.Model.{DeliveryPlan}
use tdaudiibncba.Delivery.Status.{JobStatus, place}
use tdaudiibncba.Delivery.Errors.{default_policy}
use tdaudiibncba.Storage.Jobs.{DeliveryJob, job_from_plan, guarded}
use tdaudiibncba.Storage.Claiming.{
  Claim, number_taken, claim_next, claim_from, candidates, reclaim_stale_sending, reclaim_jobs,
  stale_ids,
}
use tdaudiibncba.Storage.Maps.{MessageMap, Maps, map_key}
use tdaudiibncba.Storage.Closing.{ResultTables, map_of_job}
use tdaudiibncba.Storage.Claimed.{IsFiled}
use tdaudiibncba.Worker.Runner.{RunnerDeps, Moments, plan_from_job, send_next, job_kind_alias}
use tdaudiibncba.Worker.Settled.{IsSettled}
use tdaudiibncba.Worker.Total.{plan_from_job-job_from_plan, send_next-IsSettled}
use tdaudiibncba.Examples.Data.{news_plan, live_sender, open_policy, crashing_transport}

plan_from_job-job_from_plan_example :
    plan_from_job (job_from_plan news_plan "t" "p" "j1" 10)
    ≡ some (record news_plan { fetch_account_id = none; transform = false })
plan_from_job-job_from_plan_example = plan_from_job-job_from_plan news_plan "t" "p" "j1" 10

abbrev pub ready_job : DeliveryJob
ready_job = record {
  id = "j1";
  tenant_id = "t";
  project_id = "p";
  idempotency_key = [];
  kind = "send";
  route_id = "r1";
  rule_id = "rule1";
  rule_version = 3;
  account_id = "sender1";
  source_scope = [];
  source_chat_id = negsuc 99;
  source_message_id = pos 7;
  revision = 1;
  target_chat_id = negsuc 499;
  target_topic_id = none;
  mode = news_plan.mode;
  payload_ref = none;
  payload_hash = none;
  requires_approval = false;
  reply_to_target_message_id = none;
  grouped_id = none;
  status = JobStatus.ready;
  attempt_count = 0;
  next_attempt_at = none;
  flood_wait_until = none;
  last_error_class = none;
  updated_at = 10;
}

abbrev pub tables : ResultTables
tables = record { tables = record { jobs = ("j1", ready_job) ∷ []; attempts = [] }; maps = [] }

abbrev pub deps : RunnerDeps
deps = record {
  transport = crashing_transport;
  live = λ a. live_sender;
  policy = open_policy;
  approvals = λ j. none;
  plan_hints = λ r v. none;
  retry_policy = default_policy;
}

abbrev pub moments : Moments
moments = record {
  claims = 50;
  checks = 51;
  moves = 52;
  executes = 53;
  retries = 54;
  writes = 55;
  draw = 200;
  map_id = "m1";
}

abbrev claimed_job : DeliveryJob
claimed_job = record ready_job { status = JobStatus.leased; attempt_count = 1; updated_at = 50 }

job_claimed : (claim_next "sender1" 4 50 tables.tables).0 ≡ Claim.won claimed_job
unfolding claim_next claim_from candidates guarded reclaim_stale_sending reclaim_jobs stale_ids
    Dict.get Dict.put place number_taken exists_by update_by
job_claimed = refl

abbrev claimed_plan : DeliveryPlan
claimed_plan = record news_plan {
  source_scope = [];
  payload_ref = none;
  payload_hash = none;
  fetch_account_id = none;
}

job_planned : plan_from_job claimed_job ≡ some claimed_plan
unfolding plan_from_job job_kind_alias
job_planned = refl

filed_under :
    (id : String) (job : DeliveryJob) → Dict.get tables.tables.jobs id ≡ some job → job.id ≡ id
unfolding Dict.get
filed_under id job h = elim (Bool-cases ("j1" == id)) [
  | inl p ↦ ap (λ (j : DeliveryJob). j.id) (sym (some_inj (rw p at h))) ∙ eq_of_beq "j1" id p
  | inr p ↦ absurd (none≢some (rw p at h))
]

pub tables-IsFiled : IsFiled tables.tables.jobs
tables-IsFiled = record { own = filed_under }

send_next-IsSettled_example :
    ((send_next deps "sender1" 4 moments tables).raised ≡ false)
    × IsSettled (Dict.get (send_next deps "sender1" 4 moments tables).tables.tables.jobs "j1")
send_next-IsSettled_example =
    send_next-IsSettled deps "sender1" 4 moments tables claimed_job claimed_plan tables-IsFiled
      job_claimed job_planned

abbrev reply_map : MessageMap
reply_map = map_of_job ready_job (pos 501) "m1"

abbrev maps : Maps
maps = (map_key reply_map, reply_map) ∷ []
