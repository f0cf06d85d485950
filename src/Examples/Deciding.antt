-- ===== src/Examples/Deciding.antt =====
-- The theorems on the platform's services, on one approval, one command and one job.
use tdaudiibncba.Common.{
  pos, negsuc, String, ◌≡◌, refl, true, false, none, some, [], ◌∷◌, contains, string_eq, nat_eq,
  list_eq, ◌==◌, if◌then◌else◌,
}
use tdaudiibncba.Common.Dict
use tdaudiibncba.Delivery.Status.{JobStatus, place, can_transition, status_eq}
use tdaudiibncba.Storage.Jobs.{DeliveryJob, key_taken}
use tdaudiibncba.Storage.Closing.{ResultTables, ResultValues, record_result}
use tdaudiibncba.Host.Payload.{Candidate, text, candidate_text}
use tdaudiibncba.Platform.Store.{
  User, Owner, Account, ReviewStatus, ReplyCandidate, Approval, Store, returned, get_approval,
  get_candidate, get_tenant, get_project, get_account_in, in_scope,
}
use tdaudiibncba.Platform.Approvals.{approval_key, send_job, create_send_job}
use tdaudiibncba.Platform.Verdicts.{Decision, decided, decide, decide_request}
use tdaudiibncba.Platform.Deciding.{Decided}
use tdaudiibncba.Platform.Judging.{decide_request-Decided}
use tdaudiibncba.Platform.Finality.{approved_text}
use tdaudiibncba.Platform.Commands.{
  CommandAccount, RuntimeCommand, Queue, CommandParam, command, new_command, by_key, key_used,
  issue,
}
use tdaudiibncba.Platform.Replays.{issue-replay}
use tdaudiibncba.Platform.Deliveries.{
  Scopes, updated, check_job_scope, cancellable, cancel_given, cancel, retry, cancelled, retried,
}
use tdaudiibncba.Platform.Interventions.{
  Touches, IsRevivable, cancel-Touches, retry-Touches, stale_cancel_loses_result,
}
use tdaudiibncba.Worker.Outcomes.{values}
use tdaudiibncba.Examples.Running.{ready_job}

abbrev admin : User
admin = record { id = 1; is_superuser = true }

abbrev candidate : ReplyCandidate
candidate = record {
  id = 5;
  uuid = "c5";
  tenant_id = 1;
  project_id = 2;
  account_id = 3;
  target_chat_id = negsuc 499;
  target_topic_id = none;
  reply_to_source_id = some (pos 7);
  rule_id = none;
  content = "hello";
  content_hash = "h(hello)";
  version = 1;
  expires_at = 900;
  status = ReviewStatus.pending;
  deleted = false;
}

abbrev approval : Approval
approval = record {
  id = 8;
  uuid = "a8";
  tenant_id = 1;
  project_id = 2;
  candidate_id = 5;
  candidate_version = 1;
  content_hash = "h(hello)";
  expires_at = 900;
  status = ReviewStatus.pending;
  reviewer_id = none;
  decided_at = none;
  reason = none;
  deleted = false;
}

abbrev store : Store
store = record {
  memberships = [];
  tenants = (1, record { uuid = "t1"; deleted = false }) ∷ [];
  projects = (2, record { uuid = "p2"; deleted = false }) ∷ [];
  accounts = (3, record { uuid = "acc3"; tenant_id = 1; project_id = 2; deleted = false }) ∷ [];
  candidates = (5, candidate) ∷ [];
  approvals = (8, approval) ∷ [];
  jobs = [];
}

abbrev approve : Decision
approve = record { approves = true; expect_version = 1; expect_hash = "h(hello)"; reason = none }

decide_request-Decided_example :
    Decided admin 8 approve "j9" 50 store (decide_request admin 8 approve "j9" 50 store)
decide_request-Decided_example = decide_request-Decided admin 8 approve "j9" 50 store

abbrev approved_row : Approval
approved_row = decided admin approve 50 approval

answered : (decide_request admin 8 approve "j9" 50 store).0 ≡ returned (some approved_row)
unfolding decide_request decide get_approval Dict.get in_scope get_candidate create_send_job
    key_taken get_tenant get_project get_account_in Dict.put
answered = refl

abbrev tenant : Owner
tenant = record { uuid = "t1"; deleted = false }

abbrev project : Owner
project = record { uuid = "p2"; deleted = false }

abbrev account : Account
account = record { uuid = "acc3"; tenant_id = 1; project_id = 2; deleted = false }

abbrev made_job : DeliveryJob
made_job = send_job approval candidate tenant project account "j9" 50

abbrev hash : String → String
hash s = if s == "hello" then "h(hello)" else "h"

abbrev handed_out : Candidate
handed_out = record { status = "approved"; content = "hello" }

found : get_approval store 8 ≡ some approval
unfolding get_approval Dict.get
found = refl

key_new : key_taken store.jobs (approval_key approval.uuid) ≡ false
unfolding key_taken
key_new = refl

job_stored : Dict.get (decide_request admin 8 approve "j9" 50 store).1.jobs "j9" ≡ some made_job
unfolding decide_request decide get_approval Dict.get in_scope get_candidate create_send_job
    key_taken get_tenant get_project get_account_in Dict.put
job_stored = refl

resolved : candidate_text hash handed_out made_job.payload_hash ≡ text "hello"
unfolding candidate_text send_job
resolved = refl

abbrev seen_hash : String
seen_hash = "h(hello)"

approved_text_example : hash "hello" ≡ seen_hash
approved_text_example =
    approved_text hash admin 8 approve "j9" 50 store (some approved_row) approval made_job
      handed_out "hello" refl refl found key_new answered job_stored resolved

abbrev watcher : CommandAccount
watcher = record { tenant_id = 1; project_id = 2; deleted = false }

abbrev queue : Queue
queue = record { memberships = []; accounts = (3, watcher) ∷ []; commands = [] }

abbrev stop : CommandParam
stop = record {
  kind = "StopAccount";
  payload = none;
  expected_generation = none;
  dedup_key = some "k1";
}

abbrev stop_command : RuntimeCommand
stop_command = new_command admin 3 watcher stop 70 "fresh" 50

issued : (issue admin 3 stop 70 "fresh" 50 queue).0 ≡ command stop_command
unfolding issue Dict.get by_key key_used
issued = refl

account_there : Dict.get (issue admin 3 stop 70 "fresh" 50 queue).1.accounts 3 ≡ some watcher
unfolding issue Dict.get by_key key_used
account_there = refl

issue-replay_example :
    issue admin 3 stop 71 "other" 60 (issue admin 3 stop 70 "fresh" 50 queue).1
    ≡ (command stop_command, (issue admin 3 stop 70 "fresh" 50 queue).1)
issue-replay_example =
    issue-replay admin admin 3 3 stop stop 70 71 "fresh" "other" 50 60 queue "k1" stop_command
      watcher refl refl refl issued account_there refl refl

abbrev scopes : Scopes
scopes = record { memberships = []; tenants = []; projects = [] }

cancel-Touches_example :
    Touches
      (λ s. can_transition s JobStatus.cancelled ≡ true)
      cancelled
      scopes
      admin
      "j1"
      (("j1", ready_job) ∷ [])
      (cancel scopes admin "j1" (("j1", ready_job) ∷ []))
cancel-Touches_example = cancel-Touches scopes admin "j1" (("j1", ready_job) ∷ [])

retry-Touches_example :
    Touches IsRevivable retried scopes admin "j1"
      (("j1", record ready_job { status = JobStatus.dead_letter }) ∷ [])
      (retry scopes admin "j1" (("j1", record ready_job { status = JobStatus.dead_letter }) ∷ []))
retry-Touches_example =
    retry-Touches scopes admin "j1"
      (("j1", record ready_job { status = JobStatus.dead_letter }) ∷ [])

abbrev sending_job : DeliveryJob
sending_job = record ready_job { status = JobStatus.sending }

abbrev sending_tables : ResultTables
sending_tables = record {
  tables = record { jobs = ("j1", sending_job) ∷ []; attempts = [] };
  maps = [];
}

abbrev sent : ResultValues
sent = values JobStatus.succeeded none

abbrev overridden : ResultTables
overridden = record sending_tables {
  tables = record (sending_tables.tables) {
    jobs = (cancel_given scopes admin (some ready_job) "j1" sending_tables.tables.jobs).1;
  };
}

scope_ok : check_job_scope scopes admin ready_job ≡ none
unfolding check_job_scope
scope_ok = refl

may_cancel : contains cancellable ready_job.status ≡ true
unfolding contains cancellable place
may_cancel = refl

row_there : Dict.get sending_tables.tables.jobs "j1" ≡ some sending_job
unfolding Dict.get
row_there = refl

stale_cancel_loses_result_example :
    ((cancel_given scopes admin (some ready_job) "j1" sending_tables.tables.jobs).0 ≡ updated true)
    × (record_result ready_job 1 sent "m1" 99 overridden ≡ (false, overridden))
stale_cancel_loses_result_example =
    stale_cancel_loses_result scopes admin ready_job sending_job ready_job sending_tables 1 sent
      "m1" 99 scope_ok may_cancel row_there refl
