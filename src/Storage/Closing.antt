-- ===== src/Storage/Closing.antt =====
-- runtime/storage/repos.py, DeliveryJobRepository.record_result, which closes an attempt.
use tdaudiibncba.Common.{
  ℕ, ℤ, String, Bool, true, false, ◌&&◌, Option, none, some, ◌==◌, update_by, if◌then◌else◌,
  string_eq, nat_eq, int_eq, list_eq, pair_eq,
}
use tdaudiibncba.Delivery.Status.{JobStatus, status_eq}
use tdaudiibncba.Delivery.Errors.{ErrorClass}
use tdaudiibncba.Storage.Jobs.{DeliveryJob, DeliveryAttempt, AttemptStatus, Jobs, guarded, moved_to}
use tdaudiibncba.Storage.Claiming.{JobTables}
use tdaudiibncba.Storage.Maps.{MessageMap, Maps, insert_map}

pub record ResultTables : Type 0 where
  pub tables : JobTables
  pub maps : Maps

-- What a result says, the arguments of `record_result`.
pub record ResultValues : Type 0 where
  pub new_status : JobStatus
  pub error_class : Option ErrorClass
  pub next_attempt_at : Option ℕ
  pub flood_wait_until : Option ℕ
  pub target_message_id : Option ℤ
  pub request_ref : Option String

abbrev pub is_attempt : String → ℕ → DeliveryAttempt → Bool
is_attempt job_id attempt_no attempt =
    (attempt.job_id == job_id) && (attempt.attempt_no == attempt_no)

abbrev pub finished : ResultValues → ℕ → DeliveryAttempt → DeliveryAttempt
finished values now attempt = record attempt {
  finished_at = some now;
  result_status = some (AttemptStatus.became values.new_status);
  error_class = values.error_class;
  request_ref = values.request_ref;
}

abbrev pub map_of_job : DeliveryJob → ℤ → String → MessageMap
map_of_job job target_message_id id = record {
  id = id;
  tenant_id = job.tenant_id;
  project_id = job.project_id;
  rule_id = job.rule_id;
  route_id = job.route_id;
  rule_version_at_create = job.rule_version;
  source_scope = job.source_scope;
  source_chat_id = job.source_chat_id;
  source_message_id = job.source_message_id;
  source_album_id = job.grouped_id;
  source_member_index = none;
  sender_account_id = job.account_id;
  target_chat_id = job.target_chat_id;
  target_topic_id = job.target_topic_id;
  target_message_id = target_message_id;
  output_part_index = 0;
  last_applied_revision = job.revision;
  delivery_job_id = some job.id;
  status = "delivered";
  deleted_at = none;
}

-- The map row of a successful send, if its key is free.
unfoldable pub map_result : DeliveryJob → JobStatus → Option ℤ → String → Maps → Maps
map_result job new_status none id maps = maps
map_result job new_status (some target) id maps =
    if (new_status == JobStatus.succeeded) && (job.kind == "send")
    then (insert_map (map_of_job job target id) maps).1
    else maps

abbrev pub after_update :
    Bool × Jobs → DeliveryJob → ℕ → ResultValues → String → ℕ → ResultTables → Bool × ResultTables
after_update (false, jobs) job attempt_no values map_id now db = (false, db)
after_update (true, jobs) job attempt_no values map_id now db = (
  true,
  record {
    tables = record {
      jobs = jobs;
      attempts = update_by (is_attempt job.id attempt_no) (finished values now) db.tables.attempts;
    };
    maps = map_result job values.new_status values.target_message_id map_id db.maps;
  },
)

unfoldable pub record_result :
    DeliveryJob → ℕ → ResultValues → String → ℕ → ResultTables → Bool × ResultTables
record_result job attempt_no values map_id now db =
    after_update
      (guarded job.id JobStatus.sending
        (moved_to values.new_status values.next_attempt_at values.flood_wait_until
          values.error_class now)
        db.tables.jobs)
      job attempt_no values map_id now db
