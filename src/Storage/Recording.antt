-- ===== src/Storage/Recording.antt =====
-- A result is recorded once, with its mapping; a deleted mapping is not found again
-- (runtime/storage/repos.py).
use tdaudiibncba.Common.{
  ℕ, ℤ, String, ◌≡◌, ◌≢◌, refl, ◌⊎◌, inl, inr, Bool, true, false, ◌&&◌, Option, none, some, ◌==◌,
  update_by, Bool-cases, Option-cases, string_eq, nat_eq, int_eq, list_eq, pair_eq,
}
use tdaudiibncba.Common.Dict
use tdaudiibncba.Common.Dict.{get-put}
use tdaudiibncba.Delivery.Status.{JobStatus, status_eq}
use tdaudiibncba.Storage.Jobs.{AttemptStatus, DeliveryJob, Jobs, guarded, moved_to}
use tdaudiibncba.Storage.Maps.{MessageMap, Maps, map_key, insert_map}
use tdaudiibncba.Storage.Closing.{
  ResultTables, ResultValues, map_of_job, map_result, after_update, record_result,
}
use tdaudiibncba.Storage.Results.{Guarded, guarded-Guarded}

abbrev change_of : ResultValues → ℕ → DeliveryJob → DeliveryJob
change_of values now =
    moved_to values.new_status values.next_attempt_at values.flood_wait_until values.error_class now

-- The row of the map that a job's message has, column by column.
pub record IsMapOf (job : DeliveryJob) (target : ℤ) (id : String) (row : MessageMap) : Type 0 where
  pub own : row.id ≡ id
  pub scope : (row.tenant_id ≡ job.tenant_id) × (row.project_id ≡ job.project_id)
  pub rule :
      (row.rule_id ≡ job.rule_id)
      × (row.route_id ≡ job.route_id)
      × (row.rule_version_at_create ≡ job.rule_version)
  pub source :
      (row.source_scope ≡ job.source_scope)
      × (row.source_chat_id ≡ job.source_chat_id)
      × (row.source_message_id ≡ job.source_message_id)
  pub album : (row.source_album_id ≡ job.grouped_id) × (row.source_member_index ≡ none)
  pub sender : row.sender_account_id ≡ job.account_id
  pub chat : (row.target_chat_id ≡ job.target_chat_id) × (row.target_topic_id ≡ job.target_topic_id)
  pub message : (row.target_message_id ≡ target) × (row.output_part_index ≡ 0)
  pub job_id : (row.delivery_job_id ≡ some job.id) × (row.last_applied_revision ≡ job.revision)
  pub is_live : (row.status ≡ "delivered") × (row.deleted_at ≡ none)

-- What a row does to the map: it is put under its key if the key is free, and else changes nothing.
abbrev pub Inserted : MessageMap → Maps → Maps → Type 0
Inserted row maps maps' =
    ((Dict.get maps (map_key row) ≡ none) × (maps' ≡ Dict.put maps (map_key row) row))
    ⊎ ((old : MessageMap) × (Dict.get maps (map_key row) ≡ some old) × (maps' ≡ maps))

-- What a result does to the map, by whether it is the success of a `send` job and by its message id.
abbrev pub MapsAfter : Bool → DeliveryJob → Option ℤ → String → Maps → Maps → Type 0
MapsAfter true job (some target) id maps maps' =
    (row : MessageMap) × IsMapOf job target id row × Inserted row maps maps'
MapsAfter true job none id maps maps' = maps' ≡ maps
MapsAfter false job target id maps maps' = maps' ≡ maps

abbrev pub is_sent : DeliveryJob → ResultValues → Bool
is_sent job values = (values.new_status == JobStatus.succeeded) && (job.kind == "send")

-- What `record_result` has done, by its answer.
abbrev pub Recorded :
    DeliveryJob → ℕ → ResultValues → String → ℕ → ResultTables → Bool × ResultTables → Type 0
Recorded job attempt_no values map_id now db (true, db') =
    ((row : DeliveryJob) × (Dict.get db.tables.jobs job.id ≡ some row)
      × (row.status ≡ JobStatus.sending)
      × (db'.tables.jobs
          ≡ Dict.put db.tables.jobs job.id (record row {
            status = values.new_status;
            next_attempt_at = values.next_attempt_at;
            flood_wait_until = values.flood_wait_until;
            last_error_class = values.error_class;
            updated_at = now;
          })))
    × (db'.tables.attempts
        ≡ update_by (λ a. (a.job_id == job.id) && (a.attempt_no == attempt_no))
            (λ a. record a {
              finished_at = some now;
              result_status = some (AttemptStatus.became values.new_status);
              error_class = values.error_class;
              request_ref = values.request_ref;
            })
            db.tables.attempts)
    × MapsAfter (is_sent job values) job values.target_message_id map_id db.maps db'.maps
Recorded job attempt_no values map_id now db (false, db') =
    (db' ≡ db)
    × ((row : DeliveryJob)
        → Dict.get db.tables.jobs job.id ≡ some row
        → row.status ≢ JobStatus.sending)

insert-Inserted : (row : MessageMap) (maps : Maps) → Inserted row maps (insert_map row maps).1
unfolding insert_map
insert-Inserted row maps = elim (Option-cases (Dict.get maps (map_key row))) [
  | inl free ↦ rw free (inl (refl, refl))
  | inr (old, e) ↦ rw e (inr (old, refl, refl))
]

map_of_job-IsMapOf :
    (job : DeliveryJob) (target : ℤ) (id : String)
    → IsMapOf job target id (map_of_job job target id)
map_of_job-IsMapOf job target id = record {
  own = refl;
  scope = (refl, refl);
  rule = (refl, refl, refl);
  source = (refl, refl, refl);
  album = (refl, refl);
  sender = refl;
  chat = (refl, refl);
  message = (refl, refl);
  job_id = (refl, refl);
  is_live = (refl, refl);
}

map_result-MapsAfter :
    (job : DeliveryJob) (s : JobStatus) (target : Option ℤ) (id : String) (maps : Maps)
    → MapsAfter
        ((s == JobStatus.succeeded) && (job.kind == "send"))
        job
        target
        id
        maps
        (map_result job s target id maps)
unfolding map_result
map_result-MapsAfter job s none id maps =
    elim (Bool-cases ((s == JobStatus.succeeded) && (job.kind == "send"))) [
      | inl p ↦ rw p refl
      | inr p ↦ rw p refl
    ]
map_result-MapsAfter job s (some target) id maps =
    let row = map_of_job job target id in
    elim (Bool-cases ((s == JobStatus.succeeded) && (job.kind == "send"))) [
      | inl p ↦ rw p (row, map_of_job-IsMapOf job target id, insert-Inserted row maps)
      | inr p ↦ rw p refl
    ]

Recorded-of :
    (job : DeliveryJob) (attempt_no : ℕ) (values : ResultValues) (map_id : String) (now : ℕ)
    (db : ResultTables) (r : Bool × Jobs)
    → Guarded job.id JobStatus.sending (change_of values now) db.tables.jobs r
    → Recorded job attempt_no values map_id now db
        (after_update r job attempt_no values map_id now db)
Recorded-of job attempt_no values map_id now db (true, jobs) (row, e, was, stored) = (
  (row, e, was, stored),
  refl,
  map_result-MapsAfter job values.new_status values.target_message_id map_id db.maps,
)
Recorded-of job attempt_no values map_id now db (false, jobs) (same, no_row) = (refl, no_row)

-- `record_result` on every branch. It answers true exactly if the job's row was in `sending`: then the
-- row has the new status and its values, and the attempt of the given number is finished with them. The
-- success of a job of the kind `send` that has a message id puts the job's row, with that message id,
-- into the message map, unless its key is taken; every other result, the success of a job of another
-- kind such as `send_message` included, leaves the map as it was. It answers false exactly if the row
-- was not in `sending`, and then nothing has changed.
pub record_result-Recorded :
    (job : DeliveryJob) (attempt_no : ℕ) (values : ResultValues) (map_id : String) (now : ℕ)
    (db : ResultTables)
    → Recorded job attempt_no values map_id now db
        (record_result job attempt_no values map_id now db)
unfolding record_result
record_result-Recorded job attempt_no values map_id now db =
    Recorded-of job attempt_no values map_id now db
      (guarded job.id JobStatus.sending (change_of values now) db.tables.jobs)
      (guarded-Guarded job.id JobStatus.sending (change_of values now) db.tables.jobs)
