-- ===== src/Storage/Results.antt =====
-- What recording a result and deleting a mapping promise (runtime/storage/repos.py).
use tdaudiibncba.Common.{
  some_inj, none≢some, ℕ, ℤ, String, ◌≡◌, ◌≢◌, refl, sym, ap, ◌∙◌, inl, inr, Bool, true, false,
  ◌&&◌, Option, none, some, ◌==◌, is_some, string_eq, nat_eq, int_eq, list_eq, pair_eq, Bool-cases,
  Option-cases, eq_of_beq, ne_of_beq,
}
use tdaudiibncba.Common.Dict
use tdaudiibncba.Common.Dict.{Dict, get-put, get-put_cases}
use tdaudiibncba.Delivery.Status.{JobStatus, status_eq}
use tdaudiibncba.Storage.Jobs.{DeliveryJob, Jobs, guarded, moved_to}
use tdaudiibncba.Storage.Maps.{MessageMap, MapKey, Maps, map_key, insert_map}
use tdaudiibncba.Storage.Closing.{
  ResultTables, ResultValues, map_of_job, map_result, after_update, record_result,
}

-- What a guarded UPDATE has done, by whether it hit.
abbrev pub Guarded : String → JobStatus → (DeliveryJob → DeliveryJob) → Jobs → Bool × Jobs → Type 0
Guarded id src change jobs (true, jobs') =
    (row : DeliveryJob) × (Dict.get jobs id ≡ some row)
    × (row.status ≡ src)
    × (jobs' ≡ Dict.put jobs id (change row))
Guarded id src change jobs (false, jobs') =
    (jobs' ≡ jobs) × ((row : DeliveryJob) → Dict.get jobs id ≡ some row → row.status ≢ src)

-- A guarded update moves a job exactly if it is in the state that the guard names, and otherwise
-- changes nothing.
pub guarded-Guarded :
    (id : String) (src : JobStatus) (change : DeliveryJob → DeliveryJob) (jobs : Jobs)
    → Guarded id src change jobs (guarded id src change jobs)
unfolding guarded
guarded-Guarded id src change jobs = elim (Option-cases (Dict.get jobs id)) [
  | inl e ↦ rw e (refl, λ row h. absurd (none≢some (sym e ∙ h)))
  | inr (row, e) ↦ elim (Bool-cases (row.status == src)) [
    | inl hit ↦ rw (e, hit) (row, e, eq_of_beq row.status src hit, refl)
    | inr miss ↦
        rw (e, miss)
          (
            refl,
            λ r h p.
                ne_of_beq row.status src miss
                  (ap (λ (x : DeliveryJob). x.status) (some_inj (sym e ∙ h)) ∙ p),
          )
  ]
]

free_key :
    (maps : Maps) (k j : MapKey) (row : MessageMap)
    → is_some (Dict.get maps k) ≡ false
    → k ≡ j
    → Dict.get maps j ≡ some row
    → ⊥
free_key maps k j row free same h =
    let filled : is_some (Dict.get maps k) ≡ true = rw (ap (Dict.get maps) same ∙ h) in
    cc (free, filled)

insert_keeps :
    (row old : MessageMap) (k : MapKey) (maps : Maps)
    → Dict.get maps k ≡ some old
    → Dict.get (insert_map row maps).1 k ≡ some old
unfolding insert_map
insert_keeps row old k maps h = elim (Bool-cases (is_some (Dict.get maps (map_key row)))) [
  | inl taken ↦ rw taken h
  | inr free ↦ elim (Bool-cases (map_key row == k)) [
    | inl same ↦ absurd (free_key maps (map_key row) k old free (eq_of_beq (map_key row) k same) h)
    | inr other ↦ rw (free, get-put maps (map_key row) k row, other) h
  ]
]

map_result-keeps :
    (job : DeliveryJob) (status : JobStatus) (target : Option ℤ) (id : String) (maps : Maps)
    (k : MapKey) (old : MessageMap)
    → Dict.get maps k ≡ some old
    → Dict.get (map_result job status target id maps) k ≡ some old
unfolding map_result
map_result-keeps job status none id maps k old h = h
map_result-keeps job status (some target) id maps k old h =
    elim (Bool-cases ((status == JobStatus.succeeded) && (job.kind == "send"))) [
      | inl p ↦ rw p (insert_keeps (map_of_job job target id) old k maps h)
      | inr p ↦ rw p h
    ]

after_update-keeps :
    (r : Bool × Jobs) (job : DeliveryJob) (attempt_no : ℕ) (values : ResultValues) (id : String)
    (now : ℕ) (db : ResultTables) (k : MapKey) (old : MessageMap)
    → Dict.get db.maps k ≡ some old
    → Dict.get (after_update r job attempt_no values id now db).1.maps k ≡ some old
after_update-keeps (true, jobs) job attempt_no values id now db k old h =
    map_result-keeps job values.new_status values.target_message_id id db.maps k old h
after_update-keeps (false, jobs) job attempt_no values id now db k old h = h

-- Recording a result never overwrites or loses a mapping, whatever the result is.
pub record_result-keeps_maps :
    (job : DeliveryJob) (attempt_no : ℕ) (values : ResultValues) (id : String) (now : ℕ)
    (db : ResultTables) (k : MapKey) (old : MessageMap)
    → Dict.get db.maps k ≡ some old
    → Dict.get (record_result job attempt_no values id now db).1.maps k ≡ some old
unfolding record_result
record_result-keeps_maps job attempt_no values id now db k old h =
    after_update-keeps
      (guarded job.id JobStatus.sending
        (moved_to values.new_status values.next_attempt_at values.flood_wait_until
          values.error_class now)
        db.tables.jobs)
      job attempt_no values id now db k old h
