-- ===== src/Examples/Storing.antt =====
-- The theorems on storage: a news event that is ingested and planned, and a job that is claimed,
-- recorded and mapped.
use tdaudiibncba.Common.{
  some_inj, none≢some, exists_by, All, ℕ, pos, zero, suc, String, ◌≡◌, ◌≢◌, refl, false, none, some,
  List, [], ◌∷◌, arith, string_eq, nat_eq, pair_eq, list_eq, int_eq, inl, inr, ap, sym, ◌∙◌, ◌==◌,
  Bool-cases, eq_of_beq,
}
use tdaudiibncba.Common.Dict
use tdaudiibncba.Planner.Model.{DeliveryPlan}
use tdaudiibncba.Delivery.Status.{JobStatus, place}
use tdaudiibncba.Storage.Inbox.{Tables, EventInbox, inbox_row, inbox_key, ingest}
use tdaudiibncba.Storage.Ingestion.{ingest-replay}
use tdaudiibncba.Storage.Jobs.{DeliveryJob, job_from_plan, insert_plans, guarded}
use tdaudiibncba.Storage.Claiming.{JobTables, Claim, number_taken, claim_from}
use tdaudiibncba.Storage.Claims.{claim_from_distinct}
use tdaudiibncba.Storage.Claimed.{IsFiled, Claims}
use tdaudiibncba.Storage.Drain.{IsFresh, insert_plans-replay}
use tdaudiibncba.Storage.Closing.{ResultTables, ResultValues, record_result}
use tdaudiibncba.Storage.Recording.{Recorded, record_result-Recorded}
use tdaudiibncba.Storage.Batches.{DrainTables, row_key, drain_to_jobs}
use tdaudiibncba.Storage.Drained.{IsDone, batch_plans, drain_to_jobs-drains}
use tdaudiibncba.Examples.Data.{news_event, news_plan}

abbrev no_rows : Tables
no_rows = record { sources = []; inbox = [] }

ingest-replay_example :
    let db' = (ingest news_event "t" "p" 1 no_rows).1 in
    ingest news_event "t2" "p" 2 db' ≡ (false, db')
ingest-replay_example = ingest-replay news_event news_event "t" "p" "t2" "p" 1 2 no_rows refl

-- The ids "", "a", "aa" and so on.
abbrev ids : ℕ → String
ids zero = ""
ids (suc n) = String.◌∷◌ "a" (ids n)

ids_distinct : (m n : ℕ) → ids m ≡ ids n → m ≡ n
ids_distinct zero zero p = refl
ids_distinct zero (suc n) p = cc
ids_distinct (suc m) zero p = cc
ids_distinct (suc m) (suc n) p = omega (arith, ids_distinct m n cc)

ids-IsFresh : IsFresh ids []
unfolding Dict.get
ids-IsFresh = record { free = λ n. refl; distinct = ids_distinct }

insert_plans-replay_example :
    let jobs' = insert_plans (news_plan ∷ news_plan ∷ []) "t" "p" ids 10 [] in
    insert_plans (news_plan ∷ news_plan ∷ []) "t" "p" (λ n. "x") 20 jobs' ≡ jobs'
insert_plans-replay_example =
    insert_plans-replay (news_plan ∷ news_plan ∷ []) "t" "p" ids (λ n. "x") 10 20 [] ids-IsFresh

abbrev pub news_job : DeliveryJob
news_job = job_from_plan news_plan "t" "p" "j1" 10

abbrev other_job : DeliveryJob
other_job = job_from_plan (record news_plan { revision = 2 }) "t" "p" "j2" 11

abbrev two_jobs : JobTables
two_jobs = record { jobs = ("j1", news_job) ∷ ("j2", other_job) ∷ []; attempts = [] }

abbrev both : List DeliveryJob
both = news_job ∷ other_job ∷ []

abbrev leased_first : DeliveryJob
leased_first = record news_job { status = JobStatus.leased; attempt_count = 1; updated_at = 50 }

abbrev leased_second : DeliveryJob
leased_second = record other_job { status = JobStatus.leased; attempt_count = 1; updated_at = 60 }

first_claim : (claim_from both 4 50 two_jobs).0 ≡ Claim.won leased_first
unfolding claim_from guarded Dict.get Dict.put place job_from_plan number_taken exists_by
first_claim = refl

second_claim : (claim_from both 4 60 (claim_from both 4 50 two_jobs).1).0 ≡ Claim.won leased_second
unfolding claim_from guarded Dict.get Dict.put place job_from_plan number_taken exists_by
second_claim = refl

filed_under : (id : String) (job : DeliveryJob) → Dict.get two_jobs.jobs id ≡ some job → job.id ≡ id
unfolding Dict.get job_from_plan
filed_under id job h = elim (Bool-cases ("j1" == id)) [
  | inl p ↦ ap (λ (j : DeliveryJob). j.id) (sym (some_inj (rw p at h))) ∙ eq_of_beq "j1" id p
  | inr p ↦ elim (Bool-cases ("j2" == id)) [
    | inl q ↦ ap (λ (j : DeliveryJob). j.id) (sym (some_inj (rw (p, q) at h))) ∙ eq_of_beq "j2" id q
    | inr q ↦ absurd (none≢some (rw (p, q) at h))
  ]
]

two_jobs-IsFiled : IsFiled two_jobs.jobs
two_jobs-IsFiled = record { own = filed_under }

claim_from_distinct_example : leased_second.id ≢ leased_first.id
claim_from_distinct_example =
    claim_from_distinct both both 4 4 50 60 two_jobs leased_first leased_second two_jobs-IsFiled
      first_claim second_claim

abbrev sending_job : DeliveryJob
sending_job = record news_job { status = JobStatus.sending; attempt_count = 1 }

abbrev in_flight : ResultTables
in_flight = record { tables = record { jobs = ("j1", sending_job) ∷ []; attempts = [] }; maps = [] }

abbrev sent_values : ResultValues
sent_values = record {
  new_status = JobStatus.succeeded;
  error_class = none;
  next_attempt_at = none;
  flood_wait_until = none;
  target_message_id = some (pos 501);
  request_ref = none;
}

record_result-Recorded_example :
    Recorded sending_job 1 sent_values "m1" 70 in_flight
      (record_result sending_job 1 sent_values "m1" 70 in_flight)
record_result-Recorded_example = record_result-Recorded sending_job 1 sent_values "m1" 70 in_flight

abbrev news_rows : DrainTables
news_rows = record { jobs = []; inbox = (inbox_key news_event, inbox_row news_event 1) ∷ [] }

abbrev one_plan : EventInbox → List DeliveryPlan
one_plan row = news_plan ∷ []

drain_to_jobs-drains_example :
    let rows = inbox_row news_event 1 ∷ [] in
    let db' = drain_to_jobs rows one_plan "t" "p" ids 10 news_rows in
    All (λ (row : EventInbox). IsDone db'.inbox (row_key row)) rows
    × (db'.jobs ≡ insert_plans (batch_plans rows one_plan) "t" "p" ids 10 [])
drain_to_jobs-drains_example =
    drain_to_jobs-drains (inbox_row news_event 1 ∷ []) one_plan "t" "p" ids 10 news_rows
