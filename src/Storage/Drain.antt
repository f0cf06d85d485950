-- ===== src/Storage/Drain.antt =====
-- Planning a batch a second time makes no job (runtime/storage/repos.py, drain_to_jobs).
use tdaudiibncba.Common.{
  ℕ, ◌+◌, String, ◌≡◌, ◌≢◌, refl, inl, inr, true, false, none, List, [], ◌∷◌, ◌==◌, All, string_eq,
  nat_eq, list_eq, arith, Bool-cases, eq_of_beq,
}
use tdaudiibncba.Common.Decimal.{Text}
use tdaudiibncba.Common.Dict
use tdaudiibncba.Common.Dict.{Dict, get-put}
use tdaudiibncba.Planner.Model.{DeliveryPlan, idempotency_key}
use tdaudiibncba.Storage.Jobs.{Jobs, job_from_plan, key_taken, create_from_plan, insert_plans}
use tdaudiibncba.Storage.Plans.{taken_put, taken_kept}

-- A supply of ids that are different and that no job has.
pub record IsFresh (ids : ℕ → String) (jobs : Jobs) : Type 0 where
  pub free : (n : ℕ) → Dict.get jobs (ids n) ≡ none
  pub distinct : (m n : ℕ) → ids m ≡ ids n → m ≡ n

abbrev rest_of : (ℕ → String) → ℕ → String
rest_of ids n = ids (n + 1)

zero≢next : (n : ℕ) → 0 ≢ n + 1
zero≢next n p = omega (arith, p)

distinct_beq : (a b : String) → a ≢ b → (a == b) ≡ false
distinct_beq a b n = elim (Bool-cases (a == b)) [ inl p ↦ absurd (n (eq_of_beq a b p)) | inr p ↦ p ]

module _ (plan : DeliveryPlan) (tenant project : String) (now : ℕ) (jobs : Jobs) where
  create-IsFresh :
      (ids : ℕ → String)
      → IsFresh ids jobs
      → IsFresh (rest_of ids) (create_from_plan plan tenant project (ids 0) now jobs).1
  unfolding create_from_plan
  create-IsFresh ids f =
      let job = job_from_plan plan tenant project (ids 0) now in
      record {
        free = λ n. elim (Bool-cases (key_taken jobs job.idempotency_key)) [
          | inl p ↦ rw p (f.free (n + 1))
          | inr p ↦
              rw
                (
                  p,
                  get-put jobs (ids 0) (ids (n + 1)) job,
                  distinct_beq (ids 0) (ids (n + 1))
                      (λ e. absurd (zero≢next n (f.distinct 0 (n + 1) e))),
                )
                (f.free (n + 1))
        ];
        distinct = λ m n e. omega (arith, f.distinct (m + 1) (n + 1) e);
      }

  create-takes :
      (id : String)
      → key_taken (create_from_plan plan tenant project id now jobs).1 (idempotency_key plan) ≡ true
  unfolding create_from_plan job_from_plan
  create-takes id = elim (Bool-cases (key_taken jobs (idempotency_key plan))) [
    | inl p ↦ rw p p
    | inr p ↦ rw p (taken_put jobs id (job_from_plan plan tenant project id now))
  ]

  create-keeps :
      (id : String) (key : Text)
      → Dict.get jobs id ≡ none
      → key_taken jobs key ≡ true
      → key_taken (create_from_plan plan tenant project id now jobs).1 key ≡ true
  unfolding create_from_plan job_from_plan
  create-keeps id key free h = elim (Bool-cases (key_taken jobs (idempotency_key plan))) [
    | inl p ↦ rw p h
    | inr p ↦ rw p (taken_kept jobs id (job_from_plan plan tenant project id now) key free h)
  ]

  create-refuses :
      (id : String)
      → key_taken jobs (idempotency_key plan) ≡ true
      → create_from_plan plan tenant project id now jobs ≡ (none, jobs)
  unfolding create_from_plan job_from_plan
  create-refuses id h = rw h

module _ (tenant project : String) (now : ℕ) where
  insert_plans-keeps :
      (plans : List DeliveryPlan) (ids : ℕ → String) (jobs : Jobs) (key : Text)
      → IsFresh ids jobs
      → key_taken jobs key ≡ true
      → key_taken (insert_plans plans tenant project ids now jobs) key ≡ true
  unfolding insert_plans
  insert_plans-keeps [] ids jobs key f h = h
  insert_plans-keeps (plan ∷ plans) ids jobs key f h =
      insert_plans-keeps plans (rest_of ids)
        (create_from_plan plan tenant project (ids 0) now jobs).1 key
        (create-IsFresh plan tenant project now jobs ids f)
        (create-keeps plan tenant project now jobs (ids 0) key (f.free 0) h)

  insert_plans-takes :
      (plans : List DeliveryPlan) (ids : ℕ → String) (jobs : Jobs)
      → IsFresh ids jobs
      → All
          (λ (plan : DeliveryPlan).
            key_taken (insert_plans plans tenant project ids now jobs) (idempotency_key plan)
            ≡ true)
          plans
  unfolding insert_plans
  insert_plans-takes [] ids jobs f = tt
  insert_plans-takes (plan ∷ plans) ids jobs f =
      let jobs' = (create_from_plan plan tenant project (ids 0) now jobs).1 in
      let f' = create-IsFresh plan tenant project now jobs ids f in
      (
        insert_plans-keeps plans (rest_of ids) jobs' (idempotency_key plan) f'
            (create-takes plan tenant project now jobs (ids 0)),
        insert_plans-takes plans (rest_of ids) jobs' f',
      )

  insert_plans_taken :
      (plans : List DeliveryPlan) (ids : ℕ → String) (jobs : Jobs)
      → All (λ (plan : DeliveryPlan). key_taken jobs (idempotency_key plan) ≡ true) plans
      → insert_plans plans tenant project ids now jobs ≡ jobs
  unfolding insert_plans
  insert_plans_taken [] ids jobs h = refl
  insert_plans_taken (plan ∷ plans) ids jobs h =
      rw (create-refuses plan tenant project now jobs (ids 0) h.0)
        (insert_plans_taken plans (rest_of ids) jobs h.1)

-- Draining is idempotent: once the plans of a batch have been made into jobs, under ids that are
-- new and different, doing it again, later and with any other ids, changes nothing.
pub insert_plans-replay :
    (plans : List DeliveryPlan) (tenant project : String) (ids ids' : ℕ → String) (now now' : ℕ)
    (jobs : Jobs)
    → IsFresh ids jobs
    → let jobs' = insert_plans plans tenant project ids now jobs in
      insert_plans plans tenant project ids' now' jobs' ≡ jobs'
insert_plans-replay plans tenant project ids ids' now now' jobs f =
    insert_plans_taken tenant project now' plans ids'
      (insert_plans plans tenant project ids now jobs)
      (insert_plans-takes tenant project now plans ids jobs f)
