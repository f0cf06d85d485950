-- ===== src/Storage/Plans.antt =====
-- What making jobs out of plans promises (runtime/storage/repos.py: create_from_plan and the inner
-- loop of drain_to_jobs).
use tdaudiibncba.Common.{
  some_inj, none≢some, true≢false, ℕ, String, ◌≡◌, sym, ap, ◌∙◌, inl, inr, true, false, none, some,
  [], ◌∷◌, ◌==◌, string_eq, nat_eq, list_eq, Bool-cases, beq_refl,
}
use tdaudiibncba.Common.Decimal.{Text}
use tdaudiibncba.Common.Dict
use tdaudiibncba.Common.Dict.{Dict, get-put, get-put_cases, beq_sym_false}
use tdaudiibncba.Planner.Model.{DeliveryPlan}
use tdaudiibncba.Storage.Jobs.{DeliveryJob, Jobs, job_from_plan, key_taken, create_from_plan}

-- Two jobs with one idempotency key are one job.
pub record HasUniqueKeys (jobs : Jobs) : Type 0 where
  pub unique :
      (i j : String) (a b : DeliveryJob)
      → Dict.get jobs i ≡ some a
      → Dict.get jobs j ≡ some b
      → a.idempotency_key ≡ b.idempotency_key
      → i ≡ j

taken_of_get :
    (jobs : Jobs) (i : String) (a : DeliveryJob)
    → Dict.get jobs i ≡ some a
    → key_taken jobs a.idempotency_key ≡ true
unfolding key_taken Dict.get
taken_of_get [] i a h = absurd (none≢some h)
taken_of_get ((id, job) ∷ jobs) i a h =
    elim (Bool-cases (job.idempotency_key == a.idempotency_key)) [
      | inl p ↦ rw p
      | inr p ↦ elim (Bool-cases (id == i)) [
        | inl q ↦
            let same : job ≡ a = some_inj (rw q at h) in
            absurd (
              true≢false (
                sym (beq_refl a.idempotency_key)
                ∙ (ap (λ (x : DeliveryJob). x.idempotency_key == a.idempotency_key) (sym same)
                    ∙ p)))
        | inr q ↦ rw p (taken_of_get jobs i a (rw q at h))
      ]
    ]

-- A job that is put under an id takes its key, and an id that was free keeps all keys taken.
pub taken_put :
    (jobs : Jobs) (id : String) (job : DeliveryJob)
    → key_taken (Dict.put jobs id job) job.idempotency_key ≡ true
taken_put jobs id job =
    taken_of_get (Dict.put jobs id job) id job (rw (get-put jobs id id job, beq_refl id))

pub taken_kept :
    (jobs : Jobs) (id : String) (job : DeliveryJob) (key : Text)
    → Dict.get jobs id ≡ none
    → key_taken jobs key ≡ true
    → key_taken (Dict.put jobs id job) key ≡ true
unfolding key_taken Dict.put Dict.get
taken_kept [] id job key free h = absurd (true≢false (sym h))
taken_kept ((i, other) ∷ jobs) id job key free h = elim (Bool-cases (i == id)) [
  | inl p ↦ absurd (none≢some (sym (rw p at free)))
  | inr p ↦ elim (Bool-cases (other.idempotency_key == key)) [
    | inl q ↦ rw (p, q)
    | inr q ↦ rw (p, q) (taken_kept jobs id job key (rw p at free) (rw q at h))
  ]
]

clash :
    (jobs : Jobs) (job a : DeliveryJob) (i : String)
    → key_taken jobs job.idempotency_key ≡ false
    → Dict.get jobs i ≡ some a
    → job.idempotency_key ≡ a.idempotency_key
    → ⊥
clash jobs job a i free h same =
    true≢false (sym (taken_of_get jobs i a h) ∙ (ap (key_taken jobs) (sym same) ∙ free))

-- Making a job out of a plan keeps the idempotency keys of the jobs unique.
pub create_from_plan-HasUniqueKeys :
    (plan : DeliveryPlan) (tenant project id : String) (now : ℕ) (jobs : Jobs)
    → HasUniqueKeys jobs
    → HasUniqueKeys (create_from_plan plan tenant project id now jobs).1
unfolding create_from_plan
create_from_plan-HasUniqueKeys plan tenant project id now jobs u =
    let job = job_from_plan plan tenant project id now in
    elim (Bool-cases (key_taken jobs job.idempotency_key)) [
      | inl p ↦ rw p u
      | inr free ↦ rw free (record {
        unique = λ i j a b ha hb same. elim (get-put_cases jobs id i job a ha) [
          | inl (p, q) ↦ elim (get-put_cases jobs id j job b hb) [
            | inl (p', q') ↦ sym p ∙ p'
            | inr (p', q') ↦
                absurd (
                  clash jobs job b j free q' (ap (λ (x : DeliveryJob). x.idempotency_key) q ∙ same))
          ]
          | inr (p, q) ↦ elim (get-put_cases jobs id j job b hb) [
            | inl (p', q') ↦ absurd (
                clash jobs job a i free q
                  (ap (λ (x : DeliveryJob). x.idempotency_key) q' ∙ sym same))
            | inr (p', q') ↦ u.unique i j a b q q' same
          ]
        ];
      })
    ]
