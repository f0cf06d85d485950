-- ===== src/Platform/Interventions.antt =====
-- What an operator's retry and cancel do to a job
-- (telegram-platform/backend/app/tg/service/delivery_service.py with
-- telegram-runtime/runtime/delivery/model.py and the runner's record_result).
use tdaudiibncba.Common.{
  unnegated, true≢false, ℕ, String, ◌≡◌, refl, sym, ◌⊎◌, inl, inr, true, false, not, Option, none,
  some, ◌==◌, arith, contains, nat_eq, string_eq, Bool-cases, Option-cases, beq_refl, eq_of_beq,
}
use tdaudiibncba.Common.Dict
use tdaudiibncba.Common.Dict.{Dict, get-put}
use tdaudiibncba.Delivery.Status.{JobStatus, status_eq, can_transition, place}
use tdaudiibncba.Storage.Jobs.{DeliveryJob, Jobs, guarded}
use tdaudiibncba.Storage.Closing.{ResultTables, ResultValues, record_result}
use tdaudiibncba.Platform.Store.{User}
use tdaudiibncba.Platform.Deliveries.{
  retryable, cancellable, Scopes, check_job_scope, Count, updated, failed, update_job, retried,
  cancelled, retry_given, cancel_given, retry, cancel,
}

-- A request that changed a job did so to the row that was there, in a status for which the test holds;
-- any other request has changed nothing.
abbrev pub Touches :
    (JobStatus → Type 0)
    → (DeliveryJob → DeliveryJob)
    → Scopes
    → User
    → String
    → Jobs
    → Count × Jobs
    → Type 0
Touches P change scopes user pk jobs (updated true, jobs') =
    (row : DeliveryJob) × (Dict.get jobs pk ≡ some row)
    × (check_job_scope scopes user row ≡ none)
    × P row.status
    × (jobs' ≡ Dict.put jobs pk (change row))
Touches P change scopes user pk jobs (updated false, jobs') = jobs' ≡ jobs
Touches P change scopes user pk jobs (failed e, jobs') = jobs' ≡ jobs

update-Touches :
    (P : JobStatus → Type 0) (change : DeliveryJob → DeliveryJob) (scopes : Scopes) (user : User)
    (pk : String) (jobs : Jobs) (row : DeliveryJob)
    → Dict.get jobs pk ≡ some row
    → check_job_scope scopes user row ≡ none
    → P row.status
    → Touches P change scopes user pk jobs (update_job pk change jobs)
unfolding update_job
update-Touches P change scopes user pk jobs row e ok p = rw e (row, e, ok, p, refl)

cancel_edge :
    (s : JobStatus) → contains cancellable s ≡ true → can_transition s JobStatus.cancelled ≡ true
unfolding can_transition place contains cancellable
cancel_edge s h = ground arith

-- The statuses that a retry takes a job from; the state machine has no edge from them to `ready`.
abbrev pub IsRevivable : JobStatus → Type 0
IsRevivable s =
    ((s ≡ JobStatus.failed_permanent) ⊎ (s ≡ JobStatus.dead_letter))
    × (can_transition s JobStatus.ready ≡ false)

no_edge :
    (s : JobStatus) → (s ≡ JobStatus.failed_permanent) ⊎ (s ≡ JobStatus.dead_letter) → IsRevivable s
unfolding can_transition place
no_edge s h = (h, elim h [ inl e ↦ rw e refl | inr e ↦ rw e refl ])

revivable : (s : JobStatus) → contains retryable s ≡ true → IsRevivable s
unfolding contains retryable
revivable s h = elim (Bool-cases (s == JobStatus.failed_permanent)) [
  | inl p ↦ no_edge s (inl (eq_of_beq s JobStatus.failed_permanent p))
  | inr p ↦ elim (Bool-cases (s == JobStatus.dead_letter)) [
    | inl q ↦ no_edge s (inr (eq_of_beq s JobStatus.dead_letter q))
    | inr q ↦ absurd (true≢false (sym (rw (p, q) at h)))
  ]
]

module _ (scopes : Scopes) (user : User) (pk : String) (jobs : Jobs) where
  cancel_row :
      (o : Option DeliveryJob)
      → Dict.get jobs pk ≡ o
      → Touches
          (λ s. can_transition s JobStatus.cancelled ≡ true)
          cancelled
          scopes
          user
          pk
          jobs
          (cancel_given scopes user o pk jobs)
  unfolding cancel_given
  cancel_row none e = refl
  cancel_row (some row) e = elim (Option-cases (check_job_scope scopes user row)) [
    | inr (f, p) ↦ rw p refl
    | inl p ↦ elim (Bool-cases (not (contains cancellable row.status))) [
      | inl q ↦ rw (p, q) refl
      | inr q ↦
          rw (p, q)
            (update-Touches _ cancelled scopes user pk jobs row e p
              (cancel_edge row.status (unnegated (contains cancellable row.status) q)))
    ]
  ]

  -- An operator's cancel moves a job only along a legal edge: the job that it changes was in the
  -- operator's scope and in a status from which a job may be cancelled; in every other case it changes
  -- nothing.
  pub cancel-Touches :
      Touches
        (λ s. can_transition s JobStatus.cancelled ≡ true)
        cancelled
        scopes
        user
        pk
        jobs
        (cancel scopes user pk jobs)
  unfolding cancel
  cancel-Touches = cancel_row (Dict.get jobs pk) refl

  retry_row :
      (o : Option DeliveryJob)
      → Dict.get jobs pk ≡ o
      → Touches IsRevivable retried scopes user pk jobs (retry_given scopes user o pk jobs)
  unfolding retry_given
  retry_row none e = refl
  retry_row (some row) e = elim (Option-cases (check_job_scope scopes user row)) [
    | inr (f, p) ↦ rw p refl
    | inl p ↦ elim (Bool-cases (row.status == JobStatus.uncertain)) [
      | inl u ↦ rw (p, u) refl
      | inr u ↦ elim (Bool-cases (not (contains retryable row.status))) [
        | inl q ↦ rw (p, u, q) refl
        | inr q ↦
            rw (p, u, q)
              (update-Touches IsRevivable retried scopes user pk jobs row e p
                (revivable row.status (unnegated (contains retryable row.status) q)))
      ]
    ]
  ]

  -- An operator's retry makes a job ready again only if it is in his scope and has failed for good or
  -- is a dead letter, never one whose outcome is uncertain, and in every other case it changes nothing;
  -- from neither status does the state machine list an edge to `ready`.
  pub retry-Touches : Touches IsRevivable retried scopes user pk jobs (retry scopes user pk jobs)
  unfolding retry
  retry-Touches = retry_row (Dict.get jobs pk) refl

-- A cancel that read the job before it was claimed overrides a send in progress: where the job was
-- read in a status that can be cancelled and its row is in `sending` by the time of the write, the
-- row becomes cancelled, and the worker's record of the result, whatever it is, is refused and writes
-- nothing, the message map included.
pub stale_cancel_loses_result :
    (scopes : Scopes) (user : User) (read row job : DeliveryJob) (db : ResultTables) (attempt : ℕ)
    (values : ResultValues) (map_id : String) (now : ℕ)
    → check_job_scope scopes user read ≡ none
    → contains cancellable read.status ≡ true
    → Dict.get db.tables.jobs job.id ≡ some row
    → row.status ≡ JobStatus.sending
    → let r = cancel_given scopes user (some read) job.id db.tables.jobs in
      let db' = record db { tables = record (db.tables) { jobs = r.1 } } in
      (r.0 ≡ updated true) × (record_result job attempt values map_id now db' ≡ (false, db'))
unfolding cancel_given update_job record_result guarded place
stale_cancel_loses_result scopes user read row job db attempt values map_id now ok may e was =
    rw (ok, may, e, get-put db.tables.jobs job.id job.id (cancelled row), beq_refl job.id)
      (refl, refl)
