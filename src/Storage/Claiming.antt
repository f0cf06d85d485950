-- ===== src/Storage/Claiming.antt =====
-- runtime/storage/repos.py, DeliveryJobRepository: attempts, claims and the reclaim of stale jobs. A claim is
-- split where another worker can run in between: the candidates that the SELECT read are an argument
-- of the rest. Times are microseconds.
use tdaudiibncba.Common.{
  ℕ, ◌+◌, ◌*◌, String, Bool, true, false, ◌&&◌, Option, none, some, List, [], ◌∷◌, ◌++◌, ◌==◌, ltb,
  update_by, contains, exists_by, if◌then◌else◌, string_eq, nat_eq, list_eq,
}
use tdaudiibncba.Common.Dict
use tdaudiibncba.Common.Dict.{Dict}
use tdaudiibncba.Delivery.Status.{JobStatus, status_eq}
use tdaudiibncba.Storage.Jobs.{DeliveryJob, AttemptStatus, DeliveryAttempt, Jobs, guarded}

-- `dt is not None and dt > now`
abbrev pub in_future : Option ℕ → ℕ → Bool
in_future none now = false
in_future (some t) now = ltb now t

abbrev pub leased_at : ℕ → ℕ → DeliveryJob → DeliveryJob
leased_at attempt now job = record job {
  status = JobStatus.leased;
  attempt_count = attempt;
  updated_at = now;
}

abbrev pub attempt_of : String → ℕ → ℕ → ℕ → DeliveryAttempt
attempt_of job_id attempt_no worker_generation now = record {
  job_id = job_id;
  attempt_no = attempt_no;
  worker_generation = worker_generation;
  started_at = now;
  finished_at = none;
  result_status = none;
  error_class = none;
  request_ref = none;
}

pub record JobTables : Type 0 where
  pub jobs : Jobs
  pub attempts : List DeliveryAttempt

-- How a claim ends: no candidate is due and still ready, a job is leased, or an exception leaves it.
pub data Claim : Type 0 where
  nothing raised : Claim
  won : DeliveryJob → Claim

-- uq_attempt_no
abbrev pub is_number : String → ℕ → DeliveryAttempt → Bool
is_number job_id attempt_no attempt =
    (attempt.job_id == job_id) && (attempt.attempt_no == attempt_no)

unfoldable pub number_taken : String → ℕ → List DeliveryAttempt → Bool
number_taken job_id attempt_no attempts = exists_by (is_number job_id attempt_no) attempts

-- `refresh` after the commit
abbrev pub refreshed : Option DeliveryJob → Claim
refreshed none = Claim.raised
refreshed (some job) = Claim.won job

-- The body of the claim loop after its UPDATE, which hit or missed. A number that the job's attempts
-- have already is the IntegrityError of the commit, which takes the UPDATE back.
abbrev pub claimed :
    Bool × Jobs → DeliveryJob → ℕ → ℕ → JobTables → Claim × JobTables → Claim × JobTables
claimed (false, jobs) job worker_generation now db rest = rest
claimed (true, jobs) job worker_generation now db rest =
    if number_taken job.id (job.attempt_count + 1) db.attempts then (Claim.raised, db) else (
      refreshed (Dict.get jobs job.id),
      record {
        jobs = jobs;
        attempts =
            db.attempts ++ attempt_of job.id (job.attempt_count + 1) worker_generation now ∷ [];
      },
    )

-- The loop of `claim_next` over the candidates that its SELECT read.
unfoldable pub claim_from : List DeliveryJob → ℕ → ℕ → JobTables → Claim × JobTables
claim_from [] worker_generation now db = (Claim.nothing, db)
claim_from (job ∷ jobs) worker_generation now db =
    let rest = claim_from jobs worker_generation now db in
    if in_future job.next_attempt_at now
    then rest
    else if in_future job.flood_wait_until now
    then rest
    else claimed (guarded job.id JobStatus.ready (leased_at (job.attempt_count + 1) now) db.jobs)
        job worker_generation now db rest

-- The SELECT of `claim_next`.
unfoldable pub candidates : String → Jobs → List DeliveryJob
candidates account_id [] = []
candidates account_id ((id, job) ∷ jobs) =
    let rest = candidates account_id jobs in
    if (job.account_id == account_id) && (job.status == JobStatus.ready) then job ∷ rest else rest

-- `_SENDING_STALE_S`
abbrev pub stale_time : ℕ
stale_time = 300 * 1000000

-- updated_at < now - stale
abbrev pub is_stale : String → ℕ → DeliveryJob → Bool
is_stale account_id now job =
    (job.account_id == account_id)
    && (job.status == JobStatus.sending)
    && ltb (job.updated_at + stale_time) now

unfoldable pub reclaim_jobs : String → ℕ → Jobs → Jobs
reclaim_jobs account_id now [] = []
reclaim_jobs account_id now ((id, job) ∷ jobs) =
    (
      id,
      if is_stale account_id now job
          then record job { status = JobStatus.ready; updated_at = now }
          else job,
    )
    ∷ reclaim_jobs account_id now jobs

unfoldable pub stale_ids : String → ℕ → Jobs → List String
stale_ids account_id now [] = []
stale_ids account_id now ((id, job) ∷ jobs) =
    let rest = stale_ids account_id now jobs in
    if is_stale account_id now job then id ∷ rest else rest

abbrev pub unfinished : List String → DeliveryAttempt → Bool
unfinished ids attempt = elim attempt.finished_at [
  | none ↦ contains ids attempt.job_id
  | some t ↦ false
]

unfoldable pub reclaim_stale_sending : String → ℕ → JobTables → JobTables
reclaim_stale_sending account_id now db = record {
  jobs = reclaim_jobs account_id now db.jobs;
  attempts =
      update_by (unfinished (stale_ids account_id now db.jobs))
        (λ attempt. record attempt {
          result_status = some AttemptStatus.abandoned;
          finished_at = some now;
        })
        db.attempts;
}

unfoldable pub claim_next : String → ℕ → ℕ → JobTables → Claim × JobTables
claim_next account_id worker_generation now db =
    let db' = reclaim_stale_sending account_id now db in
    claim_from (candidates account_id db'.jobs) worker_generation now db'
