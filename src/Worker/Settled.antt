-- ===== src/Worker/Settled.antt =====
-- No job is left hanging by a round of the runner (runtime/worker/runner.py, send_next).
use tdaudiibncba.Common.{
  ℕ, String, ◌≡◌, ◌≢◌, refl, sym, ap, subst, ◌∙◌, ◌⊎◌, inl, inr, Bool, true, false, Option, none,
  some, List, ◌==◌, arith, beq_refl, string_eq,
}
use tdaudiibncba.Common.Dict
use tdaudiibncba.Common.Dict.{get-put}
use tdaudiibncba.Planner.Model.{DeliveryPlan}
use tdaudiibncba.Delivery.Status.{JobStatus, status_eq, can_transition, place}
use tdaudiibncba.Delivery.Policy.{Decision}
use tdaudiibncba.Delivery.Errors.{ErrorClass, next_attempt_at}
use tdaudiibncba.Delivery.Executor.{Call}
use tdaudiibncba.Storage.Jobs.{DeliveryJob, Jobs, guarded, moved_to, transition}
use tdaudiibncba.Storage.Claiming.{
  JobTables, Claim, claim_from, claim_next, candidates, reclaim_stale_sending,
}
use tdaudiibncba.Storage.Closing.{ResultTables, ResultValues, record_result}
use tdaudiibncba.Storage.Claims.{claim_from-Claims, claim_of}
use tdaudiibncba.Storage.Claimed.{IsFiled, get-own}
use tdaudiibncba.Storage.Reclaim.{reclaim-IsFiled}
use tdaudiibncba.Storage.Recording.{Recorded, record_result-Recorded}
use tdaudiibncba.Worker.Outcomes.{Recording, records, raises, recording}
use tdaudiibncba.Worker.Legal.{IsLegal, recording-IsLegal}
use tdaudiibncba.Worker.Runner.{
  RunnerDeps, Moments, Round, Halt, hinted, executed, recorded, with_jobs, run_executor, send,
  put_back, after_gate, gate, with_plan, with_job, send_next, plan_from_job,
}

-- A row that no worker is busy with.
abbrev pub IsSettled : Option DeliveryJob → Type 0
IsSettled none = ⊥
IsSettled (some row) = (row.status ≢ JobStatus.leased) × (row.status ≢ JobStatus.sending)

settled_by_edge :
    (s : JobStatus)
    → can_transition JobStatus.sending s ≡ true
    → (s ≢ JobStatus.leased) × (s ≢ JobStatus.sending)
unfolding can_transition place
settled_by_edge s h = (λ e. ground arith, λ e. ground arith)

pub transition_row :
    (id : String) (src dst : JobStatus) (next flood : Option ℕ) (err : Option ErrorClass) (now : ℕ)
    (jobs : Jobs) (row : DeliveryJob)
    → Dict.get jobs id ≡ some row
    → row.status ≡ src
    → Dict.get (transition id src dst next flood err now jobs).1 id
      ≡ some (moved_to dst next flood err now row)
unfolding transition guarded
transition_row id src dst next flood err now jobs row e was =
    let hit : (row.status == src) ≡ true = ap (λ (s : JobStatus). s == src) was ∙ beq_refl src in
    rw (e, hit, get-put jobs id id (moved_to dst next flood err now row), beq_refl id)

Recorded-IsSettled :
    (job : DeliveryJob) (attempt_no : ℕ) (values : ResultValues) (map_id : String) (now : ℕ)
    (db : ResultTables) (row : DeliveryJob) (r : Bool × ResultTables)
    → Recorded job attempt_no values map_id now db r
    → Dict.get db.tables.jobs job.id ≡ some row
    → row.status ≡ JobStatus.sending
    → can_transition JobStatus.sending values.new_status ≡ true
    → IsSettled (Dict.get r.1.tables.jobs job.id)
Recorded-IsSettled job attempt_no values map_id now db row (true, db') h e was legal =
    let (old, found, status, stored) = h.0 in
    rw
      (
        stored,
        get-put db.tables.jobs job.id job.id (
            moved_to values.new_status values.next_attempt_at values.flood_wait_until
              values.error_class now old),
        beq_refl job.id,
      )
      (settled_by_edge values.new_status legal)
Recorded-IsSettled job attempt_no values map_id now db row (false, db') h e was legal =
    absurd (h.1 row e was)

-- What a round ends with: an exception, or a settled row.
abbrev pub Settles : String → Round → Type 0
Settles id r = (r.raised ≡ true) ⊎ IsSettled (Dict.get r.tables.tables.jobs id)

recording-Settles :
    (rec : Recording) (job : DeliveryJob) (at : Moments) (db : ResultTables) (calls : List Call)
    (row : DeliveryJob)
    → IsLegal rec
    → Dict.get db.tables.jobs job.id ≡ some row
    → row.status ≡ JobStatus.sending
    → Settles job.id (recorded rec job at db calls)
recording-Settles raises job at db calls row legal e was = inl refl
recording-Settles (records v halt) job at db calls row legal e was = inr (
    Recorded-IsSettled job job.attempt_count v at.map_id at.writes db row
      (record_result job job.attempt_count v at.map_id at.writes db)
      (record_result-Recorded job job.attempt_count v at.map_id at.writes db) e was legal)

module _ (deps : RunnerDeps) (account_id : String) (generation : ℕ) (at : Moments) where
  put_back-Settles :
      (dst : JobStatus) (next : Option ℕ) (halt : Option Halt) (job : DeliveryJob)
      (db : ResultTables) (row : DeliveryJob)
      → (dst ≢ JobStatus.leased) × (dst ≢ JobStatus.sending)
      → Dict.get db.tables.jobs job.id ≡ some row
      → row.status ≡ JobStatus.leased
      → Settles job.id (put_back deps account_id generation at dst next halt job db)
  put_back-Settles dst next halt job db row ok e was = inr (
      rw
        (transition_row job.id JobStatus.leased dst next none none at.moves db.tables.jobs row e
          was)
        ok)

  send-Settles :
      (plan : DeliveryPlan) (job : DeliveryJob) (db : ResultTables) (row : DeliveryJob)
      → Dict.get db.tables.jobs job.id ≡ some row
      → row.status ≡ JobStatus.leased
      → Settles job.id (send deps account_id generation at plan job db)
  unfolding send
  send-Settles plan job db row e was =
      let execution = run_executor deps account_id generation at plan job db.maps in
      let jobs =
        (transition job.id JobStatus.leased JobStatus.sending none none none at.moves
          db.tables.jobs).1 in
      recording-Settles
        (recording deps.retry_policy job.attempt_count at.retries at.draw
          (executed plan execution.0))
        job at (with_jobs db jobs) execution.1
        (moved_to JobStatus.sending none none none at.moves row)
        (recording-IsLegal deps.retry_policy job.attempt_count at.retries at.draw
          (executed plan execution.0))
        (transition_row job.id JobStatus.leased JobStatus.sending none none none at.moves
          db.tables.jobs row e was)
        refl

  gate-Settles :
      (d : Decision) (plan : DeliveryPlan) (job : DeliveryJob) (db : ResultTables)
      (row : DeliveryJob)
      → Dict.get db.tables.jobs job.id ≡ some row
      → row.status ≡ JobStatus.leased
      → Settles job.id (after_gate deps account_id generation at d plan job db)
  gate-Settles Decision.allow plan job db row e was = send-Settles plan job db row e was
  gate-Settles Decision.blocked_lease plan job db row e was =
      put_back-Settles JobStatus.ready none (some Halt.lease_lost) job db row ((λ p. cc), λ p. cc) e
        was
  gate-Settles Decision.blocked_rate plan job db row e was =
      put_back-Settles JobStatus.ready
        (next_attempt_at deps.retry_policy job.attempt_count at.checks at.draw) none job db row
        ((λ p. cc), λ p. cc) e was
  gate-Settles _ plan job db row e was =
      put_back-Settles JobStatus.blocked none none job db row ((λ p. cc), λ p. cc) e was

  plan-Settles :
      (o : Option DeliveryPlan) (job : DeliveryJob) (db : ResultTables) (row : DeliveryJob)
      → Dict.get db.tables.jobs job.id ≡ some row
      → row.status ≡ JobStatus.leased
      → Settles job.id (with_plan deps account_id generation at o job db)
  plan-Settles none job db row e was = inl refl
  plan-Settles (some plan) job db row e was =
      let plan' = hinted (deps.plan_hints plan.rule_id plan.rule_version) plan in
      gate-Settles (gate deps account_id generation at plan' job) plan' job db row e was

-- The claimed job's row right after `claim_next`: it is leased, and it is the job that was returned.
pub claimed_row :
    (account_id : String) (generation now : ℕ) (db : JobTables) (job : DeliveryJob)
    → IsFiled db.jobs
    → (claim_next account_id generation now db).0 ≡ Claim.won job
    → (Dict.get (claim_next account_id generation now db).1.jobs job.id ≡ some job)
      × (job.status ≡ JobStatus.leased)
unfolding claim_next
claimed_row account_id generation now db job filed h =
    let db' = reclaim_stale_sending account_id now db in
    let cs = candidates account_id db'.jobs in
    let c =
      claim_of cs generation now db' (claim_from cs generation now db') job
        (claim_from-Claims cs generation now db') h in
    let own : job.id ≡ c.candidate.id =
      ap (λ (j : DeliveryJob). j.id) c.is_leased
      ∙ (reclaim-IsFiled account_id now db filed).own c.candidate.id c.row c.found in
    (
      ap (Dict.get (claim_from cs generation now db').1.jobs) own
          ∙ ap (λ (jobs : Jobs). Dict.get jobs c.candidate.id) c.stored
          ∙ get-own db'.jobs c.candidate.id job,
      ap (λ (j : DeliveryJob). j.status) c.is_leased,
    )

job-Settles :
    (deps : RunnerDeps) (account_id : String) (generation : ℕ) (at : Moments) (o : Claim)
    (job : DeliveryJob) (db : ResultTables)
    → o ≡ Claim.won job
    → Dict.get db.tables.jobs job.id ≡ some job
    → job.status ≡ JobStatus.leased
    → Settles job.id (with_job deps account_id generation at o db)
job-Settles deps account_id generation at o job db e found was =
    subst (λ (x : Claim). Settles job.id (with_job deps account_id generation at x db)) (sym e)
      (plan-Settles deps account_id generation at (plan_from_job job) job db job found was)

-- A round that claims a job ends, whatever the gate decides and Telegram answers, with the job's row
-- in neither `leased` nor `sending`, unless an exception leaves the round.
pub send_next-Settles :
    (deps : RunnerDeps) (account_id : String) (generation : ℕ) (at : Moments) (db : ResultTables)
    (job : DeliveryJob)
    → IsFiled db.tables.jobs
    → (claim_next account_id generation at.claims db.tables).0 ≡ Claim.won job
    → Settles job.id (send_next deps account_id generation at db)
unfolding send_next
send_next-Settles deps account_id generation at db job filed h =
    let r = claim_next account_id generation at.claims db.tables in
    let (found, was) = claimed_row account_id generation at.claims db.tables job filed h in
    job-Settles deps account_id generation at r.0 job (record db { tables = r.1 }) h found was
