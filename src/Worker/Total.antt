-- ===== src/Worker/Total.antt =====
-- The round trips through the tables, and that the runner's rounds do not fail
-- (runtime/worker/runner.py).
use tdaudiibncba.Common.{
  ℕ, ℤ, String, ◌≡◌, refl, sym, subst, inl, inr, false, Option, none, some, List, [], ◌∷◌,
  string_eq,
}
use tdaudiibncba.Common.Dict
use tdaudiibncba.Planner.Model.{
  EventKind, PlanKind, SourceEvent, DeliveryPlan, event_kind_value, plan_kind_value,
}
use tdaudiibncba.Delivery.Errors.{RetryPolicy}
use tdaudiibncba.Delivery.Policy.{Decision}
use tdaudiibncba.Delivery.Executor.{
  TransportErrorKind, Call, Outcome, SendTransport, error_class_map, class_status, failure, after,
  ids_of, run_edit, run_delete, run_plan, after_check, execute,
}
use tdaudiibncba.Storage.Inbox.{inbox_row}
use tdaudiibncba.Storage.Jobs.{DeliveryJob, job_from_plan}
use tdaudiibncba.Storage.Claiming.{Claim, claim_next}
use tdaudiibncba.Storage.Closing.{ResultTables}
use tdaudiibncba.Storage.Claimed.{IsFiled}
use tdaudiibncba.Worker.Outcomes.{
  Recording, records, raises, recording, recording_of, retry_recording,
}
use tdaudiibncba.Worker.Settled.{IsSettled, Settles, send_next-Settles}
use tdaudiibncba.Worker.Runner.{
  RunnerDeps, Moments, Round, job_kind_alias, plan_from_job, event_kind_of, event_from_inbox,
  hinted, executed, recorded, run_executor, send, after_gate, gate, with_plan, with_job, send_next,
}

alias_of_kind : (k : PlanKind) → job_kind_alias (plan_kind_value k) ≡ some k
unfolding job_kind_alias plan_kind_value
alias_of_kind PlanKind.send = refl
alias_of_kind _ = refl

-- A plan that becomes a job and is read back is the same plan, but for the account that fetches and
-- the transform flag, which a job does not keep.
pub plan_from_job-job_from_plan :
    (plan : DeliveryPlan) (tenant project id : String) (now : ℕ)
    → plan_from_job (job_from_plan plan tenant project id now)
      ≡ some (record plan { fetch_account_id = none; transform = false })
unfolding plan_from_job job_from_plan
plan_from_job-job_from_plan plan tenant project id now = rw (alias_of_kind plan.kind)

kind_of_value : (k : EventKind) → event_kind_of (event_kind_value k) ≡ some k
unfolding event_kind_of event_kind_value
kind_of_value EventKind.create = refl
kind_of_value _ = refl

-- An event that is stored in the inbox is read back whole.
pub event_from_inbox-inbox_row :
    (event : SourceEvent) (seq : ℕ) → event_from_inbox (inbox_row event seq) ≡ some event
unfolding event_from_inbox
event_from_inbox-inbox_row event seq = rw (kind_of_value event.kind)

abbrev pub Records : Recording → Type 0
Records raises = ⊥
Records (records v halt) = Unit

module _ (policy : RetryPolicy) (attempt now draw : ℕ) (plan : DeliveryPlan) where
  failure-Records :
      (k : TransportErrorKind) (d : String) (u : Option ℕ)
      → Records (
          recording policy attempt now draw
            (executed plan (failure plan (record { kind = k; detail = d; flood_wait_until = u }))))
  unfolding failure class_status error_class_map recording recording_of retry_recording
  failure-Records TransportErrorKind.flood_wait d u = tt
  failure-Records _ d u = tt

  after-Records :
      (ids : List ℤ → List ℤ) (o : Outcome)
      → Records (recording policy attempt now draw (executed plan (after plan ids o)))
  unfolding recording recording_of
  after-Records ids (Outcome.returned sent) = tt
  after-Records ids (Outcome.failed exc) = failure-Records exc.kind exc.detail exc.flood_wait_until
  after-Records ids (Outcome.crashed e) = tt

  module _ (transport : SendTransport) where
    edit-Records :
        (ids : List ℤ)
        → Records
            (recording policy attempt now draw (executed plan (run_edit transport plan ids).0))
    unfolding run_edit recording recording_of
    edit-Records [] = tt
    edit-Records (i ∷ is) = after-Records (λ _. i ∷ is) (transport (Call.edit plan i))

    delete-Records :
        (ids : List ℤ)
        → Records
            (recording policy attempt now draw (executed plan (run_delete transport plan ids).0))
    unfolding run_delete recording recording_of
    delete-Records [] = tt
    delete-Records (i ∷ is) = after-Records (λ _. i ∷ is) (transport (Call.delete plan (i ∷ is)))

    plan-Records :
        (k : PlanKind) (ids : List ℤ)
        → Records
            (recording policy attempt now draw (executed plan (run_plan transport k plan ids).0))
    unfolding run_plan
    plan-Records PlanKind.send ids = after-Records (λ sent. sent) (transport (Call.send plan))
    plan-Records PlanKind.edit ids = edit-Records ids
    plan-Records PlanKind.delete ids = delete-Records ids
    plan-Records PlanKind.tombstone ids = delete-Records ids

    pub check-Records :
        (d : Decision) (ids : Option (List ℤ))
        → Records
            (recording policy attempt now draw (executed plan (after_check transport d plan ids).0))
    unfolding recording recording_of
    check-Records Decision.allow ids = plan-Records plan.kind (ids_of ids)
    check-Records _ ids = tt

recorded_quiet :
    (rec : Recording) (job : DeliveryJob) (at : Moments) (db : ResultTables) (calls : List Call)
    → Records rec
    → (recorded rec job at db calls).raised ≡ false
recorded_quiet raises job at db calls h = absurd h
recorded_quiet (records v halt) job at db calls h = refl

module _ (deps : RunnerDeps) (account_id : String) (generation : ℕ) (at : Moments) where
  send_quiet :
      (plan : DeliveryPlan) (job : DeliveryJob) (db : ResultTables)
      → (send deps account_id generation at plan job db).raised ≡ false
  unfolding send run_executor execute
  send_quiet plan job db =
      let execution = run_executor deps account_id generation at plan job db.maps in
      recorded_quiet
        (recording deps.retry_policy job.attempt_count at.retries at.draw
          (executed plan execution.0))
        job at _ execution.1
        (check-Records deps.retry_policy job.attempt_count at.retries at.draw plan deps.transport _
          _)

  gate_quiet :
      (d : Decision) (plan : DeliveryPlan) (job : DeliveryJob) (db : ResultTables)
      → (after_gate deps account_id generation at d plan job db).raised ≡ false
  gate_quiet Decision.allow plan job db = send_quiet plan job db
  gate_quiet _ plan job db = refl

  plan_quiet :
      (o : Option DeliveryPlan) (plan : DeliveryPlan) (job : DeliveryJob) (db : ResultTables)
      → o ≡ some plan
      → (with_plan deps account_id generation at o job db).raised ≡ false
  plan_quiet none plan job db e = cc
  plan_quiet (some p) plan job db e =
      let plan' = hinted (deps.plan_hints p.rule_id p.rule_version) p in
      gate_quiet (gate deps account_id generation at plan' job) plan' job db

  next_quiet :
      (db : ResultTables) (job : DeliveryJob) (plan : DeliveryPlan)
      → (claim_next account_id generation at.claims db.tables).0 ≡ Claim.won job
      → plan_from_job job ≡ some plan
      → (send_next deps account_id generation at db).raised ≡ false
  unfolding send_next
  next_quiet db job plan h known =
      let r = claim_next account_id generation at.claims db.tables in
      subst
        (λ (o : Claim).
          (with_job deps account_id generation at o (record db { tables = r.1 })).raised ≡ false)
        (sym h) (plan_quiet (plan_from_job job) plan job (record db { tables = r.1 }) known)

IsSettled-of :
    (id : String) (r : Round)
    → Settles id r
    → r.raised ≡ false
    → IsSettled (Dict.get r.tables.tables.jobs id)
IsSettled-of id r (inl p) q = cc
IsSettled-of id r (inr s) q = s

-- Where the jobs are filed under their ids, a round that claims a job of a known kind ends without
-- an exception and with the job's row in neither `leased` nor `sending`, whatever the gate decides
-- and whatever the transport does, crashes included.
pub send_next-IsSettled :
    (deps : RunnerDeps) (account_id : String) (generation : ℕ) (at : Moments) (db : ResultTables)
    (job : DeliveryJob) (plan : DeliveryPlan)
    → IsFiled db.tables.jobs
    → (claim_next account_id generation at.claims db.tables).0 ≡ Claim.won job
    → plan_from_job job ≡ some plan
    → ((send_next deps account_id generation at db).raised ≡ false)
      × IsSettled (Dict.get (send_next deps account_id generation at db).tables.tables.jobs job.id)
send_next-IsSettled deps account_id generation at db job plan filed h known =
    let quiet = next_quiet deps account_id generation at db job plan h known in
    (
      quiet,
      IsSettled-of job.id (send_next deps account_id generation at db)
          (send_next-Settles deps account_id generation at db job filed h) quiet,
    )
