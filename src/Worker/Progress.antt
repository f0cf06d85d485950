-- ===== src/Worker/Progress.antt =====
-- A poll round of an account ends and sends no job twice (runtime/worker/runner.py, run_once over
-- send_next).
use tdaudiibncba.Common.{
  ℤ, ℕ, ◌+◌, ◌≤◌, ◌<◌, String, ◌≡◌, ◌≢◌, refl, sym, ap, subst, ◌⊎◌, inl, inr, Bool, true, false,
  Option, none, some, List, [], ◌∷◌, arith, length, contains, string_eq, nat_eq,
}
use tdaudiibncba.Common.Dict
use tdaudiibncba.Planner.Model.{DeliveryPlan}
use tdaudiibncba.Delivery.Status.{JobStatus, status_eq, can_transition, place}
use tdaudiibncba.Delivery.Policy.{
  Decision, LiveAccount, PolicySnapshot, PolicyCheckable, ApprovalRecord, is_flooded, check,
}
use tdaudiibncba.Delivery.Executor.{
  Call, Execution, SendTransport, checkable, after_check, ids_of, execute,
}
use tdaudiibncba.Delivery.Effects.{Reports, gated}
use tdaudiibncba.Storage.Jobs.{DeliveryJob, Jobs, guarded, moved_to, transition}
use tdaudiibncba.Storage.Closing.{ResultTables, ResultValues, after_update, record_result}
use tdaudiibncba.Storage.Claimed.{IsFiled}
use tdaudiibncba.Storage.Pending.{load, pending, pending-guarded, guarded-IsFiled}
use tdaudiibncba.Worker.Outcomes.{Recording, records, raises, recording}
use tdaudiibncba.Worker.Legal.{IsLegal, recording-IsLegal}
use tdaudiibncba.Worker.Total.{Records, check-Records}
use tdaudiibncba.Worker.Settled.{transition_row}
use tdaudiibncba.Worker.Runner.{
  RunnerDeps, Moments, Round, Halt, hinted, executed, recorded, with_jobs, run_executor, send,
  put_back, after_gate, gate, with_plan, targets_of,
}

-- No flood wait and no rate limit holds the account back.
pub record IsUnthrottled (deps : RunnerDeps) (account_id : String) : Type 0 where
  pub unflooded : is_flooded (deps.live account_id).send_state ≡ false
  pub unlimited : (route : String) → contains deps.policy.rate_limit_blocked route ≡ false

-- What a pass of the loop does to the count: a call uses up a pending job, and a pass after which the
-- loop goes on uses up one as well.
pub record Advances (p : ℕ) (r : Round) : Type 0 where
  pub counted : length r.calls + pending r.tables.tables.jobs ≤ p
  pub moved : r.raised ≡ false → r.halted ≡ none → r.acted ≢ none → pending r.tables.tables.jobs < p
  pub filed : IsFiled r.tables.tables.jobs

not_rate :
    (job : PolicyCheckable) (live : LiveAccount) (policy : PolicySnapshot)
    (approval : Option ApprovalRecord) (now : ℕ)
    → is_flooded live.send_state ≡ false
    → contains policy.rate_limit_blocked job.route_id ≡ false
    → check job live policy approval now ≢ Decision.blocked_rate
unfolding check
not_rate job live policy approval now calm free = ground arith

legal_load : (s : JobStatus) → can_transition JobStatus.sending s ≡ true → load s ≡ 0
unfolding can_transition place
legal_load JobStatus.ready h = ground arith
legal_load JobStatus.sending h = ground arith
legal_load _ h = refl

updated_jobs :
    (r : Bool × Jobs) (job : DeliveryJob) (attempt : ℕ) (v : ResultValues) (id : String) (now : ℕ)
    (db : ResultTables)
    → r.0 ≡ true
    → (after_update r job attempt v id now db).1.tables.jobs ≡ r.1
updated_jobs (true, jobs) job attempt v id now db h = refl
updated_jobs (false, jobs) job attempt v id now db h = cc

-- Recording the result of a job in `sending` leaves one pending job fewer.
recorded-Advances :
    (rec : Recording) (job : DeliveryJob) (at : Moments) (db : ResultTables) (calls : List Call)
    (row : DeliveryJob) (p : ℕ)
    → Records rec
    → IsLegal rec
    → Dict.get db.tables.jobs job.id ≡ some row
    → row.status ≡ JobStatus.sending
    → IsFiled db.tables.jobs
    → pending db.tables.jobs ≡ p
    → length calls ≤ 1
    → Advances p (recorded rec job at db calls)
unfolding record_result
recorded-Advances raises job at db calls row p h legal e was f count few = absurd h
recorded-Advances (records v halt) job at db calls row p h legal e was f count few =
    let change =
      moved_to v.new_status v.next_attempt_at v.flood_wait_until v.error_class at.writes in
    let r = guarded job.id JobStatus.sending change db.tables.jobs in
    let (hit, sum) = pending-guarded job.id JobStatus.sending change db.tables.jobs row e was in
    let same = updated_jobs r job job.attempt_count v at.map_id at.writes db hit in
    let after : pending
          (after_update r job job.attempt_count v at.map_id at.writes db).1.tables.jobs
        ≡ pending r.1 =
      ap pending same in
    let done = legal_load v.new_status legal in
    record {
      counted = omega (arith, after, sum, done);
      moved = λ a b c. omega (arith, after, sum, done);
      filed =
          subst IsFiled (sym same)
            (guarded-IsFiled job.id JobStatus.sending change db.tables.jobs row e was refl f);
    }

one_call :
    (transport : SendTransport) (plan : DeliveryPlan) (ids : List ℤ) (e : Execution)
    (cs : List Call)
    → Reports transport plan ids e cs
    → length cs ≤ 1
one_call transport plan ids e [] h = omega arith
one_call transport plan ids e (c ∷ []) h = omega arith
one_call transport plan ids e (c ∷ d ∷ cs) h = absurd h

few_calls :
    (transport : SendTransport) (plan : DeliveryPlan) (ids : Option (List ℤ)) (d : Decision)
    → length (after_check transport d plan ids).1 ≤ 1
few_calls transport plan ids d = elim (gated transport plan ids d) [
  | inl (other, e) ↦ rw e (omega arith)
  | inr (allowed, r) ↦
      one_call transport plan (ids_of ids) (after_check transport d plan ids).0
        (after_check transport d plan ids).1 r
]

module _ (deps : RunnerDeps) (account_id : String) (generation : ℕ) (at : Moments) where
  module _ (job : DeliveryJob) (db : ResultTables) (row : DeliveryJob) (p : ℕ)
      (e : Dict.get db.tables.jobs job.id ≡ some row) (was : row.status ≡ JobStatus.leased)
      (f : IsFiled db.tables.jobs) (count : pending db.tables.jobs + 1 ≡ p) where
    put_back-Advances :
        (dst : JobStatus) (next : Option ℕ) (halt : Option Halt)
        → (load dst ≡ 0) ⊎ ((load dst ≡ 1) × (halt ≢ none))
        → Advances p (put_back deps account_id generation at dst next halt job db)
    unfolding transition
    put_back-Advances dst next halt ok =
        let change = moved_to dst next none none at.moves in
        let (hit, sum) = pending-guarded job.id JobStatus.leased change db.tables.jobs row e was in
        record {
          counted = elim ok [
            | inl z ↦ omega (arith, sum, count, z)
            | inr (o, h) ↦ omega (arith, sum, count, o)
          ];
          moved =
              λ a b c. elim ok [ inl z ↦ omega (arith, sum, count, z) | inr (o, h) ↦ absurd (h b) ];
          filed = guarded-IsFiled job.id JobStatus.leased change db.tables.jobs row e was refl f;
        }

    send-Advances :
        (plan : DeliveryPlan) → Advances p (send deps account_id generation at plan job db)
    unfolding send run_executor execute transition
    send-Advances plan =
        let change = moved_to JobStatus.sending none none none at.moves in
        let (hit, sum) = pending-guarded job.id JobStatus.leased change db.tables.jobs row e was in
        let jobs =
          (transition job.id JobStatus.leased JobStatus.sending none none none at.moves
            db.tables.jobs).1 in
        let execution = run_executor deps account_id generation at plan job db.maps in
        recorded-Advances
          (recording deps.retry_policy job.attempt_count at.retries at.draw
            (executed plan execution.0))
          job at (with_jobs db jobs) execution.1 (change row) p
          (check-Records deps.retry_policy job.attempt_count at.retries at.draw plan deps.transport
            (check (checkable deps.transport plan generation job.tenant_id job.project_id)
              (deps.live account_id) deps.policy (deps.approvals job) at.executes)
            (targets_of plan.kind job db.maps))
          (recording-IsLegal deps.retry_policy job.attempt_count at.retries at.draw
            (executed plan execution.0))
          (transition_row job.id JobStatus.leased JobStatus.sending none none none at.moves
            db.tables.jobs row e was)
          refl (guarded-IsFiled job.id JobStatus.leased change db.tables.jobs row e was refl f)
          (omega (arith, sum, count))
          (few_calls deps.transport plan (targets_of plan.kind job db.maps) _)

    gate-Advances :
        (d : Decision) (plan : DeliveryPlan)
        → d ≢ Decision.blocked_rate
        → Advances p (after_gate deps account_id generation at d plan job db)
    gate-Advances Decision.allow plan h = send-Advances plan
    gate-Advances Decision.blocked_rate plan h = absurd (h refl)
    gate-Advances Decision.blocked_lease plan h =
        put_back-Advances JobStatus.ready none (some Halt.lease_lost) (inr (refl, λ q. cc))
    gate-Advances _ plan h = put_back-Advances JobStatus.blocked none none (inl refl)

    pub plan-Advances :
        (o : Option DeliveryPlan)
        → IsUnthrottled deps account_id
        → Advances p (with_plan deps account_id generation at o job db)
    unfolding gate
    plan-Advances none free = record {
      counted = omega (arith, count);
      moved = λ a b c. cc;
      filed = f;
    }
    plan-Advances (some plan) free =
        let plan' = hinted (deps.plan_hints plan.rule_id plan.rule_version) plan in
        gate-Advances (gate deps account_id generation at plan' job) plan' (
          not_rate (checkable deps.transport plan' generation job.tenant_id job.project_id)
            (deps.live account_id) deps.policy (deps.approvals job) at.checks free.unflooded
            (free.unlimited plan'.route_id))
