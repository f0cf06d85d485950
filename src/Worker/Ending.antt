-- ===== src/Worker/Ending.antt =====
-- A poll round of an account comes to its end (runtime/worker/runner.py, run_once).
use tdaudiibncba.Common.{
  none≢some, ℕ, zero, suc, ◌+◌, ◌≤◌, ◌<◌, String, ◌≡◌, ◌≢◌, refl, sym, ap, subst, ◌∙◌, Bool, true,
  false, Option, none, some, List, [], ◌∷◌, arith, length, length-append, Bool-cases, inl, inr,
  string_eq,
}
use tdaudiibncba.Common.Dict
use tdaudiibncba.Planner.Model.{RuleSnapshot}
use tdaudiibncba.Planner.Planning.{Draws}
use tdaudiibncba.Delivery.Status.{JobStatus}
use tdaudiibncba.Storage.Inbox.{EventInbox}
use tdaudiibncba.Storage.Batches.{DrainTables, drain_to_jobs, next_unprocessed, shifted}
use tdaudiibncba.Planner.Model.{DeliveryPlan}
use tdaudiibncba.Storage.Jobs.{DeliveryJob}
use tdaudiibncba.Storage.Claiming.{
  JobTables, Claim, claim_from, claim_next, candidates, reclaim_stale_sending,
}
use tdaudiibncba.Storage.Closing.{ResultTables}
use tdaudiibncba.Storage.Claims.{claim_from-Claims, IsFiled-after}
use tdaudiibncba.Storage.Claimed.{IsFiled, Claims}
use tdaudiibncba.Storage.Reclaim.{reclaim-IsFiled}
use tdaudiibncba.Storage.Pending.{
  pending, pending-reclaim_jobs, pending-claimed, insert_plans-IsFiled,
}
use tdaudiibncba.Worker.Runner.{
  RunnerDeps, Moments, Round, Halt, with_jobs, plan_from_job, with_job, send_next,
}
use tdaudiibncba.Worker.Settled.{claimed_row}
use tdaudiibncba.Worker.Draining.{drain_inbox, plans_for, prefetch, ids_by_scope, all_known}
use tdaudiibncba.Worker.Looping.{
  Ended, Run, after_round, later, send_all, after_drain, drained_by, run_once,
}
use tdaudiibncba.Worker.Progress.{IsUnthrottled, Advances, plan-Advances}

module _ (deps : RunnerDeps) (account_id : String) (generation : ℕ) (at : Moments) where
  pass-Advances :
      (db : JobTables) (r : Claim × JobTables) (tables : ResultTables)
      → IsUnthrottled deps account_id
      → IsFiled db.jobs
      → (cs : List DeliveryJob) → Claims cs generation at.claims db r
      → ((job : DeliveryJob)
          → r.0 ≡ Claim.won job
          → (Dict.get r.1.jobs job.id ≡ some job) × (job.status ≡ JobStatus.leased))
      → Advances
          (pending db.jobs)
          (with_job deps account_id generation at r.0 (record tables { tables = r.1 }))
  pass-Advances db (Claim.raised, db') tables free f cs (h, taken) found = record {
    counted =
        let same : pending db'.jobs ≡ pending db.jobs = ap (λ (d : JobTables). pending d.jobs) h in
        omega (arith, same);
    moved = λ a b c. cc;
    filed = subst (λ (d : JobTables). IsFiled d.jobs) (sym h) f;
  }
  pass-Advances db (Claim.nothing, db') tables free f cs (h, passed) found = record {
    counted =
        let same : pending db'.jobs ≡ pending db.jobs = ap (λ (d : JobTables). pending d.jobs) h in
        omega (arith, same);
    moved = λ a b c. absurd (c refl);
    filed = subst (λ (d : JobTables). IsFiled d.jobs) (sym h) f;
  }
  pass-Advances db (Claim.won job, db') tables free f cs h found =
      let (e, was) = found job refl in
      plan-Advances deps account_id generation at job (record tables { tables = db' }) job
        (pending db.jobs) e was (IsFiled-after db job db' h f)
        (pending-claimed cs generation at.claims db job db' h) (plan_from_job job) free

  pub send_next-Advances :
      (db : ResultTables)
      → IsUnthrottled deps account_id
      → IsFiled db.tables.jobs
      → Advances (pending db.tables.jobs) (send_next deps account_id generation at db)
  unfolding send_next claim_next reclaim_stale_sending
  send_next-Advances db free f =
      let db' = reclaim_stale_sending account_id at.claims db.tables in
      let cs = candidates account_id db'.jobs in
      subst (λ (n : ℕ). Advances n (send_next deps account_id generation at db))
        (pending-reclaim_jobs account_id at.claims db.tables.jobs)
        (pass-Advances db' (claim_from cs generation at.claims db') db free
          (reclaim-IsFiled account_id at.claims db.tables f) cs
          (claim_from-Claims cs generation at.claims db')
          (λ job h. claimed_row account_id generation at.claims db.tables job f h))

-- The loop has ended by itself, and has made no more calls than there were pending jobs.
abbrev pub IsOver : ℕ → Run → Type 0
IsOver p run =
    (run.ended ≢ Ended.out_of_fuel) × (length run.calls + pending run.tables.tables.jobs ≤ p)

step-IsOver :
    (raised : Bool) (halted : Option Halt) (acted : Option String) (r : Round) (rest : Run) (p : ℕ)
    → r.raised ≡ raised
    → r.halted ≡ halted
    → r.acted ≡ acted
    → Advances p r
    → (pending r.tables.tables.jobs < p → IsOver (pending r.tables.tables.jobs) rest)
    → IsOver p (after_round raised halted acted r rest)
step-IsOver true halted acted r rest p a b c adv ih = ((λ e. cc), adv.counted)
step-IsOver false halted none r rest p a b c adv ih = ((λ e. cc), adv.counted)
step-IsOver false (some h) (some id) r rest p a b c adv ih = ((λ e. cc), adv.counted)
step-IsOver false none (some id) r rest p a b c adv ih =
    let less = adv.moved a b (λ z. none≢some (sym z ∙ c)) in
    let (done, few) = ih less in
    (done, omega (arith, few, adv.counted, length-append r.calls rest.calls))

module _ (account_id : String) (generation : ℕ) where
  -- While nothing holds the account back, the loop over the due jobs ends with fuel for one pass more
  -- than there are pending jobs, whatever Telegram answers and however the clocks go.
  pub send_all-IsOver :
      (fuel : ℕ) (deps : ℕ → RunnerDeps) (at : ℕ → Moments) (db : ResultTables)
      → ((n : ℕ) → IsUnthrottled (deps n) account_id)
      → IsFiled db.tables.jobs
      → pending db.tables.jobs < fuel
      → IsOver (pending db.tables.jobs) (send_all account_id generation fuel deps at db)
  unfolding send_all
  send_all-IsOver zero deps at db free f more = absurd (omega arith)
  send_all-IsOver (suc fuel) deps at db free f more =
      let r = send_next (deps 0) account_id generation (at 0) db in
      let adv = send_next-Advances (deps 0) account_id generation (at 0) db (free 0) f in
      step-IsOver r.raised r.halted r.acted r
        (send_all account_id generation fuel (later deps) (later at) r.tables)
        (pending db.tables.jobs) refl refl refl adv
        (λ less.
          send_all-IsOver fuel (later deps) (later at) r.tables (λ n. free (n + 1)) adv.filed
            (omega (arith, less, more)))

drain_to_jobs-IsFiled :
    (rows : List EventInbox) (plans : EventInbox → List DeliveryPlan) (tenant project : String)
    (ids : ℕ → String) (now : ℕ) (db : DrainTables)
    → IsFiled db.jobs
    → IsFiled (drain_to_jobs rows plans tenant project ids now db).jobs
unfolding drain_to_jobs
drain_to_jobs-IsFiled [] plans tenant project ids now db f = f
drain_to_jobs-IsFiled (row ∷ rows) plans tenant project ids now db f =
    drain_to_jobs-IsFiled rows plans tenant project (shifted (length (plans row)) ids) now _
      (insert_plans-IsFiled (plans row) tenant project ids now db.jobs f)

module _ (account_id : String) (generation limit : ℕ) (rules : String → List RuleSnapshot)
    (draws : EventInbox → Draws) (tenant_id project_id : String) (ids : ℕ → String) (now : ℕ) where
  drained-IsFiled :
      (db : ResultTables) (inbox : DrainTables)
      → IsFiled db.tables.jobs
      → IsFiled
          (drained_by account_id generation limit rules draws tenant_id project_id ids now db
            inbox).1.jobs
  unfolding drain_inbox
  drained-IsFiled db inbox f =
      let rows = next_unprocessed limit inbox.inbox in
      elim (Bool-cases (all_known rows)) [
        | inl p ↦ rw p (
            drain_to_jobs-IsFiled rows
              (plans_for (prefetch (ids_by_scope rows []) db.maps) rules draws) tenant_id project_id
              ids now (record inbox { jobs = db.tables.jobs }) f)
        | inr p ↦ rw p f
      ]

  after_drain-IsOver :
      (d : Option ℕ × DrainTables) (fuel : ℕ) (deps : ℕ → RunnerDeps) (at : ℕ → Moments)
      (db : ResultTables)
      → ((n : ℕ) → IsUnthrottled (deps n) account_id)
      → IsFiled d.1.jobs
      → pending d.1.jobs < fuel
      → ((after_drain account_id generation d fuel deps at db).ended ≢ Ended.out_of_fuel)
        × (length (after_drain account_id generation d fuel deps at db).calls ≤ pending d.1.jobs)
  after_drain-IsOver (none, drained) fuel deps at db free f more = ((λ e. cc), omega arith)
  after_drain-IsOver (some n, drained) fuel deps at db free f more =
      let (done, few) =
        send_all-IsOver account_id generation fuel deps at (with_jobs db drained.jobs) free f
          more in
      (done, omega (arith, few))

  -- A poll round terminates: where the jobs are filed under their ids and no flood wait or rate limit
  -- holds the account back, fuel for one pass more than there are pending jobs after the inbox was
  -- drained is enough, whatever Telegram answers, and the round makes at most as many calls to
  -- Telegram as there are such jobs.
  pub run_once_ends :
      (halted : Option Halt) (fuel : ℕ) (deps : ℕ → RunnerDeps) (at : ℕ → Moments)
      (db : ResultTables) (inbox : DrainTables)
      → ((n : ℕ) → IsUnthrottled (deps n) account_id)
      → IsFiled db.tables.jobs
      → let drained =
          (drained_by account_id generation limit rules draws tenant_id project_id ids now db
            inbox).1.jobs in
        let run =
          run_once account_id generation limit rules draws tenant_id project_id ids now halted fuel
            deps at db inbox in
        pending drained < fuel
        → (run.ended ≢ Ended.out_of_fuel) × (length run.calls ≤ pending drained)
  unfolding run_once
  run_once_ends (some h) fuel deps at db inbox free f more = ((λ e. cc), omega arith)
  run_once_ends none fuel deps at db inbox free f more =
      after_drain-IsOver
        (drained_by account_id generation limit rules draws tenant_id project_id ids now db inbox)
        fuel deps at db free (drained-IsFiled db inbox f) more
