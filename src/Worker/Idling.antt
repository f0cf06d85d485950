-- ===== src/Worker/Idling.antt =====
-- A poll round that ends because nothing is due (runtime/worker/runner.py, run_once).
use tdaudiibncba.Common.{
  ℕ, zero, suc, ◌+◌, String, ◌≡◌, ◌≢◌, refl, sym, ap, ◌∙◌, Bool, true, false, Option, none, some,
  List, string_eq,
}
use tdaudiibncba.Common.Dict
use tdaudiibncba.Common.Dict.{get-put}
use tdaudiibncba.Planner.Model.{DeliveryPlan}
use tdaudiibncba.Delivery.Policy.{Decision}
use tdaudiibncba.Delivery.Status.{JobStatus, status_eq}
use tdaudiibncba.Delivery.Executor.{Call}
use tdaudiibncba.Storage.Jobs.{DeliveryJob}
use tdaudiibncba.Storage.Claiming.{JobTables, Claim, claim_next}
use tdaudiibncba.Storage.Closing.{ResultTables}
use tdaudiibncba.Storage.Claimed.{IsFiled}
use tdaudiibncba.Worker.Outcomes.{Recording, records, raises}
use tdaudiibncba.Worker.Runner.{
  RunnerDeps, Moments, Round, Halt, recorded, send, after_gate, with_plan, with_job, send_next,
}
use tdaudiibncba.Worker.Progress.{IsUnthrottled}
use tdaudiibncba.Worker.Ending.{send_next-Advances}
use tdaudiibncba.Worker.Looping.{Ended, Run, after_round, later, send_all}
use tdaudiibncba.Worker.Idle.{IsWaiting, empty_claim}

module _ (deps : RunnerDeps) (account_id : String) (generation : ℕ) (at : Moments) where
  recorded_acts :
      (rec : Recording) (job : DeliveryJob) (db : ResultTables) (calls : List Call)
      → (recorded rec job at db calls).raised ≡ false
      → (recorded rec job at db calls).acted ≢ none
  recorded_acts raises job db calls quiet idle = cc
  recorded_acts (records v halt) job db calls quiet idle = cc

  gate_acts :
      (d : Decision) (plan : DeliveryPlan) (job : DeliveryJob) (db : ResultTables)
      → (after_gate deps account_id generation at d plan job db).raised ≡ false
      → (after_gate deps account_id generation at d plan job db).acted ≢ none
  unfolding send
  gate_acts Decision.allow plan job db quiet idle = recorded_acts _ job _ _ quiet idle
  gate_acts _ plan job db quiet idle = cc

  plan_acts :
      (o : Option DeliveryPlan) (job : DeliveryJob) (db : ResultTables)
      → (with_plan deps account_id generation at o job db).raised ≡ false
      → (with_plan deps account_id generation at o job db).acted ≢ none
  plan_acts none job db quiet idle = cc
  plan_acts (some plan) job db quiet idle = gate_acts _ _ job db quiet idle

  job_idle :
      (r : Claim × JobTables) (db : ResultTables)
      → (with_job deps account_id generation at r.0 (record db { tables = r.1 })).raised ≡ false
      → (with_job deps account_id generation at r.0 (record db { tables = r.1 })).acted ≡ none
      → (r.0 ≡ Claim.nothing)
        × ((with_job deps account_id generation at r.0 (record db { tables = r.1 })).tables.tables
            ≡ r.1)
  job_idle (Claim.nothing, tables) db quiet idle = (refl, refl)
  job_idle (Claim.raised, tables) db quiet idle = cc
  job_idle (Claim.won job, tables) db quiet idle = absurd (plan_acts _ job _ quiet idle)

  send_next_idle :
      (db : ResultTables) (id : String) (row : DeliveryJob)
      → IsFiled db.tables.jobs
      → (send_next deps account_id generation at db).raised ≡ false
      → (send_next deps account_id generation at db).acted ≡ none
      → Dict.get (send_next deps account_id generation at db).tables.tables.jobs id ≡ some row
      → row.account_id ≡ account_id
      → row.status ≡ JobStatus.ready
      → IsWaiting at.claims row
  unfolding send_next
  send_next_idle db id row f quiet idle e mine ready =
      let r = claim_next account_id generation at.claims db.tables in
      let (unclaimed, same) = job_idle r db quiet idle in
      empty_claim account_id generation at.claims db.tables id row f unclaimed
        (ap (λ (t : JobTables). Dict.get t.jobs id) (sym same) ∙ e) mine ready

-- What is known of a pass that ends the loop, or of the rest of the loop.
idle_step :
    (raised : Bool) (halted : Option Halt) (acted : Option String) (r : Round) (rest : Run)
    (at : ℕ → Moments) (id : String) (row : DeliveryJob)
    → (after_round raised halted acted r rest).ended ≡ Ended.idle
    → Dict.get (after_round raised halted acted r rest).tables.tables.jobs id ≡ some row
    → (raised ≡ false
        → acted ≡ none
        → Dict.get r.tables.tables.jobs id ≡ some row
        → IsWaiting (at 0).claims row)
    → (rest.ended ≡ Ended.idle
        → Dict.get rest.tables.tables.jobs id ≡ some row
        → (n : ℕ) × IsWaiting (at (n + 1)).claims row)
    → (n : ℕ) × IsWaiting (at n).claims row
idle_step true halted acted r rest at id row h e now next = cc
idle_step false halted none r rest at id row h e now next = (0, now refl refl e)
idle_step false (some s) (some j) r rest at id row h e now next = cc
idle_step false none (some j) r rest at id row h e now next = let (n, w) = next h e in (n + 1, w)

module _ (account_id : String) (generation : ℕ) where
  -- The loop over the due jobs, where it ends because nothing was claimed and no flood wait or rate
  -- limit held the account back, leaves no due job behind: each job of the account that is ready in
  -- the tables at the end waits, at the clock reading of some pass, for its next attempt or for the
  -- end of a flood wait.
  pub send_all_idle :
      (fuel : ℕ) (deps : ℕ → RunnerDeps) (at : ℕ → Moments) (db : ResultTables) (id : String)
      (row : DeliveryJob)
      → ((n : ℕ) → IsUnthrottled (deps n) account_id)
      → IsFiled db.tables.jobs
      → (send_all account_id generation fuel deps at db).ended ≡ Ended.idle
      → Dict.get (send_all account_id generation fuel deps at db).tables.tables.jobs id ≡ some row
      → row.account_id ≡ account_id
      → row.status ≡ JobStatus.ready
      → (n : ℕ) × IsWaiting (at n).claims row
  unfolding send_all
  send_all_idle zero deps at db id row free f h e mine ready = cc
  send_all_idle (suc fuel) deps at db id row free f h e mine ready =
      let r = send_next (deps 0) account_id generation (at 0) db in
      let adv = send_next-Advances (deps 0) account_id generation (at 0) db (free 0) f in
      idle_step r.raised r.halted r.acted r
        (send_all account_id generation fuel (later deps) (later at) r.tables) at id row h e
        (λ quiet idle found.
          send_next_idle (deps 0) account_id generation (at 0) db id row f quiet idle found mine
            ready)
        (λ idle found.
          send_all_idle fuel (later deps) (later at) r.tables id row (λ n. free (n + 1)) adv.filed
            idle found mine ready)
