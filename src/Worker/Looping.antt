-- ===== src/Worker/Looping.antt =====
-- runtime/worker/runner.py: run_once, one poll round of an account. The `while` runs on fuel; how much
-- is enough is shown in Worker/Progress. What the providers answer and the clocks may differ from one
-- pass of the loop to the next.
use tdaudiibncba.Common.{
  ℕ, zero, suc, ◌+◌, String, Bool, true, false, Option, none, some, List, [], ◌++◌,
}
use tdaudiibncba.Planner.Model.{RuleSnapshot}
use tdaudiibncba.Planner.Planning.{Draws}
use tdaudiibncba.Delivery.Executor.{Call}
use tdaudiibncba.Storage.Inbox.{EventInbox}
use tdaudiibncba.Storage.Batches.{DrainTables}
use tdaudiibncba.Storage.Closing.{ResultTables}
use tdaudiibncba.Worker.Runner.{RunnerDeps, Moments, Round, Halt, with_jobs, send_next}
use tdaudiibncba.Worker.Draining.{drain_inbox}

-- How a poll round ends: nothing is due, the runner is halted, an exception leaves it, or the fuel is
-- used up.
pub data Ended : Type 0 where
  idle out_of_fuel exception : Ended
  stopped : Halt → Ended

pub record Run : Type 0 where
  pub ended : Ended
  pub tables : ResultTables
  pub calls : List Call

abbrev pub ends : Ended → Round → Run
ends ended r = record { ended = ended; tables = r.tables; calls = r.calls }

-- The tests of the loop after `send_next`: an exception, `None`, `self.halted`.
abbrev pub after_round : Bool → Option Halt → Option String → Round → Run → Run
after_round true halted acted r rest = ends Ended.exception r
after_round false halted none r rest = ends Ended.idle r
after_round false (some h) (some id) r rest = ends (Ended.stopped h) r
after_round false none (some id) r rest = record {
  ended = rest.ended;
  tables = rest.tables;
  calls = r.calls ++ rest.calls;
}

abbrev pub later {ℓ} : {A : Type ℓ} → (ℕ → A) → ℕ → A
later f n = f (n + 1)

module _ (account_id : String) (generation : ℕ) where
  -- `while not self.halted: if await self.send_next() is None: break`
  unfoldable pub send_all : ℕ → (ℕ → RunnerDeps) → (ℕ → Moments) → ResultTables → Run
  send_all zero deps at db = record { ended = Ended.out_of_fuel; tables = db; calls = [] }
  send_all (suc fuel) deps at db =
      let r = send_next (deps 0) account_id generation (at 0) db in
      let rest = send_all fuel (later deps) (later at) r.tables in
      after_round r.raised r.halted r.acted r rest

  abbrev pub after_drain :
      Option ℕ × DrainTables → ℕ → (ℕ → RunnerDeps) → (ℕ → Moments) → ResultTables → Run
  after_drain (none, drained) fuel deps at db = record {
    ended = Ended.exception;
    tables = db;
    calls = [];
  }
  after_drain (some n, drained) fuel deps at db = send_all fuel deps at (with_jobs db drained.jobs)

  module _ (limit : ℕ) (rules : String → List RuleSnapshot) (draws : EventInbox → Draws)
      (tenant_id project_id : String) (ids : ℕ → String) (now : ℕ) where
    abbrev pub drained_by : ResultTables → DrainTables → Option ℕ × DrainTables
    drained_by db inbox =
        drain_inbox limit rules draws tenant_id project_id ids now db.maps
          (record inbox { jobs = db.tables.jobs })

    -- A runner that is halted does nothing; else the inbox is drained and what is due is sent. Of
    -- `inbox` the inbox alone is read.
    unfoldable pub run_once :
        Option Halt → ℕ → (ℕ → RunnerDeps) → (ℕ → Moments) → ResultTables → DrainTables → Run
    run_once (some h) fuel deps at db inbox = record {
      ended = Ended.stopped h;
      tables = db;
      calls = [];
    }
    run_once none fuel deps at db inbox = after_drain (drained_by db inbox) fuel deps at db
