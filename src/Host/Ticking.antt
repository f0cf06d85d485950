-- ===== src/Host/Ticking.antt =====
-- runtime/worker/host.py, `tick` and the end of `run`: one complete poll round of the host.
use tdaudiibncba.Common.{
  ℕ, ◌*◌, ◌-◌, String, Bool, true, false, Option, none, some, List, [], ◌∷◌, ltb, if◌then◌else◌,
  string_eq,
}
use tdaudiibncba.Common.Dict.{Dict}
use tdaudiibncba.Storage.Jobs.{Jobs}
use tdaudiibncba.Storage.Leases.{Leases}
use tdaudiibncba.Worker.Runner.{Halt}
use tdaudiibncba.Host.State.{Assignment, Hosted, AccountRunner, Host, Pulled, refresh_rules}
use tdaudiibncba.Host.Assigning.{World, Answers, release, reconcile}
use tdaudiibncba.Host.Commands.{Acks, Field, Surroundings, PendingCommand, poll_commands}

-- `RULES_REFRESH_S`
abbrev pub rules_refresh : ℕ
rules_refresh = 60 * 1000000

-- The rules of every hosted account are pulled again; an exception ends it.
abbrev pub refresh_next : Bool × Host → (Host → Bool × Host) → Bool × Host
refresh_next (true, h) next = (true, h)
refresh_next (false, h) next = next h

unfoldable pub refresh_each : (ℕ → Pulled) → ℕ → Dict String Hosted → Host → Bool × Host
refresh_each pulls now [] h = (false, h)
refresh_each pulls now ((account_id, x) ∷ hosted) h =
    refresh_next (refresh_rules (pulls x.assignment.api_row_id) x.assignment now h)
      (refresh_each pulls now hosted)

unfoldable pub refresh_stale : (ℕ → Pulled) → ℕ → Host → Bool × Host
refresh_stale pulls now h =
    let all = refresh_each pulls now h.hosted h in
    if ltb rules_refresh (now - h.rules_refreshed_at) then all else (false, h)

-- `self._runner_host.run_once()`: of the host, a round changes whether the runner is halted, and a
-- halted runner does nothing. What a round does to the tables is modelled in Worker/Looping.
abbrev pub halted_after : Option Halt → Option Halt → Option Halt
halted_after none round = round
halted_after (some h) round = some h

abbrev pub halted_by : (String → Option Halt) → AccountRunner → AccountRunner
halted_by rounds r = record r { halted = halted_after r.halted (rounds r.account_id) }

unfoldable pub run_runners :
    (String → Option Halt) → Dict String AccountRunner → Dict String AccountRunner
run_runners rounds [] = []
run_runners rounds ((id, r) ∷ runners) = (id, halted_by rounds r) ∷ run_runners rounds runners

abbrev pub lost_if : Option Halt → String → List String → List String
lost_if none account_id lost = lost
lost_if (some h) account_id lost = account_id ∷ lost

-- The halted runners are let go with the next `reconcile`.
unfoldable pub halted_ids : Dict String AccountRunner → List String → List String
halted_ids [] lost = lost
halted_ids ((id, r) ∷ runners) lost = halted_ids runners (lost_if r.halted id lost)

-- What a round of the host meets outside.
pub record Outside : Type 0 where
  pub assignments : Option (List Assignment)
  pub answers : Answers
  pub commands : ℕ → Option (List PendingCommand)
  pub surroundings : Surroundings
  pub rounds : String → Option Halt

abbrev pub after_refresh : Bool × Host → Outside → Host → Bool × Host
after_refresh (true, h) out old = (true, h)
after_refresh (false, h) out old =
    let runners = run_runners out.rounds h.runners in
    (false, record h { runners = runners; lost = halted_ids runners h.lost })

abbrev pub after_reconcile : Bool × World → Outside → Jobs → Bool × (Field × Acks)
after_reconcile (true, w) out jobs = (true, (record { host = w.host; jobs = jobs }, []))
after_reconcile (false, w) out jobs =
    let (acks, f) =
      poll_commands out.surroundings out.commands (record { host = w.host; jobs = jobs }) in
    let (raised, h) =
      after_refresh (refresh_stale out.surroundings.rules out.surroundings.now f.host) out f.host in
    (raised, (record f { host = h }, acks))

-- `tick`, with whether an exception leaves it, the acknowledgements, and the leases.
unfoldable pub tick : String → ℕ → Outside → Leases → Field → (Bool × (Field × Acks)) × Leases
tick worker_id ttl out leases f =
    let r =
      reconcile worker_id ttl out.assignments out.answers
        (record { host = f.host; leases = leases }) in
    (after_reconcile r out f.jobs, r.1.leases)

-- The end of `run`: every hosted account is let go.
unfoldable pub shut_down : Dict String Hosted → Host → Host
shut_down [] h = h
shut_down ((account_id, x) ∷ hosted) h = shut_down hosted (release account_id "shutdown" h)

-- `run` until it is stopped: an exception that leaves a round is logged, and the next round begins.
unfoldable pub run_rounds : String → ℕ → List Outside → Leases → Field → Field × Leases
run_rounds worker_id ttl [] leases f = (record f { host = shut_down f.host.hosted f.host }, leases)
run_rounds worker_id ttl (out ∷ outs) leases f =
    let (r, leases') = tick worker_id ttl out leases f in
    run_rounds worker_id ttl outs leases' r.1.0
