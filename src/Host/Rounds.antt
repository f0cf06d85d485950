-- ===== src/Host/Rounds.antt =====
-- A complete poll round keeps the tables of the host in step (runtime/worker/host.py, tick).
use tdaudiibncba.Common.{
  some_inj, none≢some, ℕ, ◌-◌, String, ◌≡◌, ap, inl, inr, Bool, true, false, Option, some, [], ◌∷◌,
  ◌==◌, ltb, both_branches, string_eq, Bool-cases,
}
use tdaudiibncba.Common.Dict
use tdaudiibncba.Common.Dict.{Dict}
use tdaudiibncba.Storage.Jobs.{Jobs}
use tdaudiibncba.Storage.Leases.{Leases}
use tdaudiibncba.Worker.Runner.{Halt}
use tdaudiibncba.Host.Registry.{Registry}
use tdaudiibncba.Host.State.{Hosted, AccountRunner, Host, Pulled, refresh_rules}
use tdaudiibncba.Host.Assigning.{World}
use tdaudiibncba.Host.Commands.{Field, poll_commands}
use tdaudiibncba.Host.Ticking.{
  rules_refresh, refresh_next, refresh_each, refresh_stale, halted_by, run_runners, Outside,
  after_refresh, after_reconcile, tick,
}
use tdaudiibncba.Host.Alignment.{IsAligned, Aligned}
use tdaudiibncba.Host.Invariant.{refresh-Aligned, reconcile-Aligned}
use tdaudiibncba.Host.Polling.{poll_commands-Aligned}

next-Aligned :
    (r : Bool × Host) (next : Host → Bool × Host)
    → Aligned r.1
    → ((h : Host) → Aligned h → Aligned (next h).1)
    → Aligned (refresh_next r next).1
next-Aligned (true, h) next al f = al
next-Aligned (false, h) next al f = f h al

refresh_each-Aligned :
    (pulls : ℕ → Pulled) (now : ℕ) (hosted : Dict String Hosted) (h : Host)
    → Aligned h
    → Aligned (refresh_each pulls now hosted h).1
unfolding refresh_each
refresh_each-Aligned pulls now [] h al = al
refresh_each-Aligned pulls now ((id, x) ∷ hosted) h al =
    next-Aligned (refresh_rules (pulls x.assignment.api_row_id) x.assignment now h)
      (refresh_each pulls now hosted)
      (refresh-Aligned (pulls x.assignment.api_row_id) x.assignment now h al)
      (λ h' al'. refresh_each-Aligned pulls now hosted h' al')

-- A runner after its round is the runner before it, but for whether it is halted.
run_back :
    (rounds : String → Option Halt) (runners : Dict String AccountRunner) (a : String)
    (r : AccountRunner)
    → Dict.get (run_runners rounds runners) a ≡ some r
    → (old : AccountRunner) × (Dict.get runners a ≡ some old)
unfolding run_runners Dict.get
run_back rounds [] a r e = absurd (none≢some e)
run_back rounds ((id, x) ∷ runners) a r e = elim (Bool-cases (id == a)) [
  | inl p ↦ (x, rw p)
  | inr p ↦ let (old, f) = run_back rounds runners a r (rw p at e) in (old, rw p f)
]

run_on :
    (rounds : String → Option Halt) (runners : Dict String AccountRunner) (a : String)
    (r : AccountRunner)
    → Dict.get runners a ≡ some r
    → Dict.get (run_runners rounds runners) a ≡ some (halted_by rounds r)
unfolding run_runners Dict.get
run_on rounds [] a r e = absurd (none≢some e)
run_on rounds ((id, x) ∷ runners) a r e = elim (Bool-cases (id == a)) [
  | inl p ↦ rw p (ap (λ (y : AccountRunner). some (halted_by rounds y)) (some_inj (rw p at e)))
  | inr p ↦ rw p (run_on rounds runners a r (rw p at e))
]

run-IsAligned :
    (rounds : String → Option Halt) (hosted : Dict String Hosted)
    (runners : Dict String AccountRunner) (routes : Dict String String) (registry : Registry)
    → IsAligned hosted runners routes registry
    → IsAligned hosted (run_runners rounds runners) routes registry
run-IsAligned rounds hosted runners routes registry al = record {
  served = λ a x e.
      let s = al.served a x e in
      record {
        runner = halted_by rounds s.runner;
        runs = run_on rounds runners a s.runner s.runs;
        own = s.own;
        live = s.live;
        registered = s.registered;
        live_own = s.live_own;
        same_generation = s.same_generation;
        routed = s.routed;
      };
  only = λ a r e. let (old, f) = run_back rounds runners a r e in al.only a old f;
}

after_refresh-Aligned :
    (r : Bool × Host) (out : Outside) (old : Host)
    → Aligned r.1
    → Aligned (after_refresh r out old).1
after_refresh-Aligned (true, h) out old al = al
after_refresh-Aligned (false, h) out old al =
    run-IsAligned out.rounds h.hosted h.runners h.routes h.registry al

after_reconcile-Aligned :
    (r : Bool × World) (out : Outside) (jobs : Jobs)
    → Aligned r.1.host
    → Aligned (after_reconcile r out jobs).1.0.host
unfolding refresh_stale
after_reconcile-Aligned (true, w) out jobs al = al
after_reconcile-Aligned (false, w) out jobs al =
    let f =
      (poll_commands out.surroundings out.commands (record { host = w.host; jobs = jobs })).1 in
    let polled =
      poll_commands-Aligned out.surroundings out.commands (record { host = w.host; jobs = jobs })
        al in
    after_refresh-Aligned _ out f.host (
      both_branches (λ (r : Bool × Host). Aligned r.1)
        (ltb rules_refresh (out.surroundings.now - f.host.rules_refreshed_at)) _ (false, f.host)
        (refresh_each-Aligned out.surroundings.rules out.surroundings.now f.host.hosted f.host
          polled)
        polled)

-- A complete poll round keeps the tables of the host in step: whatever the control plane answers,
-- whichever leases are won, sessions connect, commands come and runners halt, and also where an
-- exception leaves the round, every hosted account afterwards has a runner, a transport and a row of
-- the registry under the runner's generation, and only hosted accounts have runners.
pub tick-Aligned :
    (worker_id : String) (ttl : ℕ) (out : Outside) (leases : Leases) (f : Field)
    → Aligned f.host
    → Aligned (tick worker_id ttl out leases f).0.1.0.host
unfolding tick
tick-Aligned worker_id ttl out leases f al = after_reconcile-Aligned _ out f.jobs (
    reconcile-Aligned worker_id ttl out.assignments out.answers
      (record { host = f.host; leases = leases }) al)
