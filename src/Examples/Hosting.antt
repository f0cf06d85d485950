-- ===== src/Examples/Hosting.antt =====
-- The theorems on the host, on one account that is taken on.
use tdaudiibncba.Common.{
  ◌≡◌, ◌≢◌, refl, ap, true, false, none, some, List, [], ◌∷◌, Memᴰ, contains, length, none≢some,
  string_eq, nat_eq,
}
use tdaudiibncba.Common.Dict
use tdaudiibncba.Common.Dict.{Dict}
use tdaudiibncba.Delivery.Policy.{Decision}
use tdaudiibncba.Delivery.Errors.{default_policy}
use tdaudiibncba.Storage.Leases.{acquire, acquire_given}
use tdaudiibncba.Worker.Runner.{gate}
use tdaudiibncba.Host.Heartbeat.{
  new_heartbeat, answered, failed, Beat, run, calls_in, run_reports_once,
}
use tdaudiibncba.Host.State.{
  Assignment, Hosted, Host, rows, report_status, refresh_rules, rule_ids, snapshots, or_empty,
  deps_of,
}
use tdaudiibncba.Host.Assigning.{
  World, Answers, started, assign, assign_all, desired_of, release_each, undesired, lost_hosted,
  release_lost, follow, reconcile,
}
use tdaudiibncba.Host.Commands.{PendingCommand, Surroundings, Field}
use tdaudiibncba.Host.Ticking.{Outside, tick}
use tdaudiibncba.Host.Alignment.{Aligned}
use tdaudiibncba.Host.Rounds.{tick-Aligned}
use tdaudiibncba.Host.Once.{Poll, AreFresh, ids_of, polls, polls_once}
use tdaudiibncba.Host.Convergence.{IsNamed, reconcile_follows}
use tdaudiibncba.Host.Gatekeeping.{removed_rule_never_sends}
use tdaudiibncba.Examples.Data.{news_plan, open_policy, crashing_transport}
use tdaudiibncba.Examples.Running.{ready_job, moments}

abbrev sender : Assignment
sender = record {
  account_id = "sender1";
  api_row_id = 11;
  tenant_id = "t";
  project_id = "p";
  has_session = true;
}

abbrev empty_host : Host
empty_host = record {
  hosted = [];
  runners = [];
  routes = [];
  registry = [];
  rules_cache = [];
  known_rule_ids = ("sender1", "rule1" ∷ []) ∷ [];
  disabled_rule_ids = [];
  dead_accounts = [];
  lost = "sender2" ∷ [];
  seen_cmds = [];
  rules_refreshed_at = 0;
  reports = [];
}

empty-Aligned : Aligned empty_host
unfolding Dict.get
empty-Aligned = record {
  served = λ a x e. absurd (none≢some e);
  only = λ a r e. absurd (none≢some e);
}

abbrev answers : Answers
answers = record { connects = λ a. none; rules = λ id. rows []; now = 50 }

abbrev pause : PendingCommand
pause = record { id = 7; kind = "PauseAccount"; job_id = "" }

abbrev surroundings : Surroundings
surroundings = record { rules = λ id. rows []; lists_dialogs = true; now = 50 }

abbrev outside : Outside
outside = record {
  assignments = some (sender ∷ []);
  answers = answers;
  commands = λ id. some (pause ∷ pause ∷ []);
  surroundings = surroundings;
  rounds = λ a. none;
}

abbrev start : Field
start = record { host = empty_host; jobs = [] }

tick-Aligned_example : Aligned (tick "worker1" 45 outside [] start).0.1.0.host
tick-Aligned_example = tick-Aligned "worker1" 45 outside [] start empty-Aligned

abbrev world : World
world = record { host = empty_host; leases = [] }

abbrev taken_on : Hosted
taken_on = record { assignment = sender; heartbeat = started }

reconcile_quiet : (reconcile "worker1" 45 (some (sender ∷ [])) answers world).0 ≡ false
unfolding reconcile follow assign_all desired_of Dict.put Dict.get release_each undesired assign
    acquire acquire_given refresh_rules release_lost
reconcile_quiet = refl

reconcile_hosts :
    Dict.get (reconcile "worker1" 45 (some (sender ∷ [])) answers world).1.host.hosted "sender1"
    ≡ some taken_on
unfolding reconcile follow assign_all Dict.get desired_of Dict.put release_each undesired assign
    acquire acquire_given refresh_rules release_lost lost_hosted report_status contains
reconcile_hosts = refl

reconcile_follows_example :
    IsNamed (sender ∷ []) "sender1" × (contains empty_host.lost "sender1" ≡ false)
reconcile_follows_example =
    reconcile_follows "worker1" 45 (sender ∷ []) answers world "sender1" taken_on reconcile_quiet
      reconcile_hosts

abbrev hosting : Field
hosting = record start { host = record empty_host { hosted = ("sender1", taken_on) ∷ [] } }

abbrev twice : List (Poll × (Field → Field))
twice =
    (record { out = surroundings; pulls = outside.commands }, λ f. f)
    ∷ (record { out = surroundings; pulls = outside.commands }, λ f. f)
    ∷ []

quiet_between :
    (p : Poll × (Field → Field))
    → Memᴰ p twice
    → (g : Field) → (p.1 g).host.seen_cmds ≡ g.host.seen_cmds
quiet_between p (Memᴰ.head e) g = ap (λ (q : Poll × (Field → Field)). (q.1 g).host.seen_cmds) e
quiet_between p (Memᴰ.tail (Memᴰ.head e)) g =
    ap (λ (q : Poll × (Field → Field)). (q.1 g).host.seen_cmds) e
quiet_between p (Memᴰ.tail (Memᴰ.tail m)) g = elim m [ ]

polls_once_example : AreFresh [] (ids_of (polls twice hosting).0)
polls_once_example = polls_once twice hosting quiet_between

rule_known : contains (or_empty (Dict.get empty_host.known_rule_ids "sender1")) "rule1" ≡ true
unfolding contains Dict.get
rule_known = refl

rule_gone : contains (rule_ids (snapshots [] "sender1" [])) "rule1" ≡ false
unfolding contains snapshots
rule_gone = refl

removed_rule_never_sends_example :
    gate
      (deps_of crashing_transport open_policy default_policy
        (refresh_rules (rows []) sender 60 hosting.host).1)
      "sender1"
      4
      moments
      news_plan
      ready_job
    ≢ Decision.allow
removed_rule_never_sends_example =
    removed_rule_never_sends crashing_transport open_policy default_policy hosting.host "sender1" 4
      moments [] sender 60 news_plan ready_job rule_known rule_gone

abbrev some_beats : List Beat
some_beats =
    record { stops_first = false; renewal = answered true; stops_after = false }
    ∷ record { stops_first = false; renewal = failed "TimeoutError"; stops_after = true }
    ∷ record { stops_first = false; renewal = answered true; stops_after = false }
    ∷ []

run_reports_once_example :
    length (run some_beats new_heartbeat).lost_reasons
    ≡ calls_in (run some_beats new_heartbeat).state
run_reports_once_example = run_reports_once some_beats
