-- ===== src/Host/Assigning.antt =====
-- runtime/worker/host.py: accounts are taken on under their leases and let go. What the control plane
-- answers, whether a session connects and the clock readings are arguments.
use tdaudiibncba.Common.{
  ℕ, String, Bool, true, false, Option, none, some, List, [], ◌∷◌, ◌==◌, contains, if◌then◌else◌,
  string_eq, is_some,
}
use tdaudiibncba.Common.Dict
use tdaudiibncba.Common.Dict.{Dict}
use tdaudiibncba.Storage.Leases.{Leases, acquire}
use tdaudiibncba.Host.Registry.{register, drop}
use tdaudiibncba.Host.Heartbeat.{HeartbeatState, Heartbeat, new_heartbeat}
use tdaudiibncba.Host.State.{
  Assignment, Hosted, Host, Pulled, report_status, assign_runner, release_runner, refresh_rules,
}

pub record World : Type 0 where
  pub host : Host
  pub leases : Leases

abbrev pub with_host : World → Host → World
with_host w h = record w { host = h }

-- What `_assign` meets outside: the error with which fetching or connecting a session fails, the
-- rules, and the clock.
pub record Answers : Type 0 where
  pub connects : String → Option String
  pub rules : ℕ → Pulled
  pub now : ℕ

-- A heartbeat whose task has been started.
abbrev pub started : Heartbeat
started = record new_heartbeat { state = HeartbeatState.running }

-- `_release`: only an account that is hosted has a heartbeat to stop, and its end is reported unless
-- the lease is lost.
abbrev pub let_go : Option Hosted → String → Host → Host
let_go none reason h = h
let_go (some hosted) reason h =
    if reason == "lease_lost" then h else report_status hosted.assignment.api_row_id "stopped" "" h

unfoldable pub release : String → String → Host → Host
release account_id reason h = let_go (Dict.get h.hosted account_id) reason (record h {
  hosted = Dict.remove h.hosted account_id;
  runners = release_runner account_id h.runners;
  routes = Dict.remove h.routes account_id;
  registry = drop account_id h.registry;
  rules_cache = Dict.remove h.rules_cache account_id;
  known_rule_ids = Dict.remove h.known_rule_ids account_id;
})

-- The account is taken on once its rules were refreshed, unless that raised.
abbrev pub hosted_after : Bool × Host → Assignment → ℕ → Bool × Host
hosted_after (true, h) a generation = (true, h)
hosted_after (false, h) a generation = (
  false,
  report_status a.api_row_id "active" "" (record h {
    runners = assign_runner a.account_id generation h.runners;
    hosted = Dict.put h.hosted a.account_id (record { assignment = a; heartbeat = started });
  }),
)

-- After the lease was won and a session was asked for.
abbrev pub connected : Option String → Answers → Assignment → ℕ → Host → Bool × Host
connected (some error) ans a generation h = (false, report_status a.api_row_id "error" error h)
connected none ans a generation h =
    hosted_after
      (refresh_rules (ans.rules a.api_row_id) a ans.now (record h {
        registry = register a.account_id generation h.registry;
        routes = Dict.put h.routes a.account_id a.account_id;
      }))
      a generation

abbrev pub with_lease : Option ℕ → Answers → Assignment → Host → Bool × Host
with_lease none ans a h = (false, h)
with_lease (some generation) ans a h = connected (ans.connects a.account_id) ans a generation h

abbrev pub and_then : Bool × World → (World → Bool × World) → Bool × World
and_then (true, w) next = (true, w)
and_then (false, w) next = next w

-- `{a.account_id: a for a in assignments}`
unfoldable pub desired_of : List Assignment → Dict String Assignment → Dict String Assignment
desired_of [] d = d
desired_of (a ∷ assignments) d = desired_of assignments (Dict.put d a.account_id a)

-- The hosted accounts are let go that fail a test.
unfoldable pub release_each : List String → String → Host → Host
release_each [] reason h = h
release_each (account_id ∷ ids) reason h = release_each ids reason (release account_id reason h)

unfoldable pub undesired : Dict String Hosted → Dict String Assignment → List String
undesired [] desired = []
undesired ((account_id, x) ∷ hosted) desired =
    let rest = undesired hosted desired in
    if is_some (Dict.get desired account_id) then rest else account_id ∷ rest

unfoldable pub lost_hosted : Dict String Hosted → List String → List String
lost_hosted [] lost = []
lost_hosted ((account_id, x) ∷ hosted) lost =
    let rest = lost_hosted hosted lost in
    if contains lost account_id then account_id ∷ rest else rest

unfoldable pub release_lost : World → Bool × World
release_lost w = (
  false,
  with_host w (record (release_each (lost_hosted w.host.hosted w.host.lost) "lease_lost" w.host) {
    lost = [];
  }),
)

module _ (worker_id : String) (ttl : ℕ) where
  -- `_assign`, with whether an exception leaves it.
  unfoldable pub assign : Answers → Assignment → World → Bool × World
  assign ans a w =
      let (generation, leases) = acquire a.account_id worker_id ttl ans.now w.leases in
      let (raised, h) = with_lease generation ans a w.host in
      if a.has_session then (raised, record { host = h; leases = leases }) else (false, w)

  abbrev pub assign_new : Bool → Answers → Assignment → World → Bool × World
  assign_new true ans a w = (false, w)
  assign_new false ans a w = assign ans a w

  -- The desired accounts that are not hosted yet are taken on, in the order of the answer.
  unfoldable pub assign_all : Answers → Dict String Assignment → World → Bool × World
  assign_all ans [] w = (false, w)
  assign_all ans ((account_id, a) ∷ desired) w =
      and_then (assign_new (is_some (Dict.get w.host.hosted account_id)) ans a w)
        (assign_all ans desired)

  unfoldable pub follow : Answers → Dict String Assignment → World → Bool × World
  follow ans desired w =
      assign_all ans desired
        (with_host w (release_each (undesired w.host.hosted desired) "unassigned" w.host))

  abbrev pub follow_answer : Option (List Assignment) → Answers → World → Bool × World
  follow_answer none ans w = (false, w)
  follow_answer (some assignments) ans w = follow ans (desired_of assignments []) w

  -- `reconcile`: `none` is a control plane that did not answer. With whether an exception leaves it.
  unfoldable pub reconcile : Option (List Assignment) → Answers → World → Bool × World
  reconcile assignments ans w = and_then (follow_answer assignments ans w) release_lost
