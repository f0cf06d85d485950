-- ===== src/Host/State.antt =====
-- runtime/worker/host.py, WorkerHostMain, and runtime/worker/runner.py, WorkerHost: what the host keeps
-- of its accounts and of their rules. A set is a list that is searched.
use tdaudiibncba.Common.{
  ℕ, ◌-◌, ◌+◌, ℤ, String, Bool, true, false, not, Option, none, some, List, [], ◌∷◌, ◌++◌, ◌==◌,
  contains, keep, ltb, if◌then◌else◌, string_eq,
}
use tdaudiibncba.Common.Dict
use tdaudiibncba.Common.Dict.{Dict}
use tdaudiibncba.Planner.Model.{RuleSnapshot, RouteTarget}
use tdaudiibncba.Delivery.Policy.{PolicySnapshot, ApprovalRecord}
use tdaudiibncba.Delivery.Executor.{SendTransport}
use tdaudiibncba.Delivery.Errors.{RetryPolicy}
use tdaudiibncba.Storage.Jobs.{DeliveryJob}
use tdaudiibncba.Worker.Rules.{PublishedRule, rules_from_snapshot}
use tdaudiibncba.Worker.Runner.{RunnerDeps, Halt}
use tdaudiibncba.Host.Registry.{Registry, live_of}
use tdaudiibncba.Host.Heartbeat.{Heartbeat}

pub record Assignment : Type 0 where
  pub account_id : String
  pub api_row_id : ℕ
  pub tenant_id : String
  pub project_id : String
  pub has_session : Bool

pub record Hosted : Type 0 where
  pub assignment : Assignment
  pub heartbeat : Heartbeat

pub record AccountRunner : Type 0 where
  pub account_id : String
  pub generation : ℕ
  pub halted : Option Halt

-- A status that is reported to the control plane.
pub record Report : Type 0 where
  pub api_row_id : ℕ
  pub status : String
  pub error : String

-- `routes` gives the account of the transport that serves an account.
pub record Host : Type 0 where
  pub hosted : Dict String Hosted
  pub runners : Dict String AccountRunner
  pub routes : Dict String String
  pub registry : Registry
  pub rules_cache : Dict String (List RuleSnapshot)
  pub known_rule_ids : Dict String (List String)
  pub disabled_rule_ids : List String
  pub dead_accounts : List String
  pub lost : List String
  pub seen_cmds : List ℕ
  pub rules_refreshed_at : ℕ
  pub reports : List Report

unfoldable pub report_status : ℕ → String → String → Host → Host
report_status api_row_id status error h = record h {
  reports = h.reports ++ record { api_row_id = api_row_id; status = status; error = error } ∷ [];
}

-- WorkerHost.assign
unfoldable pub assign_runner : String → ℕ → Dict String AccountRunner → Dict String AccountRunner
assign_runner account_id generation runners =
    Dict.put runners account_id
      (record { account_id = account_id; generation = generation; halted = none })

-- WorkerHost.release
unfoldable pub release_runner : String → Dict String AccountRunner → Dict String AccountRunner
release_runner account_id runners = Dict.remove runners account_id

abbrev pub dead_statuses : List String
dead_statuses =
    "auth_dead" ∷ "revoked" ∷ "banned" ∷ "frozen" ∷ "error" ∷ "disabled" ∷ "reauth_required"
    ∷ "unauthorized" ∷ []

-- `_on_status`
unfoldable pub on_status : Assignment → String → String → Host → Host
on_status a status error h =
    let h' =
      if contains dead_statuses status
      then record h { dead_accounts = a.account_id ∷ h.dead_accounts }
      else if status == "active"
      then record h { dead_accounts = keep (λ d. not (d == a.account_id)) h.dead_accounts }
      else h in
    report_status a.api_row_id status error h'

-- A row of `pull_rules`, with the account that it names, if any.
pub record PulledRule : Type 0 where
  pub rule : PublishedRule
  pub account_uuid : Option String

-- `r.get("account_uuid") or a.account_id`
abbrev pub account_of : Option String → String → String
account_of none account_id = account_id
account_of (some uuid) account_id = if uuid == "" then account_id else uuid

unfoldable pub snapshots : List PulledRule → String → List String → List RuleSnapshot
snapshots [] account_id dead = []
snapshots (r ∷ rows) account_id dead =
    rules_from_snapshot r.rule (account_of r.account_uuid account_id) dead
    ++ snapshots rows account_id dead

abbrev pub rule_ids : List RuleSnapshot → List String
rule_ids [] = []
rule_ids (s ∷ snaps) = s.rule_id ∷ rule_ids snaps

unfoldable pub minus : List String → List String → List String
minus xs ys = keep (λ x. not (contains ys x)) xs

abbrev pub or_empty : Option (List String) → List String
or_empty none = []
or_empty (some ids) = ids

-- What `pull_rules` did: rows, a ControlApiError, or another exception.
pub data Pulled : Type 0 where
  rows : List PulledRule → Pulled
  refused : Pulled
  broke : Pulled

abbrev pub refreshed : String → List RuleSnapshot → ℕ → Host → Host
refreshed account_id snaps now h =
    let new_ids = rule_ids snaps in
    let removed = minus (or_empty (Dict.get h.known_rule_ids account_id)) new_ids in
    record h {
      disabled_rule_ids = minus (h.disabled_rule_ids ++ removed) new_ids;
      known_rule_ids = Dict.put h.known_rule_ids account_id new_ids;
      rules_cache = Dict.put h.rules_cache account_id snaps;
      rules_refreshed_at = now;
    }

-- `_refresh_rules`, with whether an exception leaves it.
unfoldable pub refresh_rules : Pulled → Assignment → ℕ → Host → Bool × Host
refresh_rules (rows rs) a now h =
    (false, refreshed a.account_id (snapshots rs a.account_id h.dead_accounts) now h)
refresh_rules refused a now h = (false, h)
refresh_rules broke a now h = (true, h)

-- `_current_policy`
abbrev pub with_disabled : List String → PolicySnapshot → PolicySnapshot
with_disabled [] policy = policy
with_disabled (r ∷ ids) policy = record policy { rule_disabled = policy.rule_disabled ++ r ∷ ids }

unfoldable pub current_policy : PolicySnapshot → Host → PolicySnapshot
current_policy policy h = with_disabled h.disabled_rule_ids policy

-- `_approval_for`
unfoldable pub approval_for : DeliveryJob → Option ApprovalRecord
approval_for job =
    if job.requires_approval
    then some (record { approved = true; content_hash = job.payload_hash; expires_at = none })
    else none

abbrev pub target_chats : List RouteTarget → List ℤ
target_chats [] = []
target_chats (t ∷ targets) = t.target_chat_id ∷ target_chats targets

abbrev pub chats_of : List RuleSnapshot → List ℤ
chats_of [] = []
chats_of (r ∷ rules) = r.source_chat_id ∷ (target_chats r.targets ++ chats_of rules)

abbrev pub cached : Option (List RuleSnapshot) → List RuleSnapshot
cached none = []
cached (some rules) = rules

-- `_rules_cache.get(account_id, [])`
unfoldable pub rules_of : Host → String → List RuleSnapshot
rules_of h account_id = cached (Dict.get h.rules_cache account_id)

-- `_rule_chats`
unfoldable pub rule_chats : String → Host → List ℤ
rule_chats account_id h = chats_of (rules_of h account_id)

-- abs(a - b)
abbrev pub distance : ℕ → ℕ → ℕ
distance a b = (a - b) + (b - a)

abbrev pub nearer : Option RuleSnapshot → ℕ → RuleSnapshot → Option RuleSnapshot
nearer none version s = some s
nearer (some best) version s =
    if ltb (distance s.version version) (distance best.version version) then some s else some best

unfoldable pub best_of : List RuleSnapshot → String → ℕ → Option RuleSnapshot → Option RuleSnapshot
best_of [] rule_id version best = best
best_of (s ∷ snaps) rule_id version best =
    best_of snaps rule_id version (if s.rule_id == rule_id then nearer best version s else best)

unfoldable pub best_cached :
    Dict String (List RuleSnapshot) → String → ℕ → Option RuleSnapshot → Option RuleSnapshot
best_cached [] rule_id version best = best
best_cached ((account, snaps) ∷ cache) rule_id version best =
    best_cached cache rule_id version (best_of snaps rule_id version best)

abbrev pub hints_from : Option RuleSnapshot → Option (Option String × Bool)
hints_from none = none
hints_from (some best) = some (some best.account_id, best.transform)

-- `_plan_hints`
unfoldable pub plan_hints : Host → String → ℕ → Option (Option String × Bool)
plan_hints h rule_id version = hints_from (best_cached h.rules_cache rule_id version none)

-- The dependencies that the host gives to its runners.
unfoldable pub deps_of : SendTransport → PolicySnapshot → RetryPolicy → Host → RunnerDeps
deps_of transport policy retry_policy h = record {
  transport = transport;
  live = λ account_id. live_of account_id h.registry;
  policy = current_policy policy h;
  approvals = approval_for;
  plan_hints = plan_hints h;
  retry_policy = retry_policy;
}
