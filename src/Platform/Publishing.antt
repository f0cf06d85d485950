-- ===== src/Platform/Publishing.antt =====
-- telegram-platform/backend/app/tg/service/rule_service.py, publish: a rule and its routes become an
-- immutable version. The request's new ids, keys and clock readings are arguments.
use tdaudiibncba.Common.{
  ℕ, suc, ℤ, String, Bool, true, false, not, ◌&&◌, ◌||◌, Option, none, some, List, [], ◌∷◌, ◌++◌,
  ◌==◌, contains, exists_by, if◌then◌else◌, nat_eq, int_eq, option_eq, pair_eq,
}
use tdaudiibncba.Common.Dict
use tdaudiibncba.Common.Dict.{Dict}
use tdaudiibncba.Platform.Store.{User, Account, is_member}
use tdaudiibncba.Platform.Commands.{CommandAccount, Queue, Answered, issue}
use tdaudiibncba.Platform.Rules.{
  RuleStatus, CloneRule, CloneTarget, RuleVersion, RuleStore, snapshot, get_rule,
}
use tdaudiibncba.Platform.Pulling.{is_version}
use tdaudiibncba.Platform.Chats.{RuleFailure, Attempt, made, refused, then_try, auto_join}

-- What a request that publishes takes from outside.
pub record Fresh : Type 0 where
  pub sync_id : ℕ
  pub sync_key : String
  pub reload_id : ℕ
  pub reload_key : String
  pub now : ℕ
  pub at : ℕ → ℕ

-- clone_target_dao.get_active_by_rule
unfoldable pub active_of : ℕ → Dict ℕ CloneTarget → List CloneTarget
active_of rule_id [] = []
active_of rule_id ((pk, t) ∷ targets) =
    let rest = active_of rule_id targets in
    if (t.rule_id == rule_id) && t.active && not t.deleted then t ∷ rest else rest

abbrev pub RouteKey : Type 0
RouteKey = ℤ × (Option ℤ × (ℤ × Option ℤ))

-- `_route_key`
abbrev pub route_key : CloneTarget → RouteKey
route_key t = (t.source_chat_id, (t.source_topic_id, (t.target_chat_id, t.target_topic_id)))

abbrev pub route_keys : List CloneTarget → List RouteKey
route_keys [] = []
route_keys (t ∷ targets) = route_key t ∷ route_keys targets

-- `len(set(routes)) != len(routes)`
unfoldable pub repeats : List RouteKey → Bool
repeats [] = false
repeats (k ∷ keys) = contains keys k || repeats keys

-- Whether two routes have the same columns of the constraint uk_tg_target_src_deleted, for which a
-- missing topic is like no other.
abbrev pub same_topic : CloneTarget → Option ℤ → CloneTarget → Bool
same_topic t none u = false
same_topic t (some topic) u =
    (u.rule_id == t.rule_id)
    && (u.source_chat_id == t.source_chat_id)
    && (u.source_topic_id == some topic)
    && not u.deleted
    && not (u.id == t.id)

abbrev pub rows : Dict ℕ CloneTarget → List CloneTarget
rows [] = []
rows ((pk, t) ∷ targets) = t ∷ rows targets

unfoldable pub topic_taken : Dict ℕ CloneTarget → CloneTarget → Bool
topic_taken targets t = not t.deleted && exists_by (same_topic t t.source_topic_id) (rows targets)

unfoldable pub put_targets : List CloneTarget → Dict ℕ CloneTarget → Dict ℕ CloneTarget
put_targets [] targets = targets
put_targets (t ∷ ts) targets = put_targets ts (Dict.put targets t.id t)

-- The flush of routes that were changed.
abbrev pub flushed : List CloneTarget → RuleStore → Attempt RuleStore
flushed ts db =
    let targets = put_targets ts db.targets in
    if exists_by (topic_taken targets) ts
    then refused RuleFailure.topic_taken
    else made (record db { targets = targets })

abbrev pub command_accounts : Dict ℕ Account → Dict ℕ CommandAccount
command_accounts [] = []
command_accounts ((pk, a) ∷ accounts) =
    (pk, record { tenant_id = a.tenant_id; project_id = a.project_id; deleted = a.deleted })
    ∷ command_accounts accounts

abbrev pub issued : Answered × Queue → RuleStore → Attempt RuleStore
issued (Answered.command c, q) db = made (record db { commands = q.commands })
issued (Answered.failure e, q) db = refused (RuleFailure.not_issued e)

-- `runtime_command_service.issue` of a command without a payload
abbrev pub notify : User → ℕ → String → ℕ → String → ℕ → RuleStore → Attempt RuleStore
notify user account_id kind id key now db =
    issued
      (issue user account_id
        (record { kind = kind; payload = none; expected_generation = none; dedup_key = some key })
        id key now
        (record {
          memberships = db.memberships;
          accounts = command_accounts db.accounts;
          commands = db.commands;
        }))
      db

abbrev pub is_disabled : RuleStatus → Bool
is_disabled RuleStatus.disabled = true
is_disabled _ = false

abbrev pub version_of : User → CloneRule → List CloneTarget → ℕ → RuleVersion
version_of user r targets now = record {
  rule_id = r.id;
  version = suc r.current_version;
  snapshot = snapshot r targets;
  published_by = user.id;
  published_at = now;
}

abbrev pub published_rule : CloneRule → CloneRule
published_rule r = record r {
  current_version = suc r.current_version;
  status = RuleStatus.published;
}

-- A version of the rule is inserted, unless there is one of that number.
abbrev pub insert_version : RuleVersion → RuleStore → Attempt RuleStore
insert_version v db =
    if exists_by (is_version v.rule_id v.version) db.versions
    then refused RuleFailure.duplicate_version
    else made (record db { versions = db.versions ++ v ∷ [] })

-- The two columns are updated in the row as it is now.
abbrev pub row_updated : Option CloneRule → CloneRule → Dict ℕ CloneRule → Dict ℕ CloneRule
row_updated none r rules = rules
row_updated (some row) r rules =
    Dict.put rules r.id
      (record row { current_version = suc r.current_version; status = RuleStatus.published })

abbrev pub update_rule : CloneRule → RuleStore → RuleStore
update_rule r db = record db { rules = row_updated (Dict.get db.rules r.id) r db.rules }

abbrev pub no_routes : List CloneTarget → Bool
no_routes [] = true
no_routes (t ∷ targets) = false

-- The listener of a rule that runs is told to look at its chats.
abbrev pub synced :
    Bool → User → CloneRule → Fresh → List CloneTarget → RuleStore → Attempt RuleStore
synced false user r fresh ts db = made db
synced true user r fresh ts db =
    then_try (flushed ts db)
      (notify user r.account_id "SyncChats" fresh.sync_id fresh.sync_key fresh.now)

abbrev pub store_version :
    User → CloneRule → Fresh → RuleStore → List CloneTarget → Attempt (RuleVersion × RuleStore)
store_version user r fresh db ts =
    let v = version_of user r ts fresh.now in
    then_try (synced r.enabled user r fresh ts db) λ db1. then_try (insert_version v db1) λ db2.
      then_try
        (notify user r.account_id "ReloadConfig" fresh.reload_id fresh.reload_key fresh.now
          (update_rule r db2))
        λ db3. made (v, db3)

-- `_check_scope`
abbrev pub may_manage : RuleStore → User → CloneRule → Bool
may_manage db user r =
    user.is_superuser || exists_by (is_member r.tenant_id r.project_id user.id) db.memberships

-- `get`
abbrev pub found : Option CloneRule → User → RuleStore → Attempt CloneRule
found none user db = refused RuleFailure.no_rule
found (some r) user db = if may_manage db user r then made r else refused RuleFailure.forbidden

module _ (join : ℕ → List String → Option (String → Option ℤ)) where
  -- The routes with which a rule is published: those of one that runs are entered first.
  unfoldable pub entered : CloneRule → Fresh → RuleStore → Attempt (List CloneTarget)
  entered r fresh db =
      let targets = active_of r.id db.targets in
      if r.enabled then auto_join join db.accounts r db.jobs fresh.at targets else made targets

  -- `publish` after the rule was read.
  unfoldable pub publish_given :
      User → CloneRule → ℕ → Fresh → RuleStore → Attempt (RuleVersion × RuleStore)
  publish_given user r expected_version fresh db =
      if is_disabled r.status
      then refused RuleFailure.rule_disabled
      else if not (r.current_version == expected_version)
      then refused RuleFailure.version_changed
      else if no_routes (active_of r.id db.targets)
      then refused RuleFailure.no_targets
      else if repeats (route_keys (active_of r.id db.targets))
      then refused RuleFailure.duplicate_routes
      else then_try (entered r fresh db) (store_version user r fresh db)

  unfoldable pub publish : User → ℕ → ℕ → Fresh → RuleStore → Attempt (RuleVersion × RuleStore)
  publish user pk expected_version fresh db =
      then_try (found (get_rule db pk) user db) λ r. publish_given user r expected_version fresh db
