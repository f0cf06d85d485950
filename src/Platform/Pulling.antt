-- ===== src/Platform/Pulling.antt =====
-- What a worker pulls (telegram-platform/backend/app/tg/api/v1/runtime.py, pull_rules), and how it reads
-- it (rules_from_snapshot of telegram-runtime/runtime/worker/host.py).
use tdaudiibncba.Common.{
  ℕ, String, Bool, true, false, not, ◌&&◌, Option, none, some, List, [], ◌∷◌, ◌==◌, find,
  if◌then◌else◌, nat_eq, string_eq,
}
use tdaudiibncba.Common.Spelling.{spell}
use tdaudiibncba.Common.Dict.{Dict}
use tdaudiibncba.Planner.Model.{ApprovalPolicy, FilterSettings, FilterEntry}
use tdaudiibncba.Worker.Rules.{PublishedTarget, PublishedRule}
use tdaudiibncba.Host.State.{PulledRule}
use tdaudiibncba.Platform.Store.{Account}
use tdaudiibncba.Platform.Rules.{
  RuleStatus, CloneRule, SnapshotTarget, Snapshot, RuleVersion, RuleStore, or_listener, account_in,
}

abbrev pub is_version : ℕ → ℕ → RuleVersion → Bool
is_version rule_id version v = (v.rule_id == rule_id) && (v.version == version)

-- What a worker pulls: a uuid is missing where the account is not found.
pub record PulledRow : Type 0 where
  pub rule_id : ℕ
  pub version : ℕ
  pub snapshot : Snapshot
  pub account_uuid : Option String
  pub sender_account_uuids : List (Option String)

abbrev pub uuid_of : Option Account → Option String
uuid_of none = none
uuid_of (some a) = some a.uuid

abbrev pub uuids_of : Dict ℕ Account → ℕ → ℕ → List ℕ → List (Option String)
uuids_of accounts tenant_id project_id [] = []
uuids_of accounts tenant_id project_id (pid ∷ pool) =
    uuid_of (account_in accounts tenant_id project_id pid)
    ∷ uuids_of accounts tenant_id project_id pool

abbrev pub row_of : Dict ℕ Account → CloneRule → RuleVersion → PulledRow
row_of accounts r v = record {
  rule_id = r.id;
  version = v.version;
  snapshot = v.snapshot;
  account_uuid = uuid_of (account_in accounts r.tenant_id r.project_id r.account_id);
  sender_account_uuids =
      uuids_of accounts r.tenant_id r.project_id
        (or_listener v.snapshot.rule.sender_account_ids r.account_id);
}

abbrev pub is_published : RuleStatus → Bool
is_published RuleStatus.published = true
is_published _ = false

-- Whether a rule is listened to by an account and in force.
unfoldable pub serves_account : ℕ → CloneRule → Bool
serves_account account_id r =
    not r.deleted && (r.account_id == account_id) && is_published r.status && r.enabled

abbrev pub and_row :
    Dict ℕ Account → CloneRule → Option RuleVersion → List PulledRow → List PulledRow
and_row accounts r none rows = rows
and_row accounts r (some v) rows = row_of accounts r v ∷ rows

abbrev pub pull_each : Dict ℕ Account → List RuleVersion → ℕ → Dict ℕ CloneRule → List PulledRow
pull_each accounts versions account_id [] = []
pull_each accounts versions account_id ((pk, r) ∷ rules) =
    let rest = pull_each accounts versions account_id rules in
    if serves_account account_id r
    then and_row accounts r (find (is_version r.id r.current_version) versions) rest
    else rest

-- `pull_rules`
unfoldable pub pull_rules : RuleStore → ℕ → List PulledRow
pull_rules db account_id = pull_each db.accounts db.versions account_id db.rules

-- What rules_from_snapshot of runtime/worker/host.py reads of a row: `u` that are None are no uuids,
-- the policy of approvals is not in the snapshot, and missing filters are empty.
abbrev pub known_uuids : List (Option String) → List String
known_uuids [] = []
known_uuids (none ∷ us) = known_uuids us
known_uuids (some u ∷ us) = u ∷ known_uuids us

abbrev pub no_filters : FilterSettings
no_filters = record {
  sender_user_ids = none;
  blocked_sender_ids = none;
  media_kinds = none;
  exclude_bots = false;
}

abbrev pub filters_or_empty : Option FilterSettings → FilterEntry
filters_or_empty none = FilterEntry.settings no_filters
filters_or_empty (some f) = FilterEntry.settings f

abbrev pub target_read : SnapshotTarget → PublishedTarget
target_read t = record {
  route_id = t.route_id;
  target_chat_id = t.target_chat_id;
  target_topic_id = t.target_topic_id;
  source_chat_id = t.source_chat_id;
  source_topic_id = t.source_topic_id;
  filters = filters_or_empty t.filters;
}

abbrev pub targets_read : List SnapshotTarget → List PublishedTarget
targets_read [] = []
targets_read (t ∷ targets) = target_read t ∷ targets_read targets

unfoldable pub row_read : PulledRow → PublishedRule
row_read row = record {
  rule_id = spell row.snapshot.rule.id;
  version = row.version;
  mode = row.snapshot.rule.mode;
  approval_policy = ApprovalPolicy.rule_authorized;
  sync_edit = row.snapshot.rule.sync_edit;
  sync_delete = row.snapshot.rule.sync_delete;
  transform = row.snapshot.rule.transform;
  sender_account_uuids = known_uuids row.sender_account_uuids;
  targets = targets_read row.snapshot.targets;
}

abbrev pub pulled : List PulledRow → List PulledRule
pulled [] = []
pulled (row ∷ rows) = record { rule = row_read row; account_uuid = row.account_uuid } ∷ pulled rows
