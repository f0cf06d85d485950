-- ===== src/Platform/Rules.antt =====
-- telegram-platform/backend/app/tg/model/clone_rule.py and service/rule_service.py: clone rules, their
-- routes and the snapshots that are published of them; api/v1/runtime.py, pull_rules: what a worker gets.
-- A rule's mode is the enumeration CloneMode instead of its text. Its uuid, which nothing that is modelled
-- reads, is left out.
use tdaudiibncba.Common.{
  ℕ, ℤ, String, Bool, not, ◌&&◌, ◌||◌, Option, List, [], ◌∷◌, Eq, ◌==◌, keep, nat_eq, string_eq,
}
use tdaudiibncba.Common.Dict
use tdaudiibncba.Common.Dict.{Dict}
use tdaudiibncba.Planner.Model.{CloneMode, FilterSettings}
use tdaudiibncba.Storage.Jobs.{Jobs}
use tdaudiibncba.Platform.Store.{Membership, Account, unless_deleted}
use tdaudiibncba.Platform.Commands.{RuntimeCommand}

pub data RuleStatus : Type 0 where
  draft published disabled : RuleStatus

pub record CloneRule : Type 0 where
  pub id : ℕ
  pub tenant_id : ℕ
  pub project_id : ℕ
  pub account_id : ℕ
  pub name : String
  pub mode : CloneMode
  pub sync_edit : Bool
  pub sync_delete : Bool
  pub enabled : Bool
  pub current_version : ℕ
  pub status : RuleStatus
  pub ai_rewrite : String
  pub ad_block : String
  pub sender_account_ids : List ℕ
  pub deleted : Bool

-- `active` is the status "active", its absence "retired".
pub record CloneTarget : Type 0 where
  pub id : ℕ
  pub rule_id : ℕ
  pub route_id : String
  pub source_chat_id : ℤ
  pub target_chat_id : ℤ
  pub source_chat_ref : Option String
  pub target_chat_ref : Option String
  pub joined_account_id : Option ℕ
  pub source_topic_id : Option ℤ
  pub target_topic_id : Option ℤ
  pub filters : Option FilterSettings
  pub active : Bool
  pub joined_at : Option ℕ
  pub health_reason : Option String
  pub joined_account_ids : List ℕ
  pub deleted : Bool

pub record SnapshotRule : Type 0 where
  pub id : ℕ
  pub name : String
  pub account_id : ℕ
  pub sender_account_ids : List ℕ
  pub transform : Bool
  pub mode : CloneMode
  pub sync_edit : Bool
  pub sync_delete : Bool
  pub enabled : Bool

pub record SnapshotTarget : Type 0 where
  pub route_id : String
  pub source_chat_id : ℤ
  pub source_topic_id : Option ℤ
  pub target_chat_id : ℤ
  pub target_topic_id : Option ℤ
  pub filters : Option FilterSettings

pub record Snapshot : Type 0 where
  pub rule : SnapshotRule
  pub targets : List SnapshotTarget

pub record RuleVersion : Type 0 where
  pub rule_id : ℕ
  pub version : ℕ
  pub snapshot : Snapshot
  pub published_by : ℕ
  pub published_at : ℕ

-- The rows of the routes stand in the order in which they are selected.
pub record RuleStore : Type 0 where
  pub memberships : List Membership
  pub accounts : Dict ℕ Account
  pub rules : Dict ℕ CloneRule
  pub targets : Dict ℕ CloneTarget
  pub versions : List RuleVersion
  pub commands : Dict ℕ RuntimeCommand
  pub jobs : Jobs

-- list(dict.fromkeys(xs))
unfoldable pub distinct {ℓ} : {A : Type ℓ} ⦃e : Eq A⦄ → List A → List A
distinct [] = []
distinct (x ∷ xs) = x ∷ keep (λ y. not (y == x)) (distinct xs)

abbrev pub or_listener : List ℕ → ℕ → List ℕ
or_listener [] listener = listener ∷ []
or_listener (a ∷ pool) listener = a ∷ pool

-- `_sender_pool`
unfoldable pub sender_pool : CloneRule → List ℕ
sender_pool r = or_listener (distinct (keep (λ a. not (a == 0)) r.sender_account_ids)) r.account_id

-- `(text or 'off') != 'off'`
abbrev pub is_on : String → Bool
is_on s = not (s == "") && not (s == "off")

abbrev pub snapshot_target : CloneTarget → SnapshotTarget
snapshot_target t = record {
  route_id = t.route_id;
  source_chat_id = t.source_chat_id;
  source_topic_id = t.source_topic_id;
  target_chat_id = t.target_chat_id;
  target_topic_id = t.target_topic_id;
  filters = t.filters;
}

abbrev pub snapshot_targets : List CloneTarget → List SnapshotTarget
snapshot_targets [] = []
snapshot_targets (t ∷ targets) = snapshot_target t ∷ snapshot_targets targets

-- `_snapshot`
unfoldable pub snapshot : CloneRule → List CloneTarget → Snapshot
snapshot r targets = record {
  rule = record {
    id = r.id;
    name = r.name;
    account_id = r.account_id;
    sender_account_ids = sender_pool r;
    transform = is_on r.ai_rewrite || is_on r.ad_block;
    mode = r.mode;
    sync_edit = r.sync_edit;
    sync_delete = r.sync_delete;
    enabled = r.enabled;
  };
  targets = snapshot_targets targets;
}

-- clone_rule_dao.get
unfoldable pub get_rule : RuleStore → ℕ → Option CloneRule
get_rule db pk = unless_deleted (λ (r : CloneRule). r.deleted) (Dict.get db.rules pk)

-- telegram_account_dao.get_by_scope
unfoldable pub account_in : Dict ℕ Account → ℕ → ℕ → ℕ → Option Account
account_in accounts tenant_id project_id pk =
    unless_deleted
      (λ (a : Account).
        a.deleted || not ((a.tenant_id == tenant_id) && (a.project_id == project_id)))
      (Dict.get accounts pk)
