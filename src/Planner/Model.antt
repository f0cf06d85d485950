-- ===== src/Planner/Model.antt =====
-- runtime/planner/model.py: normalized source events, rule snapshots and delivery plans.
use tdaudiibncba.Common.{ℕ, ℤ, String, Bool, true, false, Option, List}
use tdaudiibncba.Common.Decimal.{Text, codes, show_nat, show_int, ◌⋆◌}

pub data EventKind : Type 0 where
  create edit delete : EventKind

pub data CloneMode : Type 0 where
  copy forward : CloneMode

pub data ApprovalPolicy : Type 0 where
  rule_authorized message_review : ApprovalPolicy

-- Platform ids are signed; a revision is a count, a timestamp or a fingerprint, never negative.
pub record SourceEvent : Type 0 where
  pub kind : EventKind
  pub source_scope : Text
  pub source_chat_id : ℤ
  pub source_message_id : ℤ
  pub revision : ℕ
  pub account_id : String
  pub grouped_id : Option ℤ
  pub payload_ref : Option String
  pub payload_hash : Option String
  pub reply_to_source_id : Option ℤ
  pub topic_id : Option ℤ
  pub protected : Bool
  pub sender_id : Option ℤ
  pub media_kind : Option String
  pub sender_is_bot : Bool

pub record RouteTarget : Type 0 where
  pub route_id : String
  pub target_chat_id : ℤ
  pub target_topic_id : Option ℤ

-- The keys of a filter dict that the planner reads; a missing key reads as `none`.
pub record FilterSettings : Type 0 where
  pub sender_user_ids : Option (List ℤ)
  pub blocked_sender_ids : Option (List ℤ)
  pub media_kinds : Option (List String)
  pub exclude_bots : Bool

-- An entry of `filters`; what is no dict is skipped by every reader.
pub data FilterEntry : Type 0 where
  settings : FilterSettings → FilterEntry
  other : FilterEntry

pub record RuleSnapshot : Type 0 where
  pub rule_id : String
  pub version : ℕ
  pub account_id : String
  pub source_scope : Text
  pub source_chat_id : ℤ
  pub source_topic_id : Option ℤ
  pub targets : List RouteTarget
  pub mode : CloneMode
  pub sync_edit : Bool
  pub sync_delete : Bool
  pub approval_policy : ApprovalPolicy
  pub filters : List FilterEntry
  pub sender_account_ids : List String
  pub transform : Bool

pub data PlanKind : Type 0 where
  send edit delete tombstone : PlanKind

pub record DeliveryPlan : Type 0 where
  pub kind : PlanKind
  pub rule_id : String
  pub rule_version : ℕ
  pub route_id : String
  pub account_id : String
  pub source_scope : Text
  pub source_chat_id : ℤ
  pub source_message_id : ℤ
  pub revision : ℕ
  pub target_chat_id : ℤ
  pub target_topic_id : Option ℤ
  pub mode : CloneMode
  pub payload_ref : Option String
  pub payload_hash : Option String
  pub requires_approval : Bool
  pub reply_to_target_message_id : Option ℤ
  pub grouped_id : Option ℤ
  pub fetch_account_id : Option String
  pub transform : Bool

-- `EventKind.value` and `PlanKind.value`
unfoldable pub event_kind_value : EventKind → String
event_kind_value EventKind.create = "create"
event_kind_value EventKind.edit = "edit"
event_kind_value EventKind.delete = "delete"

unfoldable pub plan_kind_value : PlanKind → String
plan_kind_value PlanKind.send = "send"
plan_kind_value PlanKind.edit = "edit"
plan_kind_value PlanKind.delete = "delete"
plan_kind_value PlanKind.tombstone = "tombstone"

abbrev pub is_create : EventKind → Bool
is_create EventKind.create = true
is_create _ = false

abbrev pub is_edit : EventKind → Bool
is_edit EventKind.edit = true
is_edit _ = false

abbrev pub is_delete : EventKind → Bool
is_delete EventKind.delete = true
is_delete _ = false

abbrev pub is_forward : CloneMode → Bool
is_forward CloneMode.forward = true
is_forward _ = false

-- `DeliveryPlan.idempotency_key`, by its characters
unfoldable pub idempotency_key : DeliveryPlan → Text
idempotency_key p =
    codes p.rule_id
    ⋆ codes p.route_id
    ⋆ p.source_scope
    ⋆ show_int p.source_chat_id
    ⋆ show_int p.source_message_id
    ⋆ show_nat p.revision
    ⋆ codes (plan_kind_value p.kind)
