-- ===== src/Examples/Data.antt =====
-- The inputs that the examples share.
use tdaudiibncba.Common.{pos, negsuc, true, false, none, some, [], ◌∷◌}
use tdaudiibncba.Common.Decimal.{codes}
use tdaudiibncba.Planner.Model.{
  EventKind, CloneMode, ApprovalPolicy, SourceEvent, RouteTarget, RuleSnapshot, FilterEntry,
  PlanKind, DeliveryPlan,
}
use tdaudiibncba.Planner.Planning.{MappingView}
use tdaudiibncba.Delivery.Policy.{SendState, LiveAccount, PolicySnapshot}
use tdaudiibncba.Delivery.Executor.{SendTransport, Outcome, TransportError, TransportErrorKind}

abbrev pub news_event : SourceEvent
news_event = record {
  kind = EventKind.create;
  source_scope = codes "peer:-100";
  source_chat_id = negsuc 99;
  source_message_id = pos 7;
  revision = 1;
  account_id = "watcher";
  grouped_id = none;
  payload_ref = some "blob/7";
  payload_hash = some "h7";
  reply_to_source_id = none;
  topic_id = none;
  protected = false;
  sender_id = some (pos 42);
  media_kind = some "photo";
  sender_is_bot = false;
}

abbrev pub photo_filter : FilterEntry
photo_filter = FilterEntry.settings (record {
  sender_user_ids = none;
  blocked_sender_ids = some (pos 13 ∷ []);
  media_kinds = some ("photo" ∷ "video" ∷ []);
  exclude_bots = true;
})

abbrev pub target_route : RouteTarget
target_route = record { route_id = "r1"; target_chat_id = negsuc 499; target_topic_id = none }

abbrev pub news_rule : RuleSnapshot
news_rule = record {
  rule_id = "rule1";
  version = 3;
  account_id = "watcher";
  source_scope = codes "peer:-100";
  source_chat_id = negsuc 99;
  source_topic_id = none;
  targets = target_route ∷ [];
  mode = CloneMode.copy;
  sync_edit = true;
  sync_delete = true;
  approval_policy = ApprovalPolicy.rule_authorized;
  filters = photo_filter ∷ [];
  sender_account_ids = "sender1" ∷ "sender2" ∷ [];
  transform = false;
}

abbrev pub empty_view : MappingView
empty_view = record {
  find_target_message_id = λ r s c m. none;
  find_sender_account_id = λ r s c m. none;
}

abbrev pub news_plan : DeliveryPlan
news_plan = record {
  kind = PlanKind.send;
  rule_id = "rule1";
  rule_version = 3;
  route_id = "r1";
  account_id = "sender1";
  source_scope = codes "peer:-100";
  source_chat_id = negsuc 99;
  source_message_id = pos 7;
  revision = 1;
  target_chat_id = negsuc 499;
  target_topic_id = none;
  mode = CloneMode.copy;
  payload_ref = some "blob/7";
  payload_hash = some "h7";
  requires_approval = false;
  reply_to_target_message_id = none;
  grouped_id = none;
  fetch_account_id = some "watcher";
  transform = false;
}

abbrev pub live_sender : LiveAccount
live_sender = record {
  account_id = "sender1";
  generation = pos 4;
  send_state = SendState.sendable;
  flood_wait_until = none;
}

abbrev pub open_policy : PolicySnapshot
open_policy = record {
  global_disabled = false;
  tenant_disabled = [];
  project_disabled = [];
  account_disabled = "sender9" ∷ [];
  rule_disabled = [];
  rate_limit_blocked = [];
}

abbrev pub flood_error : TransportError
flood_error = record {
  kind = TransportErrorKind.flood_wait;
  detail = "wait";
  flood_wait_until = some 900;
}

-- A transport that sends every message as number 501.
abbrev pub working_transport : SendTransport
working_transport call = Outcome.returned (pos 501 ∷ [])

abbrev pub crashing_transport : SendTransport
crashing_transport call = Outcome.crashed "ConnectionReset"
