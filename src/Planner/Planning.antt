-- ===== src/Planner/Planning.antt =====
-- runtime/planner/planner.py: `ClonePlanner`. `random.choice` takes its index from a stream of draws
-- that the planner threads through its loops, so a statement over every stream covers every choice.
use tdaudiibncba.Common.{
  ℕ, zero, suc, ◌%◌, ℤ, String, Bool, true, false, not, ◌&&◌, Option, none, some, List, [], ◌∷◌,
  ◌++◌, length, if◌then◌else◌,
}
use tdaudiibncba.Common.Decimal.{Text}
use tdaudiibncba.Planner.Model.{
  EventKind, ApprovalPolicy, message_review, SourceEvent, RouteTarget, RuleSnapshot, PlanKind,
  DeliveryPlan, is_create, is_edit, is_delete, is_forward,
}
use tdaudiibncba.Planner.Filters.{matches_rule, passes_filters, or_default}

-- The protocol `MappingView`: read-only lookups of the message map.
pub record MappingView : Type 0 where
  pub find_target_message_id : String → Text → ℤ → ℤ → Option ℤ
  pub find_sender_account_id : String → Text → ℤ → ℤ → Option String

abbrev pub Draws : Type 0
Draws = ℕ → ℕ

abbrev pub later : Draws → Draws
later draws n = draws (suc n)

-- `rule.sender_account_ids or (rule.account_id,)`: never empty, so it is a first and the others.
unfoldable pub sender_pool : RuleSnapshot → String × List String
sender_pool rule = elim rule.sender_account_ids [
  | [] ↦ (rule.account_id, [])
  | a ∷ others ↦ (a, others)
]

abbrev pub members : String × List String → List String
members (a, others) = a ∷ others

abbrev pub get_or {ℓ} : {A : Type ℓ} → List A → ℕ → A → A
get_or [] i d = d
get_or (x ∷ xs) zero d = x
get_or (x ∷ xs) (suc i) d = get_or xs i d

-- random.choice(pool)
unfoldable pub choice : String × List String → ℕ → String
choice (a, others) draw = get_or (a ∷ others) (draw % length (a ∷ others)) a

abbrev pub plan_kind : EventKind → PlanKind
plan_kind EventKind.create = PlanKind.send
plan_kind EventKind.edit = PlanKind.edit
plan_kind EventKind.delete = PlanKind.delete

abbrev is_review : ApprovalPolicy → Bool
is_review message_review = true
is_review _ = false

abbrev pub is_send : PlanKind → Bool
is_send PlanKind.send = true
is_send _ = false

abbrev pub is_delete_plan : PlanKind → Bool
is_delete_plan PlanKind.delete = true
is_delete_plan _ = false

-- The two `continue`s of the loop in `plan`.
unfoldable pub skips : SourceEvent → RuleSnapshot → Bool
skips event rule =
    if not (matches_rule event rule)
    then true
    else if is_create event.kind && not (passes_filters event rule)
    then true
    else false

module _ (mapping : MappingView) where
  -- `_sender_for`: the sender, and the draws that are left.
  unfoldable pub sender_for :
      SourceEvent → RuleSnapshot → String → PlanKind → Draws → String × Draws
  sender_for event rule route_id kind draws =
      let pool = sender_pool rule in
      if is_send kind then (choice pool (draws 0), later draws) else (
        or_default
            (mapping.find_sender_account_id route_id event.source_scope event.source_chat_id
              event.source_message_id)
            pool.0,
        draws,
      )

  unfoldable pub reply_target : SourceEvent → String → Option ℤ
  reply_target event route_id = elim event.reply_to_source_id [
    | none ↦ none
    | some reply ↦
        mapping.find_target_message_id route_id event.source_scope event.source_chat_id reply
  ]

  unfoldable pub plan_for_route :
      SourceEvent → RuleSnapshot → PlanKind → RouteTarget → String → DeliveryPlan
  plan_for_route event rule kind route sender = record {
    kind = kind;
    rule_id = rule.rule_id;
    rule_version = rule.version;
    route_id = route.route_id;
    account_id = sender;
    source_scope = event.source_scope;
    source_chat_id = event.source_chat_id;
    source_message_id = event.source_message_id;
    revision = event.revision;
    target_chat_id = route.target_chat_id;
    target_topic_id = route.target_topic_id;
    mode = rule.mode;
    payload_ref = event.payload_ref;
    payload_hash = event.payload_hash;
    requires_approval = is_review rule.approval_policy && is_send kind;
    reply_to_target_message_id = reply_target event route.route_id;
    grouped_id = event.grouped_id;
    fetch_account_id = some rule.account_id;
    transform = rule.transform && not (is_delete_plan kind);
  }

  -- The loop over `rule.targets`.
  unfoldable pub plan_routes :
      SourceEvent → RuleSnapshot → PlanKind → List RouteTarget → Draws → List DeliveryPlan × Draws
  plan_routes event rule kind [] draws = ([], draws)
  plan_routes event rule kind (route ∷ routes) draws =
      let (sender, draws') = sender_for event rule route.route_id kind draws in
      let (plans, draws'') = plan_routes event rule kind routes draws' in
      (plan_for_route event rule kind route sender ∷ plans, draws'')

  unfoldable pub plan_for_rule : SourceEvent → RuleSnapshot → Draws → List DeliveryPlan × Draws
  plan_for_rule event rule draws =
      if is_edit event.kind && not rule.sync_edit
      then ([], draws)
      else if is_delete event.kind && not rule.sync_delete
      then ([], draws)
      else if is_edit event.kind && is_forward rule.mode
      then ([], draws)
      else plan_routes event rule (plan_kind event.kind) rule.targets draws

  unfoldable pub plan : SourceEvent → List RuleSnapshot → Draws → List DeliveryPlan × Draws
  plan event [] draws = ([], draws)
  plan event (rule ∷ rules) draws =
      let (plans, draws') =
        (if skips event rule then ([], draws) else plan_for_rule event rule draws) in
      let (others, draws'') = plan event rules draws' in (plans ++ others, draws'')
