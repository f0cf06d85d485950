-- ===== src/Planner/Routing.antt =====
-- Which routes an event is planned for, and in which order (runtime/planner/planner.py).
use mathlib.Core.List.{map-append}
use tdaudiibncba.Common.{
  ℕ, ℤ, String, ◌≡◌, refl, ap, ap₂, ◌∙◌, inl, inr, Bool, not, ◌&&◌, Option, List, [], ◌∷◌, ◌++◌,
  map, arith, Bool-cases, if◌then◌else◌,
}
use tdaudiibncba.Planner.Model.{
  EventKind, SourceEvent, RouteTarget, RuleSnapshot, PlanKind, DeliveryPlan, is_forward,
}
use tdaudiibncba.Planner.Filters.{matches_rule, passes_filters}
use tdaudiibncba.Planner.Planning.{
  MappingView, Draws, plan_kind, sender_for, plan_for_route, plan_routes, plan_for_rule, skips,
  plan,
}

-- A stop: rule, version, route and target chat.
abbrev pub Stop : Type 0
Stop = String × ℕ × String × ℤ × Option ℤ

abbrev pub stop_of : RuleSnapshot → RouteTarget → Stop
stop_of rule route =
    (rule.rule_id, rule.version, route.route_id, route.target_chat_id, route.target_topic_id)

abbrev pub stop_of_plan : DeliveryPlan → Stop
stop_of_plan p = (p.rule_id, p.rule_version, p.route_id, p.target_chat_id, p.target_topic_id)

-- What the architecture asks of a rule for each kind of event.
abbrev pub wants : EventKind → SourceEvent → RuleSnapshot → Bool
wants EventKind.create event rule = passes_filters event rule
wants EventKind.edit event rule = rule.sync_edit && not (is_forward rule.mode)
wants EventKind.delete event rule = rule.sync_delete

abbrev pub serves : SourceEvent → RuleSnapshot → Bool
serves event rule = matches_rule event rule && wants event.kind event rule

abbrev pub stops : SourceEvent → List RuleSnapshot → List Stop
stops event [] = []
stops event (rule ∷ rules) =
    (if serves event rule then map (stop_of rule) rule.targets else []) ++ stops event rules

module _ (mapping : MappingView) (event : SourceEvent) where
  stops-plan_routes :
      (rule : RuleSnapshot) (kind : PlanKind) (routes : List RouteTarget) (draws : Draws)
      → map stop_of_plan (plan_routes mapping event rule kind routes draws).0
        ≡ map (stop_of rule) routes
  unfolding plan_routes plan_for_route
  stops-plan_routes rule kind [] draws = refl
  stops-plan_routes rule kind (route ∷ routes) draws =
      ap (λ (l : List Stop). stop_of rule route ∷ l)
        (stops-plan_routes rule kind routes
          (sender_for mapping event rule route.route_id kind draws).1)

  -- The rule's share of the plans, with the two tests of the loop before it.
  abbrev share : RuleSnapshot → Draws → List DeliveryPlan × Draws
  share rule draws =
      if skips event rule then ([], draws) else plan_for_rule mapping event rule draws

  share_cases :
      (rule : RuleSnapshot) (draws : Draws)
      → (share rule draws).0 ≡ (
          if serves event rule
          then (plan_routes mapping event rule (plan_kind event.kind) rule.targets draws).0
          else [])
  unfolding skips plan_for_rule
  share_cases rule draws = ground arith

  stops-share :
      (rule : RuleSnapshot) (draws : Draws)
      → map stop_of_plan (share rule draws).0
        ≡ (if serves event rule then map (stop_of rule) rule.targets else [])
  stops-share rule draws = elim (Bool-cases (serves event rule)) [
    | inl yes' ↦ rw (share_cases rule draws, yes') (stops-plan_routes rule _ rule.targets draws)
    | inr no' ↦ rw (share_cases rule draws, no') refl
  ]

  -- The planned routes are, in order and each once, the targets of the rules that serve the event:
  -- those that match it and whose filters pass a new message, that sync edits and do not forward for
  -- an edit, or that sync deletions for a deletion. Neither the map nor the draws play a part.
  pub stops-plan :
      (rules : List RuleSnapshot) (draws : Draws)
      → map stop_of_plan (plan mapping event rules draws).0 ≡ stops event rules
  unfolding plan
  stops-plan [] draws = refl
  stops-plan (rule ∷ rules) draws =
      map-append stop_of_plan (share rule draws).0 (plan mapping event rules (share rule draws).1).0
      ∙ ap₂ (λ (a b : List Stop). a ++ b) (stops-share rule draws)
          (stops-plan rules (share rule draws).1)
