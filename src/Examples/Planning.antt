-- ===== src/Examples/Planning.antt =====
-- The planner's theorems on a news event that one rule forwards to one chat.
use tdaudiibncba.Common.{contains, ◌≡◌, ◌↔◌, refl, true, map, [], ◌∷◌, Memᴰ, arith}
use tdaudiibncba.Planner.Filters.{
  passes_filters, matches_rule, excludes_bots, sender_blacklist, union_of, sender_whitelist,
  media_whitelist,
}
use tdaudiibncba.Planner.Planning.{
  Draws, plan, plan_routes, plan_for_rule, plan_for_route, skips, sender_for, sender_pool, choice,
  reply_target,
}
use tdaudiibncba.Planner.Keys.{SameAction, idempotency_key-injective}
use tdaudiibncba.Planner.Admission.{IsAdmitted, passes_filters_iff}
use tdaudiibncba.Planner.Authorization.{IsPlannedBy, plan-IsPlannedBy}
use tdaudiibncba.Planner.Routing.{stop_of_plan, stops, stops-plan}
use tdaudiibncba.Examples.Data.{news_event, news_rule, empty_view, news_plan}

abbrev draws : Draws
draws n = 0

news_planned : (plan empty_view news_event (news_rule ∷ []) draws).0 ≡ news_plan ∷ []
unfolding plan skips plan_for_rule plan_routes plan_for_route sender_for sender_pool choice
    reply_target passes_filters matches_rule excludes_bots contains sender_blacklist union_of
    sender_whitelist media_whitelist
news_planned = refl

plan-IsPlannedBy_example : IsPlannedBy empty_view news_event (news_rule ∷ []) news_plan
plan-IsPlannedBy_example =
    plan-IsPlannedBy empty_view news_event (news_rule ∷ []) draws news_plan
      (rw news_planned (Memᴰ.head refl))

stops-plan_example :
    map stop_of_plan (plan empty_view news_event (news_rule ∷ []) draws).0
    ≡ stops news_event (news_rule ∷ [])
stops-plan_example = stops-plan empty_view news_event (news_rule ∷ []) draws

passes_filters_iff_example :
    (passes_filters news_event news_rule ≡ true) ↔ IsAdmitted news_event news_rule
passes_filters_iff_example = passes_filters_iff news_event news_rule

idempotency_key-injective_example : SameAction news_plan news_plan
idempotency_key-injective_example =
    idempotency_key-injective news_plan news_plan (omega arith) (omega arith) (omega arith)
      (omega arith) refl
