-- ===== src/Planner/Authorization.antt =====
-- Where a planned action comes from, and whose account may send it (runtime/planner/planner.py).
use tdaudiibncba.Common.{
  ℕ, zero, suc, ◌<◌, ◌%◌, String, ◌≡◌, refl, inl, inr, true, false, not, ◌&&◌, List, [], ◌∷◌, Memᴰ,
  arith, length, mem-append_cases, Bool-cases,
}
use tdaudiibncba.Planner.Model.{
  SourceEvent, RouteTarget, RuleSnapshot, DeliveryPlan, is_create, is_edit, is_delete, is_forward,
}
use tdaudiibncba.Planner.Filters.{matches_rule, passes_filters, or_default}
use tdaudiibncba.Planner.Planning.{
  MappingView, Draws, sender_pool, members, get_or, choice, plan_kind, is_send, sender_for,
  plan_for_route, plan_routes, plan_for_rule, skips, plan,
}

get_or-mem {ℓ} :
    {A : Type ℓ} (xs : List A) (i : ℕ) (d : A) → i < length xs → Memᴰ (get_or xs i d) xs
get_or-mem [] i d h = elim h [ ]
get_or-mem (x ∷ xs) zero d h = Memᴰ.head refl
get_or-mem (x ∷ xs) (suc i) d h = Memᴰ.tail (get_or-mem xs i d (omega arith))

-- A random choice is a member of the pool, whatever the draw.
pub choice-mem : (pool : String × List String) (draw : ℕ) → Memᴰ (choice pool draw) (members pool)
unfolding choice
choice-mem (a, others) draw = get_or-mem (a ∷ others) (draw % length (a ∷ others)) a (ground arith)

module _ (mapping : MappingView) (event : SourceEvent) where
  -- The sender of a route: any member of the pool for a new message, and the account that the map
  -- records (the first of the pool if it records none) for an edit or a deletion.
  pub record IsSender (rule : RuleSnapshot) (route_id : String) (sender : String) : Type 0 where
    pub pooled : is_send (plan_kind event.kind) ≡ true → Memᴰ sender (members (sender_pool rule))
    pub original :
        is_send (plan_kind event.kind) ≡ false
        → sender
          ≡ or_default
              (mapping.find_sender_account_id route_id event.source_scope event.source_chat_id
                event.source_message_id)
              (sender_pool rule).0

  -- The rule lets the event through.
  pub record IsAuthorized (rule : RuleSnapshot) : Type 0 where
    pub matched : matches_rule event rule ≡ true
    pub filtered : is_create event.kind ≡ true → passes_filters event rule ≡ true
    pub edits : is_edit event.kind ≡ true → (rule.sync_edit ≡ true) × (is_forward rule.mode ≡ false)
    pub deletes : is_delete event.kind ≡ true → rule.sync_delete ≡ true

  pub record IsPlannedBy (rules : List RuleSnapshot) (p : DeliveryPlan) : Type 0 where
    pub rule : RuleSnapshot
    pub among : Memᴰ rule rules
    pub authorized : IsAuthorized rule
    pub route : RouteTarget
    pub targeted : Memᴰ route rule.targets
    pub sender : String
    pub sends : IsSender rule route.route_id sender
    pub shape : p ≡ plan_for_route mapping event rule (plan_kind event.kind) route sender

  sender_for-IsSender :
      (rule : RuleSnapshot) (route_id : String) (draws : Draws)
      → IsSender rule route_id
          (sender_for mapping event rule route_id (plan_kind event.kind) draws).0
  unfolding sender_for
  sender_for-IsSender rule route_id draws = record {
    pooled = λ s. rw s (choice-mem (sender_pool rule) (draws 0));
    original = λ s. rw s;
  }

  record IsRouted (rule : RuleSnapshot) (routes : List RouteTarget) (p : DeliveryPlan)
      : Type 0 where
    route : RouteTarget
    targeted : Memᴰ route routes
    sender : String
    sends : IsSender rule route.route_id sender
    shape : p ≡ plan_for_route mapping event rule (plan_kind event.kind) route sender

  plan_routes-IsRouted :
      (rule : RuleSnapshot) (routes : List RouteTarget) (draws : Draws) (p : DeliveryPlan)
      → Memᴰ p (plan_routes mapping event rule (plan_kind event.kind) routes draws).0
      → IsRouted rule routes p
  unfolding plan_routes
  plan_routes-IsRouted rule [] draws p m = elim m [ ]
  plan_routes-IsRouted rule (route ∷ routes) draws p (Memᴰ.head e) = record {
    route = route;
    targeted = Memᴰ.head refl;
    sender = (sender_for mapping event rule route.route_id (plan_kind event.kind) draws).0;
    sends = sender_for-IsSender rule route.route_id draws;
    shape = e;
  }
  plan_routes-IsRouted rule (route ∷ routes) draws p (Memᴰ.tail m) =
      let draws' = (sender_for mapping event rule route.route_id (plan_kind event.kind) draws).1 in
      let ih = plan_routes-IsRouted rule routes draws' p m in
      record {
        route = ih.route;
        targeted = Memᴰ.tail ih.targeted;
        sender = ih.sender;
        sends = ih.sends;
        shape = ih.shape;
      }

  record IsSynced (rule : RuleSnapshot) : Type 0 where
    edits : is_edit event.kind ≡ true → (rule.sync_edit ≡ true) × (is_forward rule.mode ≡ false)
    deletes : is_delete event.kind ≡ true → rule.sync_delete ≡ true

  mem-plan_for_rule :
      (rule : RuleSnapshot) (draws : Draws) (p : DeliveryPlan)
      → Memᴰ p (plan_for_rule mapping event rule draws).0
      → IsSynced rule
        × Memᴰ p (plan_routes mapping event rule (plan_kind event.kind) rule.targets draws).0
  unfolding plan_for_rule
  mem-plan_for_rule rule draws p m = elim (Bool-cases (is_edit event.kind && not rule.sync_edit)) [
    | inl a ↦ elim (rw a at m) [ ]
    | inr a ↦ elim (Bool-cases (is_delete event.kind && not rule.sync_delete)) [
      | inl b ↦ elim (rw (a, b) at m) [ ]
      | inr b ↦ elim (Bool-cases (is_edit event.kind && is_forward rule.mode)) [
        | inl c ↦ elim (rw (a, b, c) at m) [ ]
        | inr c ↦ (ground arith, rw (a, b, c) at m)
      ]
    ]
  ]

  IsAuthorized-of :
      (rule : RuleSnapshot) → skips event rule ≡ false → IsSynced rule → IsAuthorized rule
  unfolding skips
  IsAuthorized-of rule h s = record {
    matched = ground arith;
    filtered = λ c. ground arith;
    edits = s.edits;
    deletes = s.deletes;
  }

  planned_first :
      (rule : RuleSnapshot) (rules : List RuleSnapshot) (draws : Draws) (p : DeliveryPlan)
      → skips event rule ≡ false
      → Memᴰ p (plan_for_rule mapping event rule draws).0
      → IsPlannedBy (rule ∷ rules) p
  planned_first rule rules draws p h m =
      let (synced, m') = mem-plan_for_rule rule draws p m in
      let r = plan_routes-IsRouted rule rule.targets draws p m' in
      record {
        rule = rule;
        among = Memᴰ.head refl;
        authorized = IsAuthorized-of rule h synced;
        route = r.route;
        targeted = r.targeted;
        sender = r.sender;
        sends = r.sends;
        shape = r.shape;
      }

  planned_later :
      (rule : RuleSnapshot) (rules : List RuleSnapshot) (p : DeliveryPlan)
      → IsPlannedBy rules p
      → IsPlannedBy (rule ∷ rules) p
  planned_later rule rules p b = record {
    rule = b.rule;
    among = Memᴰ.tail b.among;
    authorized = b.authorized;
    route = b.route;
    targeted = b.targeted;
    sender = b.sender;
    sends = b.sends;
    shape = b.shape;
  }

  -- Whatever the draws, every plan belongs to a rule of the list that lets the event through and to
  -- one of its targets; it has the fields that this rule, target and event give it, and its sender is
  -- in the rule's pool for a new message, and for an edit or a deletion is the account that the map
  -- records, or the first of the pool.
  pub plan-IsPlannedBy :
      (rules : List RuleSnapshot) (draws : Draws) (p : DeliveryPlan)
      → Memᴰ p (plan mapping event rules draws).0
      → IsPlannedBy rules p
  unfolding plan
  plan-IsPlannedBy [] draws p m = elim m [ ]
  plan-IsPlannedBy (rule ∷ rules) draws p m = elim (Bool-cases (skips event rule)) [
    | inl skip ↦ planned_later rule rules p (plan-IsPlannedBy rules draws p (rw skip at m))
    | inr go ↦
        let (plans, draws') = plan_for_rule mapping event rule draws in
        elim (mem-append_cases plans (plan mapping event rules draws').0 (rw go at m)) [
          | inl l ↦ planned_first rule rules draws p go l
          | inr r ↦ planned_later rule rules p (plan-IsPlannedBy rules draws' p r)
        ]
  ]
