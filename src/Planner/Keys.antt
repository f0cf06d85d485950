-- ===== src/Planner/Keys.antt =====
-- What the idempotency key of a plan determines (runtime/planner/model.py).
use tdaudiibncba.Common.{◌≡◌, refl, sym, ap, ◌∙◌, arith, [], ◌∷◌, ◌==◌, nat_eq, if◌then◌else◌}
use tdaudiibncba.Common.Decimal.{
  Text, ColonFree, codes, codes-injective, show_nat-injective, show_nat-ColonFree,
  show_int-injective, show_int-ColonFree, ◌⋆◌, split-first, split-last,
}
use tdaudiibncba.Planner.Model.{PlanKind, DeliveryPlan, plan_kind_value, idempotency_key}
use mathlib.Core.List.{append_assoc}

plan_kind_value-ColonFree : (k : PlanKind) → ColonFree (codes (plan_kind_value k))
unfolding plan_kind_value
plan_kind_value-ColonFree PlanKind.send = omega arith
plan_kind_value-ColonFree PlanKind.edit = omega arith
plan_kind_value-ColonFree PlanKind.delete = omega arith
plan_kind_value-ColonFree PlanKind.tombstone = omega arith

-- The four values begin with four letters.
abbrev kind_by_letter : Text → PlanKind
kind_by_letter [] = PlanKind.send
kind_by_letter (c ∷ _) =
    if c == b's'
    then PlanKind.send
    else if c == b'e'
    then PlanKind.edit
    else if c == b'd'
    then PlanKind.delete
    else PlanKind.tombstone

kind_by_letter-value : (k : PlanKind) → kind_by_letter (codes (plan_kind_value k)) ≡ k
unfolding plan_kind_value
kind_by_letter-value PlanKind.send = refl
kind_by_letter-value _ = refl

plan_kind_value-injective :
    (k l : PlanKind) → codes (plan_kind_value k) ≡ codes (plan_kind_value l) → k ≡ l
plan_kind_value-injective k l h =
    sym (kind_by_letter-value k) ∙ ap kind_by_letter h ∙ kind_by_letter-value l

pub record SameAction (p q : DeliveryPlan) : Type 0 where
  pub rule_id : p.rule_id ≡ q.rule_id
  pub route_id : p.route_id ≡ q.route_id
  pub source_scope : p.source_scope ≡ q.source_scope
  pub source_chat_id : p.source_chat_id ≡ q.source_chat_id
  pub source_message_id : p.source_message_id ≡ q.source_message_id
  pub revision : p.revision ≡ q.revision
  pub kind : p.kind ≡ q.kind

-- The f-string nests to the left, and its first two parts are read from the front.
front_parts :
    (a a' b b' c c' : Text)
    → ColonFree a
    → ColonFree a'
    → ColonFree b
    → ColonFree b'
    → a ⋆ b ⋆ c ≡ a' ⋆ b' ⋆ c'
    → (a ≡ a') × (b ≡ b') × (c ≡ c')
front_parts a a' b b' c c' ha ha' hb hb' p =
    let (x, q) =
      split-first a a' (b ⋆ c) (b' ⋆ c') ha ha' (
        sym (append_assoc a (b':' ∷ b) (b':' ∷ c)) ∙ p ∙ append_assoc a' (b':' ∷ b') (b':' ∷ c')) in
    let (y, z) = split-first b b' c c' hb hb' q in (x, y, z)

-- Two plans with one key act alike: the same rule, route, source message, revision and kind. The
-- ids of rules and routes hold no colon; a source scope may.
pub idempotency_key-injective :
    (p q : DeliveryPlan)
    → ColonFree (codes p.rule_id)
    → ColonFree (codes q.rule_id)
    → ColonFree (codes p.route_id)
    → ColonFree (codes q.route_id)
    → idempotency_key p ≡ idempotency_key q
    → SameAction p q
unfolding idempotency_key
idempotency_key-injective p q hr hr' ht ht' e =
    let (e₁, k) =
      split-last _ _ _ _ (plan_kind_value-ColonFree p.kind) (plan_kind_value-ColonFree q.kind) e in
    let (e₂, v) =
      split-last _ _ _ _ (show_nat-ColonFree p.revision) (show_nat-ColonFree q.revision) e₁ in
    let (e₃, m) =
      split-last _ _ _ _ (show_int-ColonFree p.source_message_id)
        (show_int-ColonFree q.source_message_id) e₂ in
    let (e₄, c) =
      split-last _ _ _ _ (show_int-ColonFree p.source_chat_id) (show_int-ColonFree q.source_chat_id)
        e₃ in
    let (r, t, s) = front_parts _ _ _ _ _ _ hr hr' ht ht' e₄ in
    record {
      rule_id = codes-injective _ _ r;
      route_id = codes-injective _ _ t;
      source_scope = s;
      source_chat_id = show_int-injective _ _ c;
      source_message_id = show_int-injective _ _ m;
      revision = show_nat-injective _ _ v;
      kind = plan_kind_value-injective _ _ k;
    }
