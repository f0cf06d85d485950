-- ===== src/Host/Gatekeeping.antt =====
-- What the host tells the gate (runtime/worker/host.py with runtime/delivery/policy.py).
use tdaudiibncba.Common.{
  or_true, some_inj, none≢some, true≢false, ℕ, String, ◌≡◌, ◌≢◌, refl, sym, ap, ◌∙◌, inl, inr, Bool,
  true, false, not, ◌&&◌, ◌||◌, Option, none, some, List, [], ◌∷◌, ◌++◌, ◌==◌, arith, contains,
  keep, if◌then◌else◌, string_eq, int_eq, Bool-cases, beq_refl, eq_of_beq,
}
use tdaudiibncba.Common.Dict
use tdaudiibncba.Common.Dict.{Dict, get-remove}
use tdaudiibncba.Planner.Model.{PlanKind, DeliveryPlan}
use tdaudiibncba.Delivery.Policy.{
  Decision, LiveAccount, PolicySnapshot, PolicyCheckable, ApprovalRecord, switched_off,
  approval_refuses, check,
}
use tdaudiibncba.Delivery.Executor.{SendTransport, checkable}
use tdaudiibncba.Delivery.Errors.{RetryPolicy}
use tdaudiibncba.Storage.Jobs.{DeliveryJob}
use tdaudiibncba.Worker.Runner.{Moments, job_kind_alias, plan_of_kind, plan_from_job, hinted, gate}
use tdaudiibncba.Host.Registry.{live_of, or_dead, drop}
use tdaudiibncba.Host.State.{
  Assignment, Hosted, Host, PulledRule, rows, report_status, refresh_rules, rule_ids, snapshots,
  minus, or_empty, with_disabled, current_policy, approval_for, deps_of, refreshed,
}
use tdaudiibncba.Host.Assigning.{let_go, release}

let_go_registry :
    (o : Option Hosted) (reason : String) (h : Host) → (let_go o reason h).registry ≡ h.registry
unfolding report_status
let_go_registry none reason h = refl
let_go_registry (some x) reason h = elim (Bool-cases (reason == "lease_lost")) [
  | inl p ↦ rw p
  | inr p ↦ rw p
]

-- After `_release` the registry does not know the account.
unknown :
    (account_id reason : String) (h : Host)
    → live_of account_id (release account_id reason h).registry ≡ or_dead none account_id
unfolding live_of release drop
unknown account_id reason h =
    ap (live_of account_id) (let_go_registry (Dict.get h.hosted account_id) reason _) ∙ removed
  where
    removed : live_of account_id (Dict.remove h.registry account_id) ≡ or_dead none account_id
    removed = rw (get-remove h.registry account_id account_id, beq_refl account_id)

dead_blocks :
    (job : PolicyCheckable) (account_id : String) (policy : PolicySnapshot)
    (approval : Option ApprovalRecord) (now : ℕ)
    → check job (or_dead none account_id) policy approval now ≢ Decision.allow
unfolding check
dead_blocks job account_id policy approval now h = ground arith

not_refused :
    (c : PolicyCheckable) (hash : Option String) (now : ℕ)
    → c.content_hash ≡ hash
    → approval_refuses c
        (some (record { approved = true; content_hash = hash; expires_at = none }))
        now
      ≡ false
unfolding approval_refuses
not_refused c none now e = ground arith
not_refused c (some a) now e = rw e (same a)
  where
    same : (a : String) → (if not (a == a) then true else if false then true else false) ≡ false
    same a = rw (beq_refl a)

nothing_refused :
    (asks needs : Bool) (c : PolicyCheckable) (hash : Option String) (now : ℕ)
    → asks ≡ needs
    → c.content_hash ≡ hash
    → (asks
        && approval_refuses c
            (if needs
              then some (record { approved = true; content_hash = hash; expires_at = none })
              else none)
            now)
      ≡ false
nothing_refused true true c hash now e h = not_refused c hash now h
nothing_refused true false c hash now e h = cc
nothing_refused false needs c hash now e h = refl

not_approval :
    (c : PolicyCheckable) (live : LiveAccount) (policy : PolicySnapshot)
    (approval : Option ApprovalRecord) (now : ℕ)
    → (c.requires_approval && approval_refuses c approval now) ≡ false
    → check c live policy approval now ≢ Decision.blocked_approval
unfolding check
not_approval c live policy approval now h e = ground arith

switched_blocks :
    (c : PolicyCheckable) (live : LiveAccount) (policy : PolicySnapshot)
    (approval : Option ApprovalRecord) (now : ℕ)
    → switched_off c policy ≡ true
    → check c live policy approval now ≢ Decision.allow
unfolding check
switched_blocks c live policy approval now h e = ground arith

contains-append :
    (xs ys : List String) (a : String) → contains (xs ++ ys) a ≡ (contains xs a || contains ys a)
unfolding contains
contains-append [] ys a = refl
contains-append (x ∷ xs) ys a = rw (contains-append xs ys a) (ground arith)

contains-minus :
    (xs ys : List String) (a : String)
    → contains xs a ≡ true
    → contains ys a ≡ false
    → contains (minus xs ys) a ≡ true
unfolding contains minus keep
contains-minus [] ys a h n = h
contains-minus (x ∷ xs) ys a h n = elim (Bool-cases (a == x)) [
  | inl p ↦
      let out : contains ys x ≡ false = ap (contains ys) (sym (eq_of_beq a x p)) ∙ n in rw (out, p)
  | inr p ↦
      let rest = contains-minus xs ys a (rw p at h) n in
      elim (Bool-cases (contains ys x)) [ inl q ↦ rw q rest | inr q ↦ rw (q, p) rest ]
]

disabled_contains :
    (ids : List String) (policy : PolicySnapshot) (a : String)
    → contains ids a ≡ true
    → contains (with_disabled ids policy).rule_disabled a ≡ true
unfolding contains
disabled_contains [] policy a h = absurd (true≢false (sym h))
disabled_contains (r ∷ ids) policy a h =
    rw (contains-append policy.rule_disabled (r ∷ ids) a, h) (ground arith)

rule_switches_off :
    (c : PolicyCheckable) (policy : PolicySnapshot)
    → contains policy.rule_disabled c.rule_id ≡ true
    → switched_off c policy ≡ true
unfolding switched_off
rule_switches_off c policy h = ground arith

hinted_same :
    (hints : Option (Option String × Bool)) (p : DeliveryPlan)
    → ((hinted hints p).requires_approval ≡ p.requires_approval)
      × ((hinted hints p).payload_hash ≡ p.payload_hash)
hinted_same none p = (refl, refl)
hinted_same (some (none, transform)) p = (refl, refl)
hinted_same (some (some account, transform)) p = (refl, refl)

planned_same :
    (kind : Option PlanKind) (job : DeliveryJob) (p : DeliveryPlan)
    → plan_of_kind kind job ≡ some p
    → (p.requires_approval ≡ job.requires_approval) × (p.payload_hash ≡ job.payload_hash)
planned_same none job p e = absurd (none≢some e)
planned_same (some k) job p e = (
  ap (λ (q : DeliveryPlan). q.requires_approval) (sym (some_inj e)),
  ap (λ (q : DeliveryPlan). q.payload_hash) (sym (some_inj e)),
)

module _ (transport : SendTransport) (policy : PolicySnapshot) (retry : RetryPolicy) (h : Host)
    (account_id : String) (generation : ℕ) (at : Moments) where
  -- Once an account was let go, for whatever reason, the gate opens for none of its jobs.
  pub released_never_sends :
      (reason : String) (plan : DeliveryPlan) (job : DeliveryJob)
      → gate
          (deps_of transport policy retry (release account_id reason h))
          account_id
          generation
          at
          plan
          job
        ≢ Decision.allow
  unfolding gate deps_of
  released_never_sends reason plan job = rw (unknown account_id reason h) (
      dead_blocks (checkable transport plan generation job.tenant_id job.project_id) account_id
        (current_policy policy (release account_id reason h)) (approval_for job) at.checks)

  -- Once a rule that an account had is missing from the rules that are pulled for it, the gate opens
  -- for no plan of the rule, of whatever account.
  pub removed_rule_never_sends :
      (rs : List PulledRule) (a : Assignment) (now : ℕ) (plan : DeliveryPlan) (job : DeliveryJob)
      → contains (or_empty (Dict.get h.known_rule_ids a.account_id)) plan.rule_id ≡ true
      → contains (rule_ids (snapshots rs a.account_id h.dead_accounts)) plan.rule_id ≡ false
      → gate
          (deps_of transport policy retry (refresh_rules (rows rs) a now h).1)
          account_id
          generation
          at
          plan
          job
        ≢ Decision.allow
  unfolding gate deps_of refresh_rules current_policy
  removed_rule_never_sends rs a now plan job known gone =
      let h' = refreshed a.account_id (snapshots rs a.account_id h.dead_accounts) now h in
      let new_ids = rule_ids (snapshots rs a.account_id h.dead_accounts) in
      let removed = minus (or_empty (Dict.get h.known_rule_ids a.account_id)) new_ids in
      let in_removed = contains-minus _ new_ids plan.rule_id known gone in
      let in_both : contains (h.disabled_rule_ids ++ removed) plan.rule_id ≡ true =
        contains-append h.disabled_rule_ids removed plan.rule_id
        ∙ ap (λ (b : Bool). contains h.disabled_rule_ids plan.rule_id || b) in_removed
        ∙ or_true (contains h.disabled_rule_ids plan.rule_id) in
      let disabled =
        contains-minus (h.disabled_rule_ids ++ removed) new_ids plan.rule_id in_both gone in
      let c = checkable transport plan generation job.tenant_id job.project_id in
      let p = with_disabled h'.disabled_rule_ids policy in
      switched_blocks c (live_of account_id h'.registry) p (approval_for job) at.checks (
        rule_switches_off c p (disabled_contains h'.disabled_rule_ids policy plan.rule_id disabled))

  -- A job is its own proof of approval: the gate never stops the plan of a job for want of an approval.
  pub approval_never_missing :
      (job : DeliveryJob) (p : DeliveryPlan) (hints : Option (Option String × Bool))
      → plan_from_job job ≡ some p
      → gate (deps_of transport policy retry h) account_id generation at (hinted hints p) job
        ≢ Decision.blocked_approval
  unfolding gate deps_of plan_from_job approval_for
  approval_never_missing job p hints e =
      let (asks, hash) = planned_same (job_kind_alias job.kind) job p e in
      let (asks', hash') = hinted_same hints p in
      let c = checkable transport (hinted hints p) generation job.tenant_id job.project_id in
      not_approval c (live_of account_id h.registry) (current_policy policy h) (approval_for job)
        at.checks
        (nothing_refused c.requires_approval job.requires_approval c job.payload_hash at.checks
          (asks' ∙ asks) (hash' ∙ hash))
