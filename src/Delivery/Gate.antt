-- ===== src/Delivery/Gate.antt =====
-- When the policy gate opens (runtime/delivery/policy.py).
use tdaudiibncba.Common.{
  ℕ, pos, int_eq, ◌<◌, ◌≤◌, String, ◌≡◌, refl, ◌↔◌, ◌⊎◌, inl, inr, Bool, true, false, ◌&&◌, Option,
  none, some, List, Memᴰ, arith, eq_iff, contains, contains_of_mem, mem_of_contains, Bool-cases,
  string_eq, nat_eq, sym, ◌==◌, beq_refl, eq_of_beq,
}
use mathlib.Core.Bool.{false≢true}
use tdaudiibncba.Delivery.Policy.{
  Decision, SendState, LiveAccount, PolicySnapshot, ApprovalRecord, PolicyCheckable, switched_off,
  is_halted, is_flooded, still_waiting, hashes_differ, has_expired, approval_refuses, check,
}

-- The approval is there, approves, fits the content and has not expired.
pub record IsApproved (job : PolicyCheckable) (approval : Option ApprovalRecord) (now : ℕ)
    : Type 0 where
  pub given : ApprovalRecord
  pub present : approval ≡ some given
  pub approves : given.approved ≡ true
  pub fits : (a b : String) → given.content_hash ≡ some a → job.content_hash ≡ some b → a ≡ b
  pub fresh : (t : ℕ) → given.expires_at ≡ some t → now < t

-- No level of the policy names the job.
pub record IsUnrestricted (job : PolicyCheckable) (policy : PolicySnapshot) : Type 0 where
  pub global : policy.global_disabled ≡ false
  pub tenant : ¬ Memᴰ job.tenant_id policy.tenant_disabled
  pub project : ¬ Memᴰ job.project_id policy.project_disabled
  pub account : ¬ Memᴰ job.account_id policy.account_disabled
  pub rule : ¬ Memᴰ job.rule_id policy.rule_disabled
  pub route : ¬ Memᴰ job.route_id policy.rate_limit_blocked

pub record IsCleared (job : PolicyCheckable) (live : LiveAccount) (policy : PolicySnapshot)
    (approval : Option ApprovalRecord) (now : ℕ) : Type 0 where
  pub owner : job.account_id ≡ live.account_id
  pub generation : pos job.expected_generation ≡ live.generation
  pub unrestricted : IsUnrestricted job policy
  pub running : (live.send_state ≡ SendState.sendable) ⊎ (live.send_state ≡ SendState.flood_wait)
  pub waited :
      live.send_state ≡ SendState.flood_wait
      → (t : ℕ) × (live.flood_wait_until ≡ some t) × (t ≤ now)
  pub approved : job.requires_approval ≡ true → IsApproved job approval now

not-contains_iff : (xs : List String) (a : String) → (contains xs a ≡ false) ↔ ¬ Memᴰ a xs
not-contains_iff xs a = (
  λ h m. cc (h, contains_of_mem a xs m),
  λ n. elim (Bool-cases (contains xs a)) [
    | inl y ↦ absurd (n (mem_of_contains a xs y))
    | inr f ↦ f
  ],
)

hashes_agree :
    (x y : Option String)
    → ((a b : String) → x ≡ some a → y ≡ some b → a ≡ b)
    → hashes_differ x y ≡ false
hashes_agree none y h = refl
hashes_agree (some a) none h = refl
hashes_agree (some a) (some b) h = ground (arith, eq_iff a b, h a b refl refl)

not_expired :
    (x : Option ℕ) (now : ℕ) → ((t : ℕ) → x ≡ some t → now < t) → has_expired x now ≡ false
not_expired none now h = refl
not_expired (some t) now h = ground (arith, h t refl)

given_refuses :
    (job : PolicyCheckable) (r : ApprovalRecord) (now : ℕ)
    → IsApproved job (some r) now
    → approval_refuses job (some r) now ≡ false
unfolding approval_refuses
given_refuses job r now a =
    let e : r ≡ a.given = cc (a.present) in
    rw (
      e,
      a.approves,
      hashes_agree a.given.content_hash job.content_hash a.fits,
      not_expired a.given.expires_at now a.fresh,
    )

IsApproved-iff :
    (job : PolicyCheckable) (approval : Option ApprovalRecord) (now : ℕ)
    → (approval_refuses job approval now ≡ false) ↔ IsApproved job approval now
unfolding approval_refuses
IsApproved-iff job none now = (λ h. cc, λ a. cc (a.present))
IsApproved-iff job (some r) now = (
  λ h. record {
    given = r;
    present = refl;
    approves = ground arith;
    fits = λ a b p q. ground (arith, eq_iff a b);
    fresh = λ t p. ground arith;
  },
  given_refuses job r now,
)

and_false : (a b : Bool) → (a ≡ true → b ≡ false) → (a && b) ≡ false
and_false true b h = h refl
and_false false b h = refl

-- The gate by its seven tests.
record PassesTests (job : PolicyCheckable) (live : LiveAccount) (policy : PolicySnapshot)
    (approval : Option ApprovalRecord) (now : ℕ) : Type 0 where
  owner : (job.account_id == live.account_id) ≡ true
  generation : (pos job.expected_generation == live.generation) ≡ true
  on : switched_off job policy ≡ false
  running : is_halted live.send_state ≡ false
  waited : (is_flooded live.send_state && still_waiting live.flood_wait_until now) ≡ false
  unlimited : contains policy.rate_limit_blocked job.route_id ≡ false
  approved : (job.requires_approval && approval_refuses job approval now) ≡ false

waited_of_test :
    (state : SendState) (until : Option ℕ) {now : ℕ}
    → state ≡ SendState.flood_wait
    → (is_flooded state && still_waiting until now) ≡ false
    → (t : ℕ) × (until ≡ some t) × (t ≤ now)
waited_of_test state none e h = absurd (false≢true (sym (rw e at h)))
waited_of_test state (some t) e h = (t, refl, ground arith)

module _ (job : PolicyCheckable) (live : LiveAccount) (policy : PolicySnapshot)
    (approval : Option ApprovalRecord) (now : ℕ) where
  check_iff_tests :
      (check job live policy approval now ≡ Decision.allow)
      ↔ PassesTests job live policy approval now
  unfolding check
  check_iff_tests = (λ h. ground arith, λ t. ground arith)

  IsUnrestricted-of_tests : PassesTests job live policy approval now → IsUnrestricted job policy
  unfolding switched_off
  IsUnrestricted-of_tests t = record {
    global = ground (arith, t.on);
    tenant = (not-contains_iff policy.tenant_disabled job.tenant_id).0 (ground (arith, t.on));
    project = (not-contains_iff policy.project_disabled job.project_id).0 (ground (arith, t.on));
    account = (not-contains_iff policy.account_disabled job.account_id).0 (ground (arith, t.on));
    rule = (not-contains_iff policy.rule_disabled job.rule_id).0 (ground (arith, t.on));
    route = (not-contains_iff policy.rate_limit_blocked job.route_id).0 t.unlimited;
  }

  switched_off_of_IsUnrestricted : IsUnrestricted job policy → switched_off job policy ≡ false
  unfolding switched_off
  switched_off_of_IsUnrestricted u = rw (
    u.global,
    (not-contains_iff policy.tenant_disabled job.tenant_id).1 u.tenant,
    (not-contains_iff policy.project_disabled job.project_id).1 u.project,
    (not-contains_iff policy.account_disabled job.account_id).1 u.account,
    (not-contains_iff policy.rule_disabled job.rule_id).1 u.rule,
  )

  IsCleared-of_tests :
      PassesTests job live policy approval now → IsCleared job live policy approval now
  IsCleared-of_tests t = record {
    owner = eq_of_beq job.account_id live.account_id t.owner;
    generation = eq_of_beq (pos job.expected_generation) live.generation t.generation;
    unrestricted = IsUnrestricted-of_tests t;
    running = ground (arith, t.running);
    waited = λ f. waited_of_test live.send_state live.flood_wait_until f t.waited;
    approved = λ r. (IsApproved-iff job approval now).0 (ground (arith, t.approved));
  }

  tests_of_IsCleared :
      IsCleared job live policy approval now → PassesTests job live policy approval now
  tests_of_IsCleared c = record {
    owner = rw c.owner (beq_refl live.account_id);
    generation = rw c.generation (beq_refl live.generation);
    on = switched_off_of_IsUnrestricted c.unrestricted;
    running = elim c.running [ inl e ↦ rw e | inr e ↦ rw e ];
    waited = elim c.running [
      | inl e ↦ rw e
      | inr e ↦ let (t, u, le) = c.waited e in rw (e, u) (ground arith)
    ];
    unlimited = (not-contains_iff policy.rate_limit_blocked job.route_id).1 c.unrestricted.route;
    approved =
        and_false job.requires_approval (approval_refuses job approval now)
          (λ r. (IsApproved-iff job approval now).1 (c.approved r));
  }

  -- The gate opens exactly if the job belongs to the live account under its lease generation, no
  -- level of the policy names it, the account is sendable or its flood wait is over, and an approval
  -- that is required is there, fits the content and has not expired.
  pub check_allow_iff :
      (check job live policy approval now ≡ Decision.allow) ↔ IsCleared job live policy approval now
  check_allow_iff =
      (λ h. IsCleared-of_tests (check_iff_tests.0 h), λ c. check_iff_tests.1 (tests_of_IsCleared c))
