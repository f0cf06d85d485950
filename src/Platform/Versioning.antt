-- ===== src/Platform/Versioning.antt =====
-- The guards of a publication and the numbers of its versions
-- (telegram-platform/backend/app/tg/service/rule_service.py, publish).
use tdaudiibncba.Common.{
  unnegated, neither_true, or_true, ℤ, ◌≢◌, true≢false, ℕ, suc, String, ◌≡◌, refl, sym, ap, ◌∙◌,
  subst, beq_refl, ◌&&◌, Bool, true, false, not, Option, none, some, List, [], ◌∷◌, ◌++◌, ◌==◌,
  exists_by, find, if◌then◌else◌, nat_eq, eq_of_beq,
}
use tdaudiibncba.Platform.Store.{User}
use tdaudiibncba.Platform.Rules.{CloneRule, CloneTarget, RuleVersion, RuleStore, get_rule}
use tdaudiibncba.Platform.Pulling.{is_version}
use tdaudiibncba.Platform.Chats.{RuleFailure, Attempt, made, refused}
use tdaudiibncba.Platform.Publishing.{
  Fresh, active_of, route_keys, repeats, is_disabled, no_routes, entered, publish_given, may_manage,
  found, publish,
}
use tdaudiibncba.Platform.Published.{then_try-made, made_inj, Stored, store_version-Stored}

-- One guard of a request that was not refused.
guard_passed {ℓ} :
    {A : Type ℓ} (b : Bool) (e : RuleFailure) (x : Attempt A) (a : A)
    → (if b then refused e else x) ≡ made a
    → (b ≡ false) × (x ≡ made a)
guard_passed true e x a h = cc
guard_passed false e x a h = (refl, h)

granted :
    (b : Bool) (q r : CloneRule)
    → (if b then made q else refused RuleFailure.forbidden) ≡ made r
    → (q ≡ r) × (b ≡ true)
granted true q r h = (made_inj h, refl)
granted false q r h = cc

found-made :
    (o : Option CloneRule) (user : User) (db : RuleStore) (r : CloneRule)
    → found o user db ≡ made r
    → (o ≡ some r) × (may_manage db user r ≡ true)
found-made none user db r h = cc
found-made (some q) user db r h =
    let (same, access) = granted (may_manage db user q) q r h in
    (ap some same, subst (λ (x : CloneRule). may_manage db user x ≡ true) same access)

-- A version that was appended is there, and is the one that is found if it is the first of its kind.
exists_by_last {ℓ} :
    {A : Type ℓ} (p : A → Bool) (xs : List A) (y : A)
    → p y ≡ true
    → exists_by p (xs ++ y ∷ []) ≡ true
unfolding exists_by
exists_by_last p [] y h = rw h refl
exists_by_last p (x ∷ xs) y h = rw (exists_by_last p xs y h) (or_true (p x))

pub find_last {ℓ} :
    {A : Type ℓ} (p : A → Bool) (xs : List A) (y : A)
    → exists_by p xs ≡ false
    → p y ≡ true
    → find p (xs ++ y ∷ []) ≡ some y
unfolding exists_by find
find_last p [] y h h' = rw h' refl
find_last p (x ∷ xs) y h h' =
    let (head, tail) = neither_true (p x) (exists_by p xs) h in rw head (find_last p xs y tail h')

pub own_version : (rule_id n : ℕ) → ((rule_id == rule_id) && (n == n)) ≡ true
own_version rule_id n = rw (beq_refl rule_id, beq_refl n) refl

module _ (join : ℕ → List String → Option (String → Option ℤ)) where
  -- A publication that was made: the guards held, and what was stored.
  pub record Published (user : User) (r : CloneRule) (expected : ℕ) (fresh : Fresh) (db : RuleStore)
      (v : RuleVersion) (db' : RuleStore) : Type 0 where
    pub in_force : is_disabled r.status ≡ false
    pub current : r.current_version ≡ expected
    pub some_routes : no_routes (active_of r.id db.targets) ≡ false
    pub routes_differ : repeats (route_keys (active_of r.id db.targets)) ≡ false
    pub routes : List CloneTarget
    pub were_entered : entered join r fresh db ≡ made routes
    pub stored : Stored user r routes fresh.now db v db'

  pub publish_given-Published :
      (user : User) (r : CloneRule) (expected : ℕ) (fresh : Fresh) (db : RuleStore)
      (v : RuleVersion) (db' : RuleStore)
      → publish_given join user r expected fresh db ≡ made (v, db')
      → Published user r expected fresh db v db'
  unfolding publish_given
  publish_given-Published user r expected fresh db v db' h =
      let (in_force, h1) = guard_passed (is_disabled r.status) _ _ (v, db') h in
      let (current, h2) = guard_passed (not (r.current_version == expected)) _ _ (v, db') h1 in
      let (some_routes, h3) =
        guard_passed (no_routes (active_of r.id db.targets)) _ _ (v, db') h2 in
      let (routes_differ, h4) =
        guard_passed (repeats (route_keys (active_of r.id db.targets))) _ _ (v, db') h3 in
      let (routes, entered, h5) = then_try-made (entered join r fresh db) _ (v, db') h4 in
      record {
        in_force = in_force;
        current = eq_of_beq r.current_version expected (unnegated _ current);
        some_routes = some_routes;
        routes_differ = routes_differ;
        routes = routes;
        were_entered = entered;
        stored = store_version-Stored user r fresh db routes v db' h5;
      }

  -- A request for publishing that is not refused found its rule, to which the user has access, not
  -- disabled, in the version that he expected, and with routes of which no two are the same. It adds one
  -- version, of the next number, which was free, with the snapshot of the rule and of the routes as they
  -- are once its accounts have entered the chats; it changes no older version, of the rules' table only
  -- the version and the status of this rule, and neither accounts, memberships nor jobs.
  pub publish-Published :
      (user : User) (pk expected : ℕ) (fresh : Fresh) (db : RuleStore) (v : RuleVersion)
      (db' : RuleStore)
      → publish join user pk expected fresh db ≡ made (v, db')
      → (r : CloneRule) × (get_rule db pk ≡ some r)
        × (may_manage db user r ≡ true)
        × Published user r expected fresh db v db'
  unfolding publish
  publish-Published user pk expected fresh db v db' h =
      let (r, e, h1) = then_try-made (found (get_rule db pk) user db) _ (v, db') h in
      let (read, access) = found-made (get_rule db pk) user db r e in
      (r, read, access, publish_given-Published user r expected fresh db v db' h1)

  -- Two requests that read a rule at the same version do not both publish it: once one has stored the
  -- version of the next number, the other is refused, whatever it expects and whatever its user is.
  pub stale_publish :
      (user other : User) (r : CloneRule) (expected expected' : ℕ) (fresh fresh' : Fresh)
      (before after last : RuleStore) (v w : RuleVersion)
      → publish_given join user r expected fresh before ≡ made (v, after)
      → publish_given join other r expected' fresh' after ≢ made (w, last)
  stale_publish user other r expected expected' fresh fresh' before after last v w h h' =
      let first = (publish_given-Published user r expected fresh before v after h).stored in
      let second = (publish_given-Published other r expected' fresh' after w last h').stored in
      true≢false (sym (there first) ∙ second.is_new)
    where
      there :
          {routes : List CloneTarget}
          → Stored user r routes fresh.now before v after
          → exists_by (is_version r.id (suc r.current_version)) after.versions ≡ true
      there st =
          ap (exists_by (is_version r.id (suc r.current_version))) st.versions
          ∙ exists_by_last (is_version r.id (suc r.current_version)) before.versions v (
              subst (λ (x : RuleVersion). is_version r.id (suc r.current_version) x ≡ true)
                (sym st.version) (own_version r.id (suc r.current_version)))
