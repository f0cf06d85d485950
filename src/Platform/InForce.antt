-- ===== src/Platform/InForce.antt =====
-- Which versions a worker can pull at all (telegram-platform/backend/app/tg/api/v1/runtime.py,
-- pull_rules).
use tdaudiibncba.Common.{
  both_true, refuted, ℕ, ◌≡◌, refl, sym, ap, ◌∙◌, subst, some_inj, Bool, true, false, not, ◌&&◌,
  Option, none, some, List, [], ◌∷◌, ◌==◌, Memᴰ, find, if◌then◌else◌, nat_eq, eq_of_beq,
}
use tdaudiibncba.Common.Dict.{Dict}
use tdaudiibncba.Platform.Store.{Account}
use tdaudiibncba.Platform.Rules.{CloneRule, RuleVersion, RuleStore}
use tdaudiibncba.Platform.Pulling.{
  is_version, is_published, PulledRow, row_of, serves_account, and_row, pull_each, pull_rules,
}

found_first {ℓ} :
    {A : Type ℓ} (p : A → Bool) (xs : List A) (x y : A) (b : Bool)
    → p y ≡ b
    → (find p xs ≡ some x → Memᴰ x xs × (p x ≡ true))
    → (if b then some y else find p xs) ≡ some x
    → Memᴰ x (y ∷ xs) × (p x ≡ true)
found_first p xs x y true e later g = (Memᴰ.head (sym (some_inj g)), (ap p (sym (some_inj g)) ∙ e))
found_first p xs x y false e later g = let (m, t) = later g in (Memᴰ.tail m, t)

find-Memᴰ {ℓ} :
    {A : Type ℓ} (p : A → Bool) (xs : List A) (x : A)
    → find p xs ≡ some x
    → Memᴰ x xs × (p x ≡ true)
unfolding find
find-Memᴰ p [] x h = cc
find-Memᴰ p (y ∷ xs) x h = found_first p xs x y (p y) refl (find-Memᴰ p xs x) h

-- A row that is pulled is of a stored version, the current one of a rule in force for the account.
pub record IsInForce (rules : Dict ℕ CloneRule) (versions : List RuleVersion) (account_id : ℕ)
    (row : PulledRow) : Type 0 where
  pub pk : ℕ
  pub rule : CloneRule
  pub listed : Memᴰ (pk, rule) rules
  pub listens : rule.account_id ≡ account_id
  pub is_live : rule.deleted ≡ false
  pub is_published : is_published rule.status ≡ true
  pub is_enabled : rule.enabled ≡ true
  pub stored : RuleVersion
  pub kept : Memᴰ stored versions
  pub of_rule : (stored.rule_id ≡ rule.id) × (row.rule_id ≡ rule.id)
  pub current : (stored.version ≡ rule.current_version) × (row.version ≡ rule.current_version)
  pub content : row.snapshot ≡ stored.snapshot

row-IsInForce :
    (accounts : Dict ℕ Account) (rules : Dict ℕ CloneRule) (versions : List RuleVersion)
    (account_id pk : ℕ) (r : CloneRule) (v : RuleVersion)
    → Memᴰ (pk, r) rules
    → serves_account account_id r ≡ true
    → find (is_version r.id r.current_version) versions ≡ some v
    → IsInForce rules versions account_id (row_of accounts r v)
unfolding serves_account
row-IsInForce accounts rules versions account_id pk r v m s f =
    let listened = not r.deleted && (r.account_id == account_id) in
    let (s1, enabled) = both_true (listened && is_published r.status) r.enabled s in
    let (s2, published) = both_true listened (is_published r.status) s1 in
    let (live, listens) = both_true (not r.deleted) (r.account_id == account_id) s2 in
    let (kept, t) = find-Memᴰ (is_version r.id r.current_version) versions v f in
    let (rule, version) = both_true (v.rule_id == r.id) (v.version == r.current_version) t in
    record {
      pk = pk;
      rule = r;
      listed = m;
      listens = eq_of_beq r.account_id account_id listens;
      is_live = refuted r.deleted live;
      is_published = published;
      is_enabled = enabled;
      stored = v;
      kept = kept;
      of_rule = (eq_of_beq v.rule_id r.id rule, refl);
      current = (
        eq_of_beq v.version r.current_version version,
        eq_of_beq v.version r.current_version version,
      );
      content = refl;
    }

-- One rule of the table, and the rows of those after it.
one-IsInForce :
    (accounts : Dict ℕ Account) (all : Dict ℕ CloneRule) (versions : List RuleVersion)
    (account_id pk : ℕ) (r : CloneRule) (row : PulledRow) (rest : List PulledRow)
    → Memᴰ (pk, r) all
    → (Memᴰ row rest → IsInForce all versions account_id row)
    → (b : Bool) → serves_account account_id r ≡ b
    → (o : Option RuleVersion) → find (is_version r.id r.current_version) versions ≡ o
    → Memᴰ row (if b then and_row accounts r o rest else rest)
    → IsInForce all versions account_id row
one-IsInForce accounts all versions account_id pk r row rest i later false s o f m = later m
one-IsInForce accounts all versions account_id pk r row rest i later true s none f m = later m
one-IsInForce accounts all versions account_id pk r row rest i later true s (some v) f
      (Memᴰ.tail m) =
    later m
one-IsInForce accounts all versions account_id pk r row rest i later true s (some v) f
      (Memᴰ.head e) =
    subst (IsInForce all versions account_id) (sym e)
      (row-IsInForce accounts all versions account_id pk r v i s f)

-- The rules that are still to be looked at are among those of the table.
pull_each-IsInForce :
    (accounts : Dict ℕ Account) (all : Dict ℕ CloneRule) (versions : List RuleVersion)
    (account_id : ℕ) (rules : Dict ℕ CloneRule) (row : PulledRow)
    → ((x : ℕ × CloneRule) → Memᴰ x rules → Memᴰ x all)
    → Memᴰ row (pull_each accounts versions account_id rules)
    → IsInForce all versions account_id row
pull_each-IsInForce accounts all versions account_id [] row within m = elim m [ ]
pull_each-IsInForce accounts all versions account_id ((pk, r) ∷ rules) row within m =
    one-IsInForce accounts all versions account_id pk r row
      (pull_each accounts versions account_id rules) (within (pk, r) (Memᴰ.head refl))
      (pull_each-IsInForce accounts all versions account_id rules row
        (λ x i. within x (Memᴰ.tail i)))
      (serves_account account_id r) refl (find (is_version r.id r.current_version) versions) refl m

-- Whatever a worker pulls for an account is a stored version, with its snapshot unchanged, and the
-- current version of a rule that the account listens for and that is published, enabled and not
-- deleted.
pub pull_rules-IsInForce :
    (db : RuleStore) (account_id : ℕ) (row : PulledRow)
    → Memᴰ row (pull_rules db account_id)
    → IsInForce db.rules db.versions account_id row
unfolding pull_rules
pull_rules-IsInForce db account_id row m =
    pull_each-IsInForce db.accounts db.rules db.versions account_id db.rules row (λ x i. i) m
