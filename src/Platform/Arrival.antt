-- ===== src/Platform/Arrival.antt =====
-- A published rule arrives at the worker that listens for it (publish of
-- telegram-platform/backend/app/tg/service/rule_service.py, pull_rules of api/v1/runtime.py and
-- _refresh_rules of telegram-runtime/runtime/worker/host.py), and one that is stopped does not.
use tdaudiibncba.Common.{
  ℤ, ℕ, suc, String, ◌≡◌, refl, sym, ap, ◌∙◌, subst, Bool, true, false, not, ◌&&◌, Option, none,
  some, List, [], ◌∷◌, ◌++◌, ◌==◌, Memᴰ, if◌then◌else◌, nat_eq, beq_refl, some_inj,
}
use tdaudiibncba.Common.Dict
use tdaudiibncba.Common.Dict.{Dict}
use tdaudiibncba.Planner.Model.{RuleSnapshot}
use tdaudiibncba.Ingest.Normalizer.{ChatClass}
use tdaudiibncba.Host.State.{account_of, snapshots}
use tdaudiibncba.Platform.Store.{User, Account, unless_deleted}
use tdaudiibncba.Platform.Rules.{
  CloneRule, CloneTarget, RuleVersion, RuleStore, get_rule, account_in,
}
use tdaudiibncba.Platform.Pulling.{
  uuid_of, is_version, PulledRow, row_of, serves_account, pull_each, pull_rules, pulled,
}
use tdaudiibncba.Platform.Chats.{made}
use tdaudiibncba.Platform.Publishing.{
  Fresh, version_of, published_rule, row_updated, entered, publish,
}
use tdaudiibncba.Platform.Published.{made_inj, Stored}
use tdaudiibncba.Platform.Versioning.{Published, publish-Published, find_last, own_version}
use tdaudiibncba.Platform.Reaching.{pull_each-put, pulled_listed, Plans, row-Plans}

there_undeleted :
    (o : Option CloneRule) (r : CloneRule)
    → unless_deleted (λ (x : CloneRule). x.deleted) o ≡ some r
    → (o ≡ some r) × (r.deleted ≡ false)
there_undeleted none r h = cc
there_undeleted (some q) r h = split q.deleted q refl h
  where
    split :
        (b : Bool) (x : CloneRule)
        → x.deleted ≡ b
        → (if b then none else some x) ≡ some r
        → (some x ≡ some r) × (r.deleted ≡ false)
    split true x e g = cc
    split false x e g = (g, subst (λ (y : CloneRule). y.deleted ≡ false) (some_inj g) e)

all_hold : (a b c : Bool) → a ≡ false → b ≡ true → c ≡ true → (not a && b && true && c) ≡ true
all_hold a b c p q s = rw (p, q, s) refl

-- A rule that was published is in force for its listener if it is enabled.
served :
    (r : CloneRule)
    → r.deleted ≡ false
    → r.enabled ≡ true
    → serves_account r.account_id (published_rule r) ≡ true
unfolding serves_account
served r d e =
    all_hold r.deleted (r.account_id == r.account_id) r.enabled d (beq_refl r.account_id) e

module _ (join : ℕ → List String → Option (String → Option ℤ)) where
  row_pulled :
      (user : User) (r : CloneRule) (routes : List CloneTarget) (now : ℕ) (db db' : RuleStore)
      (v : RuleVersion)
      → get_rule db r.id ≡ some r
      → r.enabled ≡ true
      → Stored user r routes now db v db'
      → Memᴰ
          (row_of db.accounts (published_rule r) (version_of user r routes now))
          (pull_rules db' r.account_id)
  unfolding get_rule pull_rules
  row_pulled user r routes now db db' v read on st =
      let (kept, live) = there_undeleted (Dict.get db.rules r.id) r read in
      let new = version_of user r routes now in
      let rules : db'.rules ≡ Dict.put db.rules r.id (published_rule r) =
        st.rules ∙ ap (λ (o : Option CloneRule). row_updated o r db.rules) kept in
      let versions : db'.versions ≡ db.versions ++ new ∷ [] =
        st.versions ∙ ap (λ (x : RuleVersion). db.versions ++ x ∷ []) st.version in
      let same : pull_rules db' r.account_id
          ≡ pull_each db.accounts (db.versions ++ new ∷ []) r.account_id
              (Dict.put db.rules r.id (published_rule r)) =
        ap (λ (rows : Dict ℕ Account). pull_each rows db'.versions r.account_id db'.rules)
          st.accounts
        ∙ ap (λ (vs : List RuleVersion). pull_each db.accounts vs r.account_id db'.rules) versions
        ∙ ap
            (λ (rs : Dict ℕ CloneRule).
              pull_each db.accounts (db.versions ++ new ∷ []) r.account_id rs)
            rules in
      subst (λ (rows : List PulledRow). Memᴰ (row_of db.accounts (published_rule r) new) rows)
        (sym same)
        (pull_each-put db.accounts (db.versions ++ new ∷ []) r.account_id r.id (published_rule r)
          new db.rules (served r live on)
          (find_last (is_version r.id (suc r.current_version)) db.versions new st.is_new
            (own_version r.id (suc r.current_version))))

  -- Once a rule that is enabled has been published, the rules that its listener's worker pulls hold, for
  -- each of the routes with which it was published and whatever class the route's source chat turns out
  -- to have, a rule snapshot of this rule in the new version, in the scope that the ingestion gives to
  -- the chat's messages, with this route as its target.
  pub publish-Arrives :
      (user : User) (r : CloneRule) (expected : ℕ) (fresh : Fresh) (db db' : RuleStore)
      (v : RuleVersion) (routes : List CloneTarget) (t : CloneTarget) (c : ChatClass)
      (account_id : String) (dead : List String)
      → get_rule db r.id ≡ some r
      → r.enabled ≡ true
      → publish join user r.id expected fresh db ≡ made (v, db')
      → entered join r fresh db ≡ made routes
      → Memᴰ t routes
      → (s : RuleSnapshot) × Memᴰ s
          (snapshots (pulled (pull_rules db' r.account_id)) account_id dead)
        × Plans r t c
            (account_of
              (uuid_of (account_in db.accounts r.tenant_id r.project_id r.account_id))
              account_id)
            s
  publish-Arrives user r expected fresh db db' v routes t c account_id dead read on h e m =
      let (q, read', access, p) = publish-Published join user r.id expected fresh db v db' h in
      let p' =
        subst (λ (x : CloneRule). Published join user x expected fresh db v db')
          (some_inj (sym read' ∙ read)) p in
      let same : p'.routes ≡ routes = made_inj (sym p'.were_entered ∙ e) in
      let stored =
        subst (λ (ts : List CloneTarget). Stored user r ts fresh.now db v db') same p'.stored in
      let row = row_of db.accounts (published_rule r) (version_of user r routes fresh.now) in
      let (s, listed, plans) =
        row-Plans db.accounts user r (published_rule r) routes fresh.now t c
          (account_of row.account_uuid account_id) dead m in
      (
        s,
        pulled_listed row (pull_rules db' r.account_id) account_id dead s
            (row_pulled user r routes fresh.now db db' v read on stored) listed,
        plans,
      )
