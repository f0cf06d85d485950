-- ===== src/Platform/Published.antt =====
-- What a successful publication of a rule does, and what two at once do
-- (telegram-platform/backend/app/tg/service/rule_service.py, publish).
use tdaudiibncba.Common.{
  ℕ, suc, ◌≡◌, refl, sym, ap, ◌∙◌, subst, inl, inr, Bool, true, false, List, [], ◌∷◌, ◌++◌,
  exists_by, nat_eq, Bool-cases,
}
use tdaudiibncba.Common.Dict
use tdaudiibncba.Common.Dict.{Dict}
use tdaudiibncba.Platform.Store.{User}
use tdaudiibncba.Platform.Commands.{Answered, Queue}
use tdaudiibncba.Platform.Rules.{CloneRule, CloneTarget, RuleVersion, RuleStore}
use tdaudiibncba.Platform.Pulling.{is_version}
use tdaudiibncba.Platform.Chats.{RuleFailure, Attempt, made, refused, then_try}
use tdaudiibncba.Platform.Publishing.{
  Fresh, topic_taken, put_targets, flushed, issued, notify, version_of, insert_version, row_updated,
  update_rule, synced, store_version,
}

pub then_try-made {ℓ κ} :
    {A : Type ℓ} {B : Type κ} (x : Attempt A) (f : A → Attempt B) (b : B)
    → then_try x f ≡ made b
    → (a : A) × (x ≡ made a) × (f a ≡ made b)
then_try-made (made a) f b h = (a, refl, h)
then_try-made (refused e) f b h = cc

pub made_inj {ℓ} : {A : Type ℓ} {a b : A} → made a ≡ made b → a ≡ b
made_inj e = cc

-- What the commands and the routes leave alone.
pub record Keeps (db db' : RuleStore) : Type 0 where
  pub rules : db'.rules ≡ db.rules
  pub versions : db'.versions ≡ db.versions
  pub accounts : db'.accounts ≡ db.accounts
  pub memberships : db'.memberships ≡ db.memberships
  pub jobs : db'.jobs ≡ db.jobs

Keeps-trans : {a b c : RuleStore} → Keeps a b → Keeps b c → Keeps a c
Keeps-trans f g = record {
  rules = g.rules ∙ f.rules;
  versions = g.versions ∙ f.versions;
  accounts = g.accounts ∙ f.accounts;
  memberships = g.memberships ∙ f.memberships;
  jobs = g.jobs ∙ f.jobs;
}

unchanged : {a b : RuleStore} → a ≡ b → Keeps a b
unchanged e = record {
  rules = ap (λ (d : RuleStore). d.rules) (sym e);
  versions = ap (λ (d : RuleStore). d.versions) (sym e);
  accounts = ap (λ (d : RuleStore). d.accounts) (sym e);
  memberships = ap (λ (d : RuleStore). d.memberships) (sym e);
  jobs = ap (λ (d : RuleStore). d.jobs) (sym e);
}

-- A table that keeps all but its commands or its routes, once the update is known to have been made.
carried : (db mid db' : RuleStore) → Keeps db mid → made mid ≡ made db' → Keeps db db'
carried db mid db' k e = Keeps-trans k (unchanged (made_inj e))

issued-Keeps : (x : Answered × Queue) (db db' : RuleStore) → issued x db ≡ made db' → Keeps db db'
issued-Keeps (Answered.command c, q) db db' h =
    carried db (record db { commands = q.commands }) db'
      (record { rules = refl; versions = refl; accounts = refl; memberships = refl; jobs = refl }) h
issued-Keeps (Answered.failure e, q) db db' h = cc

flushed-Keeps :
    (ts : List CloneTarget) (db db' : RuleStore) → flushed ts db ≡ made db' → Keeps db db'
flushed-Keeps ts db db' h =
    elim (Bool-cases (exists_by (topic_taken (put_targets ts db.targets)) ts)) [
      | inl p ↦ absurd (differ (rw p at h))
      | inr p ↦
          carried db (record db { targets = put_targets ts db.targets }) db'
            (record {
              rules = refl;
              versions = refl;
              accounts = refl;
              memberships = refl;
              jobs = refl;
            })
            (rw p at h)
    ]
  where
    differ : refused RuleFailure.topic_taken ≡ made db' → ⊥
    differ e = cc

synced-Keeps :
    (b : Bool) (user : User) (r : CloneRule) (fresh : Fresh) (ts : List CloneTarget)
    (db db' : RuleStore)
    → synced b user r fresh ts db ≡ made db'
    → Keeps db db'
synced-Keeps false user r fresh ts db db' h = unchanged (made_inj h)
synced-Keeps true user r fresh ts db db' h =
    let (mid, e, n) =
      then_try-made (flushed ts db)
        (notify user r.account_id "SyncChats" fresh.sync_id fresh.sync_key fresh.now) db' h in
    Keeps-trans (flushed-Keeps ts db mid e) (issued-Keeps _ mid db' n)

-- The insertion of a version whose number is free.
insert_version-made :
    (v : RuleVersion) (db db' : RuleStore)
    → insert_version v db ≡ made db'
    → (exists_by (is_version v.rule_id v.version) db.versions ≡ false)
      × (made (record db { versions = db.versions ++ v ∷ [] }) ≡ made db')
insert_version-made v db db' h =
    elim (Bool-cases (exists_by (is_version v.rule_id v.version) db.versions)) [
      | inl p ↦ absurd (differ (rw p at h))
      | inr p ↦ (p, (rw p at h))
    ]
  where
    differ : refused RuleFailure.duplicate_version ≡ made db' → ⊥
    differ e = cc

-- What the tables hold after a version of a rule was stored.
pub record Stored (user : User) (r : CloneRule) (routes : List CloneTarget) (now : ℕ)
    (db : RuleStore) (v : RuleVersion) (db' : RuleStore) : Type 0 where
  pub version : v ≡ version_of user r routes now
  pub is_new : exists_by (is_version r.id (suc r.current_version)) db.versions ≡ false
  pub versions : db'.versions ≡ db.versions ++ v ∷ []
  pub rules : db'.rules ≡ row_updated (Dict.get db.rules r.id) r db.rules
  pub accounts : db'.accounts ≡ db.accounts
  pub memberships : db'.memberships ≡ db.memberships
  pub jobs : db'.jobs ≡ db.jobs

assembled :
    (user : User) (r : CloneRule) (ts : List CloneTarget) (now : ℕ) (db db1 db2 db3 : RuleStore)
    → Keeps db db1
    → insert_version (version_of user r ts now) db1 ≡ made db2
    → Keeps (update_rule r db2) db3
    → Stored user r ts now db (version_of user r ts now) db3
assembled user r ts now db db1 db2 db3 k h k' =
    let (free, e) = insert_version-made (version_of user r ts now) db1 db2 h in
    let same = made_inj e in
    let old_rules : db2.rules ≡ db.rules = ap (λ (d : RuleStore). d.rules) (sym same) ∙ k.rules in
    record {
      version = refl;
      is_new = ap (exists_by (is_version r.id (suc r.current_version))) (sym k.versions) ∙ free;
      versions =
          k'.versions
          ∙ ap (λ (d : RuleStore). d.versions) (sym same)
          ∙ ap (λ (vs : List RuleVersion). vs ++ version_of user r ts now ∷ []) k.versions;
      rules =
          k'.rules ∙ ap (λ (rs : Dict ℕ CloneRule). row_updated (Dict.get rs r.id) r rs) old_rules;
      accounts = k'.accounts ∙ ap (λ (d : RuleStore). d.accounts) (sym same) ∙ k.accounts;
      memberships =
          k'.memberships ∙ ap (λ (d : RuleStore). d.memberships) (sym same) ∙ k.memberships;
      jobs = k'.jobs ∙ ap (λ (d : RuleStore). d.jobs) (sym same) ∙ k.jobs;
    }

pub store_version-Stored :
    (user : User) (r : CloneRule) (fresh : Fresh) (db : RuleStore) (ts : List CloneTarget)
    (v : RuleVersion) (db' : RuleStore)
    → store_version user r fresh db ts ≡ made (v, db')
    → Stored user r ts fresh.now db v db'
store_version-Stored user r fresh db ts v db' h =
    let (db1, synced, h1) = then_try-made (synced r.enabled user r fresh ts db) _ (v, db') h in
    let (db2, inserted, h2) =
      then_try-made (insert_version (version_of user r ts fresh.now) db1) _ (v, db') h1 in
    let (db3, told, h3) =
      then_try-made
        (notify user r.account_id "ReloadConfig" fresh.reload_id fresh.reload_key fresh.now
          (update_rule r db2))
        _ (v, db') h2 in
    subst (λ (x : RuleVersion × RuleStore). Stored user r ts fresh.now db x.0 x.1) (made_inj h3)
      (assembled user r ts fresh.now db db1 db2 db3
        (synced-Keeps r.enabled user r fresh ts db db1 synced) inserted
        (issued-Keeps _ (update_rule r db2) db3 told))
