-- ===== src/Platform/Reaching.antt =====
-- From a published rule to the rules that a worker plans by: publish of
-- telegram-platform/backend/app/tg/service/rule_service.py, pull_rules of api/v1/runtime.py, and
-- _refresh_rules with rules_from_snapshot of telegram-runtime/runtime/worker/host.py.
use tdaudiibncba.Common.{
  ℕ, suc, String, ◌≡◌, refl, ap, subst, inl, inr, Bool, true, false, Option, none, some, List, [],
  ◌∷◌, ◌==◌, Memᴰ, find, if◌then◌else◌, nat_eq, Bool-cases, mem-append_left, mem-append_right,
}
use tdaudiibncba.Common.Spelling.{spell}
use tdaudiibncba.Common.Dict
use tdaudiibncba.Common.Dict.{Dict}
use tdaudiibncba.Planner.Model.{RuleSnapshot}
use tdaudiibncba.Ingest.Normalizer.{ChatClass, source_scope_for}
use tdaudiibncba.Worker.Rules.{
  PublishedTarget, PublishedRule, snapshot_of, snapshots_of, of_targets, rules_from_snapshot,
}
use tdaudiibncba.Host.State.{account_of, snapshots}
use tdaudiibncba.Platform.Store.{User, Account}
use tdaudiibncba.Platform.Publishing.{version_of}
use tdaudiibncba.Platform.Rules.{
  CloneRule, CloneTarget, RuleVersion, snapshot_target, snapshot_targets, snapshot,
}
use tdaudiibncba.Platform.Pulling.{
  is_version, PulledRow, row_of, serves_account, and_row, pull_each, target_read, targets_read,
  row_read, pulled,
}

listed_still :
    (b : Bool) (accounts : Dict ℕ Account) (r : CloneRule) (o : Option RuleVersion)
    (row : PulledRow) (rest : List PulledRow)
    → Memᴰ row rest
    → Memᴰ row (if b then and_row accounts r o rest else rest)
listed_still true accounts r none row rest m = m
listed_still true accounts r (some v) row rest m = Memᴰ.tail m
listed_still false accounts r o row rest m = m

-- A rule that was put into the table, is in force and has its current version is pulled.
pub pull_each-put :
    (accounts : Dict ℕ Account) (versions : List RuleVersion) (account_id k : ℕ) (r : CloneRule)
    (v : RuleVersion) (rules : Dict ℕ CloneRule)
    → serves_account account_id r ≡ true
    → find (is_version r.id r.current_version) versions ≡ some v
    → Memᴰ (row_of accounts r v) (pull_each accounts versions account_id (Dict.put rules k r))
unfolding Dict.put
pull_each-put accounts versions account_id k r v [] s f = rw (s, f) (Memᴰ.head refl)
pull_each-put accounts versions account_id k r v ((j, x) ∷ rules) s f = elim (Bool-cases (j == k)) [
  | inl p ↦ rw (p, s, f) (Memᴰ.head refl)
  | inr p ↦ rw p (
      listed_still (serves_account account_id x) accounts x
        (find (is_version x.id x.current_version) versions) (row_of accounts r v) _
        (pull_each-put accounts versions account_id k r v rules s f))
]

target_listed :
    (t : CloneTarget) (routes : List CloneTarget)
    → Memᴰ t routes
    → Memᴰ (target_read (snapshot_target t)) (targets_read (snapshot_targets routes))
target_listed t [] m = elim m [ ]
target_listed t (u ∷ routes) (Memᴰ.head e) =
    Memᴰ.head (ap (λ (x : CloneTarget). target_read (snapshot_target x)) e)
target_listed t (u ∷ routes) (Memᴰ.tail m) = Memᴰ.tail (target_listed t routes m)

snapshots_listed :
    (rule : PublishedRule) (account : String) (dead : List String) (t : PublishedTarget)
    (targets : List PublishedTarget) (s : RuleSnapshot)
    → Memᴰ t targets
    → Memᴰ s (snapshots_of rule account dead t)
    → Memᴰ s (of_targets rule account dead targets)
snapshots_listed rule account dead t [] s i m = elim i [ ]
snapshots_listed rule account dead t (u ∷ targets) s (Memᴰ.head e) m =
    mem-append_left (snapshots_of rule account dead u) (of_targets rule account dead targets)
      (subst (λ (x : PublishedTarget). Memᴰ s (snapshots_of rule account dead x)) e m)
snapshots_listed rule account dead t (u ∷ targets) s (Memᴰ.tail i) m =
    mem-append_right (snapshots_of rule account dead u) (of_targets rule account dead targets)
      (snapshots_listed rule account dead t targets s i m)

pub pulled_listed :
    (row : PulledRow) (rows : List PulledRow) (account_id : String) (dead : List String)
    (s : RuleSnapshot)
    → Memᴰ row rows
    → Memᴰ s (rules_from_snapshot (row_read row) (account_of row.account_uuid account_id) dead)
    → Memᴰ s (snapshots (pulled rows) account_id dead)
unfolding snapshots
pulled_listed row [] account_id dead s i m = elim i [ ]
pulled_listed row (q ∷ rows) account_id dead s (Memᴰ.head e) m =
    mem-append_left (rules_from_snapshot (row_read q) (account_of q.account_uuid account_id) dead)
      (snapshots (pulled rows) account_id dead)
      (subst
        (λ (x : PulledRow).
          Memᴰ s (rules_from_snapshot (row_read x) (account_of x.account_uuid account_id) dead))
        e m)
pulled_listed row (q ∷ rows) account_id dead s (Memᴰ.tail i) m =
    mem-append_right (rules_from_snapshot (row_read q) (account_of q.account_uuid account_id) dead)
      (snapshots (pulled rows) account_id dead) (pulled_listed row rows account_id dead s i m)

-- The scope of a chat of a given class is that of one of the two snapshots of a target.
scope_listed :
    (rule : PublishedRule) (account : String) (dead : List String) (t : PublishedTarget)
    (c : ChatClass)
    → Memᴰ
        (snapshot_of rule account dead t (source_scope_for c t.source_chat_id account))
        (snapshots_of rule account dead t)
unfolding snapshots_of source_scope_for
scope_listed rule account dead t ChatClass.broadcast = Memᴰ.head refl
scope_listed rule account dead t ChatClass.small_group = Memᴰ.tail (Memᴰ.head refl)
scope_listed rule account dead t ChatClass.private = Memᴰ.tail (Memᴰ.head refl)

-- A rule snapshot with which a worker plans for one route of a published version.
pub record Plans (r : CloneRule) (t : CloneTarget) (c : ChatClass) (account : String)
    (s : RuleSnapshot) : Type 0 where
  pub rule_id : s.rule_id ≡ spell r.id
  pub version : s.version ≡ suc r.current_version
  pub scope : s.source_scope ≡ source_scope_for c t.source_chat_id account
  pub chat : s.source_chat_id ≡ t.source_chat_id
  pub topic : s.source_topic_id ≡ t.source_topic_id
  pub targets :
      s.targets
      ≡ record {
        route_id = t.route_id;
        target_chat_id = t.target_chat_id;
        target_topic_id = t.target_topic_id;
      }
        ∷ []

-- The snapshot of one route in the answer for a version that is pulled.
pub row-Plans :
    (accounts : Dict ℕ Account) (user : User) (r q : CloneRule) (routes : List CloneTarget)
    (now : ℕ) (t : CloneTarget) (c : ChatClass) (account : String) (dead : List String)
    → Memᴰ t routes
    → (s : RuleSnapshot) × Memᴰ s (
        rules_from_snapshot
          (row_read (row_of accounts q (version_of user r routes now)))
          account
          dead)
      × Plans r t c account s
unfolding rules_from_snapshot row_read snapshot snapshot_of
row-Plans accounts user r q routes now t c account dead m =
    let rule = row_read (row_of accounts q (version_of user r routes now)) in
    let read = target_read (snapshot_target t) in
    (
      snapshot_of rule account dead read (source_scope_for c t.source_chat_id account),
      snapshots_listed rule account dead read (targets_read (snapshot_targets routes)) _
          (target_listed t routes m) (scope_listed rule account dead read c),
      record {
        rule_id = refl;
        version = refl;
        scope = refl;
        chat = refl;
        topic = refl;
        targets = refl;
      },
    )
