-- ===== src/Worker/Rules.antt =====
-- runtime/worker/host.py, rules_from_snapshot: a published rule of the platform becomes the runtime's
-- rule snapshots. The row is modelled as it is read, with the defaults of missing keys filled in.
use tdaudiibncba.Common.{
  ℕ, ℤ, String, ◌≡◌, sym, inl, inr, Bool, false, not, ◌&&◌, Option, List, [], ◌∷◌, ◌++◌, ◌==◌,
  contains, keep, length, Bool-cases, beq_refl, eq_of_beq, string_eq, list_eq, nat_eq,
}
use tdaudiibncba.Common.Decimal.{Text, codes, show_int, ◌⋆◌}
use tdaudiibncba.Planner.Model.{CloneMode, ApprovalPolicy, FilterEntry, RuleSnapshot}
use tdaudiibncba.Ingest.Normalizer.{ChatClass, source_scope_for}
use tdaudiibncba.Ingest.Identity.{broad≢narrow}

pub record PublishedTarget : Type 0 where
  pub route_id : String
  pub target_chat_id : ℤ
  pub target_topic_id : Option ℤ
  pub source_chat_id : ℤ
  pub source_topic_id : Option ℤ
  pub filters : FilterEntry

pub record PublishedRule : Type 0 where
  pub rule_id : String
  pub version : ℕ
  pub mode : CloneMode
  pub approval_policy : ApprovalPolicy
  pub sync_edit : Bool
  pub sync_delete : Bool
  pub transform : Bool
  pub sender_account_uuids : List String
  pub targets : List PublishedTarget

-- `u and u not in dead`
abbrev pub is_alive : List String → String → Bool
is_alive dead u = not (u == "") && not (contains dead u)

unfoldable pub snapshot_of :
    PublishedRule → String → List String → PublishedTarget → Text → RuleSnapshot
snapshot_of rule account dead t scope = record {
  rule_id = rule.rule_id;
  version = rule.version;
  account_id = account;
  source_scope = scope;
  source_chat_id = t.source_chat_id;
  source_topic_id = t.source_topic_id;
  targets =
      record {
        route_id = t.route_id;
        target_chat_id = t.target_chat_id;
        target_topic_id = t.target_topic_id;
      }
      ∷ [];
  mode = rule.mode;
  sync_edit = rule.sync_edit;
  sync_delete = rule.sync_delete;
  approval_policy = rule.approval_policy;
  filters = t.filters ∷ [];
  sender_account_ids = keep (is_alive dead) rule.sender_account_uuids;
  transform = rule.transform;
}

-- f"peer:{src_chat}"
abbrev pub peer_scope : ℤ → Text
peer_scope chat = codes "peer" ⋆ show_int chat

-- f"peer:{src_chat}:acct:{account_uuid}"
abbrev pub account_scope : ℤ → String → Text
account_scope chat account = codes "peer" ⋆ show_int chat ⋆ codes "acct" ⋆ codes account

-- The two snapshots of one target.
unfoldable pub snapshots_of :
    PublishedRule → String → List String → PublishedTarget → List RuleSnapshot
snapshots_of rule account dead t =
    snapshot_of rule account dead t (peer_scope t.source_chat_id)
    ∷ snapshot_of rule account dead t (account_scope t.source_chat_id account)
    ∷ []

abbrev pub of_targets :
    PublishedRule → String → List String → List PublishedTarget → List RuleSnapshot
of_targets rule account dead [] = []
of_targets rule account dead (t ∷ targets) =
    snapshots_of rule account dead t ++ of_targets rule account dead targets

unfoldable pub rules_from_snapshot : PublishedRule → String → List String → List RuleSnapshot
rules_from_snapshot rule account dead = of_targets rule account dead rule.targets

abbrev pub in_scope : Text → RuleSnapshot → Bool
in_scope scope rule = rule.source_scope == scope

scopes_differ :
    (chat : ℤ) (account : String) → (peer_scope chat == account_scope chat account) ≡ false
scopes_differ chat account = elim (Bool-cases (peer_scope chat == account_scope chat account)) [
  | inl p ↦
      absurd (
        broad≢narrow chat chat account (eq_of_beq (peer_scope chat) (account_scope chat account) p))
  | inr p ↦ p
]

scopes_differ_back :
    (chat : ℤ) (account : String) → (account_scope chat account == peer_scope chat) ≡ false
scopes_differ_back chat account =
    elim (Bool-cases (account_scope chat account == peer_scope chat)) [
      | inl p ↦ absurd (
          broad≢narrow chat chat account
            (sym (eq_of_beq (account_scope chat account) (peer_scope chat) p)))
      | inr p ↦ p
    ]

-- Whatever class the source chat of a target turns out to have, exactly one of the target's two
-- snapshots has the scope that the ingestion gives to the chat's messages for this account.
pub snapshots_of_once :
    (rule : PublishedRule) (account : String) (dead : List String) (t : PublishedTarget)
    (c : ChatClass)
    → length (
        keep
          (in_scope (source_scope_for c t.source_chat_id account))
          (snapshots_of rule account dead t))
      ≡ 1
unfolding keep snapshots_of snapshot_of source_scope_for
snapshots_of_once rule account dead t ChatClass.broadcast =
    rw (beq_refl (peer_scope t.source_chat_id), scopes_differ_back t.source_chat_id account)
snapshots_of_once rule account dead t ChatClass.small_group =
    rw (scopes_differ t.source_chat_id account, beq_refl (account_scope t.source_chat_id account))
snapshots_of_once rule account dead t ChatClass.private =
    rw (scopes_differ t.source_chat_id account, beq_refl (account_scope t.source_chat_id account))
