-- ===== src/Platform/Store.antt =====
-- The rows that the services read and write (telegram-platform/backend/app/tg/model and crud). A table is
-- a dict by id; a row that is deleted keeps its place with the flag set.
use tdaudiibncba.Common.{
  ℕ, ℤ, String, Bool, not, ◌&&◌, ◌||◌, Option, none, some, List, ◌==◌, exists_by, if◌then◌else◌,
  nat_eq, string_eq,
}
use tdaudiibncba.Common.Dict
use tdaudiibncba.Common.Dict.{Dict}
use tdaudiibncba.Storage.Jobs.{Jobs}

-- `request.user`
pub record User : Type 0 where
  pub id : ℕ
  pub is_superuser : Bool

pub record Membership : Type 0 where
  pub tenant_id : ℕ
  pub project_id : ℕ
  pub user_id : ℕ
  pub deleted : Bool

-- A tenant or a project, by what is read of it.
pub record Owner : Type 0 where
  pub uuid : String
  pub deleted : Bool

pub record Account : Type 0 where
  pub uuid : String
  pub tenant_id : ℕ
  pub project_id : ℕ
  pub deleted : Bool

-- The statuses of a candidate; an approval has the first four.
pub data ReviewStatus : Type 0 where
  pending approved rejected expired consumed superseded : ReviewStatus

pub record ReplyCandidate : Type 0 where
  pub id : ℕ
  pub uuid : String
  pub tenant_id : ℕ
  pub project_id : ℕ
  pub account_id : ℕ
  pub target_chat_id : ℤ
  pub target_topic_id : Option ℤ
  pub reply_to_source_id : Option ℤ
  pub rule_id : Option ℕ
  pub content : String
  pub content_hash : String
  pub version : ℕ
  pub expires_at : ℕ
  pub status : ReviewStatus
  pub deleted : Bool

pub record Approval : Type 0 where
  pub id : ℕ
  pub uuid : String
  pub tenant_id : ℕ
  pub project_id : ℕ
  pub candidate_id : ℕ
  pub candidate_version : ℕ
  pub content_hash : String
  pub expires_at : ℕ
  pub status : ReviewStatus
  pub reviewer_id : Option ℕ
  pub decided_at : Option ℕ
  pub reason : Option String
  pub deleted : Bool

pub record Store : Type 0 where
  pub memberships : List Membership
  pub tenants : Dict ℕ Owner
  pub projects : Dict ℕ Owner
  pub accounts : Dict ℕ Account
  pub candidates : Dict ℕ ReplyCandidate
  pub approvals : Dict ℕ Approval
  pub jobs : Jobs

-- `deleted=0`
abbrev pub unless_deleted {ℓ} : {A : Type ℓ} → (A → Bool) → Option A → Option A
unless_deleted deleted none = none
unless_deleted deleted (some row) = if deleted row then none else some row

unfoldable pub get_approval : Store → ℕ → Option Approval
get_approval db pk = unless_deleted (λ (a : Approval). a.deleted) (Dict.get db.approvals pk)

unfoldable pub get_candidate : Store → ℕ → Option ReplyCandidate
get_candidate db pk = unless_deleted (λ (c : ReplyCandidate). c.deleted) (Dict.get db.candidates pk)

unfoldable pub get_tenant : Store → ℕ → Option Owner
get_tenant db pk = unless_deleted (λ (o : Owner). o.deleted) (Dict.get db.tenants pk)

unfoldable pub get_project : Store → ℕ → Option Owner
get_project db pk = unless_deleted (λ (o : Owner). o.deleted) (Dict.get db.projects pk)

-- telegram_account_dao.get_by_scope
unfoldable pub get_account_in : Store → ℕ → ℕ → ℕ → Option Account
get_account_in db tenant_id project_id pk =
    unless_deleted
      (λ (a : Account).
        a.deleted || not ((a.tenant_id == tenant_id) && (a.project_id == project_id)))
      (Dict.get db.accounts pk)

abbrev pub is_member : ℕ → ℕ → ℕ → Membership → Bool
is_member tenant_id project_id user_id m =
    (m.tenant_id == tenant_id)
    && (m.project_id == project_id)
    && (m.user_id == user_id)
    && not m.deleted

-- membership_dao.get_by_scope and the superuser's way round it: `_check_scope` passes.
unfoldable pub in_scope : Store → User → ℕ → ℕ → Bool
in_scope db user tenant_id project_id =
    user.is_superuser || exists_by (is_member tenant_id project_id user.id) db.memberships

-- The errors that the services raise.
pub data Failure : Type 0 where
  forbidden : Failure
  account_missing approval_missing candidate_missing owner_missing : Failure
  already_decided approval_expired version_changed hash_mismatch : Failure

pub data Result {ℓ} (A : Type ℓ) : Type ℓ where
  returned : A → Result A
  raised : Failure → Result A

-- `async_db_session.begin()`: an exception rolls back what the request wrote.
abbrev pub transaction {ℓ} : {A : Type ℓ} → Store → Result A × Store → Result A × Store
transaction old (returned a, db) = (returned a, db)
transaction old (raised e, db) = (raised e, old)
