-- ===== src/Platform/Verdicts.antt =====
-- telegram-platform/backend/app/tg/service/approval_service.py, _decide: a reviewer approves or rejects.
use tdaudiibncba.Common.{
  ℕ, String, Bool, true, false, not, ◌||◌, Option, none, some, ◌==◌, ltb, if◌then◌else◌, nat_eq,
  string_eq, list_eq,
}
use tdaudiibncba.Common.Dict
use tdaudiibncba.Platform.Store.{
  User, ReviewStatus, ReplyCandidate, Approval, Store, Failure, Result, returned, raised,
  get_approval, get_candidate, in_scope, transaction,
}
use tdaudiibncba.Platform.Approvals.{create_send_job}

-- What a reviewer decides, and what he saw.
pub record Decision : Type 0 where
  pub approves : Bool
  pub expect_version : ℕ
  pub expect_hash : String
  pub reason : Option String

abbrev pub verdict : Bool → ReviewStatus
verdict true = ReviewStatus.approved
verdict false = ReviewStatus.rejected

abbrev pub decided : User → Decision → ℕ → Approval → Approval
decided user d now a = record a {
  status = verdict d.approves;
  reviewer_id = some user.id;
  decided_at = some now;
  reason = d.reason;
}

abbrev pub judged : Decision → ReplyCandidate → ReplyCandidate
judged d c = record c { status = verdict d.approves }

-- The approval as it is read back at the end.
abbrev pub read_back : Result (Unit {0}) × Store → ℕ → Result (Option Approval) × Store
read_back (raised e, db) pk = (raised e, db)
read_back (returned u, db) pk = (returned (get_approval db pk), db)

abbrev pub record_decision :
    User
    → ℕ
    → Decision
    → Approval
    → ReplyCandidate
    → String
    → ℕ
    → Store
    → Result (Option Approval) × Store
record_decision user pk d a c id now db =
    let db' = record db {
      approvals = Dict.put db.approvals pk (decided user d now a);
      candidates = Dict.put db.candidates c.id (judged d c);
    } in
    read_back (if d.approves then create_send_job a c id now db' else (returned tt, db')) pk

abbrev pub with_candidate :
    Option ReplyCandidate
    → User
    → ℕ
    → Decision
    → Approval
    → String
    → ℕ
    → Store
    → Result (Option Approval) × Store
with_candidate none user pk d a id now db = (raised Failure.candidate_missing, db)
with_candidate (some c) user pk d a id now db =
    if not (c.version == d.expect_version) || not (c.version == a.candidate_version)
    then (raised Failure.version_changed, db)
    else if not (c.content_hash == d.expect_hash) || not (c.content_hash == a.content_hash)
    then (raised Failure.hash_mismatch, db)
    else record_decision user pk d a c id now db

abbrev pub is_pending : ReviewStatus → Bool
is_pending ReviewStatus.pending = true
is_pending _ = false

abbrev pub expired_row : Approval → Approval
expired_row a = record a { status = ReviewStatus.expired }

abbrev pub with_approval :
    Option Approval → User → ℕ → Decision → String → ℕ → Store → Result (Option Approval) × Store
with_approval none user pk d id now db = (raised Failure.approval_missing, db)
with_approval (some a) user pk d id now db =
    if not (in_scope db user a.tenant_id a.project_id)
    then (raised Failure.forbidden, db)
    else if not (is_pending a.status)
    then (raised Failure.already_decided, db)
    else if ltb a.expires_at now
    then (
      raised Failure.approval_expired,
      record db { approvals = Dict.put db.approvals pk (expired_row a) },
    )
    else with_candidate (get_candidate db a.candidate_id) user pk d a id now db

-- `_decide`; `id` is the id of a new job.
unfoldable pub decide : User → ℕ → Decision → String → ℕ → Store → Result (Option Approval) × Store
decide user pk d id now db = with_approval (get_approval db pk) user pk d id now db

-- The endpoints for approving and rejecting run in a transaction.
unfoldable pub decide_request :
    User → ℕ → Decision → String → ℕ → Store → Result (Option Approval) × Store
decide_request user pk d id now db = transaction db (decide user pk d id now db)
