-- ===== src/Platform/Approvals.antt =====
-- telegram-platform/backend/app/tg/service/approval_service.py: a reply candidate is created, decided
-- on, and sent once it is approved. Ids, uuids and clock readings are arguments.
use tdaudiibncba.Common.{
  ℕ, zero, suc, pos, ℤ, String, true, false, not, Option, none, some, is_some, if◌then◌else◌,
  nat_eq, string_eq, list_eq,
}
use tdaudiibncba.Common.Decimal.{Text, codes, ◌⋆◌}
use tdaudiibncba.Common.Spelling.{joined, spell}
use tdaudiibncba.Common.Dict
use tdaudiibncba.Planner.Model.{CloneMode}
use tdaudiibncba.Delivery.Status.{JobStatus}
use tdaudiibncba.Storage.Jobs.{DeliveryJob, key_taken}
use tdaudiibncba.Platform.Store.{
  User, Owner, Account, ReviewStatus, ReplyCandidate, Approval, Store, Failure, Result, returned,
  raised, get_tenant, get_project, get_account_in, in_scope,
}

-- CreateReplyCandidateParam
pub record CandidateParam : Type 0 where
  pub tenant_id : ℕ
  pub project_id : ℕ
  pub account_id : ℕ
  pub target_chat_id : ℤ
  pub target_topic_id : Option ℤ
  pub reply_to_source_id : Option ℤ
  pub rule_id : Option ℕ
  pub content : String
  pub content_hash : String
  pub expires_at : ℕ

-- The ids and uuids of the new rows.
pub record NewIds : Type 0 where
  pub candidate : ℕ
  pub candidate_uuid : String
  pub approval : ℕ
  pub approval_uuid : String

abbrev pub new_candidate : CandidateParam → NewIds → ReplyCandidate
new_candidate obj ids = record {
  id = ids.candidate;
  uuid = ids.candidate_uuid;
  tenant_id = obj.tenant_id;
  project_id = obj.project_id;
  account_id = obj.account_id;
  target_chat_id = obj.target_chat_id;
  target_topic_id = obj.target_topic_id;
  reply_to_source_id = obj.reply_to_source_id;
  rule_id = obj.rule_id;
  content = obj.content;
  content_hash = obj.content_hash;
  version = 1;
  expires_at = obj.expires_at;
  status = ReviewStatus.pending;
  deleted = false;
}

abbrev pub approval_of : ReplyCandidate → NewIds → Approval
approval_of c ids = record {
  id = ids.approval;
  uuid = ids.approval_uuid;
  tenant_id = c.tenant_id;
  project_id = c.project_id;
  candidate_id = c.id;
  candidate_version = c.version;
  content_hash = c.content_hash;
  expires_at = c.expires_at;
  status = ReviewStatus.pending;
  reviewer_id = none;
  decided_at = none;
  reason = none;
  deleted = false;
}

abbrev pub filed : CandidateParam → NewIds → Store → Result ReplyCandidate × Store
filed obj ids db =
    let c = new_candidate obj ids in
    (
      returned c,
      record db {
        candidates = Dict.put db.candidates ids.candidate c;
        approvals = Dict.put db.approvals ids.approval (approval_of c ids);
      },
    )

unfoldable pub create_candidate :
    User → CandidateParam → NewIds → Store → Result ReplyCandidate × Store
create_candidate user obj ids db =
    if not (in_scope db user obj.tenant_id obj.project_id)
    then (raised Failure.forbidden, db)
    else if is_some (get_account_in db obj.tenant_id obj.project_id obj.account_id)
    then filed obj ids db
    else (raised Failure.account_missing, db)

-- f'approval:{approval.uuid}'
abbrev pub approval_key : String → Text
approval_key uuid = codes "approval" ⋆ codes uuid

-- `str(candidate.rule_id) if candidate.rule_id else 'ai'`
abbrev pub rule_text : Option ℕ → String
rule_text none = "ai"
rule_text (some zero) = "ai"
rule_text (some (suc n)) = spell (suc n)

-- `candidate.reply_to_source_id or 0`
abbrev pub or_zero : Option ℤ → ℤ
or_zero none = pos 0
or_zero (some i) = i

-- `reply_to_source_id if rule_id is None else None`
abbrev pub reply_target : Option ℕ → Option ℤ → Option ℤ
reply_target none reply = reply
reply_target (some r) reply = none

-- The job of an approved candidate.
unfoldable pub send_job :
    Approval → ReplyCandidate → Owner → Owner → Account → String → ℕ → DeliveryJob
send_job a c tenant project account id now = record {
  id = id;
  tenant_id = tenant.uuid;
  project_id = project.uuid;
  idempotency_key = approval_key a.uuid;
  kind = "send_message";
  route_id = joined "ai_candidate:" c.uuid;
  rule_id = rule_text c.rule_id;
  rule_version = 0;
  account_id = account.uuid;
  source_scope = codes "ai_reply";
  source_chat_id = c.target_chat_id;
  source_message_id = or_zero c.reply_to_source_id;
  revision = 0;
  target_chat_id = c.target_chat_id;
  target_topic_id = c.target_topic_id;
  mode = CloneMode.copy;
  payload_ref = some (joined "candidate:" c.uuid);
  payload_hash = some c.content_hash;
  requires_approval = true;
  reply_to_target_message_id = reply_target c.rule_id c.reply_to_source_id;
  grouped_id = none;
  status = JobStatus.ready;
  attempt_count = 0;
  next_attempt_at = none;
  flood_wait_until = none;
  last_error_class = none;
  updated_at = now;
}

-- The owners of a job, each of which may be missing.
abbrev pub insert_job :
    Option Owner
    → Option Owner
    → Option Account
    → Approval
    → ReplyCandidate
    → String
    → ℕ
    → Store
    → Result (Unit {0}) × Store
insert_job (some tenant) (some project) (some account) a c id now db = (
  returned tt,
  record db { jobs = Dict.put db.jobs id (send_job a c tenant project account id now) },
)
insert_job (some tenant) (some project) none a c id now db = (raised Failure.owner_missing, db)
insert_job (some tenant) none account a c id now db = (raised Failure.owner_missing, db)
insert_job none project account a c id now db = (raised Failure.owner_missing, db)

-- `_create_send_job`
unfoldable pub create_send_job :
    Approval → ReplyCandidate → String → ℕ → Store → Result (Unit {0}) × Store
create_send_job a c id now db =
    if key_taken db.jobs (approval_key a.uuid)
    then (returned tt, db)
    else insert_job (get_tenant db a.tenant_id) (get_project db a.project_id)
        (get_account_in db a.tenant_id a.project_id c.account_id) a c id now db
