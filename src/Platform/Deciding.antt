-- ===== src/Platform/Deciding.antt =====
-- What a decision on an approval does (telegram-platform/backend/app/tg/service/approval_service.py,
-- _decide in its transaction).
use tdaudiibncba.Common.{
  ℕ, String, ◌≡◌, refl, ◌⊎◌, inl, inr, Bool, true, false, Option, none, some, ltb, nat_eq,
  string_eq, list_eq, Bool-cases,
}
use tdaudiibncba.Common.Dict
use tdaudiibncba.Common.Dict.{Dict, get-put}
use tdaudiibncba.Storage.Jobs.{Jobs, key_taken}
use tdaudiibncba.Storage.Plans.{taken_put}
use tdaudiibncba.Platform.Store.{
  User, Owner, Account, ReviewStatus, ReplyCandidate, Approval, Store, Result, returned, raised,
  get_approval, get_candidate, get_tenant, get_project, get_account_in, in_scope,
}
use tdaudiibncba.Platform.Approvals.{approval_key, send_job, insert_job, create_send_job}
use tdaudiibncba.Platform.Verdicts.{Decision, decided, judged}

-- What became of the jobs once an approval was granted: the key is taken, by a job that was there or by
-- the one that is new.
pub record IsQueued (a : Approval) (c : ReplyCandidate) (id : String) (now : ℕ)
    (sender : Option Account) (before after : Jobs) : Type 0 where
  pub taken : key_taken after (approval_key a.uuid) ≡ true
  pub jobs :
      ((key_taken before (approval_key a.uuid) ≡ true) × (after ≡ before))
      ⊎ ((tenant : Owner) × (project : Owner) × (account : Account) × (sender ≡ some account)
          × (after ≡ Dict.put before id (send_job a c tenant project account id now)))

abbrev pub Queues :
    Bool → Approval → ReplyCandidate → String → ℕ → Option Account → Jobs → Jobs → Type 0
Queues true a c id now sender before after = IsQueued a c id now sender before after
Queues false a c id now sender before after = after ≡ before

-- When a decision was made, and what it did.
pub record Accepted (user : User) (pk : ℕ) (d : Decision) (id : String) (now : ℕ) (db db' : Store)
    : Type 0 where
  pub approval : Approval
  pub found : get_approval db pk ≡ some approval
  pub access : in_scope db user approval.tenant_id approval.project_id ≡ true
  pub was_pending : approval.status ≡ ReviewStatus.pending
  pub in_time : ltb approval.expires_at now ≡ false
  pub candidate : ReplyCandidate
  pub bound : get_candidate db approval.candidate_id ≡ some candidate
  pub version :
      (candidate.version ≡ d.expect_version) × (candidate.version ≡ approval.candidate_version)
  pub hash :
      (candidate.content_hash ≡ d.expect_hash) × (candidate.content_hash ≡ approval.content_hash)
  pub approvals : db'.approvals ≡ Dict.put db.approvals pk (decided user d now approval)
  pub candidates : db'.candidates ≡ Dict.put db.candidates candidate.id (judged d candidate)
  pub queued :
      Queues d.approves approval candidate id now
        (get_account_in db approval.tenant_id approval.project_id candidate.account_id)
        db.jobs
        db'.jobs
  pub memberships : db'.memberships ≡ db.memberships

abbrev pub Decided :
    User → ℕ → Decision → String → ℕ → Store → Result (Option Approval) × Store → Type 0
Decided user pk d id now db (raised e, db') = db' ≡ db
Decided user pk d id now db (returned o, db') = Accepted user pk d id now db db'

abbrev pub Done : (Store → Type 0) → Result (Unit {0}) × Store → Type 0
Done P (raised e, db) = Unit
Done P (returned u, db) = P db

-- The tables after the job was made, but for the jobs themselves.
abbrev pub Untouched : Store → Store → Type 0
Untouched db db' =
    (db'.approvals ≡ db.approvals)
    × (db'.candidates ≡ db.candidates)
    × (db'.memberships ≡ db.memberships)

insert_job-Done :
    (tenant project : Option Owner) (account : Option Account) (a : Approval) (c : ReplyCandidate)
    (id : String) (now : ℕ) (db : Store)
    → Done
        (λ db'. IsQueued a c id now account db.jobs db'.jobs × Untouched db db')
        (insert_job tenant project account a c id now db)
unfolding send_job
insert_job-Done (some t) (some p) (some acc) a c id now db = (
  record {
    taken = taken_put db.jobs id (send_job a c t p acc id now);
    jobs = inr (t, p, acc, refl, refl);
  },
  (refl, refl, refl),
)
insert_job-Done (some t) (some p) none a c id now db = tt
insert_job-Done (some t) none account a c id now db = tt
insert_job-Done none project account a c id now db = tt

pub create-Done :
    (a : Approval) (c : ReplyCandidate) (id : String) (now : ℕ) (db : Store)
    → Done
        (λ db'.
          IsQueued a c id now
            (get_account_in db a.tenant_id a.project_id c.account_id)
            db.jobs
            db'.jobs
          × Untouched db db')
        (create_send_job a c id now db)
unfolding create_send_job
create-Done a c id now db = elim (Bool-cases (key_taken db.jobs (approval_key a.uuid))) [
  | inl p ↦ rw p (record { taken = p; jobs = inl (p, refl) }, (refl, refl, refl))
  | inr p ↦ rw p (
      insert_job-Done (get_tenant db a.tenant_id) (get_project db a.project_id)
        (get_account_in db a.tenant_id a.project_id c.account_id) a c id now db)
]
