-- ===== src/Platform/Finality.antt =====
-- A decision is final, and what is sent is what was approved
-- (telegram-platform/backend/app/tg/service/approval_service.py with
-- telegram-runtime/runtime/worker/live.py, PayloadResolver).
use tdaudiibncba.Common.{
  some_inj, none≢some, true≢false, ℕ, String, ◌≡◌, refl, sym, ap, ◌∙◌, ◌⊎◌, inl, inr, Bool, true,
  false, Option, none, some, ◌==◌, if◌then◌else◌, nat_eq, string_eq, list_eq, Bool-cases, beq_refl,
}
use tdaudiibncba.Common.Dict
use tdaudiibncba.Common.Dict.{Dict, get-put}
use tdaudiibncba.Storage.Jobs.{DeliveryJob, Jobs, key_taken}
use tdaudiibncba.Platform.Store.{
  User, Account, ReplyCandidate, Approval, Store, Failure, Result, returned, raised, unless_deleted,
  get_approval, in_scope, transaction,
}
use tdaudiibncba.Platform.Approvals.{approval_key, send_job}
use tdaudiibncba.Platform.Verdicts.{
  Decision, verdict, decided, is_pending, with_approval, decide, decide_request,
}
use tdaudiibncba.Host.Payload.{Candidate, text, candidate_text, candidate_text_bound}
use tdaudiibncba.Platform.Deciding.{IsQueued, Queues, Accepted, Decided}
use tdaudiibncba.Platform.Judging.{decide_request-Decided}

success :
    (user : User) (pk : ℕ) (d : Decision) (id : String) (now : ℕ) (db : Store)
    (r : Result (Option Approval) × Store) (o : Option Approval)
    → r.0 ≡ returned o
    → Decided user pk d id now db r
    → Accepted user pk d id now db r.1
success user pk d id now db (returned o', db') o e h = h
success user pk d id now db (raised f, db') o e h = cc

live_row :
    (o : Option Approval) (a : Approval)
    → unless_deleted (λ (x : Approval). x.deleted) o ≡ some a
    → a.deleted ≡ false
live_row none a h = absurd (none≢some h)
live_row (some x) a h = elim (Bool-cases x.deleted) [
  | inl p ↦ absurd (none≢some (rw p at h))
  | inr p ↦ ap (λ (y : Approval). y.deleted) (sym (some_inj (rw p at h)))
]

still_live :
    (a : Approval)
    → a.deleted ≡ false
    → unless_deleted (λ (x : Approval). x.deleted) (some a) ≡ some a
still_live a h = helper a.deleted h
  where
    helper : (b : Bool) → b ≡ false → (if b then none else some a) ≡ some a
    helper true h = cc
    helper false h = refl

verdict_settles : (b : Bool) → is_pending (verdict b) ≡ false
verdict_settles true = refl
verdict_settles false = refl

-- How a later decision on a settled approval ends.
abbrev pub IsRefused : Store → Result (Option Approval) × Store → Type 0
IsRefused db r = (r ≡ (raised Failure.forbidden, db)) ⊎ (r ≡ (raised Failure.already_decided, db))

settled_refuses :
    (o : Option Approval) (a : Approval) (user : User) (pk : ℕ) (d : Decision) (id : String)
    (now : ℕ) (db : Store)
    → o ≡ some a
    → is_pending a.status ≡ false
    → IsRefused db (transaction db (with_approval o user pk d id now db))
settled_refuses none a user pk d id now db e h = absurd (none≢some e)
settled_refuses (some b) a user pk d id now db e h =
    let settled : is_pending b.status ≡ false =
      ap (λ (x : Approval). is_pending x.status) (some_inj e) ∙ h in
    elim (Bool-cases (in_scope db user b.tenant_id b.project_id)) [
      | inl p ↦ rw (p, settled) (inr refl)
      | inr p ↦ rw p (inl refl)
    ]

own_row :
    (rows : Dict ℕ Approval) (pk : ℕ) (a : Approval) → Dict.get (Dict.put rows pk a) pk ≡ some a
own_row rows pk a = rw (get-put rows pk pk a, beq_refl pk)

settled_row :
    (user : User) (pk : ℕ) (d : Decision) (id : String) (now : ℕ) (db db' : Store)
    (acc : Accepted user pk d id now db db')
    → get_approval db' pk ≡ some (decided user d now acc.approval)
unfolding get_approval
settled_row user pk d id now db db' acc =
    let row = decided user d now acc.approval in
    let live = λ (o : Option Approval). unless_deleted (λ (x : Approval). x.deleted) o in
    ap (λ (rows : Dict ℕ Approval). live (Dict.get rows pk)) acc.approvals
    ∙ ap live (own_row db.approvals pk row)
    ∙ still_live row (live_row (Dict.get db.approvals pk) acc.approval acc.found)

-- An approval is decided once: after a decision on it was answered, every later decision on it, by
-- whomever, on whatever and whenever, is refused as already decided or for want of access, and
-- changes nothing.
pub decide_request_final :
    (user user' : User) (pk : ℕ) (d d' : Decision) (id id' : String) (now now' : ℕ) (db : Store)
    (o : Option Approval)
    → (decide_request user pk d id now db).0 ≡ returned o
    → let db' = (decide_request user pk d id now db).1 in
      IsRefused db' (decide_request user' pk d' id' now' db')
unfolding decide_request decide
decide_request_final user user' pk d d' id id' now now' db o answered =
    let db' = (decide_request user pk d id now db).1 in
    let acc =
      success user pk d id now db (decide_request user pk d id now db) o answered
        (decide_request-Decided user pk d id now db) in
    let row = decided user d now acc.approval in
    settled_refuses (get_approval db' pk) row user' pk d' id' now' db'
      (settled_row user pk d id now db db' acc) (verdict_settles d.approves)

granted :
    (b : Bool) (a : Approval) (c : ReplyCandidate) (id : String) (now : ℕ) (sender : Option Account)
    (before after : Jobs)
    → b ≡ true
    → Queues b a c id now sender before after
    → IsQueued a c id now sender before after
granted true a c id now sender before after e q = q
granted false a c id now sender before after e q = cc

queued_hash :
    (a : Approval) (c : ReplyCandidate) (id : String) (now : ℕ) (sender : Option Account)
    (before after : Jobs) (job : DeliveryJob)
    → IsQueued a c id now sender before after
    → key_taken before (approval_key a.uuid) ≡ false
    → Dict.get after id ≡ some job
    → job.payload_hash ≡ some c.content_hash
unfolding send_job
queued_hash a c id now sender before after job q new e = elim q.jobs [
  | inl (old, same) ↦ absurd (true≢false (sym old ∙ new))
  | inr (t, p, acc, from, put) ↦
      let own : Dict.get after id ≡ some (send_job a c t p acc id now) =
        ap (λ (jobs : Jobs). Dict.get jobs id) put
        ∙ rw (get-put before id id (send_job a c t p acc id now), beq_refl id) in
      ap (λ (j : DeliveryJob). j.payload_hash) (some_inj (sym e ∙ own))
]

-- What is sent is what the reviewer saw: where an approval is answered and its job is new, a text that
-- the worker resolves for that job, whatever the control plane hands out, has the hash that the
-- reviewer gave, unless that hash is empty.
pub approved_text :
    (sha256 : String → String) (user : User) (pk : ℕ) (d : Decision) (id : String) (now : ℕ)
    (db : Store) (o : Option Approval) (a : Approval) (job : DeliveryJob) (cand : Candidate)
    (t : String)
    → d.approves ≡ true
    → (d.expect_hash == "") ≡ false
    → get_approval db pk ≡ some a
    → key_taken db.jobs (approval_key a.uuid) ≡ false
    → (decide_request user pk d id now db).0 ≡ returned o
    → Dict.get (decide_request user pk d id now db).1.jobs id ≡ some job
    → candidate_text sha256 cand job.payload_hash ≡ text t
    → sha256 t ≡ d.expect_hash
approved_text sha256 user pk d id now db o a job cand t approves full found new answered stored
      resolved =
    let db' = (decide_request user pk d id now db).1 in
    let acc =
      success user pk d id now db (decide_request user pk d id now db) o answered
        (decide_request-Decided user pk d id now db) in
    let same : a ≡ acc.approval = some_inj (sym found ∙ acc.found) in
    let free = ap (λ (x : Approval). key_taken db.jobs (approval_key x.uuid)) (sym same) ∙ new in
    let queued =
      granted d.approves acc.approval acc.candidate id now _ db.jobs db'.jobs approves acc.queued in
    let hash =
      queued_hash acc.approval acc.candidate id now _ db.jobs db'.jobs job queued free stored in
    let bound = hash ∙ ap some acc.hash.0 in
    candidate_text_bound sha256 cand d.expect_hash t full
      (ap (candidate_text sha256 cand) (sym bound) ∙ resolved)
