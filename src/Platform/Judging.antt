-- ===== src/Platform/Judging.antt =====
-- A decision on an approval, on all of its branches
-- (telegram-platform/backend/app/tg/service/approval_service.py, _decide in its transaction).
use tdaudiibncba.Common.{
  ℕ, String, ◌≡◌, refl, inl, inr, Bool, true, false, not, ◌||◌, Option, none, some, ◌==◌, ltb,
  if◌then◌else◌, nat_eq, string_eq, list_eq, Bool-cases, eq_of_beq,
}
use tdaudiibncba.Common.Dict
use tdaudiibncba.Common.Dict.{Dict, get-put}
use tdaudiibncba.Platform.Store.{
  User, ReviewStatus, ReplyCandidate, Approval, Store, Result, returned, raised, get_approval,
  get_candidate, get_account_in, in_scope, transaction,
}
use tdaudiibncba.Platform.Approvals.{create_send_job}
use tdaudiibncba.Platform.Verdicts.{
  Decision, decided, judged, read_back, record_decision, with_candidate, is_pending, with_approval,
  decide, decide_request,
}
use tdaudiibncba.Platform.Deciding.{Queues, Decided, Done, Untouched, create-Done, Accepted}

both_equal : (x y : Bool) → (not x || not y) ≡ false → (x ≡ true) × (y ≡ true)
both_equal true true h = (refl, refl)
both_equal true false h = cc
both_equal false y h = cc

pending_of : (s : ReviewStatus) → is_pending s ≡ true → s ≡ ReviewStatus.pending
pending_of ReviewStatus.pending h = refl
pending_of ReviewStatus.approved h = cc
pending_of ReviewStatus.rejected h = cc
pending_of ReviewStatus.expired h = cc
pending_of ReviewStatus.consumed h = cc
pending_of ReviewStatus.superseded h = cc

module _ (user : User) (pk : ℕ) (d : Decision) (id : String) (now : ℕ) (db : Store) where
  module _ (a : Approval) (found : get_approval db pk ≡ some a)
      (access : in_scope db user a.tenant_id a.project_id ≡ true) (was : is_pending a.status ≡ true)
      (timely : ltb a.expires_at now ≡ false) (c : ReplyCandidate)
      (bound : get_candidate db a.candidate_id ≡ some c)
      (version : (not (c.version == d.expect_version) || not (c.version == a.candidate_version))
        ≡ false)
      (hash : (not (c.content_hash == d.expect_hash) || not (c.content_hash == a.content_hash))
        ≡ false) where
    completed :
        (db' : Store)
        → db'.approvals ≡ Dict.put db.approvals pk (decided user d now a)
        → db'.candidates ≡ Dict.put db.candidates c.id (judged d c)
        → db'.memberships ≡ db.memberships
        → Queues d.approves a c id now
            (get_account_in db a.tenant_id a.project_id c.account_id)
            db.jobs
            db'.jobs
        → Accepted user pk d id now db db'
    completed db' rows cs ms q =
        let (v, v') =
          both_equal (c.version == d.expect_version) (c.version == a.candidate_version) version in
        let (g, g') =
          both_equal (c.content_hash == d.expect_hash) (c.content_hash == a.content_hash) hash in
        record {
          approval = a;
          found = found;
          access = access;
          was_pending = pending_of a.status was;
          in_time = timely;
          candidate = c;
          bound = bound;
          version =
              (eq_of_beq c.version d.expect_version v, eq_of_beq c.version a.candidate_version v');
          hash = (
            eq_of_beq c.content_hash d.expect_hash g,
            eq_of_beq c.content_hash a.content_hash g',
          );
          approvals = rows;
          candidates = cs;
          queued = q;
          memberships = ms;
        }

    -- The store after the two updates, before the job is made.
    updated : Store
    updated = record db {
      approvals = Dict.put db.approvals pk (decided user d now a);
      candidates = Dict.put db.candidates c.id (judged d c);
    }

    branch :
        (approves : Bool)
        → Done
            (λ db'.
              Queues approves a c id now
                (get_account_in db a.tenant_id a.project_id c.account_id)
                db.jobs
                db'.jobs
              × Untouched updated db')
            (if approves then create_send_job a c id now updated else (returned tt, updated))
    unfolding updated get_account_in
    branch true = create-Done a c id now updated
    branch false = (refl, (refl, refl, refl))

    finish :
        (r : Result (Unit {0}) × Store)
        → Done
            (λ db'.
              Queues d.approves a c id now
                (get_account_in db a.tenant_id a.project_id c.account_id)
                db.jobs
                db'.jobs
              × Untouched updated db')
            r
        → Decided user pk d id now db (transaction db (read_back r pk))
    unfolding updated
    finish (raised e, db') h = refl
    finish (returned u, db') h = completed db' h.1.0 h.1.1 h.1.2 h.0

    recorded :
        Decided user pk d id now db (transaction db (record_decision user pk d a c id now db))
    unfolding updated
    recorded =
        finish (if d.approves then create_send_job a c id now updated else (returned tt, updated))
          (branch d.approves)

  candidate-Decided :
      (o : Option ReplyCandidate) (a : Approval)
      → get_approval db pk ≡ some a
      → in_scope db user a.tenant_id a.project_id ≡ true
      → is_pending a.status ≡ true
      → ltb a.expires_at now ≡ false
      → get_candidate db a.candidate_id ≡ o
      → Decided user pk d id now db (transaction db (with_candidate o user pk d a id now db))
  candidate-Decided none a found access was timely bound = refl
  candidate-Decided (some c) a found access was timely bound =
      elim (Bool-cases
        (not (c.version == d.expect_version) || not (c.version == a.candidate_version))) [
          | inl p ↦ rw p refl
          | inr p ↦
              elim (Bool-cases
                (not (c.content_hash == d.expect_hash) || not (c.content_hash == a.content_hash))) [
                  | inl q ↦ rw (p, q) refl
                  | inr q ↦ rw (p, q) (recorded a found access was timely c bound p q)
                ]
        ]

  approval-Decided :
      (o : Option Approval)
      → get_approval db pk ≡ o
      → Decided user pk d id now db (transaction db (with_approval o user pk d id now db))
  approval-Decided none found = refl
  approval-Decided (some a) found = elim (Bool-cases (in_scope db user a.tenant_id a.project_id)) [
    | inr p ↦ rw p refl
    | inl p ↦ elim (Bool-cases (is_pending a.status)) [
      | inr q ↦ rw (p, q) refl
      | inl q ↦ elim (Bool-cases (ltb a.expires_at now)) [
        | inl late ↦ rw (p, q, late) refl
        | inr timely ↦
            rw (p, q, timely)
              (candidate-Decided (get_candidate db a.candidate_id) a found p q timely refl)
      ]
    ]
  ]

  -- Deciding on every branch: a request that is answered found its approval pending and in time, by
  -- a user in scope, bound to a candidate whose version and hash are those that the reviewer saw and
  -- those that the approval was made for; then both rows have the verdict, and an approval has one
  -- job under its key. A request that raises has changed nothing, so an approval whose time is over is
  -- never stored as expired.
  pub decide_request-Decided : Decided user pk d id now db (decide_request user pk d id now db)
  unfolding decide_request decide
  decide_request-Decided = approval-Decided (get_approval db pk) refl
