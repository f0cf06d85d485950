-- ===== src/Storage/Pending.antt =====
-- The jobs that a runner may still have to send, counted along the operations of
-- runtime/storage/repos.py, DeliveryJobRepository.
use tdaudiibncba.Common.{
  some_inj, none≢some, ℕ, ◌+◌, String, ◌≡◌, refl, sym, ap, ◌∙◌, inl, inr, true, ◌&&◌, some, [], ◌∷◌,
  List, ◌==◌, arith, if◌then◌else◌, string_eq, Bool-cases, beq_refl, eq_of_beq, and_parts,
}
use tdaudiibncba.Common.Dict
use tdaudiibncba.Delivery.Status.{JobStatus, status_eq}
use tdaudiibncba.Planner.Model.{DeliveryPlan}
use tdaudiibncba.Storage.Jobs.{
  DeliveryJob, Jobs, guarded, job_from_plan, key_taken, create_from_plan, insert_plans,
}
use tdaudiibncba.Storage.Claiming.{JobTables, is_stale, reclaim_jobs}
use tdaudiibncba.Storage.Claims.{put-IsFiled}
use tdaudiibncba.Storage.Claimed.{IsFiled, ClaimedFrom}

-- One for a job that is ready or that a reclaim may make ready.
abbrev pub load : JobStatus → ℕ
load JobStatus.ready = 1
load JobStatus.sending = 1
load _ = 0

unfoldable pub pending : Jobs → ℕ
pending [] = 0
pending ((id, job) ∷ jobs) = load job.status + pending jobs

pub pending-put :
    (jobs : Jobs) (id : String) (old new : DeliveryJob)
    → Dict.get jobs id ≡ some old
    → pending (Dict.put jobs id new) + load old.status ≡ pending jobs + load new.status
unfolding pending Dict.get Dict.put
pending-put [] id old new h = absurd (none≢some h)
pending-put ((i, job) ∷ jobs) id old new h = elim (Bool-cases (i == id)) [
  | inl p ↦
      let same : load job.status ≡ load old.status =
        ap (λ (j : DeliveryJob). load j.status) (some_inj (rw p at h)) in
      rw p (omega (arith, same))
  | inr p ↦ let rest = pending-put jobs id old new (rw p at h) in rw p (omega (arith, rest))
]

-- A guarded UPDATE that hits its row.
pub pending-guarded :
    (id : String) (src : JobStatus) (change : DeliveryJob → DeliveryJob) (jobs : Jobs)
    (row : DeliveryJob)
    → Dict.get jobs id ≡ some row
    → row.status ≡ src
    → ((guarded id src change jobs).0 ≡ true)
      × (pending (guarded id src change jobs).1 + load src
          ≡ pending jobs + load (change row).status)
unfolding guarded
pending-guarded id src change jobs row e was =
    let hit : (row.status == src) ≡ true = ap (λ (s : JobStatus). s == src) was ∙ beq_refl src in
    rw (e, hit)
      (
        refl,
        ap (λ (s : JobStatus). pending (Dict.put jobs id (change row)) + load s) (sym was)
            ∙ pending-put jobs id row (change row) e,
      )

pub guarded-IsFiled :
    (id : String) (src : JobStatus) (change : DeliveryJob → DeliveryJob) (jobs : Jobs)
    (row : DeliveryJob)
    → Dict.get jobs id ≡ some row
    → row.status ≡ src
    → (change row).id ≡ row.id
    → IsFiled jobs
    → IsFiled (guarded id src change jobs).1
unfolding guarded
guarded-IsFiled id src change jobs row e was keeps f =
    let hit : (row.status == src) ≡ true = ap (λ (s : JobStatus). s == src) was ∙ beq_refl src in
    rw (e, hit) (put-IsFiled jobs id (change row) (keeps ∙ f.own id row e) f)

reclaimed_load :
    (account_id : String) (now : ℕ) (job : DeliveryJob)
    → load
        (if is_stale account_id now job
          then record job { status = JobStatus.ready; updated_at = now }
          else job).status
      ≡ load job.status
reclaimed_load account_id now job = elim (Bool-cases (is_stale account_id now job)) [
  | inl p ↦
      let (mine, old) =
        and_parts ((job.account_id == account_id) && (job.status == JobStatus.sending)) _ p in
      let (own, sending) = and_parts (job.account_id == account_id) _ mine in
      rw p (sym (ap load (eq_of_beq job.status JobStatus.sending sending)))
  | inr p ↦ rw p
]

pub pending-reclaim_jobs :
    (account_id : String) (now : ℕ) (jobs : Jobs)
    → pending (reclaim_jobs account_id now jobs) ≡ pending jobs
unfolding pending reclaim_jobs
pending-reclaim_jobs account_id now [] = refl
pending-reclaim_jobs account_id now ((id, job) ∷ jobs) =
    omega (arith, reclaimed_load account_id now job, pending-reclaim_jobs account_id now jobs)

pub pending-claimed :
    (cs : List DeliveryJob) (generation now : ℕ) (db : JobTables) (job : DeliveryJob)
    (db' : JobTables)
    → ClaimedFrom cs generation now db job db'
    → pending db'.jobs + 1 ≡ pending db.jobs
pending-claimed cs generation now db job db' c =
    let put = pending-put db.jobs c.candidate.id c.row job c.found in
    let stored : pending db'.jobs ≡ pending (Dict.put db.jobs c.candidate.id job) =
      ap pending c.stored in
    let ready : load c.row.status ≡ 1 = ap load c.was_ready in
    let leased : load job.status ≡ 0 = ap (λ (j : DeliveryJob). load j.status) c.is_leased in
    omega (arith, put, stored, ready, leased)

pub insert_plans-IsFiled :
    (plans : List DeliveryPlan) (tenant project : String) (ids : ℕ → String) (now : ℕ) (jobs : Jobs)
    → IsFiled jobs
    → IsFiled (insert_plans plans tenant project ids now jobs)
unfolding insert_plans create_from_plan job_from_plan
insert_plans-IsFiled [] tenant project ids now jobs f = f
insert_plans-IsFiled (plan ∷ plans) tenant project ids now jobs f =
    let job = job_from_plan plan tenant project (ids 0) now in
    let kept : IsFiled (create_from_plan plan tenant project (ids 0) now jobs).1 =
      elim (Bool-cases (key_taken jobs job.idempotency_key)) [
        | inl p ↦ rw p f
        | inr p ↦ rw p (put-IsFiled jobs (ids 0) job refl f)
      ] in
    insert_plans-IsFiled plans tenant project (λ n. ids (n + 1)) now
      (create_from_plan plan tenant project (ids 0) now jobs).1 kept
