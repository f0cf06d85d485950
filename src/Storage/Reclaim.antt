-- ===== src/Storage/Reclaim.antt =====
-- Putting stale jobs back keeps the jobs filed (runtime/storage/repos.py, _reclaim_stale_sending).
use tdaudiibncba.Common.{
  some_inj, none≢some, ℕ, String, ◌≡◌, refl, ◌∙◌, inl, inr, subst, true, false, some, [], ◌∷◌, ◌==◌,
  if◌then◌else◌, string_eq, Bool-cases,
}
use tdaudiibncba.Common.Dict
use tdaudiibncba.Delivery.Status.{JobStatus, status_eq}
use tdaudiibncba.Storage.Jobs.{DeliveryJob, Jobs}
use tdaudiibncba.Storage.Claiming.{JobTables, is_stale, reclaim_jobs, reclaim_stale_sending}
use tdaudiibncba.Storage.Claimed.{IsFiled}

-- A row after the reclaim, by the row before: unchanged, or put back from a stale `sending`.
pub data Reclaimed (account_id : String) (now : ℕ) (old : DeliveryJob) : DeliveryJob → Type 0 where
  kept : is_stale account_id now old ≡ false → Reclaimed account_id now old old
  put_back :
      is_stale account_id now old ≡ true
      → Reclaimed account_id now old (record old { status = JobStatus.ready; updated_at = now })

reclaim_row :
    (account_id : String) (now : ℕ) (old : DeliveryJob)
    → Reclaimed account_id now old (
        if is_stale account_id now old
        then record old { status = JobStatus.ready; updated_at = now }
        else old)
reclaim_row account_id now old = elim (Bool-cases (is_stale account_id now old)) [
  | inl p ↦ rw p (put_back p)
  | inr p ↦ rw p (kept p)
]

-- Reclaiming makes and loses no job: each row afterwards is the row that had its id, and differs from
-- it only if that was stale in `sending` for the same account.
pub reclaim_jobs-Reclaimed :
    (account_id : String) (now : ℕ) (jobs : Jobs) (id : String) (new : DeliveryJob)
    → Dict.get (reclaim_jobs account_id now jobs) id ≡ some new
    → (old : DeliveryJob) × (Dict.get jobs id ≡ some old) × Reclaimed account_id now old new
unfolding reclaim_jobs Dict.get
reclaim_jobs-Reclaimed account_id now [] id new h = absurd (none≢some h)
reclaim_jobs-Reclaimed account_id now ((i, job) ∷ jobs) id new h = elim (Bool-cases (i == id)) [
  | inl p ↦ (
    job,
    rw p,
    subst (Reclaimed account_id now job) (some_inj (rw p at h)) (reclaim_row account_id now job),
  )
  | inr p ↦
      let (old, e, r) = reclaim_jobs-Reclaimed account_id now jobs id new (rw p at h) in
      (old, rw p e, r)
]

same_id :
    (account_id : String) (now : ℕ) (old new : DeliveryJob)
    → Reclaimed account_id now old new
    → new.id ≡ old.id
same_id account_id now old new (kept p) = refl
same_id account_id now old new (put_back p) = refl

pub reclaim-IsFiled :
    (account_id : String) (now : ℕ) (db : JobTables)
    → IsFiled db.jobs
    → IsFiled (reclaim_stale_sending account_id now db).jobs
unfolding reclaim_stale_sending
reclaim-IsFiled account_id now db f = record {
  own = λ id job h.
      let (old, e, r) = reclaim_jobs-Reclaimed account_id now db.jobs id job h in
      same_id account_id now old job r ∙ f.own id old e;
}
