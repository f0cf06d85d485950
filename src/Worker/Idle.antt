-- ===== src/Worker/Idle.antt =====
-- A poll round that ends for want of work has left no due job (runtime/worker/runner.py, run_once;
-- runtime/storage/repos.py, claim_next).
use tdaudiibncba.Common.{
  some_inj, none≢some, ℕ, String, ◌≡◌, sym, ap, ◌∙◌, ◌⊎◌, inl, inr, true, ◌&&◌, some, List, [], ◌∷◌,
  ◌==◌, Memᴰ, string_eq, Bool-cases, beq_refl,
}
use tdaudiibncba.Common.Dict
use tdaudiibncba.Common.Dict.{get-put}
use tdaudiibncba.Delivery.Status.{JobStatus, status_eq}
use tdaudiibncba.Storage.Jobs.{DeliveryJob, Jobs}
use tdaudiibncba.Storage.Claiming.{
  JobTables, Claim, in_future, claim_from, candidates, claim_next, reclaim_stale_sending,
}
use tdaudiibncba.Storage.Claims.{claim_from-Claims}
use tdaudiibncba.Storage.Claimed.{IsFiled, Claims, Passes}
use tdaudiibncba.Storage.Reclaim.{reclaim-IsFiled}

-- The job waits for its next attempt or for a flood wait to be over.
abbrev pub IsWaiting : ℕ → DeliveryJob → Type 0
IsWaiting now job =
    (in_future job.next_attempt_at now ≡ true) ⊎ (in_future job.flood_wait_until now ≡ true)

-- A candidate whose row is unchanged and still ready is passed over only if it waits.
passed_waits :
    (now : ℕ) (db : JobTables) (job : DeliveryJob)
    → Passes now db job
    → Dict.get db.jobs job.id ≡ some job
    → job.status ≡ JobStatus.ready
    → IsWaiting now job
passed_waits now db job (inl waits) e ready = inl waits
passed_waits now db job (inr (inl flooded)) e ready = inr flooded
passed_waits now db job (inr (inr lost)) e ready = absurd (lost job e ready)

listed :
    (account_id : String) (jobs : Jobs) (id : String) (row : DeliveryJob)
    → Dict.get jobs id ≡ some row
    → row.account_id ≡ account_id
    → row.status ≡ JobStatus.ready
    → Memᴰ row (candidates account_id jobs)
unfolding candidates Dict.get
listed account_id [] id row h mine ready = absurd (none≢some h)
listed account_id ((i, job) ∷ jobs) id row h mine ready = elim (Bool-cases (i == id)) [
  | inl p ↦
      let same : job ≡ row = some_inj (rw p at h) in
      let own : (job.account_id == account_id) ≡ true =
        ap (λ (a : String). a == account_id) (ap (λ (j : DeliveryJob). j.account_id) same ∙ mine)
        ∙ beq_refl account_id in
      let due : (job.status == JobStatus.ready) ≡ true =
        ap (λ (s : JobStatus). s == JobStatus.ready)
          (ap (λ (j : DeliveryJob). j.status) same ∙ ready)
        ∙ beq_refl JobStatus.ready in
      rw (own, due) (Memᴰ.head (sym same))
  | inr p ↦
      let rest = listed account_id jobs id row (rw p at h) mine ready in
      elim (Bool-cases ((job.account_id == account_id) && (job.status == JobStatus.ready))) [
        | inl q ↦ rw q (Memᴰ.tail rest)
        | inr q ↦ rw q rest
      ]
]

-- Claiming nothing means that every ready job of the account waits.
pub empty_claim :
    (account_id : String) (generation now : ℕ) (db : JobTables) (id : String) (row : DeliveryJob)
    → IsFiled db.jobs
    → (claim_next account_id generation now db).0 ≡ Claim.nothing
    → Dict.get (claim_next account_id generation now db).1.jobs id ≡ some row
    → row.account_id ≡ account_id
    → row.status ≡ JobStatus.ready
    → IsWaiting now row
unfolding claim_next
empty_claim account_id generation now db id row f h e mine ready =
    let db' = reclaim_stale_sending account_id now db in
    let cs = candidates account_id db'.jobs in
    let (same, passed) =
      unclaimed cs generation now db' (claim_from cs generation now db') h
        (claim_from-Claims cs generation now db') in
    let found : Dict.get db'.jobs id ≡ some row =
      ap (λ (d : JobTables). Dict.get d.jobs id) (sym same) ∙ e in
    let own = (reclaim-IsFiled account_id now db f).own id row found in
    passed_waits now db' row (passed row (listed account_id db'.jobs id row found mine ready))
      (ap (Dict.get db'.jobs) own ∙ found) ready
  where
    unclaimed :
        (cs : List DeliveryJob) (generation now : ℕ) (db' : JobTables) (r : Claim × JobTables)
        → r.0 ≡ Claim.nothing
        → Claims cs generation now db' r
        → (r.1 ≡ db') × ((c : DeliveryJob) → Memᴰ c cs → Passes now db' c)
    unclaimed cs generation now db' (Claim.nothing, d) h c = c
    unclaimed cs generation now db' (Claim.raised, d) h c = cc
    unclaimed cs generation now db' (Claim.won job, d) h c = cc
