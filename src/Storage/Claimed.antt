-- ===== src/Storage/Claimed.antt =====
-- How a claim may end, by the candidates that it went over (runtime/storage/repos.py,
-- DeliveryJobRepository.claim_next).
use tdaudiibncba.Common.{
  ℕ, ◌+◌, String, ◌≡◌, ◌≢◌, sym, subst, true, false, some, List, [], ◌∷◌, ◌++◌, Memᴰ, string_eq,
  nat_eq, beq_refl, ◌⊎◌,
}
use tdaudiibncba.Common.Dict
use tdaudiibncba.Common.Dict.{Dict, get-put, get-put_cases}
use tdaudiibncba.Delivery.Status.{JobStatus, status_eq}
use tdaudiibncba.Storage.Jobs.{DeliveryJob, Jobs}
use tdaudiibncba.Storage.Claiming.{JobTables, Claim, in_future, leased_at, attempt_of, number_taken}

pub get-own :
    (jobs : Jobs) (id : String) (job : DeliveryJob) → Dict.get (Dict.put jobs id job) id ≡ some job
get-own jobs id job = rw (get-put jobs id id job, beq_refl id)

-- Each job is filed under its own id.
pub record IsFiled (jobs : Jobs) : Type 0 where
  pub own : (id : String) (job : DeliveryJob) → Dict.get jobs id ≡ some job → job.id ≡ id

-- How a job has been claimed out of some candidates: one of them was due, its row was still ready,
-- and that row is leased now, with its attempt recorded.
pub record ClaimedFrom (cs : List DeliveryJob) (generation now : ℕ) (db : JobTables)
    (job : DeliveryJob) (db' : JobTables) : Type 0 where
  pub candidate : DeliveryJob
  pub listed : Memᴰ candidate cs
  pub due : in_future candidate.next_attempt_at now ≡ false
  pub unflooded : in_future candidate.flood_wait_until now ≡ false
  pub row : DeliveryJob
  pub found : Dict.get db.jobs candidate.id ≡ some row
  pub was_ready : row.status ≡ JobStatus.ready
  pub is_leased : job ≡ leased_at (candidate.attempt_count + 1) now row
  pub stored : db'.jobs ≡ Dict.put db.jobs candidate.id job
  pub is_new : number_taken candidate.id (candidate.attempt_count + 1) db.attempts ≡ false
  pub recorded :
      db'.attempts
      ≡ db.attempts ++ attempt_of candidate.id (candidate.attempt_count + 1) generation now ∷ []

-- How a claim has failed: at a candidate that was due and whose row was still ready, with an attempt
-- that has its number.
pub record Collides (cs : List DeliveryJob) (now : ℕ) (db : JobTables) : Type 0 where
  pub candidate : DeliveryJob
  pub listed : Memᴰ candidate cs
  pub due : in_future candidate.next_attempt_at now ≡ false
  pub unflooded : in_future candidate.flood_wait_until now ≡ false
  pub row : DeliveryJob
  pub found : Dict.get db.jobs candidate.id ≡ some row
  pub was_ready : row.status ≡ JobStatus.ready
  pub is_taken : number_taken candidate.id (candidate.attempt_count + 1) db.attempts ≡ true

-- Why a candidate is passed over: it waits, for its next attempt or for the end of a flood wait, or its
-- row is no longer ready.
abbrev pub Passes : ℕ → JobTables → DeliveryJob → Type 0
Passes now db c =
    (in_future c.next_attempt_at now ≡ true)
    ⊎ (in_future c.flood_wait_until now ≡ true)
    ⊎ ((row : DeliveryJob) → Dict.get db.jobs c.id ≡ some row → row.status ≢ JobStatus.ready)

abbrev pub Claims : List DeliveryJob → ℕ → ℕ → JobTables → Claim × JobTables → Type 0
Claims cs generation now db (Claim.nothing, db') =
    (db' ≡ db) × ((c : DeliveryJob) → Memᴰ c cs → Passes now db c)
Claims cs generation now db (Claim.raised, db') = (db' ≡ db) × Collides cs now db
Claims cs generation now db (Claim.won job, db') = ClaimedFrom cs generation now db job db'

passed_all :
    (now : ℕ) (db : JobTables) (c : DeliveryJob) (cs : List DeliveryJob)
    → Passes now db c
    → ((x : DeliveryJob) → Memᴰ x cs → Passes now db x)
    → (x : DeliveryJob) → Memᴰ x (c ∷ cs)
    → Passes now db x
passed_all now db c cs p rest x (Memᴰ.head e) = subst (Passes now db) (sym e) p
passed_all now db c cs p rest x (Memᴰ.tail m) = rest x m

pub later_candidate :
    (c : DeliveryJob) (cs : List DeliveryJob) (generation now : ℕ) (db : JobTables)
    (r : Claim × JobTables)
    → Passes now db c
    → Claims cs generation now db r
    → Claims (c ∷ cs) generation now db r
later_candidate c cs generation now db (Claim.nothing, db') p (same, all) =
    (same, passed_all now db c cs p all)
later_candidate c cs generation now db (Claim.raised, db') p (same, h) = (
  same,
  record {
    candidate = h.candidate;
    listed = Memᴰ.tail h.listed;
    due = h.due;
    unflooded = h.unflooded;
    row = h.row;
    found = h.found;
    was_ready = h.was_ready;
    is_taken = h.is_taken;
  },
)
later_candidate c cs generation now db (Claim.won job, db') p h = record {
  candidate = h.candidate;
  listed = Memᴰ.tail h.listed;
  due = h.due;
  unflooded = h.unflooded;
  row = h.row;
  found = h.found;
  was_ready = h.was_ready;
  is_leased = h.is_leased;
  stored = h.stored;
  is_new = h.is_new;
  recorded = h.recorded;
}
