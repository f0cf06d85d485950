-- ===== src/Storage/Race.antt =====
-- Two workers that go for the same lease (runtime/storage/repos.py, LeaseRepository.acquire).
use tdaudiibncba.Common.{
  some_inj, none≢some, ℕ, ◌+◌, ◌<◌, String, ◌≡◌, ◌≢◌, refl, sym, ap, ◌∙◌, inl, inr, true, false,
  Option, none, some, ◌==◌, ltb, string_eq, nat_eq, arith, Bool-cases, Option-cases, eq_of_beq,
}
use tdaudiibncba.Common.Dict
use tdaudiibncba.Storage.Leases.{
  AccountLease, Leases, update_where, reassigned, expired_at, acquire_given, acquire,
}
use tdaudiibncba.Storage.Fencing.{get-own, update_misses}
use tdaudiibncba.Storage.Acquisition.{Acquired, acquire-Acquired}

beq_false : (a b : String) → a ≢ b → (a == b) ≡ false
beq_false a b n = elim (Bool-cases (a == b)) [ inl p ↦ absurd (n (eq_of_beq a b p)) | inr p ↦ p ]

-- A worker that wins by compare-and-swap has moved the generation on from the one that it read.
won_generation :
    (read : AccountLease) (a w : String) (ttl now g : ℕ) (table : Leases)
    → read.worker_id ≢ w
    → (acquire_given (some read) a w ttl now table).0 ≡ some g
    → (row : AccountLease) × (Dict.get (acquire_given (some read) a w ttl now table).1 a ≡ some row)
      × (row.generation ≡ read.generation + 1)
unfolding acquire_given update_where
won_generation read a w ttl now g table n h =
    let foreign = beq_false read.worker_id w n in
    let next = reassigned w (read.generation + 1) (now + ttl) in
    elim (Bool-cases (ltb now read.lease_until)) [
      | inl live ↦ absurd (none≢some (rw (foreign, live) at h))
      | inr dead ↦ elim (Option-cases (Dict.get table a)) [
        | inl e ↦ absurd (none≢some (rw (foreign, dead, e) at h))
        | inr (row, e) ↦ elim (Bool-cases (expired_at read.generation now row)) [
          | inl hit ↦ rw (foreign, dead, e, hit) (next row, get-own table a (next row), refl)
          | inr miss ↦ absurd (none≢some (rw (foreign, dead, e, miss) at h))
        ]
      ]
    ]

not_expired_at :
    (g now : ℕ) (row : AccountLease) → row.generation ≡ g + 1 → expired_at g now row ≡ false
not_expired_at g now row h = ground arith

-- A worker whose read is a generation behind gets nothing.
loses :
    (read : AccountLease) (a w : String) (ttl now : ℕ) (table : Leases) (row : AccountLease)
    → read.worker_id ≢ w
    → Dict.get table a ≡ some row
    → row.generation ≡ read.generation + 1
    → acquire_given (some read) a w ttl now table ≡ (none, table)
unfolding acquire_given
loses read a w ttl now table row n found grown =
    let foreign = beq_false read.worker_id w n in
    let next = reassigned w (read.generation + 1) (now + ttl) in
    let missed = update_misses (expired_at read.generation now) next a table (λ r e.
      not_expired_at read.generation now r
        (ap (λ (x : AccountLease). x.generation) (some_inj (sym e ∙ found)) ∙ grown)) in
    elim (Bool-cases (ltb now read.lease_until)) [
      | inl live ↦ rw (foreign, live)
      | inr dead ↦ rw (foreign, dead, missed)
    ]

-- Of two workers that read the same lease of a third one, only the first to write gets it: the other
-- gets nothing, whatever the clocks say, and changes nothing.
pub acquire_race :
    (read : AccountLease) (a v w : String) (ttl now now' g : ℕ) (table : Leases)
    → read.worker_id ≢ v
    → read.worker_id ≢ w
    → (acquire_given (some read) a v ttl now table).0 ≡ some g
    → let table' = (acquire_given (some read) a v ttl now table).1 in
      acquire_given (some read) a w ttl now' table' ≡ (none, table')
acquire_race read a v w ttl now now' g table n m h =
    let (row, found, grown) = won_generation read a v ttl now g table n h in
    loses read a w ttl now' (acquire_given (some read) a v ttl now table).1 row m found grown

live_is_kept :
    (a w : String) (ttl now : ℕ) (table : Leases) (row : AccountLease)
    → Dict.get table a ≡ some row
    → row.worker_id ≢ w
    → now < row.lease_until
    → acquire a w ttl now table ≡ (none, table)
unfolding acquire acquire_given
live_is_kept a w ttl now table row e n live =
    let before : ltb now row.lease_until ≡ true = ground arith in
    rw (e, beq_false row.worker_id w n, before)

held_row :
    (a w : String) (ttl now g : ℕ) (table : Leases) (r : Option ℕ × Leases)
    → Acquired a w ttl now table r
    → r.0 ≡ some g
    → (row : AccountLease) × (Dict.get r.1 a ≡ some row)
      × (row.worker_id ≡ w)
      × (row.lease_until ≡ now + ttl)
held_row a w ttl now g table (some k, t) (row, found, owner, gen, until) e =
    (row, found, owner, until)
held_row a w ttl now g table (none, t) acquired e = absurd (none≢some e)

-- Mutual exclusion: right after a worker has acquired an account, until its time to live is over,
-- no other worker acquires it, and the attempt changes nothing.
pub acquire_excludes :
    (a v w : String) (ttl now now' g : ℕ) (table : Leases)
    → v ≢ w
    → (acquire a v ttl now table).0 ≡ some g
    → now' < now + ttl
    → let table' = (acquire a v ttl now table).1 in acquire a w ttl now' table' ≡ (none, table')
acquire_excludes a v w ttl now now' g table n won inside =
    let table' = (acquire a v ttl now table).1 in
    let (row, found, owner, until) =
      held_row a v ttl now g table (acquire a v ttl now table) (acquire-Acquired a v ttl now table)
        won in
    live_is_kept a w ttl now' table' row found (λ p. n (sym owner ∙ p))
      (omega (arith, until, inside))
