-- ===== src/Storage/Acquisition.antt =====
-- What `acquire` does on every branch (runtime/storage/repos.py, LeaseRepository).
use tdaudiibncba.Common.{
  ℕ, ◌+◌, ◌<◌, String, ◌≡◌, ◌≢◌, refl, inl, inr, true, Option, none, some, ◌==◌, ltb, string_eq,
  nat_eq, arith, Bool-cases, Option-cases, beq_refl, eq_of_beq, ne_of_beq,
}
use tdaudiibncba.Common.Dict
use tdaudiibncba.Common.Dict.{Dict, get-put}
use tdaudiibncba.Storage.Leases.{
  AccountLease, Leases, update_where, extended, reassigned, first_lease, expired_at, acquire_given,
  acquire,
}
use tdaudiibncba.Storage.Fencing.{get-own}

-- What an acquisition that read the row as it is has done, by its result.
abbrev pub Acquired : String → String → ℕ → ℕ → Leases → Option ℕ × Leases → Type 0
Acquired a w ttl now table (some g, table') =
    (row : AccountLease) × (Dict.get table' a ≡ some row)
    × (row.worker_id ≡ w)
    × (row.generation ≡ g)
    × (row.lease_until ≡ now + ttl)
Acquired a w ttl now table (none, table') =
    (table' ≡ table)
    × ((row : AccountLease) × (Dict.get table a ≡ some row)
        × (row.worker_id ≢ w)
        × (now < row.lease_until))

-- `acquire` on every branch: a generation is returned exactly with a lease that the worker now holds
-- under that generation for the whole time to live, and `None` only where another worker's lease is
-- live, with nothing changed.
pub acquire-Acquired :
    (a w : String) (ttl now : ℕ) (table : Leases)
    → Acquired a w ttl now table (acquire a w ttl now table)
unfolding acquire acquire_given update_where
acquire-Acquired a w ttl now table = elim (Option-cases (Dict.get table a)) [
  | inl e ↦
      rw (e, e)
        (
          first_lease a w (now + ttl),
          get-own table a (first_lease a w (now + ttl)),
          refl,
          refl,
          refl,
        )
  | inr (row, e) ↦ elim (Bool-cases (row.worker_id == w)) [
    | inl own ↦
        rw (e, own, e, own)
          (
            extended (now + ttl) row,
            get-own table a (extended (now + ttl) row),
            eq_of_beq row.worker_id w own,
            refl,
            refl,
          )
    | inr foreign ↦ elim (Bool-cases (ltb now row.lease_until)) [
      | inl live ↦
          rw (e, foreign, live) (refl, (row, e, ne_of_beq row.worker_id w foreign, ground arith))
      | inr dead ↦
          let hit : expired_at row.generation now row ≡ true =
            rw (beq_refl row.generation) (ground arith) in
          rw (e, foreign, dead, e, hit)
            (
              reassigned w (row.generation + 1) (now + ttl) row,
              get-own table a (reassigned w (row.generation + 1) (now + ttl) row),
              refl,
              refl,
              refl,
            )
    ]
  ]
]
