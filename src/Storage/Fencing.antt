-- ===== src/Storage/Fencing.antt =====
-- What the leases promise (runtime/storage/repos.py, LeaseRepository).
use tdaudiibncba.Common.{
  ℕ, ◌+◌, ◌<◌, String, ◌≡◌, ◌≢◌, refl, subst, ◌∙◌, ◌⊎◌, inl, inr, Bool, true, false, Option, none,
  some, ◌==◌, leb, ltb, string_eq, nat_eq, arith, Bool-cases, Option-cases, beq_refl, eq_of_beq,
  and_parts,
}
use tdaudiibncba.Common.Dict
use tdaudiibncba.Common.Dict.{Dict, get-put}
use tdaudiibncba.Storage.Leases.{
  AccountLease, Leases, update_where, extended, reassigned, first_lease, if_hit, insert_first,
  held_by, expired_at, held_as, acquire_given, renew,
}

-- A lease moves forward: it keeps its worker and its generation, or its generation grows.
abbrev pub Forward : AccountLease → AccountLease → Type 0
Forward old new =
    ((new.worker_id ≡ old.worker_id) × (new.generation ≡ old.generation))
    ⊎ (old.generation < new.generation)

-- The row of an account moves forward: it is not lost.
abbrev pub RowForward : Option AccountLease → Option AccountLease → Type 0
RowForward none new = Unit
RowForward (some old) none = ⊥
RowForward (some old) (some new) = Forward old new

RowForward-refl : (o : Option AccountLease) → RowForward o o
RowForward-refl none = tt
RowForward-refl (some row) = inl (refl, refl)

pub get-own :
    (table : Leases) (a : String) (v : AccountLease) → Dict.get (Dict.put table a v) a ≡ some v
get-own table a v = rw (get-put table a a v, beq_refl a)

pub get-other :
    (table : Leases) (a b : String) (v : AccountLease)
    → (a == b) ≡ false
    → Dict.get (Dict.put table a v) b ≡ Dict.get table b
get-other table a b v n = rw (get-put table a b v, n)

-- A put that moves one row forward moves every row forward.
put-RowForward :
    (table : Leases) (a b : String) (v : AccountLease)
    → RowForward (Dict.get table a) (some v)
    → RowForward (Dict.get table b) (Dict.get (Dict.put table a v) b)
put-RowForward table a b v h = elim (Bool-cases (a == b)) [
  | inl same ↦
      subst (λ (x : String). RowForward (Dict.get table x) (Dict.get (Dict.put table a v) x))
        (eq_of_beq a b same) (rw (get-own table a v) h)
  | inr other ↦ rw (get-other table a b v other) (RowForward-refl (Dict.get table b))
]

module _ (test : AccountLease → Bool) (change : AccountLease → AccountLease) (a b : String)
    (table : Leases) where
  update_where-RowForward :
      ((row : AccountLease) → test row ≡ true → Forward row (change row))
      → RowForward (Dict.get table b) (Dict.get (update_where test change a table).1 b)
  unfolding update_where
  update_where-RowForward step = elim (Option-cases (Dict.get table a)) [
    | inl e ↦ rw e (RowForward-refl (Dict.get table b))
    | inr (row, e) ↦ elim (Bool-cases (test row)) [
      | inl hit ↦ rw (e, hit) (put-RowForward table a b (change row) (rw e (step row hit)))
      | inr miss ↦ rw (e, miss) (RowForward-refl (Dict.get table b))
    ]
  ]

if_hit-table : (g : ℕ) (r : Bool × Leases) → (if_hit g r).1 ≡ r.1
if_hit-table g (true, table) = refl
if_hit-table g (false, table) = refl

expired_generation :
    (g now : ℕ) (row : AccountLease) → expired_at g now row ≡ true → row.generation ≡ g
expired_generation g now row h =
    eq_of_beq row.generation g (and_parts (row.generation == g) (leb row.lease_until now) h).0

insert_first-RowForward :
    (a b w : String) (until : ℕ) (table : Leases)
    → RowForward (Dict.get table b) (Dict.get (insert_first (Dict.get table a) a w until table).1 b)
insert_first-RowForward a b w until table = elim (Option-cases (Dict.get table a)) [
  | inl e ↦ rw e (put-RowForward table a b (first_lease a w until) (rw e tt))
  | inr (row, e) ↦ rw e (RowForward-refl (Dict.get table b))
]

-- Whatever an acquiring worker has read, and however old that is by now, its write moves every lease
-- forward: no row is lost, no generation falls, and a lease changes hands only with a larger one.
pub acquire_given-RowForward :
    (read : Option AccountLease) (a b w : String) (ttl now : ℕ) (table : Leases)
    → RowForward (Dict.get table b) (Dict.get (acquire_given read a w ttl now table).1 b)
unfolding acquire_given
acquire_given-RowForward none a b w ttl now table = insert_first-RowForward a b w (now + ttl) table
acquire_given-RowForward (some row) a b w ttl now table = elim (Bool-cases (row.worker_id == w)) [
  | inl own ↦
      rw (own, if_hit-table)
        (update_where-RowForward (held_by w) (extended (now + ttl)) a b table
          (λ r h. inl (refl, refl)))
  | inr foreign ↦ elim (Bool-cases (ltb now row.lease_until)) [
    | inl live ↦ rw (foreign, live) (RowForward-refl (Dict.get table b))
    | inr dead ↦
        rw (foreign, dead, if_hit-table)
          (update_where-RowForward (expired_at row.generation now)
            (reassigned w (row.generation + 1) (now + ttl)) a b table
            (λ r h. inr (omega (arith, expired_generation row.generation now r h))))
  ]
]

pub renew-RowForward :
    (a b w : String) (g ttl now : ℕ) (table : Leases)
    → RowForward (Dict.get table b) (Dict.get (renew a w g ttl now table).1 b)
unfolding renew
renew-RowForward a b w g ttl now table =
    update_where-RowForward (held_as w g) (extended (now + ttl)) a b table (λ r h. inl (refl, refl))

-- One operation of any worker on any account. An acquisition may act on a row that it read earlier.
pub data LeaseStep (before : Leases) : Leases → Type 0 where
  acquires :
      (read : Option AccountLease) (a w : String) (ttl now : ℕ)
      → LeaseStep before (acquire_given read a w ttl now before).1
  renews : (a w : String) (g ttl now : ℕ) → LeaseStep before (renew a w g ttl now before).1

pub data LeaseRun (before : Leases) : Leases → Type 0 where
  stays : LeaseRun before before
  steps :
      {middle after : Leases}
      → LeaseRun before middle
      → LeaseStep middle after
      → LeaseRun before after

Forward-trans : (x y z : AccountLease) → Forward x y → Forward y z → Forward x z
Forward-trans x y z (inl p) (inl q) = inl (q.0 ∙ p.0, q.1 ∙ p.1)
Forward-trans x y z (inl p) (inr q) = inr (omega (arith, p.1))
Forward-trans x y z (inr p) (inl q) = inr (omega (arith, q.1))
Forward-trans x y z (inr p) (inr q) = inr (omega arith)

RowForward-trans : (x y z : Option AccountLease) → RowForward x y → RowForward y z → RowForward x z
RowForward-trans none y z p q = tt
RowForward-trans (some x) none z p q = absurd p
RowForward-trans (some x) (some y) none p q = q
RowForward-trans (some x) (some y) (some z) p q = Forward-trans x y z p q

step-RowForward :
    {before after : Leases} (b : String)
    → LeaseStep before after
    → RowForward (Dict.get before b) (Dict.get after b)
step-RowForward {before} b (acquires read a w ttl now) =
    acquire_given-RowForward read a b w ttl now before
step-RowForward {before} b (renews a w g ttl now) = renew-RowForward a b w g ttl now before

-- Along every run of operations, by any number of workers and with stale reads, every lease moves
-- forward: its generation never falls, and while the generation stays the holder does.
pub run-RowForward :
    {before after : Leases} (b : String)
    → LeaseRun before after
    → RowForward (Dict.get before b) (Dict.get after b)
run-RowForward {before} b stays = RowForward-refl (Dict.get before b)
run-RowForward {before} {after} b (steps {middle} run step) =
    RowForward-trans (Dict.get before b) (Dict.get middle b) (Dict.get after b)
      (run-RowForward b run) (step-RowForward b step)

between :
    {before after : Leases} (a : String) (old new : AccountLease)
    → LeaseRun before after
    → Dict.get before a ≡ some old
    → Dict.get after a ≡ some new
    → Forward old new
between a old new run e e' = rw (e, e') at (run-RowForward a run)

stale_misses :
    (w : String) (g : ℕ) (row : AccountLease) → g < row.generation → held_as w g row ≡ false
stale_misses w g row h = ground arith

pub update_misses :
    (test : AccountLease → Bool) (change : AccountLease → AccountLease) (a : String)
    (table : Leases)
    → ((row : AccountLease) → Dict.get table a ≡ some row → test row ≡ false)
    → update_where test change a table ≡ (false, table)
unfolding update_where
update_misses test change a table h = elim (Option-cases (Dict.get table a)) [
  | inl e ↦ rw e
  | inr (row, e) ↦ rw (e, h row e)
]

-- Once a lease has passed to another worker, the old holder's renewals fail for ever after and
-- change nothing, whatever is done to the table in between and by whom.
pub renew_after_takeover :
    {first mid later : Leases} (a : String) (old new : AccountLease) (ttl now : ℕ)
    → Dict.get first a ≡ some old
    → LeaseRun first mid
    → Dict.get mid a ≡ some new
    → new.worker_id ≢ old.worker_id
    → LeaseRun mid later
    → renew a old.worker_id old.generation ttl now later ≡ (false, later)
unfolding renew
renew_after_takeover {first} {mid} {later} a old new ttl now e run e' lost run' =
    update_misses (held_as old.worker_id old.generation) (extended (now + ttl)) a later
      (λ row found. elim (between a old new run e e') [
        | inl same ↦ absurd (lost same.0)
        | inr grown ↦ elim (between a new row run' e' found) [
          | inl p ↦ stale_misses old.worker_id old.generation row (omega (arith, p.1))
          | inr p ↦ stale_misses old.worker_id old.generation row (omega arith)
        ]
      ])
