-- ===== src/Storage/Leases.antt =====
-- runtime/storage/repos.py, LeaseRepository: which worker owns an account. The table is a dict by
-- account. Each operation is split at the point where another worker can run in between: what the
-- SELECT read is an argument of the rest, which runs on the table of that later moment. Times are
-- microseconds.
use tdaudiibncba.Common.{
  ℕ, ◌+◌, String, Bool, true, false, ◌&&◌, Option, none, some, ◌==◌, leb, ltb, if◌then◌else◌,
  string_eq, nat_eq,
}
use tdaudiibncba.Common.Dict
use tdaudiibncba.Common.Dict.{Dict}

pub record AccountLease : Type 0 where
  pub account_id : String
  pub worker_id : String
  pub generation : ℕ
  pub lease_until : ℕ

abbrev pub Leases : Type 0
Leases = Dict String AccountLease

-- UPDATE account_lease SET change WHERE account_id = ... AND test, on the row that is there, with
-- whether it hit one.
abbrev pub update_row :
    Option AccountLease
    → (AccountLease → Bool)
    → (AccountLease → AccountLease)
    → String
    → Leases
    → Bool × Leases
update_row none test change account_id table = (false, table)
update_row (some row) test change account_id table =
    if test row then (true, Dict.put table account_id (change row)) else (false, table)

unfoldable pub update_where :
    (AccountLease → Bool) → (AccountLease → AccountLease) → String → Leases → Bool × Leases
update_where test change account_id table =
    update_row (Dict.get table account_id) test change account_id table

abbrev pub extended : ℕ → AccountLease → AccountLease
extended until row = record row { lease_until = until }

abbrev pub reassigned : String → ℕ → ℕ → AccountLease → AccountLease
reassigned worker_id generation until row = record row {
  worker_id = worker_id;
  generation = generation;
  lease_until = until;
}

abbrev pub first_lease : String → String → ℕ → AccountLease
first_lease account_id worker_id until = record {
  account_id = account_id;
  worker_id = worker_id;
  generation = 1;
  lease_until = until;
}

-- `value if res.rowcount == 1 else None`
abbrev pub if_hit : ℕ → Bool × Leases → Option ℕ × Leases
if_hit generation (true, table) = (some generation, table)
if_hit generation (false, table) = (none, table)

-- The INSERT of a first lease; an account that has a row by then is an IntegrityError.
abbrev pub insert_first : Option AccountLease → String → String → ℕ → Leases → Option ℕ × Leases
insert_first none account_id worker_id until table =
    (some 1, Dict.put table account_id (first_lease account_id worker_id until))
insert_first (some row) account_id worker_id until table = (none, table)

abbrev pub held_by : String → AccountLease → Bool
held_by worker_id row = row.worker_id == worker_id

abbrev pub expired_at : ℕ → ℕ → AccountLease → Bool
expired_at generation now row = (row.generation == generation) && leb row.lease_until now

-- `acquire` after its SELECT, which read `row`.
unfoldable pub acquire_given :
    Option AccountLease → String → String → ℕ → ℕ → Leases → Option ℕ × Leases
acquire_given none account_id worker_id ttl now table =
    insert_first (Dict.get table account_id) account_id worker_id (now + ttl) table
acquire_given (some row) account_id worker_id ttl now table =
    if row.worker_id == worker_id
    then if_hit row.generation
        (update_where (held_by worker_id) (extended (now + ttl)) account_id table)
    else if ltb now row.lease_until
    then (none, table)
    else if_hit (row.generation + 1) (
        update_where (expired_at row.generation now)
          (reassigned worker_id (row.generation + 1) (now + ttl)) account_id table)

unfoldable pub acquire : String → String → ℕ → ℕ → Leases → Option ℕ × Leases
acquire account_id worker_id ttl now table =
    acquire_given (Dict.get table account_id) account_id worker_id ttl now table

abbrev pub held_as : String → ℕ → AccountLease → Bool
held_as worker_id generation row = (row.worker_id == worker_id) && (row.generation == generation)

unfoldable pub renew : String → String → ℕ → ℕ → ℕ → Leases → Bool × Leases
renew account_id worker_id generation ttl now table =
    update_where (held_as worker_id generation) (extended (now + ttl)) account_id table
