-- ===== src/Platform/Commands.antt =====
-- telegram-platform/backend/app/tg/service/command_service.py: commands are issued to a worker, pulled
-- by it and acknowledged. Ids, new keys and clock readings are arguments.
use tdaudiibncba.Common.{
  ℕ, ◌+◌, ◌*◌, String, Bool, true, false, not, ◌&&◌, ◌||◌, Option, none, some, List, [], ◌∷◌, ◌==◌,
  ltb, contains, exists_by, keep, if◌then◌else◌, nat_eq, string_eq,
}
use tdaudiibncba.Common.Dict
use tdaudiibncba.Common.Dict.{Dict}
use tdaudiibncba.Platform.Store.{User, Membership, is_member}

pub record CommandAccount : Type 0 where
  pub tenant_id : ℕ
  pub project_id : ℕ
  pub deleted : Bool

pub record RuntimeCommand : Type 0 where
  pub id : ℕ
  pub tenant_id : ℕ
  pub project_id : ℕ
  pub account_id : ℕ
  pub kind : String
  pub issued_by : ℕ
  pub dedup_key : String
  pub payload : Option String
  pub expected_generation : Option ℕ
  pub deadline : Option ℕ
  pub status : String
  pub result : Option String
  pub acked_at : Option ℕ
  pub finished_at : Option ℕ
  pub deleted : Bool

pub record Queue : Type 0 where
  pub memberships : List Membership
  pub accounts : Dict ℕ CommandAccount
  pub commands : Dict ℕ RuntimeCommand

-- CreateRuntimeCommandParam
pub record CommandParam : Type 0 where
  pub kind : String
  pub payload : Option String
  pub expected_generation : Option ℕ
  pub dedup_key : Option String

-- NotFoundError of an account or a command, ForbiddenError, RequestError, and the IntegrityError of a
-- deduplication key that a deleted command still has.
pub data CommandFailure : Type 0 where
  no_account no_command forbidden bad_status duplicate_key : CommandFailure

pub data Answered : Type 0 where
  command : RuntimeCommand → Answered
  failure : CommandFailure → Answered

-- runtime_command_dao.get_by_dedup_key
unfoldable pub by_key : String → Dict ℕ RuntimeCommand → Option RuntimeCommand
by_key key [] = none
by_key key ((id, c) ∷ commands) =
    let rest = by_key key commands in if (c.dedup_key == key) && not c.deleted then some c else rest

-- The unique constraint on `dedup_key` counts deleted rows too.
unfoldable pub key_used : String → Dict ℕ RuntimeCommand → Bool
key_used key [] = false
key_used key ((id, c) ∷ commands) =
    let rest = key_used key commands in if c.dedup_key == key then true else rest

abbrev pub may_use : Queue → User → ℕ → ℕ → Bool
may_use db user tenant_id project_id =
    user.is_superuser || exists_by (is_member tenant_id project_id user.id) db.memberships

-- `obj.dedup_key or uuid4_str()`
abbrev pub key_or : Option String → String → String
key_or none fresh = fresh
key_or (some key) fresh = if key == "" then fresh else key

-- `timedelta(minutes=30)`
abbrev pub half_hour : ℕ
half_hour = 30 * 60 * 1000000

abbrev pub new_command : User → ℕ → CommandAccount → CommandParam → ℕ → String → ℕ → RuntimeCommand
new_command user account_id account obj id fresh now = record {
  id = id;
  tenant_id = account.tenant_id;
  project_id = account.project_id;
  account_id = account_id;
  kind = obj.kind;
  issued_by = user.id;
  dedup_key = key_or obj.dedup_key fresh;
  payload = obj.payload;
  expected_generation = obj.expected_generation;
  deadline = some (now + half_hour);
  status = "pending";
  result = none;
  acked_at = none;
  finished_at = none;
  deleted = false;
}

abbrev pub created : RuntimeCommand → Queue → Answered × Queue
created c db =
    if key_used c.dedup_key db.commands
    then (failure CommandFailure.duplicate_key, db)
    else (command c, record db { commands = Dict.put db.commands c.id c })

abbrev pub or_create : Option RuntimeCommand → RuntimeCommand → Queue → Answered × Queue
or_create none c db = created c db
or_create (some existing) c db = (command existing, db)

-- `if obj.dedup_key:` the command under that key, if there is one.
abbrev pub existing_for : Option String → Dict ℕ RuntimeCommand → Option RuntimeCommand
existing_for none commands = none
existing_for (some key) commands = if key == "" then none else by_key key commands

abbrev pub issue_for :
    Option CommandAccount → User → ℕ → CommandParam → ℕ → String → ℕ → Queue → Answered × Queue
issue_for none user account_id obj id fresh now db = (failure CommandFailure.no_account, db)
issue_for (some account) user account_id obj id fresh now db =
    if account.deleted
    then (failure CommandFailure.no_account, db)
    else if not (may_use db user account.tenant_id account.project_id)
    then (failure CommandFailure.forbidden, db)
    else or_create (existing_for obj.dedup_key db.commands)
        (new_command user account_id account obj id fresh now) db

unfoldable pub issue : User → ℕ → CommandParam → ℕ → String → ℕ → Queue → Answered × Queue
issue user account_id obj id fresh now db =
    issue_for (Dict.get db.accounts account_id) user account_id obj id fresh now db

-- `c.deadline is None or c.deadline > now`
abbrev pub in_force : ℕ → RuntimeCommand → Bool
in_force now c = elim c.deadline [ none ↦ true | some t ↦ ltb now t ]

-- runtime_command_dao.get_pending_by_account
unfoldable pub pending_of : ℕ → Dict ℕ RuntimeCommand → List RuntimeCommand
pending_of account_id [] = []
pending_of account_id ((id, c) ∷ commands) =
    let rest = pending_of account_id commands in
    if (c.account_id == account_id) && (c.status == "pending") && not c.deleted
    then c ∷ rest
    else rest

unfoldable pub get_pending : ℕ → ℕ → Queue → List RuntimeCommand
get_pending account_id now db = keep (in_force now) (pending_of account_id db.commands)

-- `_ACK_OK`
abbrev pub ack_ok : List String
ack_ok = "acknowledged" ∷ "done" ∷ "rejected" ∷ []

abbrev pub acked : String → Option String → ℕ → RuntimeCommand → RuntimeCommand
acked status result now c =
    if status == "acknowledged"
    then record c { status = status; result = result; acked_at = some now }
    else record c { status = status; result = result; finished_at = some now }

abbrev pub ack_row :
    Option RuntimeCommand → ℕ → String → Option String → ℕ → Queue → Answered × Queue
ack_row none command_id status result now db = (failure CommandFailure.no_command, db)
ack_row (some c) command_id status result now db =
    if c.deleted
    then (failure CommandFailure.no_command, db)
    else if not (contains ack_ok status)
    then (failure CommandFailure.bad_status, db)
    else (
      command (acked status result now c),
      record db { commands = Dict.put db.commands command_id (acked status result now c) },
    )

unfoldable pub ack : ℕ → String → Option String → ℕ → Queue → Answered × Queue
ack command_id status result now db =
    ack_row (Dict.get db.commands command_id) command_id status result now db
