-- ===== src/Delivery/Policy.antt =====
-- runtime/delivery/policy.py: the gate that every Telegram side effect passes through.
use tdaudiibncba.Common.{
  ℕ, ℤ, pos, String, Bool, true, false, not, ◌&&◌, ◌||◌, Option, none, some, List, ◌==◌, ltb, leb,
  contains, if◌then◌else◌, string_eq, int_eq,
}

pub data Decision : Type 0 where
  allow blocked_policy blocked_approval blocked_account blocked_lease blocked_rate : Decision

pub data SendState : Type 0 where
  sendable paused flood_wait auth_dead : SendState

pub record LiveAccount : Type 0 where
  pub account_id : String
  pub generation : ℤ
  pub send_state : SendState
  pub flood_wait_until : Option ℕ

-- The frozensets are lists that are only searched.
pub record PolicySnapshot : Type 0 where
  pub global_disabled : Bool
  pub tenant_disabled : List String
  pub project_disabled : List String
  pub account_disabled : List String
  pub rule_disabled : List String
  pub rate_limit_blocked : List String

pub record ApprovalRecord : Type 0 where
  pub approved : Bool
  pub content_hash : Option String
  pub expires_at : Option ℕ

pub record PolicyCheckable : Type 0 where
  pub account_id : String
  pub rule_id : String
  pub route_id : String
  pub tenant_id : String
  pub project_id : String
  pub expected_generation : ℕ
  pub requires_approval : Bool
  pub content_hash : Option String

unfoldable pub switched_off : PolicyCheckable → PolicySnapshot → Bool
switched_off job policy =
    policy.global_disabled
    || contains policy.tenant_disabled job.tenant_id
    || contains policy.project_disabled job.project_id
    || contains policy.account_disabled job.account_id
    || contains policy.rule_disabled job.rule_id

abbrev pub is_halted : SendState → Bool
is_halted SendState.paused = true
is_halted SendState.auth_dead = true
is_halted _ = false

abbrev pub is_flooded : SendState → Bool
is_flooded SendState.flood_wait = true
is_flooded _ = false

-- `until is None or now < until`
abbrev pub still_waiting : Option ℕ → ℕ → Bool
still_waiting none now = true
still_waiting (some until) now = ltb now until

-- Both hashes are there and differ.
abbrev pub hashes_differ : Option String → Option String → Bool
hashes_differ (some a) (some b) = not (a == b)
hashes_differ (some a) none = false
hashes_differ none _ = false

abbrev pub has_expired : Option ℕ → ℕ → Bool
has_expired none now = false
has_expired (some until) now = leb until now

unfoldable pub approval_refuses : PolicyCheckable → Option ApprovalRecord → ℕ → Bool
approval_refuses job none now = true
approval_refuses job (some approval) now =
    if not approval.approved
    then true
    else if hashes_differ approval.content_hash job.content_hash
    then true
    else if has_expired approval.expires_at now
    then true
    else false

unfoldable pub check :
    PolicyCheckable → LiveAccount → PolicySnapshot → Option ApprovalRecord → ℕ → Decision
check job live policy approval now =
    if not (job.account_id == live.account_id)
    then Decision.blocked_lease
    else if not (pos job.expected_generation == live.generation)
    then Decision.blocked_lease
    else if switched_off job policy
    then Decision.blocked_policy
    else if is_halted live.send_state
    then Decision.blocked_account
    else if is_flooded live.send_state && still_waiting live.flood_wait_until now
    then Decision.blocked_rate
    else if contains policy.rate_limit_blocked job.route_id
    then Decision.blocked_rate
    else if job.requires_approval && approval_refuses job approval now
    then Decision.blocked_approval
    else Decision.allow
