-- ===== src/Control/Controller.antt =====
-- runtime/control/controller.py: commands drive the lifecycle of each account. The random id of a
-- result is left out; a reason that the source prints is the data that it prints.
use tdaudiibncba.Common.{
  ℕ, ◌+◌, String, Bool, true, not, Option, none, some, List, [], ◌∷◌, Eq, ◌==◌, nat_beq,
  nat_beq_iff, ◌≡◌, ◌↔◌, refl, ap, contains, get_elem?, string_eq, if◌then◌else◌,
}
use tdaudiibncba.Common.Dict
use tdaudiibncba.Common.Dict.{Dict}

pub data CommandType : Type 0 where
  start stop pause resume mark_reauth mark_revoked disable takeover : CommandType

pub data AccountPhase : Type 0 where
  stopped starting online paused stopping reauth_required revoked disabled : AccountPhase
  takeover_blocked : AccountPhase

pub record AccountRuntimeState : Type 0 where
  pub account_id : String
  pub phase : AccountPhase
  pub worker_id : Option String
  pub generation : Option ℕ
  pub reason : String

pub record RuntimeCommand : Type 0 where
  pub account_id : String
  pub type : CommandType
  pub dedup_key : String
  pub issued_by : String
  pub old_holder_confirmed_dead : Bool

pub data CommandStatus : Type 0 where
  applied duplicate rejected : CommandStatus

pub data Reason : Type 0 where
  no_reason dedup_replay takeover_requires_fencing : Reason
  illegal : AccountPhase → CommandType → Reason

pub record CommandResult : Type 0 where
  pub status : CommandStatus
  pub state : AccountRuntimeState
  pub reason : Reason

-- The place of a phase in the enumeration.
unfoldable pub place : AccountPhase → ℕ
place AccountPhase.stopped = 0
place AccountPhase.starting = 1
place AccountPhase.online = 2
place AccountPhase.paused = 3
place AccountPhase.stopping = 4
place AccountPhase.reauth_required = 5
place AccountPhase.revoked = 6
place AccountPhase.disabled = 7
place AccountPhase.takeover_blocked = 8

abbrev pub all_phases : List AccountPhase
all_phases =
    AccountPhase.stopped ∷ AccountPhase.starting ∷ AccountPhase.online ∷ AccountPhase.paused
    ∷ AccountPhase.stopping ∷ AccountPhase.reauth_required ∷ AccountPhase.revoked
    ∷ AccountPhase.disabled ∷ AccountPhase.takeover_blocked ∷ []

at_place : (s : AccountPhase) → get_elem? all_phases (place s) ≡ some s
unfolding place
at_place AccountPhase.stopped = refl
at_place _ = refl

place-injective : (s t : AccountPhase) → place s ≡ place t → s ≡ t
place-injective s t h = cc (at_place s, at_place t, h)

unfoldable pub phase_beq : AccountPhase → AccountPhase → Bool
unfolding place
phase_beq s t = nat_beq (place s) (place t)

pub phase_beq_iff : (s t : AccountPhase) → (phase_beq s t ≡ true) ↔ (s ≡ t)
unfolding phase_beq place
phase_beq_iff s t = (
  λ h. place-injective s t ((nat_beq_iff (place s) (place t)).0 h),
  λ p. (nat_beq_iff (place s) (place t)).1 (ap place p),
)

instance abbrev pub phase_eq : Eq AccountPhase
phase_eq = record { beq = phase_beq; beq_iff = phase_beq_iff }

-- `_ALLOWED`
unfoldable pub allowed : CommandType → List AccountPhase
allowed CommandType.start =
    AccountPhase.stopped ∷ AccountPhase.paused ∷ AccountPhase.reauth_required ∷ []
allowed CommandType.stop =
    AccountPhase.starting ∷ AccountPhase.online ∷ AccountPhase.paused ∷ AccountPhase.reauth_required
    ∷ AccountPhase.stopping ∷ []
allowed CommandType.pause = AccountPhase.online ∷ []
allowed CommandType.resume = AccountPhase.paused ∷ []
allowed CommandType.mark_reauth =
    AccountPhase.starting ∷ AccountPhase.online ∷ AccountPhase.paused ∷ []
allowed CommandType.mark_revoked =
    AccountPhase.starting ∷ AccountPhase.online ∷ AccountPhase.paused ∷ AccountPhase.reauth_required
    ∷ []
allowed CommandType.disable =
    AccountPhase.stopped ∷ AccountPhase.starting ∷ AccountPhase.online ∷ AccountPhase.paused
    ∷ AccountPhase.stopping ∷ AccountPhase.reauth_required ∷ AccountPhase.revoked
    ∷ AccountPhase.takeover_blocked ∷ []
allowed CommandType.takeover =
    AccountPhase.online ∷ AccountPhase.paused ∷ AccountPhase.starting ∷ AccountPhase.stopping
    ∷ AccountPhase.takeover_blocked ∷ []

-- `_NEXT_PHASE`
unfoldable pub next_phase : CommandType → AccountPhase
next_phase CommandType.start = AccountPhase.starting
next_phase CommandType.stop = AccountPhase.stopping
next_phase CommandType.pause = AccountPhase.paused
next_phase CommandType.resume = AccountPhase.online
next_phase CommandType.mark_reauth = AccountPhase.reauth_required
next_phase CommandType.mark_revoked = AccountPhase.revoked
next_phase CommandType.disable = AccountPhase.disabled
next_phase CommandType.takeover = AccountPhase.online

-- The controller over its in-memory store.
pub record RuntimeController : Type 0 where
  pub rows : Dict String AccountRuntimeState
  pub seen_dedup : List String

abbrev pub initial_state : String → AccountRuntimeState
initial_state account_id = record {
  account_id = account_id;
  phase = AccountPhase.stopped;
  worker_id = none;
  generation = none;
  reason = "";
}

-- `row or AccountRuntimeState(account_id)`
abbrev pub row_or : Option AccountRuntimeState → String → AccountRuntimeState
row_or none account_id = initial_state account_id
row_or (some state) account_id = state

unfoldable pub current : RuntimeController → String → AccountRuntimeState
current c account_id = row_or (Dict.get c.rows account_id) account_id

-- `self._store.put(state)`: the row is filed under the state's own account.
unfoldable pub put_state : RuntimeController → AccountRuntimeState → RuntimeController
put_state c state = record c { rows = Dict.put c.rows state.account_id state }

abbrev pub Applied : Type 0
Applied = CommandResult × RuntimeController

-- `command.issued_by or state.worker_id`
abbrev pub holder : String → Option String → Option String
holder issued_by worker_id = if issued_by == "" then worker_id else some issued_by

-- `(state.generation or 0) + 1`
abbrev pub next_generation : Option ℕ → ℕ
next_generation none = 1
next_generation (some g) = g + 1

abbrev pub taken_over : RuntimeCommand → AccountRuntimeState → AccountRuntimeState
taken_over command state = record {
  account_id = command.account_id;
  phase = AccountPhase.online;
  worker_id = holder command.issued_by state.worker_id;
  generation = some (next_generation state.generation);
  reason = "";
}

abbrev pub blocked_takeover : AccountRuntimeState → AccountRuntimeState
blocked_takeover state = record state {
  phase = AccountPhase.takeover_blocked;
  reason = "old_holder_unconfirmed";
}

abbrev pub outcome : CommandStatus → AccountRuntimeState → Reason → CommandResult
outcome status state reason = record { status = status; state = state; reason = reason }

-- `_takeover`
unfoldable pub take_over : RuntimeController → RuntimeCommand → AccountRuntimeState → Applied
unfolding put_state allowed contains
take_over c command state =
    if not command.old_holder_confirmed_dead
    then (
      outcome CommandStatus.rejected (blocked_takeover state) Reason.takeover_requires_fencing,
      put_state c (blocked_takeover state),
    )
    else if not (contains (allowed CommandType.takeover) state.phase)
    then (outcome CommandStatus.rejected state (illegal state.phase CommandType.takeover), c)
    else (
      outcome CommandStatus.applied (taken_over command state) Reason.no_reason,
      put_state c (taken_over command state),
    )

abbrev pub moved_to : AccountRuntimeState → CommandType → AccountRuntimeState
unfolding next_phase
moved_to state type = record state { phase = next_phase type; reason = "" }

-- A command that is no takeover.
unfoldable pub move : RuntimeController → RuntimeCommand → AccountRuntimeState → Applied
unfolding put_state allowed next_phase contains
move c command state =
    if not (contains (allowed command.type) state.phase)
    then (outcome CommandStatus.rejected state (illegal state.phase command.type), c)
    else (
      outcome CommandStatus.applied (moved_to state command.type) Reason.no_reason,
      put_state c (moved_to state command.type),
    )

abbrev pub dispatch :
    CommandType → RuntimeController → RuntimeCommand → AccountRuntimeState → Applied
dispatch CommandType.takeover c command state = take_over c command state
dispatch _ c command state = move c command state

-- `apply` once the dedup key has been seen for the first time, or is empty.
unfoldable pub apply_fresh : RuntimeController → RuntimeCommand → Applied
unfolding take_over move current
apply_fresh c command = dispatch command.type c command (current c command.account_id)

unfoldable pub apply : RuntimeController → RuntimeCommand → Applied
unfolding apply_fresh
apply c command =
    if command.dedup_key == ""
    then apply_fresh c command
    else if contains c.seen_dedup command.dedup_key
    then (outcome CommandStatus.duplicate (current c command.account_id) Reason.dedup_replay, c)
    else apply_fresh (record c { seen_dedup = command.dedup_key ∷ c.seen_dedup }) command

unfoldable pub mark_online :
    RuntimeController → String → String → ℕ → AccountRuntimeState × RuntimeController
unfolding put_state current
mark_online c account_id worker_id generation =
    let state = record (current c account_id) {
      phase = AccountPhase.online;
      worker_id = some worker_id;
      generation = some generation;
    } in
    (state, put_state c state)

unfoldable pub mark_stopped :
    RuntimeController → String → String → AccountRuntimeState × RuntimeController
unfolding put_state current
mark_stopped c account_id reason =
    let state = record (current c account_id) {
      phase = AccountPhase.stopped;
      worker_id = none;
      generation = none;
      reason = reason;
    } in
    (state, put_state c state)
