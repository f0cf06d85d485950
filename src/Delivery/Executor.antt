-- ===== src/Delivery/Executor.antt =====
-- runtime/delivery/executor.py: one plan, one result. The transport (Telethon) is a parameter that
-- answers a call or fails; the executor returns its result with the list of the calls it made.
use tdaudiibncba.Common.{ℕ, ℤ, String, Option, none, some, List, [], ◌∷◌}
use tdaudiibncba.Planner.Model.{PlanKind, DeliveryPlan}
use tdaudiibncba.Delivery.Errors.{ErrorClass}
use tdaudiibncba.Delivery.Policy.{
  Decision, LiveAccount, PolicySnapshot, ApprovalRecord, PolicyCheckable, check,
}

pub data TransportErrorKind : Type 0 where
  flood_wait transient result_unknown permission content auth : TransportErrorKind

pub record TransportError : Type 0 where
  pub kind : TransportErrorKind
  pub detail : String
  pub flood_wait_until : Option ℕ

pub data Call : Type 0 where
  send : DeliveryPlan → Call
  edit : DeliveryPlan → ℤ → Call
  delete : DeliveryPlan → List ℤ → Call

-- What a call comes back with: message ids (none of an edit or a deletion), a `TransportError`, or
-- any other exception.
pub data Outcome : Type 0 where
  returned : List ℤ → Outcome
  failed : TransportError → Outcome
  crashed : String → Outcome

abbrev pub SendTransport : Type 0
SendTransport = Call → Outcome

pub data ResultStatus : Type 0 where
  succeeded retryable blocked failed uncertain policy_denied : ResultStatus

pub record DeliveryResult : Type 0 where
  pub plan : DeliveryPlan
  pub status : ResultStatus
  pub target_message_ids : List ℤ
  pub error_class : Option ErrorClass
  pub error_detail : Option String
  pub flood_wait_until : Option ℕ
  pub decision : Option Decision

-- `execute` returns, or an exception that is no `TransportError` leaves it.
pub data Execution : Type 0 where
  result : DeliveryResult → Execution
  raised : String → Execution

-- `_ERROR_CLASS_MAP`
unfoldable pub error_class_map : TransportErrorKind → ErrorClass
error_class_map TransportErrorKind.flood_wait = ErrorClass.flood_wait
error_class_map TransportErrorKind.transient = ErrorClass.transient
error_class_map TransportErrorKind.result_unknown = ErrorClass.result_unknown
error_class_map TransportErrorKind.permission = ErrorClass.permission_blocked
error_class_map TransportErrorKind.content = ErrorClass.content_invalid
error_class_map TransportErrorKind.auth = ErrorClass.auth_dead

-- The dict from error class to status; a class that it lacks is a KeyError.
unfoldable pub class_status : ErrorClass → Option ResultStatus
class_status ErrorClass.flood_wait = some ResultStatus.retryable
class_status ErrorClass.transient = some ResultStatus.retryable
class_status ErrorClass.permission_blocked = some ResultStatus.blocked
class_status ErrorClass.content_invalid = some ResultStatus.failed
class_status ErrorClass.result_unknown = some ResultStatus.uncertain
class_status ErrorClass.auth_dead = some ResultStatus.failed
class_status _ = none

abbrev pub success : DeliveryPlan → List ℤ → Execution
success plan ids = result (record {
  plan = plan;
  status = ResultStatus.succeeded;
  target_message_ids = ids;
  error_class = none;
  error_detail = none;
  flood_wait_until = none;
  decision = some Decision.allow;
})

-- The `except TransportError` handler.
unfoldable pub failure : DeliveryPlan → TransportError → Execution
unfolding error_class_map class_status
failure plan exc = elim (class_status (error_class_map exc.kind)) [
  | none ↦ raised "KeyError"
  | some status ↦ result (record {
    plan = plan;
    status = status;
    target_message_ids = [];
    error_class = some (error_class_map exc.kind);
    error_detail = some exc.detail;
    flood_wait_until = exc.flood_wait_until;
    decision = some Decision.allow;
  })
]

-- What the `try` block makes of a call's outcome; `ids` are the ids that a success reports.
abbrev pub after : DeliveryPlan → (List ℤ → List ℤ) → Outcome → Execution
after plan ids (Outcome.returned sent) = success plan (ids sent)
after plan ids (Outcome.failed exc) = failure plan exc
after plan ids (Outcome.crashed e) = raised e

abbrev pub no_target : DeliveryPlan → Execution
no_target plan = result (record {
  plan = plan;
  status = ResultStatus.failed;
  target_message_ids = [];
  error_class = some ErrorClass.content_invalid;
  error_detail = some "no mapped target message";
  flood_wait_until = none;
  decision = some Decision.allow;
})

abbrev pub denied : DeliveryPlan → Decision → Execution
denied plan decision = result (record {
  plan = plan;
  status = ResultStatus.policy_denied;
  target_message_ids = [];
  error_class = none;
  error_detail = none;
  flood_wait_until = none;
  decision = some decision;
})

-- `target_message_ids` as a list: None and [] are falsy alike.
abbrev pub ids_of : Option (List ℤ) → List ℤ
ids_of none = []
ids_of (some ids) = ids

module _ (transport : SendTransport) where
  unfoldable pub run_edit : DeliveryPlan → List ℤ → Execution × List Call
  run_edit plan [] = (no_target plan, [])
  run_edit plan (first ∷ others) = (
    after plan (λ _. first ∷ others) (transport (Call.edit plan first)),
    Call.edit plan first ∷ [],
  )

  unfoldable pub run_delete : DeliveryPlan → List ℤ → Execution × List Call
  run_delete plan [] = (success plan [], [])
  run_delete plan (first ∷ others) =
      let ids = first ∷ others in
      (after plan (λ _. ids) (transport (Call.delete plan ids)), Call.delete plan ids ∷ [])

  unfoldable pub run_plan : PlanKind → DeliveryPlan → List ℤ → Execution × List Call
  unfolding run_edit run_delete
  run_plan PlanKind.send plan ids =
      (after plan (λ sent. sent) (transport (Call.send plan)), Call.send plan ∷ [])
  run_plan PlanKind.edit plan ids = run_edit plan ids
  run_plan PlanKind.delete plan ids = run_delete plan ids
  run_plan PlanKind.tombstone plan ids = run_delete plan ids

  abbrev pub checkable : DeliveryPlan → ℕ → String → String → PolicyCheckable
  checkable plan expected_generation tenant_id project_id = record {
    account_id = plan.account_id;
    rule_id = plan.rule_id;
    route_id = plan.route_id;
    tenant_id = tenant_id;
    project_id = project_id;
    expected_generation = expected_generation;
    requires_approval = plan.requires_approval;
    content_hash = plan.payload_hash;
  }

  abbrev pub after_check : Decision → DeliveryPlan → Option (List ℤ) → Execution × List Call
  after_check Decision.allow plan ids = run_plan plan.kind plan (ids_of ids)
  after_check decision plan ids = (denied plan decision, [])

  unfoldable pub execute :
      DeliveryPlan
      → LiveAccount
      → PolicySnapshot
      → Option ApprovalRecord
      → ℕ
      → String
      → String
      → ℕ
      → Option (List ℤ)
      → Execution × List Call
  unfolding run_plan
  execute plan live policy approval expected_generation tenant_id project_id now ids =
      after_check
        (check (checkable plan expected_generation tenant_id project_id) live policy approval now)
        plan ids
