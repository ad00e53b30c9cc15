-- ===== src/Execution/Access.antt =====
-- Reading, cancelling and deleting executions (`get_execution`, `list_executions`,
-- `cancel_execution`, `delete_execution` of services/execution-service/main.py).
pub mod Privacy
use nexora_platform.Prelude.{
  String, Bool, true, false, not, ◌&&◌, ◌||◌, Option, none, some, List, map, keep, if◌then◌else◌,
}
use nexora_platform.Prelude.Text.{truthy, opt_eq}
use nexora_platform.Prelude.Action.{pure, raise_if, ◌>>=◌, ◌>>◌}
use nexora_platform.Execution.Status.{cancelled}
use nexora_platform.Execution.Model.{Execution, ExecutionView, execution_to_dict}
use nexora_platform.Execution.World.{
  Settings, Services, Request, World, Handler, http, execution_not_found, emit_audit, publish_event,
  view,
}
use nexora_platform.Execution.Dispatch.{get_row, write_row, delete_row, check_transition}

-- `getattr(request.state, "is_operator", True)`
abbrev pub operator_or : Bool → Request → Bool
operator_or d req = elim req.is_operator [ none ↦ d | some b ↦ b ]

-- the caller may read the full payload
abbrev pub reads_payload : Request → Execution → Bool
reads_payload req e = operator_or true req || opt_eq e.owner_id req.user_id

-- SQL: a row's NULL is equal to nothing
abbrev pub is_owned_by : Option String → Option String → Bool
is_owned_by none u = false
is_owned_by (some o) u = opt_eq (some o) u

-- the rows that `list_executions` selects
abbrev pub selects : Request → Execution → Bool
selects req e =
    if not (operator_or true req) && truthy req.user_id
    then is_owned_by e.owner_id req.user_id
    else true

-- the items; the answer's total is their number
unfoldable pub list_executions : Request → World → List ExecutionView
list_executions req w =
    map (λ e. execution_to_dict e (reads_payload req e)) (keep (selects req) w.executions)

-- a caller of another tenant is told that there is no such execution
abbrev pub hidden_from : Request → Execution → Bool
hidden_from req e =
    not (operator_or true req)
    && (truthy e.owner_id
        && (not (opt_eq e.owner_id req.user_id) && not (opt_eq e.tenant_id req.tenant_id)))

unfoldable pub get_execution : String → Request → Handler ExecutionView
get_execution id req = do
  e ← get_row id
  raise_if (hidden_from req e) (http execution_not_found)
  pure (execution_to_dict e (reads_payload req e))

unfoldable pub set_cancelled : Execution → Execution
set_cancelled e = record e { status = cancelled }

module _ (cfg : Settings) (ext : Services) (req : Request) where
  unfoldable pub cancel_execution : String → Handler ExecutionView
  cancel_execution id = do
    e ← get_row id
    check_transition e cancelled
    write_row id set_cancelled
    emit_audit "execution.cancelled" id e.tenant_id req.user_id req.tenant_id req.roles
        req.correlation_id
    publish_event ext cfg.kafka_retry_attempts "cancelled" e.id
        (view (execution_to_dict (set_cancelled e) true))
    pure (execution_to_dict (set_cancelled e) true)

  unfoldable pub delete_execution : String → Handler (Unit {0})
  delete_execution id = do
    e ← get_row id
    delete_row id
    emit_audit "execution.deleted" id e.tenant_id req.user_id req.tenant_id req.roles
        req.correlation_id
    publish_event ext cfg.kafka_retry_attempts "deleted" id (view (execution_to_dict e true))
