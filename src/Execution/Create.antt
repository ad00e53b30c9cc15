-- ===== src/Execution/Create.antt =====
-- `create_execution` of services/execution-service/main.py.
pub mod Again
use nexora_platform.Prelude.{
  ℕ, String, Bool, true, false, not, ◌&&◌, ◌||◌, Option, none, some, List, [], ◌∷◌, ◌++◌, leb,
  count, any, ◌==◌, if◌then◌else◌,
}
use mathlib.Core.Option
use nexora_platform.Prelude.Text.{
  Json, Field, get_field_or, given_or, truthy, opt_eq, opt_or, text_or,
}
use nexora_platform.Prelude.Action.{ok, raised, gets, pure, raise_if, raise_found, ◌>>=◌, ◌>>◌}
use nexora_platform.Execution.Status.{queued, is_active}
use nexora_platform.Execution.Model.{Execution, ExecutionView, execution_to_dict, is_function}
use nexora_platform.Execution.World.{
  Settings, Services, Request, Handler, http, integrity_error, too_many_active, policy_violation,
  plugin_id_required, new_uuid, emit_audit, publish_event, view,
}
use nexora_platform.Execution.Guardrails.{guardrails_violation}

-- The fields that the handler reads from the body.
pub record CreatePayload : Type 0 where
  pub idempotency_key : Option String
  pub device_id : Option String
  pub type : Field String
  pub execution_type : Field String
  pub command : Field String
  pub plugin_id : Option String
  pub args : Option Json
  pub mode : Field String

-- an active execution of the device
abbrev pub is_active_on : String → Execution → Bool
is_active_on device_id e = opt_eq e.device_id (some device_id) && is_active e.status

unfoldable pub count_active_for_device : List Execution → String → ℕ
count_active_for_device t device_id = count (is_active_on device_id) t

abbrev pub has_key : Option String → Execution → Bool
has_key none e = false
has_key (some k) e = opt_eq e.idempotency_key (some k)

abbrev pub first_with_key : Option String → List Execution → Option Execution
first_with_key k [] = none
first_with_key k (e ∷ t) = if has_key k e then some e else first_with_key k t

-- the lookup that is made only for a key that is not empty
unfoldable pub existing_for : Option String → List Execution → Option Execution
existing_for key t = if truthy key then first_with_key key t else none

-- The checks of the active executions of the device, made only for a device that is given.
unfoldable pub over_limit : Settings → Option String → List Execution → Option ℕ
unfolding count_active_for_device
over_limit cfg none t = none
over_limit cfg (some d) t =
    if d == ""
    then none
    else if leb cfg.max_executions_per_device (count_active_for_device t d)
    then some (count_active_for_device t d)
    else none

unfoldable pub check_device_limit : Settings → Option String → Handler (Unit {0})
check_device_limit cfg device_id = do
  found ← gets (λ w. over_limit cfg device_id w.executions)
  raise_found (Option.map (λ n. http (too_many_active (text_or device_id "") n)) found)

-- `db.add(execution); db.commit()`: the primary key and the idempotency key are unique
unfoldable pub insert_execution : Execution → Handler (Unit {0})
insert_execution row w =
    if any (λ e. e.id == row.id || has_key row.idempotency_key e) w.executions
    then (raised integrity_error, w)
    else (ok tt, record w { executions = w.executions ++ row ∷ [] })

module _ (cfg : Settings) (ext : Services) (req : Request) (x_tenant_id : Option String) where
  unfoldable pub caller_tenant : Option String
  caller_tenant = if cfg.auth_enabled then req.tenant_id else opt_or req.tenant_id x_tenant_id

  unfoldable pub create_new : CreatePayload → Handler ExecutionView
  unfolding caller_tenant
  create_new p = do
    check_device_limit cfg p.device_id
    execution_id ← new_uuid ext
    now ← gets (λ w. w.clock)
    let execution_type = get_field_or p.type (get_field_or p.execution_type (some "command"))
    let command = get_field_or p.command (some "noop")
    raise_found (
        Option.map (λ v. http (policy_violation v))
          (guardrails_violation cfg execution_type command))
    raise_if (is_function execution_type && not (truthy p.plugin_id)) (http plugin_id_required)
    correlation_id ← new_uuid ext
    -- a null command is left out of the insertion, and the column's default is stored
    let row : Execution = record {
      id = execution_id;
      device_id = p.device_id;
      command = given_or p.command "noop";
      status = queued;
      correlation_id = some correlation_id;
      idempotency_key = p.idempotency_key;
      exit_code = none;
      result_stdout = none;
      result_stderr = none;
      tenant_id = caller_tenant;
      owner_id = req.user_id;
      created_at = some now;
      dispatched_at = none;
      running_at = none;
      execution_type = execution_type;
      plugin_id = p.plugin_id;
      args = p.args;
      function_result = none;
      invocation_mode = get_field_or p.mode (some "async");
    }
    insert_execution row
    emit_audit "execution.created" row.id row.tenant_id row.owner_id row.tenant_id req.roles
        req.correlation_id
    publish_event ext cfg.kafka_retry_attempts "created" row.id (view (execution_to_dict row true))
    pure (execution_to_dict row true)

  unfoldable pub create_execution : CreatePayload → Handler ExecutionView
  create_execution p = do
    existing ← gets (λ w. existing_for p.idempotency_key w.executions)
    elim existing [ none ↦ create_new p | some e ↦ pure (execution_to_dict e true) ]
