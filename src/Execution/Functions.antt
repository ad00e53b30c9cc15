-- ===== src/Execution/Functions.antt =====
-- Creating and dispatching an execution in one call (`_create_and_dispatch_function`,
-- `invoke_function`, `invoke_function_on_device` of services/execution-service/main.py).
use nexora_platform.Prelude.{String, Bool, Option, none, some}
use nexora_platform.Prelude.Text.{Json, Field, missing, null, given, append, get_field_or}
use nexora_platform.Prelude.Action.{Outcome, ok, raised, ◌>>=◌}
use nexora_platform.Execution.Model.{ExecutionView}
use nexora_platform.Execution.World.{
  Settings, Services, Request, Handler, Raised, http, HttpError, integrity_error, type_error,
  attribute_error,
}
use nexora_platform.Execution.Create.{CreatePayload, create_execution}
use nexora_platform.Execution.Dispatch.{dispatch_execution}

-- a value that a field is set to, which may be None
abbrev pub set_to : {A : Type 0} → Option A → Field A
set_to none = null
set_to (some a) = given a

-- `args or {}`
abbrev pub args_or_empty : Option Json → Json
args_or_empty none = record { text = "{}" }
args_or_empty (some j) = j

abbrev pub invoke_payload : String → Option String → Option Json → Option String → CreatePayload
invoke_payload plugin_id device_id args mode = record {
  idempotency_key = none;
  device_id = device_id;
  type = given "function.invoke";
  execution_type = missing;
  command = given (append "function.invoke:" plugin_id);
  plugin_id = some plugin_id;
  args = some (args_or_empty args);
  mode = set_to mode;
}

-- The body of an invocation.
pub record InvokePayload : Type 0 where
  pub device_id : Option String
  pub args : Option Json
  pub mode : Field String

module _ (cfg : Settings) (ext : Services) (req : Request) where
  -- an execution is created and dispatched at once; the id of a created execution is its row's
  unfoldable pub create_and_dispatch : CreatePayload → Handler ExecutionView
  create_and_dispatch p = do
    created ← create_execution cfg ext req none p
    dispatch_execution cfg ext created.id (some req)

  unfoldable pub create_and_dispatch_function :
      String → Option String → Option Json → Option String → Handler ExecutionView
  create_and_dispatch_function plugin_id device_id args mode =
      create_and_dispatch (invoke_payload plugin_id device_id args mode)

  unfoldable pub invoke_function : String → InvokePayload → Handler ExecutionView
  invoke_function plugin_id p =
      create_and_dispatch_function plugin_id p.device_id p.args (get_field_or p.mode (some "async"))

  unfoldable pub invoke_function_on_device : String → String → InvokePayload → Handler ExecutionView
  invoke_function_on_device device_id plugin_id p =
      create_and_dispatch_function plugin_id (some device_id) p.args
        (get_field_or p.mode (some "async"))

-- `try: m  except HTTPException as exc`: other exceptions go on up
abbrev pub caught : {A : Type 0} → Outcome Raised A → Outcome Raised (Outcome HttpError A)
caught (ok a) = ok (ok a)
caught (raised (http e)) = ok (raised e)
caught (raised integrity_error) = raised integrity_error
caught (raised type_error) = raised type_error
caught (raised attribute_error) = raised attribute_error

unfoldable pub catch_http : {A : Type 0} → Handler A → Handler (Outcome HttpError A)
catch_http m w = let (r, w') = m w in (caught r, w')

pub data ItemStatus : Type 0 where
  dispatched error : ItemStatus

abbrev pub is_dispatched : ItemStatus → Bool
is_dispatched ItemStatus.dispatched = Bool.true
is_dispatched ItemStatus.error = Bool.false

abbrev pub is_error : ItemStatus → Bool
is_error ItemStatus.dispatched = Bool.false
is_error ItemStatus.error = Bool.true
