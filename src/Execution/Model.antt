-- ===== src/Execution/Model.antt =====
-- The tables of the execution service, and what an execution shows to a caller
-- (execution_service/models/execution.py, models/trigger.py).
use nexora_platform.Prelude.{
  ℕ, String, Bool, true, false, Option, none, some, List, ◌==◌, if◌then◌else◌,
}
use nexora_platform.Prelude.Int.{ℤ, sub_ℕ}
use nexora_platform.Prelude.Text.{Json, text_or}
use nexora_platform.Execution.Status.{Status}

-- Times are microseconds since the epoch; naive times of the database are UTC (`make_aware`).
pub record Execution : Type 0 where
  pub id : String
  pub device_id : Option String
  pub command : String
  pub status : Status
  pub correlation_id : Option String
  pub idempotency_key : Option String
  pub exit_code : Option ℤ
  pub result_stdout : Option String
  pub result_stderr : Option String
  pub tenant_id : Option String
  pub owner_id : Option String
  pub created_at : Option ℕ
  pub dispatched_at : Option ℕ
  pub running_at : Option ℕ
  pub execution_type : Option String
  pub plugin_id : Option String
  pub args : Option Json
  pub function_result : Option Json
  pub invocation_mode : Option String

-- The dictionary that `execution_to_dict` builds.
pub record ExecutionView : Type 0 where
  pub id : String
  pub device_id : Option String
  pub command : String
  pub status : Status
  pub execution_type : String
  pub plugin_id : Option String
  pub args : Option Json
  pub invocation_mode : String
  pub correlation_id : Option String
  pub idempotency_key : Option String
  pub exit_code : Option ℤ
  pub result_stdout : Option String
  pub result_stderr : Option String
  pub function_result : Option Json
  pub tenant_id : Option String
  pub owner_id : Option String
  pub created_at : Option ℕ
  pub dispatched_at : Option ℕ
  pub running_at : Option ℕ
  pub dispatch_latency : Option ℤ

abbrev latency : Option ℕ → Option ℕ → Option ℤ
latency (some dispatched) (some running) = some (sub_ℕ running dispatched)
latency _ _ = none

-- `x if include_payload else None`
abbrev when : {A : Type 0} → Bool → Option A → Option A
when true x = x
when false x = none

unfoldable pub execution_to_dict : Execution → Bool → ExecutionView
execution_to_dict e include_payload = record {
  id = e.id;
  device_id = e.device_id;
  command = e.command;
  status = e.status;
  execution_type = text_or e.execution_type "command";
  plugin_id = e.plugin_id;
  args = e.args;
  invocation_mode = text_or e.invocation_mode "async";
  correlation_id = e.correlation_id;
  idempotency_key = e.idempotency_key;
  exit_code = when include_payload e.exit_code;
  result_stdout = when include_payload e.result_stdout;
  result_stderr = when include_payload e.result_stderr;
  function_result = when include_payload e.function_result;
  tenant_id = e.tenant_id;
  owner_id = e.owner_id;
  created_at = e.created_at;
  dispatched_at = e.dispatched_at;
  running_at = e.running_at;
  dispatch_latency = latency e.dispatched_at e.running_at;
}

-- What `json.loads(filter_expr)` gives: an object, or another value.
pub data Filter : Type 0 where
  object : List (String × Json) → Filter
  not_object : Json → Filter

pub record FunctionTrigger : Type 0 where
  pub id : String
  pub event_type : String
  pub function_id : String
  pub target_type : String
  pub target_id : Option String
  pub filter_expr : Option Filter
  pub is_active : Bool
  pub tenant_id : Option String
  pub created_at : Option ℕ

-- `execution_type in {"function.install", "function.invoke"}`
abbrev pub is_function : Option String → Bool
is_function none = false
is_function (some t) = if t == "function.install" then true else t == "function.invoke"
