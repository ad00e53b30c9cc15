-- ===== src/Execution/World.antt =====
-- What the handlers of the execution service read and write: the two tables, the event producer,
-- the audit trail, the clock; and the outside services that they call
-- (execution_service/core/config.py, core/events.py, common/audit.py, main.py).
use nexora_platform.Prelude.{
  ℕ, zero, suc, String, Bool, true, false, Option, List, [], ◌∷◌, ◌++◌, if◌then◌else◌,
}
use nexora_platform.Prelude.Text.{Json, Field, append, text_or, opt_or}
use nexora_platform.Prelude.Action.{ok, Action}
use nexora_platform.Execution.Status.{Status}
use nexora_platform.Execution.Model.{Execution, ExecutionView, FunctionTrigger}

-- What `_guardrails_violation` reports.
pub data Violation : Type 0 where
  blocked_type denied_prefix : List ℕ → Violation

-- What makes a callback unacceptable (422).
pub data CallbackError : Type 0 where
  unknown_fields invalid_status status_required : CallbackError
  callback_key_required invalid_callback_key : CallbackError

-- `HTTPException`, one constructor for each place that raises one.
pub data HttpError : Type 0 where
  execution_not_found trigger_not_found fleet_not_found : HttpError
  too_many_active : String → ℕ → HttpError
  policy_violation : Violation → HttpError
  plugin_id_required command_required : HttpError
  invalid_transition : Status → Status → HttpError
  plugin_not_in_registry plugin_service_unavailable fleet_service_unavailable : HttpError
  plugin_not_active : Option String → HttpError
  capability_not_declared : String → HttpError
  unacceptable_callback : CallbackError → HttpError
  event_type_required function_id_required : HttpError
  fleet_has_no_members : HttpError
  bad_ring_sizes bad_ring_size bad_max_rings : HttpError
  device_id_required steps_required : HttpError
  step_not_object : ℕ → HttpError
  operator_role_required : HttpError
  devices_required no_devices_found bad_expected_plugins : HttpError
  deploy_stopped : String → HttpError → HttpError

unfoldable pub status_code : HttpError → ℕ
status_code execution_not_found = 404
status_code trigger_not_found = 404
status_code fleet_not_found = 404
status_code (too_many_active _ _) = 429
status_code (policy_violation _) = 403
status_code plugin_id_required = 400
status_code command_required = 400
status_code (invalid_transition _ _) = 409
status_code plugin_not_in_registry = 502
status_code plugin_service_unavailable = 503
status_code fleet_service_unavailable = 503
status_code (plugin_not_active _) = 409
status_code (capability_not_declared _) = 400
status_code (unacceptable_callback _) = 422
status_code event_type_required = 400
status_code function_id_required = 400
status_code fleet_has_no_members = 400
status_code bad_ring_sizes = 400
status_code bad_ring_size = 400
status_code bad_max_rings = 400
status_code device_id_required = 400
status_code steps_required = 400
status_code (step_not_object _) = 400
status_code operator_role_required = 403
status_code devices_required = 400
status_code no_devices_found = 400
status_code bad_expected_plugins = 400
status_code (deploy_stopped _ e) = status_code e

-- What leaves a handler: an `HTTPException`, or another exception, which the framework answers
-- with 500.
pub data Raised : Type 0 where
  http : HttpError → Raised
  integrity_error type_error attribute_error : Raised

-- The metadata of a plugin in the answer of the plugin service.
pub record PluginData : Type 0 where
  pub status : Option String
  pub name : Option String
  pub version : Option String
  pub runtime_type : Option String
  pub artifact_uri : Option String
  pub artifact_checksum : Option String
  pub entrypoint : Option String
  pub timeout_seconds : Field ℕ
  pub memory_limit_mb : Field ℕ
  pub permissions : Field (List String)
  pub required_capabilities : Field (List String)

-- The capabilities that the device service reports: whether `wasm_wasi` is set, and the whole.
pub record Capabilities : Type 0 where
  pub wasm_wasi : Bool
  pub all : Json

-- `envelope["plugin"]`
pub record PluginSection : Type 0 where
  pub id : Option String
  pub metadata : PluginData
  pub timeout_seconds : Option ℕ
  pub memory_limit_mb : Option ℕ
  pub permissions : Option (List String)
  pub required_capabilities : Option (List String)

-- The message that carries an execution to the gateway.
pub record Envelope : Type 0 where
  pub execution_id : String
  pub device_id : Option String
  pub command : String
  pub execution_type : String
  pub correlation_id : Option String
  pub kafka_dispatched_at : ℕ
  pub plugin : Option PluginSection
  pub device_capabilities : Option Capabilities
  pub args : Option Json

pub data EventPayload : Type 0 where
  view : ExecutionView → EventPayload
  envelope : Envelope → EventPayload

-- An event on the topic `{prefix}.{event_type}`.
pub record Event : Type 0 where
  pub event_type : String
  pub action : String
  pub resource_id : String
  pub payload : EventPayload
  pub occurred_at : ℕ

pub record AuditEvent : Type 0 where
  pub timestamp : ℕ
  pub actor_user_id : String
  pub actor_tenant_id : String
  pub actor_roles : List String
  pub action : String
  pub resource_id : String
  pub tenant_id : Option String
  pub correlation_id : Option String

-- The state of the service and of what it writes to.
pub record World : Type 0 where
  pub executions : List Execution
  pub triggers : List FunctionTrigger
  pub producer_connected : Bool
  pub sent : List Event
  pub audits : List AuditEvent
  pub clock : ℕ
  pub uuids_drawn : ℕ

-- core/config.py, as far as the handlers read it. Thresholds are in microseconds.
pub record Settings : Type 0 where
  pub auth_enabled : Bool
  pub max_executions_per_device : ℕ
  pub dispatched_timeout : ℕ
  pub running_timeout : ℕ
  pub guardrails_enabled : Bool
  pub deny_command_prefixes : List (List ℕ)
  pub blocked_execution_types : List (List ℕ)
  pub agent_callback_secret : String
  pub kafka_retry_attempts : ℕ

-- The answer of another service: none at all, a status other than 200, or 200 with a body.
pub data Reply (A : Type 0) : Type 0 where
  unavailable : Reply A
  refused : ℕ → Reply A
  replied : A → Reply A

-- What the service calls and does not implement.
pub record Services : Type 0 where
  -- the n-th `uuid4`
  pub uuid : ℕ → String
  -- whether the broker takes an event at the given attempt
  pub send_and_wait : Event → ℕ → Bool
  -- `hmac.new(secret, id, "sha256").hexdigest()`
  pub hmac_sha256 : String → String → String
  pub get_plugin : Option String → Reply PluginData
  pub get_device : String → Reply Capabilities
  pub get_fleet_members : String → Reply (List String)

-- `request.state` and the header that the handlers read. `is_operator` may be unset.
pub record Request : Type 0 where
  pub is_operator : Option Bool
  pub user_id : Option String
  pub tenant_id : Option String
  pub roles : List String
  pub correlation_id : Option String

abbrev pub Handler : Type 0 → Type 0
Handler A = Action Raised World A

module _ (ext : Services) where
  unfoldable pub new_uuid : Handler String
  new_uuid w = (ok (ext.uuid w.uuids_drawn), record w { uuids_drawn = suc w.uuids_drawn })

  -- The attempts left of the loop in `publish_event`; true if one of them succeeded.
  unfoldable pub attempt_send : Event → (left attempt : ℕ) → Bool
  attempt_send ev zero attempt = false
  attempt_send ev (suc left) attempt =
      let later = attempt_send ev left (suc attempt) in
      if ext.send_and_wait ev attempt then true else later

  abbrev pub event_of : String → String → EventPayload → ℕ → Event
  event_of action resource_id payload now = record {
    event_type = append "execution." action;
    action = action;
    resource_id = resource_id;
    payload = payload;
    occurred_at = now;
  }

  -- one event, to a producer that may not be connected
  unfoldable pub send : ℕ → Event → World → World
  unfolding attempt_send
  send attempts ev w =
      if w.producer_connected
      then (if attempt_send ev attempts 1 then record w { sent = w.sent ++ ev ∷ [] } else w)
      else w

  -- `_events.publish_event`: best effort, it never raises
  unfoldable pub publish_event : ℕ → String → String → EventPayload → Handler (Unit {0})
  unfolding send
  publish_event attempts action resource_id payload w =
      (ok tt, send attempts (event_of action resource_id payload w.clock) w)

-- `emit_audit_event`, for the resource type "execution"
unfoldable pub emit_audit :
    String
    → String
    → (tenant_id user_id actor_tenant : Option String) → List String
    → Option String
    → Handler (Unit {0})
emit_audit action resource_id tenant_id user_id actor_tenant roles correlation_id w = (
  ok tt,
  record w {
    audits =
        w.audits
        ++ record {
          timestamp = w.clock;
          actor_user_id = text_or user_id "system";
          actor_tenant_id = text_or (opt_or actor_tenant tenant_id) "system";
          actor_roles = roles;
          action = action;
          resource_id = resource_id;
          tenant_id = tenant_id;
          correlation_id = correlation_id;
        }
          ∷ [];
  },
)
