-- ===== src/Execution/Dispatch.antt =====
-- `dispatch_execution` of services/execution-service/main.py: the move to `dispatched` is committed
-- first, then the message is completed from the plugin and device services, and published.
pub mod Ends
pub mod Policy
use nexora_platform.Prelude.{
  ℕ, String, Bool, true, false, not, ◌&&◌, Option, none, some, List, [], ◌∷◌, ◌==◌, if◌then◌else◌,
}
use mathlib.Core.Option
use nexora_platform.Prelude.Text.{get_field_or, text_or, opt_eq, member}
use nexora_platform.Prelude.Action.{
  Outcome, ok, raised, and_then, gets, modify, pure, lift, raise_if, or_raise, raise_found, ◌>>=◌,
  ◌>>◌,
}
use nexora_platform.Prelude.Table.{find, update, remove}
use nexora_platform.Execution.Status.{Status, dispatched, transition_allowed}
use nexora_platform.Execution.Model.{Execution, ExecutionView, execution_to_dict, is_function}
use nexora_platform.Execution.World.{
  Settings, Services, Request, Handler, Raised, http, execution_not_found, policy_violation,
  invalid_transition, plugin_not_in_registry, plugin_service_unavailable, plugin_not_active,
  capability_not_declared, Reply, unavailable, refused, replied, PluginData, PluginSection,
  Capabilities, Envelope, emit_audit, publish_event, envelope,
}
use nexora_platform.Execution.Guardrails.{guardrails_violation}

abbrev pub key_of : Execution → String
key_of e = e.id

-- `db.get(Execution, id)` and the 404
unfoldable pub get_row : String → Handler Execution
get_row id = do
  found ← gets (λ w. find key_of id w.executions)
  or_raise found (http execution_not_found)

-- assignments to the row, and `db.commit()`
unfoldable pub write_row : String → (Execution → Execution) → Handler (Unit {0})
write_row id f = modify (λ w. record w { executions = update key_of id f w.executions })

-- `db.delete(execution)`, and `db.commit()`
unfoldable pub delete_row : String → Handler (Unit {0})
delete_row id = modify (λ w. record w { executions = remove key_of id w.executions })

-- `if not transition_allowed(execution.status, to): raise 409`
unfoldable pub check_transition : Execution → Status → Handler (Unit {0})
check_transition e to =
    raise_if (not (transition_allowed e.status to)) (http (invalid_transition e.status to))

unfoldable pub set_dispatched : ℕ → Execution → Execution
set_dispatched now e = record e { status = dispatched; dispatched_at = some now }

unfoldable pub mark_dispatched : Settings → String → Handler Execution
mark_dispatched cfg id = do
  e ← get_row id
  raise_found (
      Option.map (λ v. http (policy_violation v))
        (guardrails_violation cfg (some (text_or e.execution_type "command")) (some e.command)))
  check_transition e dispatched
  now ← gets (λ w. w.clock)
  write_row id (set_dispatched now)
  pure (set_dispatched now e)

unfoldable pub base_envelope : Execution → ℕ → Envelope
base_envelope e now = record {
  execution_id = e.id;
  device_id = e.device_id;
  command = e.command;
  execution_type = text_or e.execution_type "command";
  correlation_id = e.correlation_id;
  kafka_dispatched_at = now;
  plugin = none;
  device_capabilities = none;
  args = none;
}

-- the answer of the plugin service, and the checks on it
unfoldable pub checked_plugin : Reply PluginData → Outcome Raised PluginData
checked_plugin unavailable = raised (http plugin_service_unavailable)
checked_plugin (refused _) = raised (http plugin_not_in_registry)
checked_plugin (replied d) =
    if opt_eq d.status (some "active") then ok d else raised (http (plugin_not_active d.status))

unfoldable pub plugin_section : Option String → PluginData → PluginSection
plugin_section id d = record {
  id = id;
  metadata = d;
  timeout_seconds = get_field_or d.timeout_seconds (some 30);
  memory_limit_mb = get_field_or d.memory_limit_mb (some 64);
  permissions = get_field_or d.permissions (some []);
  required_capabilities = get_field_or d.required_capabilities (some []);
}

-- `"wasm_wasi" in (... .get("required_capabilities") or [])`
abbrev pub needs_wasm : Option (List String) → Bool
needs_wasm none = false
needs_wasm (some l) = member "wasm_wasi" l

-- The capabilities to send along; an unreachable device service is passed over.
unfoldable pub checked_device :
    Option String
    → PluginSection
    → (String → Reply Capabilities)
    → Outcome Raised (Option Capabilities)
checked_device none plugin ask = ok none
checked_device (some d) plugin ask = if d == "" then ok none else elim (ask d) [
  | unavailable ↦ ok none
  | refused _ ↦ ok none
  | replied caps ↦
      if needs_wasm plugin.required_capabilities && not caps.wasm_wasi
      then raised (http (capability_not_declared d))
      else ok (some caps)
]

-- what a function execution adds to the message
unfoldable pub complete_envelope : Services → Execution → Envelope → Outcome Raised Envelope
unfolding checked_plugin plugin_section checked_device
complete_envelope ext e env =
    if is_function (some (text_or e.execution_type "command"))
    then and_then (checked_plugin (ext.get_plugin e.plugin_id)) (λ d.
      let section : PluginSection = plugin_section e.plugin_id d in
      and_then (checked_device e.device_id section ext.get_device) (λ caps.
        ok (record env { plugin = some section; device_capabilities = caps; args = e.args })))
    else ok env

module _ (cfg : Settings) (ext : Services) where
  -- without a request the service itself acts
  unfoldable pub announce : Execution → Option Request → Envelope → Handler (Unit {0})
  announce e none env = do
    emit_audit "execution.dispatched" e.id e.tenant_id (some "system") e.tenant_id ("system" ∷ [])
        e.correlation_id
    publish_event ext cfg.kafka_retry_attempts "dispatched" e.id (envelope env)
  announce e (some req) env = do
    emit_audit "execution.dispatched" e.id e.tenant_id req.user_id req.tenant_id req.roles
        req.correlation_id
    publish_event ext cfg.kafka_retry_attempts "dispatched" e.id (envelope env)

  unfoldable pub dispatch_execution : String → Option Request → Handler ExecutionView
  dispatch_execution id req = do
    e ← mark_dispatched cfg id
    now ← gets (λ w. w.clock)
    env ← lift (complete_envelope ext e (base_envelope e now))
    announce e req env
    pure (execution_to_dict e true)
