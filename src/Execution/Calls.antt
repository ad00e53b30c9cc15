-- ===== src/Execution/Calls.antt =====
-- Everything that can happen to the service, as one type of calls, and a run of them: the endpoints
-- that write, events from the broker, rounds of the timeout loop, and what happens around it.
use nexora_platform.Prelude.{ℕ, ◌+◌, String, Bool, Option, some, List, [], ◌∷◌}
use nexora_platform.Prelude.Text.{Json, Field}
use nexora_platform.Execution.World.{Settings, Services, Request, World}
use nexora_platform.Execution.Create.{CreatePayload, create_execution}
use nexora_platform.Execution.Dispatch.{dispatch_execution}
use nexora_platform.Execution.Callback.{CallbackPayload, callback_execution}
use nexora_platform.Execution.Access.{cancel_execution, delete_execution}
use nexora_platform.Execution.Timeouts.{timeout_round}
use nexora_platform.Execution.Triggers.{
  Message, TriggerPayload, consume_event, create_trigger, delete_trigger, enable_trigger,
  disable_trigger,
}
use nexora_platform.Execution.Functions.{InvokePayload, invoke_function, invoke_function_on_device}
use nexora_platform.Execution.Runbook.{RunbookPayload, execute_runbook}
use nexora_platform.Execution.Rollout.{RolloutPayload, rollout_execution_to_fleet}
use nexora_platform.Execution.Deploy.{deploy_function_to_fleet, invoke_function_on_fleet}

pub data Call : Type 0 where
  create : Request → (x_tenant_id : Option String) → CreatePayload → Call
  dispatch : Request → (id : String) → Call
  callback : (id : String) → CallbackPayload → Call
  cancel delete : Request → (id : String) → Call
  invoke : Request → (plugin_id : String) → InvokePayload → Call
  invoke_on : Request → (device_id plugin_id : String) → InvokePayload → Call
  runbook : Request → RunbookPayload → Call
  rollout : Request → (fleet_id : String) → RolloutPayload → Call
  deploy : Request → (fleet_id function_id : String) → (stop_on_failure : Bool) → Call
  invoke_fleet : Request → (fleet_id function_id : String) → Option Json → Field String → Call
  new_trigger : Request → TriggerPayload → Call
  drop_trigger enable disable : (id : String) → Call
  event : (event_type : String) → Message → Call
  timeouts : Call
  -- time passes, and the producer connects or is lost
  wait : (microseconds : ℕ) → Call
  producer : (connected : Bool) → Call

module _ (cfg : Settings) (ext : Services) where
  unfoldable pub perform : Call → World → World
  perform (create req x p) w = (create_execution cfg ext req x p w).1
  perform (dispatch req id) w = (dispatch_execution cfg ext id (some req) w).1
  perform (callback id p) w = (callback_execution cfg ext id p w).1
  perform (cancel req id) w = (cancel_execution cfg ext req id w).1
  perform (delete req id) w = (delete_execution cfg ext req id w).1
  perform (invoke req plugin_id p) w = (invoke_function cfg ext req plugin_id p w).1
  perform (invoke_on req d plugin_id p) w =
      (invoke_function_on_device cfg ext req d plugin_id p w).1
  perform (runbook req p) w = (execute_runbook cfg ext req p w).1
  perform (rollout req fleet_id p) w = (rollout_execution_to_fleet cfg ext req fleet_id p w).1
  perform (deploy req fleet_id function_id stop) w =
      (deploy_function_to_fleet cfg ext req fleet_id function_id stop w).1
  perform (invoke_fleet req fleet_id function_id args mode) w =
      (invoke_function_on_fleet cfg ext req fleet_id function_id args mode w).1
  perform (new_trigger req p) w = (create_trigger ext req p w).1
  perform (drop_trigger id) w = (delete_trigger id w).1
  perform (enable id) w = (enable_trigger id w).1
  perform (disable id) w = (disable_trigger id w).1
  perform (event event_type m) w = (consume_event cfg ext event_type m w).1
  perform timeouts w = timeout_round cfg w
  perform (wait n) w = record w { clock = w.clock + n }
  perform (producer b) w = record w { producer_connected = b }

  unfoldable pub perform_all : List Call → World → World
  unfolding perform
  perform_all [] w = w
  perform_all (c ∷ cs) w = perform_all cs (perform c w)
