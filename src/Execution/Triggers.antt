-- ===== src/Execution/Triggers.antt =====
-- Function triggers: their table, the filter on events, and what a matching event starts
-- (`_trigger_matches_filter`, `_fire_trigger`, `_trigger_consumer_loop` and the trigger endpoints of
-- services/execution-service/main.py).
pub mod Consumer
use nexora_platform.Prelude.{
  String, Bool, true, false, not, ◌&&◌, ◌||◌, Option, none, some, List, [], ◌∷◌, ◌++◌, keep,
  is_some, ◌==◌, if◌then◌else◌,
}
use nexora_platform.Prelude.Text.{Json, Field, given_or, truthy, opt_eq, append, member}
use nexora_platform.Prelude.Action.{
  Outcome, ok, raised, lift, gets, modify, pure, raise_if, or_raise, try_call, ◌>>=◌, ◌>>◌,
}
use nexora_platform.Prelude.Table.{find, update, remove}
use nexora_platform.Execution.Status.{queued}
use nexora_platform.Execution.Model.{Execution, FunctionTrigger, Filter, object, not_object}
use nexora_platform.Execution.World.{
  Raised, attribute_error, Settings, Services, Request, World, Handler, http, integrity_error,
  trigger_not_found, event_type_required, function_id_required, new_uuid,
}
use nexora_platform.Execution.Create.{insert_execution}
use nexora_platform.Execution.Dispatch.{dispatch_execution}

-- What an event has under `payload`: nothing, an object with a device or not, or something else.
pub data PayloadPart : Type 0 where
  no_payload : PayloadPart
  payload_object : (device_id : Option String) → PayloadPart
  payload_other : PayloadPart

-- An event from the broker that is an object: its fields, its device, and its payload.
pub record Incoming : Type 0 where
  pub fields : List (String × Json)
  pub device_id : Option String
  pub payload : PayloadPart

-- The value of a message: no JSON, JSON that is no object, or an event.
pub data Message : Type 0 where
  not_json not_an_object : Message
  event : Incoming → Message

abbrev json_eq : Json → Json → Bool
json_eq a b = a.text == b.text

-- `event_payload.get(k) == v`; a missing field is equal to null
unfoldable pub field_is : String → Json → List (String × Json) → Bool
field_is k v [] = v.text == "null"
field_is k v ((j, x) ∷ fs) = if j == k then json_eq x v else field_is k v fs

unfoldable pub matches_all : List (String × Json) → List (String × Json) → Bool
unfolding field_is
matches_all [] fields = true
matches_all ((k, v) ∷ cs) fields = field_is k v fields && matches_all cs fields

-- no filter, or one that is no object, lets every event pass
unfoldable pub trigger_matches_filter : Option Filter → List (String × Json) → Bool
unfolding matches_all
trigger_matches_filter none fields = true
trigger_matches_filter (some (not_object _)) fields = true
trigger_matches_filter (some (object cs)) fields = matches_all cs fields

-- the filter on a message; one that is no object raises in `get`, which lets it pass
unfoldable pub passes_filter : Option Filter → Message → Bool
unfolding trigger_matches_filter
passes_filter f (event ev) = trigger_matches_filter f ev.fields
passes_filter f _ = true

-- `event_payload.get("payload", {}).get("device_id")`
abbrev pub device_of_payload : PayloadPart → Outcome Raised (Option String)
device_of_payload no_payload = ok none
device_of_payload (payload_object d) = ok d
device_of_payload payload_other = raised attribute_error

abbrev pub device_of_event : Message → Outcome Raised (Option String)
device_of_event (event ev) =
    if truthy ev.device_id then ok ev.device_id else device_of_payload ev.payload
device_of_event _ = raised attribute_error

-- the device to run on
unfoldable pub target_device : FunctionTrigger → Message → Outcome Raised (Option String)
target_device t m =
    if t.target_type == "same_device"
    then device_of_event m
    else if t.target_type == "device"
    then ok t.target_id
    else ok none

abbrev pub wants_device : String → Bool
wants_device target_type = target_type == "same_device" || target_type == "device"

module _ (cfg : Settings) (ext : Services) where
  unfoldable pub start_triggered : FunctionTrigger → Option String → Handler (Unit {0})
  start_triggered t device_id = do
    now ← gets (λ w. w.clock)
    execution_id ← new_uuid ext
    correlation_id ← new_uuid ext
    let row : Execution = record {
      id = execution_id;
      device_id = device_id;
      command = append "trigger:" t.id;
      status = queued;
      correlation_id = some correlation_id;
      idempotency_key = none;
      exit_code = none;
      result_stdout = none;
      result_stderr = none;
      tenant_id = t.tenant_id;
      owner_id = some "trigger-system";
      created_at = some now;
      dispatched_at = none;
      running_at = none;
      execution_type = some "function.invoke";
      plugin_id = some t.function_id;
      args = some (record { text = "{}" });
      function_result = none;
      invocation_mode = some "async";
    }
    insert_execution row
    dispatch_execution cfg ext execution_id none
    pure tt

  -- `_fire_trigger`: what is raised while it looks for the device goes to the caller; whatever is
  -- raised while it starts the execution is logged and dropped
  unfoldable pub fire_trigger : FunctionTrigger → Message → Handler (Unit {0})
  unfolding target_device
  fire_trigger t m = do
    device_id ← lift (target_device t m)
    if not (truthy device_id) && wants_device t.target_type
        then pure tt
        else (do try_call (start_triggered t device_id); pure tt)

  -- the loop over the triggers
  unfoldable pub fire_all : List FunctionTrigger → Message → Handler (Unit {0})
  unfolding passes_filter
  fire_all [] m = pure tt
  fire_all (t ∷ ts) m = do
    if passes_filter t.filter_expr m then fire_trigger t m else pure tt
    fire_all ts m

  -- One message of `_trigger_consumer_loop`, of the event type that its topic names. Whatever is
  -- raised is logged, and the consumer goes on with the next message.
  unfoldable pub consume_event : String → Message → Handler (Unit {0})
  consume_event event_type not_json = pure tt
  consume_event event_type m = do
    selected ← gets (λ w. keep (λ t. t.event_type == event_type && t.is_active) w.triggers)
    try_call (fire_all selected m)
    pure tt

-- The endpoints.
pub record TriggerPayload : Type 0 where
  pub event_type : Option String
  pub function_id : Option String
  pub target_type : Field String
  pub target_id : Option String
  pub filter_expr : Option Filter

-- `json.dumps(f) if payload.get("filter_expr") else None`: an empty value is no filter
unfoldable pub stored_filter : Option Filter → Option Filter
stored_filter (some (object [])) = none
stored_filter (some (not_object j)) =
    if member j.text ("0" ∷ "0.0" ∷ "false" ∷ "[]" ∷ "\"\"" ∷ "null" ∷ [])
    then none
    else some (not_object j)
stored_filter f = f

abbrev pub trigger_key : FunctionTrigger → String
trigger_key t = t.id

unfoldable pub get_trigger : String → Handler FunctionTrigger
get_trigger id = do
  found ← gets (λ w. find trigger_key id w.triggers)
  or_raise found (http trigger_not_found)

unfoldable pub create_trigger : Services → Request → TriggerPayload → Handler FunctionTrigger
create_trigger ext req p = do
  raise_if (not (truthy p.event_type)) (http event_type_required)
  raise_if (not (truthy p.function_id)) (http function_id_required)
  event_type ← or_raise p.event_type (http event_type_required)
  function_id ← or_raise p.function_id (http function_id_required)
  id ← new_uuid ext
  now ← gets (λ w. w.clock)
  let row : FunctionTrigger = record {
    id = id;
    event_type = event_type;
    function_id = function_id;
    target_type = given_or p.target_type "same_device";
    target_id = p.target_id;
    filter_expr = stored_filter p.filter_expr;
    is_active = true;
    tenant_id = req.tenant_id;
    created_at = some now;
  }
  taken ← gets (λ w. is_some (find trigger_key id w.triggers))
  raise_if taken integrity_error
  modify (λ w. record w { triggers = w.triggers ++ row ∷ [] })
  pure row

unfoldable pub list_triggers : Option String → World → List FunctionTrigger
list_triggers event_type w =
    if truthy event_type
    then keep (λ t. opt_eq (some t.event_type) event_type) w.triggers
    else w.triggers

unfoldable pub delete_trigger : String → Handler (Unit {0})
delete_trigger id = do
  get_trigger id
  modify (λ w. record w { triggers = remove trigger_key id w.triggers })

unfoldable pub set_active : Bool → FunctionTrigger → FunctionTrigger
set_active b t = record t { is_active = b }

unfoldable pub enable_trigger : String → Handler FunctionTrigger
enable_trigger id = do
  t ← get_trigger id
  modify (λ w. record w { triggers = update trigger_key id (set_active true) w.triggers })
  pure (set_active true t)

unfoldable pub disable_trigger : String → Handler FunctionTrigger
disable_trigger id = do
  t ← get_trigger id
  modify (λ w. record w { triggers = update trigger_key id (set_active false) w.triggers })
  pure (set_active false t)
