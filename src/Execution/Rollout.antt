-- ===== src/Execution/Rollout.antt =====
-- `rollout_execution_to_fleet` of services/execution-service/main.py.
pub mod Runs
pub mod Order
use nexora_platform.Prelude.{
  ℕ, suc, String, Bool, true, false, ◌&&◌, Option, none, some, List, [], ◌∷◌, ◌++◌, length, count,
  take, drop, ltb, nat_eq, if◌then◌else◌,
}
use nexora_platform.Prelude.Text.{
  Json, Field, missing, given, get_field_or, truthy, text_or, append,
}
use nexora_platform.Prelude.Action.{Outcome, ok, raised, pure, lift, raise_if, ◌>>=◌, ◌>>◌}
use nexora_platform.Execution.Model.{is_function}
use nexora_platform.Execution.World.{
  Settings, Services, Request, Handler, Raised, HttpError, http, plugin_id_required,
  command_required, fleet_not_found, fleet_service_unavailable, fleet_has_no_members, Reply,
  unavailable, refused, replied, new_uuid,
}
use nexora_platform.Execution.Create.{CreatePayload, create_execution}
use nexora_platform.Execution.Dispatch.{dispatch_execution}
use nexora_platform.Execution.Functions.{
  set_to, catch_http, ItemStatus, dispatched, error, is_dispatched, is_error,
}
use nexora_platform.Execution.Rings.{RingPayload, compute_canary_rings}

-- `_get_fleet_members`: 404 is passed on, any other failure is 503
unfoldable pub fleet_members : Reply (List String) → Outcome Raised (List String)
fleet_members unavailable = raised (http fleet_service_unavailable)
fleet_members (refused code) =
    if nat_eq code 404
    then raised (http fleet_not_found)
    else raised (http fleet_service_unavailable)
fleet_members (replied ids) = ok ids

-- What became of one device.
pub record Item : Type 0 where
  pub device_id : String
  pub execution_id : Option String
  pub status : ItemStatus
  pub detail : Option HttpError

unfoldable pub item_of : String → Outcome HttpError String → Item
item_of d (ok id) = record {
  device_id = d;
  execution_id = some id;
  status = dispatched;
  detail = none;
}
item_of d (raised e) = record {
  device_id = d;
  execution_id = none;
  status = error;
  detail = some e;
}

unfoldable pub count_dispatched : List Item → ℕ
count_dispatched = count (λ r. is_dispatched r.status)

unfoldable pub count_failed : List Item → ℕ
count_failed = count (λ r. is_error r.status)

pub record RingResult : Type 0 where
  pub ring : ℕ
  pub ring_size : ℕ
  pub dispatched : ℕ
  pub failed : ℕ
  pub results : List Item

unfoldable pub ring_result : ℕ → List Item → ℕ → RingResult
unfolding count_dispatched count_failed
ring_result index items size = record {
  ring = index;
  ring_size = size;
  dispatched = count_dispatched items;
  failed = count_failed items;
  results = items;
}

-- The rings that ran, and whether the loop was left at a ring with failures.
pub record Progress : Type 0 where
  pub rings : List RingResult
  pub stopped : Bool

pub record RolloutPayload : Type 0 where
  pub execution_type : Field String
  pub command : Option String
  pub plugin_id : Option String
  pub args : Option Json
  pub mode : Field String
  pub stop_on_failure : Bool
  pub rings : RingPayload

pub data RolloutStatus : Type 0 where
  stopped_on_failure rolling_out : RolloutStatus

pub record RolloutReport : Type 0 where
  pub rollout_id : String
  pub fleet_id : String
  pub total : ℕ
  pub planned_rings : ℕ
  pub completed_rings : ℕ
  pub dispatched : ℕ
  pub failed : ℕ
  pub status : RolloutStatus
  pub rings : List RingResult

unfoldable pub all_results : List RingResult → List Item
all_results [] = []
all_results (r ∷ rs) = r.results ++ all_results rs

-- the command of the rollout, for its execution type
unfoldable pub rollout_command : RolloutPayload → Outcome Raised String
rollout_command p =
    let execution_type = get_field_or p.execution_type (some "command") in
    if is_function execution_type
    then (if truthy p.plugin_id
        then ok (
            text_or p.command
              (append (text_or execution_type "") (append ":" (text_or p.plugin_id ""))))
        else raised (http plugin_id_required))
    else if truthy p.command
    then ok (text_or p.command "")
    else raised (http command_required)

unfoldable pub device_payload : RolloutPayload → String → String → CreatePayload
device_payload p command d = record {
  idempotency_key = none;
  device_id = some d;
  type = missing;
  execution_type = set_to (get_field_or p.execution_type (some "command"));
  command = given command;
  plugin_id = (if truthy p.plugin_id then p.plugin_id else none);
  args = p.args;
  mode = set_to (get_field_or p.mode (some "async"));
}

module _ (cfg : Settings) (ext : Services) (req : Request) where
  -- the body of the `try`
  unfoldable pub start_on_device : CreatePayload → Handler String
  start_on_device p = do
    created ← create_execution cfg ext req none p
    dispatch_execution cfg ext created.id (some req)
    pure created.id

  unfoldable pub run_ring : (String → CreatePayload) → List String → Handler (List Item)
  run_ring payload_for [] = pure []
  run_ring payload_for (d ∷ ds) = do
    r ← catch_http (start_on_device (payload_for d))
    rest ← run_ring payload_for ds
    pure (item_of d r ∷ rest)

  -- the loop over the rings; `left` are the devices from the cursor on
  unfoldable pub run_rings :
      Bool → (String → CreatePayload) → ℕ → List ℕ → List String → Handler Progress
  run_rings stop payload_for index [] left = pure (record { rings = []; stopped = false })
  run_rings stop payload_for index (size ∷ sizes) left =
      let rest = run_rings stop payload_for (suc index) sizes (drop size left) in
      do
        items ← run_ring payload_for (take size left)
        let ring = ring_result index items (length (take size left))
        if stop && ltb 0 ring.failed
            then pure (record { rings = ring ∷ []; stopped = true })
            else (do
              later ← rest
              pure (record { rings = ring ∷ later.rings; stopped = later.stopped }))

  unfoldable pub rollout_execution_to_fleet : String → RolloutPayload → Handler RolloutReport
  rollout_execution_to_fleet fleet_id p = do
    device_ids ← lift (fleet_members (ext.get_fleet_members fleet_id))
    raise_if (elim device_ids [ [] ↦ true | _ ∷ _ ↦ false ]) (http fleet_has_no_members)
    command ← lift (rollout_command p)
    ring_sizes ← lift (compute_canary_rings (length device_ids) p.rings)
    rollout_id ← new_uuid ext
    progress ← run_rings p.stop_on_failure (device_payload p command) 1 ring_sizes device_ids
    pure (record {
      rollout_id = rollout_id;
      fleet_id = fleet_id;
      total = length device_ids;
      planned_rings = length ring_sizes;
      completed_rings = length progress.rings;
      dispatched = count_dispatched (all_results progress.rings);
      failed = count_failed (all_results progress.rings);
      status = (if progress.stopped then stopped_on_failure else rolling_out);
      rings = progress.rings;
    })
