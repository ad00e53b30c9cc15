-- ===== src/Execution/Deploy.antt =====
-- Functions on a whole fleet: `deploy_function_to_fleet`, `fleet_deploy_status` and
-- `invoke_function_on_fleet` of services/execution-service/main.py.
pub mod Counts
use nexora_platform.Prelude.{
  ℕ, ◌+◌, String, Bool, true, false, ◌&&◌, Option, none, some, List, [], ◌∷◌, ◌++◌, keep, length,
  count, if◌then◌else◌,
}
use nexora_platform.Prelude.Text.{
  Json, Field, missing, given, get_field_or, append, opt_eq, opt_member,
}
use nexora_platform.Prelude.Action.{ok, raised, pure, lift, raise, raise_if, gets, ◌>>=◌, ◌>>◌}
use nexora_platform.Execution.Status.{Status, queued, dispatched, running, succeeded, failed}
use nexora_platform.Execution.Model.{Execution}
use nexora_platform.Execution.World.{
  Settings, Services, Request, Handler, http, type_error, fleet_has_no_members, deploy_stopped,
  new_uuid,
}
use nexora_platform.Execution.Create.{CreatePayload, create_execution}
use nexora_platform.Execution.Functions.{catch_http, create_and_dispatch_function}
use nexora_platform.Execution.Rollout.{fleet_members, Item, item_of}

abbrev pub install_payload : String → String → CreatePayload
install_payload function_id d = record {
  idempotency_key = none;
  device_id = some d;
  type = given "function.install";
  execution_type = missing;
  command = given (append "function.install:" function_id);
  plugin_id = some function_id;
  args = none;
  mode = missing;
}

pub record DeployReport : Type 0 where
  pub deployment_id : String
  pub fleet_id : String
  pub function_id : String
  pub total : ℕ
  pub dispatched : ℕ
  pub execution_ids : List String

pub record FleetInvokeReport : Type 0 where
  pub fleet_id : String
  pub function_id : String
  pub total : ℕ
  pub results : List Item

module _ (cfg : Settings) (ext : Services) (req : Request) where
  -- The body of the `try`. The call `dispatch_execution(exec_id)` leaves out the parameter `request`,
  -- so it raises `TypeError`, and the id is never appended.
  unfoldable pub install_on_device : CreatePayload → Handler String
  install_on_device p = do created ← create_execution cfg ext req none p; raise type_error

  -- `for eid in created_ids: try: await cancel_execution(eid)  except Exception: pass`. This call too
  -- leaves out `request`, and its `TypeError` is dropped.
  unfoldable pub cancel_created : List String → Handler (Unit {0})
  cancel_created [] = pure tt
  cancel_created (id ∷ ids) = cancel_created ids

  unfoldable pub deploy_devices : Bool → String → List String → List String → Handler (List String)
  deploy_devices stop function_id created_ids [] = pure created_ids
  deploy_devices stop function_id created_ids (d ∷ ds) = do
    r ← catch_http (install_on_device (install_payload function_id d))
    elim r [
      | ok id ↦ deploy_devices stop function_id (created_ids ++ id ∷ []) ds
      | raised e ↦
          if stop
          then (do cancel_created created_ids; raise (http (deploy_stopped d e)))
          else deploy_devices stop function_id created_ids ds
    ]

  unfoldable pub deploy_function_to_fleet : String → String → Bool → Handler DeployReport
  deploy_function_to_fleet fleet_id function_id stop_on_failure = do
    device_ids ← lift (fleet_members (ext.get_fleet_members fleet_id))
    raise_if (elim device_ids [ [] ↦ true | _ ∷ _ ↦ false ]) (http fleet_has_no_members)
    deployment_id ← new_uuid ext
    created_ids ← deploy_devices stop_on_failure function_id [] device_ids
    pure (record {
      deployment_id = deployment_id;
      fleet_id = fleet_id;
      function_id = function_id;
      total = length device_ids;
      dispatched = length created_ids;
      execution_ids = created_ids;
    })

  unfoldable pub invoke_devices :
      String → Option Json → Option String → List String → Handler (List Item)
  invoke_devices function_id args mode [] = pure []
  invoke_devices function_id args mode (d ∷ ds) = do
    r ←
        catch_http (do
          v ← create_and_dispatch_function cfg ext req function_id (some d) args mode
          pure v.id)
    rest ← invoke_devices function_id args mode ds
    pure (item_of d r ∷ rest)

  unfoldable pub invoke_function_on_fleet :
      String → String → Option Json → Field String → Handler FleetInvokeReport
  invoke_function_on_fleet fleet_id function_id args mode = do
    device_ids ← lift (fleet_members (ext.get_fleet_members fleet_id))
    raise_if (elim device_ids [ [] ↦ true | _ ∷ _ ↦ false ]) (http fleet_has_no_members)
    results ← invoke_devices function_id args (get_field_or mode (some "async")) device_ids
    pure (record {
      fleet_id = fleet_id;
      function_id = function_id;
      total = length device_ids;
      results = results;
    })

-- `fleet_deploy_status`
abbrev pub is_install_of : String → List String → Execution → Bool
is_install_of function_id device_ids e =
    opt_eq e.plugin_id (some function_id)
    && opt_eq e.execution_type (some "function.install")
    && opt_member e.device_id device_ids

abbrev pub has_status : Status → Execution → Bool
has_status queued e = elim e.status [ queued ↦ true | _ ↦ false ]
has_status dispatched e = elim e.status [ dispatched ↦ true | _ ↦ false ]
has_status running e = elim e.status [ running ↦ true | _ ↦ false ]
has_status succeeded e = elim e.status [ succeeded ↦ true | _ ↦ false ]
has_status failed e = elim e.status [ failed ↦ true | _ ↦ false ]
has_status Status.timeout e = elim e.status [ Status.timeout ↦ true | _ ↦ false ]
has_status Status.cancelled e = elim e.status [ Status.cancelled ↦ true | _ ↦ false ]

pub record DeployStatus : Type 0 where
  pub total : ℕ
  pub installed : ℕ
  pub pending : ℕ
  pub failed : ℕ
  pub by_status : Status → ℕ

unfoldable pub deploy_status_of : String → List String → List Execution → DeployStatus
deploy_status_of function_id device_ids t =
    let rows = keep (is_install_of function_id device_ids) t in
    let counts = λ (s : Status). count (has_status s) rows in
    record {
      total = length device_ids;
      installed = counts succeeded;
      pending = counts queued + counts dispatched + counts running;
      failed = counts Status.failed;
      by_status = counts;
    }

unfoldable pub fleet_deploy_status : Services → String → String → Handler DeployStatus
fleet_deploy_status ext fleet_id function_id = do
  device_ids ← lift (fleet_members (ext.get_fleet_members fleet_id))
  gets (λ w. deploy_status_of function_id device_ids w.executions)
