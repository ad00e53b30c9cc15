-- ===== src/Execution/Respects/Fleets.antt =====
-- The operations made of many creations and dispatches go along too: each loop
-- by induction on its list.
use nexora_platform.Prelude.{
  ◌&&◌, ◌==◌, keep, ℕ, suc, String, Bool, Option, none, some, List, [], ◌∷◌, ◌++◌, drop, take,
}
use nexora_platform.Prelude.Text.{Json, Field}
use nexora_platform.Prelude.Action.{pure, gets, try_call, ◌>>=◌}
use nexora_platform.Prelude.Action.Along.{
  Preorder, Along, Along-pure, Along-raise, Along-raise_if, Along-or_raise, Along-lift, Along-bind,
  Along-gets, Along-if, Along-try_call, Along-Outcome,
}
use nexora_platform.Execution.Model.{FunctionTrigger}
use nexora_platform.Execution.World.{Settings, Services, Request, World, Handler}
use nexora_platform.Execution.Create.{CreatePayload}
use nexora_platform.Execution.Triggers.{
  Message, not_json, not_an_object, event, fire_trigger, fire_all, consume_event,
}
use nexora_platform.Execution.Functions.{
  catch_http, create_and_dispatch, create_and_dispatch_function,
}
use nexora_platform.Execution.Runbook.{
  Step, object, not_object, StepFields, RunbookPayload, run_step, run_steps, execute_runbook,
}
use nexora_platform.Execution.Rollout.{
  RolloutPayload, start_on_device, run_ring, run_rings, rollout_execution_to_fleet,
}
use nexora_platform.Execution.Deploy.{
  install_on_device, cancel_created, deploy_devices, deploy_function_to_fleet, invoke_devices,
  invoke_function_on_fleet,
}
use nexora_platform.Execution.Respects.{Respects, AddsFreely}
use nexora_platform.Execution.Respects.Handlers.{new_uuid-Along, dispatch_execution-Along}
use nexora_platform.Execution.Respects.Creation.{create_execution-Along, start_triggered-Along}

pub Along-catch_http :
    {A : Type 0} (R : World → World → Type 0) (m : Handler A) → Along R m → Along R (catch_http m)
unfolding catch_http
Along-catch_http R m h = record { at = h.at }

module _ (cfg : Settings) (ext : Services) (R : World → World → Type 0)
    (law : Respects cfg ext R) where
  abbrev pre : Preorder R
  pre = law.order

  fire_trigger-Along :
      AddsFreely ext R → (t : FunctionTrigger) (m : Message) → Along R (fire_trigger cfg ext t m)
  unfolding fire_trigger
  fire_trigger-Along free t m = Along-bind R pre _ _ (Along-lift R pre _) (λ d.
      Along-if R pre _ _ _ (Along-pure R pre _) (
        Along-bind R pre _ _ (Along-try_call R pre _ (start_triggered-Along cfg ext R law free t d))
          (λ _. Along-pure R pre _)))

  pub fire_all-Along :
      AddsFreely ext R → (ts : List FunctionTrigger) (m : Message) → Along R (fire_all cfg ext ts m)
  unfolding fire_all
  fire_all-Along free [] m = Along-pure R pre _
  fire_all-Along free (t ∷ ts) m =
      Along-bind R pre _ _ (Along-if R pre _ _ _ (fire_trigger-Along free t m) (Along-pure R pre _))
        (λ _. fire_all-Along free ts m)

  logged-Along :
      AddsFreely ext R
      → (event_type : String) (m : Message)
      → Along R (
          gets (λ w. keep (λ t. t.event_type == event_type && t.is_active) w.triggers) >>= λ ts.
          try_call (fire_all cfg ext ts m) >>= λ _. pure tt)
  logged-Along free event_type m = Along-bind R pre _ _ (Along-gets R pre _) (λ ts.
      Along-bind R pre _ _ (Along-try_call R pre _ (fire_all-Along free ts m))
        (λ _. Along-pure R pre _))

  pub consume_event-Along :
      AddsFreely ext R
      → (event_type : String) (m : Message) → Along R (consume_event cfg ext event_type m)
  unfolding consume_event
  consume_event-Along free event_type not_json = Along-pure R pre _
  consume_event-Along free event_type not_an_object = logged-Along free event_type not_an_object
  consume_event-Along free event_type (event ev) = logged-Along free event_type (event ev)

  module _ (req : Request) where
    pub create_and_dispatch-Along :
        (p : CreatePayload) → Along R (create_and_dispatch cfg ext req p)
    unfolding create_and_dispatch
    create_and_dispatch-Along p =
        Along-bind R pre _ _ (create_execution-Along cfg ext R law req none p)
          (λ v. dispatch_execution-Along cfg ext R law v.id (some req))

    start_on_device-Along : (p : CreatePayload) → Along R (start_on_device cfg ext req p)
    unfolding start_on_device
    start_on_device-Along p =
        Along-bind R pre _ _ (create_execution-Along cfg ext R law req none p) (λ v.
          Along-bind R pre _ _ (dispatch_execution-Along cfg ext R law v.id (some req))
            (λ _. Along-pure R pre _))

    run_step-Along : (s : StepFields) (d : String) → Along R (run_step cfg ext req s d)
    unfolding run_step start_on_device
    run_step-Along s d = Along-bind R pre _ _ (Along-lift R pre _) (λ p. start_on_device-Along p)

    run_steps-Along :
        (stop : Bool) (d : String) (idx : ℕ) (steps : List Step)
        → Along R (run_steps cfg ext req stop d idx steps)
    unfolding run_steps
    run_steps-Along stop d idx [] = Along-pure R pre _
    run_steps-Along stop d idx (not_object ∷ steps) = Along-raise R pre _
    run_steps-Along stop d idx (object s ∷ steps) =
        Along-bind R pre _ _ (Along-catch_http R _ (run_step-Along s d)) (λ r.
          Along-if R pre _ _ _ (Along-pure R pre _) (
            Along-bind R pre _ _ (run_steps-Along stop d (suc idx) steps)
              (λ _. Along-pure R pre _)))

    pub execute_runbook-Along : (p : RunbookPayload) → Along R (execute_runbook cfg ext req p)
    unfolding execute_runbook
    execute_runbook-Along p = Along-bind R pre _ _ (Along-raise_if R pre _ _) (λ _.
        Along-bind R pre _ _ (Along-or_raise R pre _ _) (λ d.
          Along-bind R pre _ _ (Along-raise_if R pre _ _) (λ _.
            Along-bind R pre _ _ (new_uuid-Along cfg ext R law) (λ _.
              Along-bind R pre _ _ (run_steps-Along p.stop_on_failure d 1 p.steps)
                (λ _. Along-pure R pre _)))))

    run_ring-Along :
        (f : String → CreatePayload) (ds : List String) → Along R (run_ring cfg ext req f ds)
    unfolding run_ring
    run_ring-Along f [] = Along-pure R pre _
    run_ring-Along f (d ∷ ds) =
        Along-bind R pre _ _ (Along-catch_http R _ (start_on_device-Along (f d)))
          (λ r. Along-bind R pre _ _ (run_ring-Along f ds) (λ _. Along-pure R pre _))

    run_rings-Along :
        (stop : Bool) (f : String → CreatePayload) (index : ℕ) (sizes : List ℕ) (left : List String)
        → Along R (run_rings cfg ext req stop f index sizes left)
    unfolding run_rings
    run_rings-Along stop f index [] left = Along-pure R pre _
    run_rings-Along stop f index (size ∷ sizes) left =
        Along-bind R pre _ _ (run_ring-Along f (take size left)) (λ items.
          Along-if R pre _ _ _ (Along-pure R pre _) (
            Along-bind R pre _ _ (run_rings-Along stop f (suc index) sizes (drop size left))
              (λ _. Along-pure R pre _)))

    pub rollout-Along :
        (fleet_id : String) (p : RolloutPayload)
        → Along R (rollout_execution_to_fleet cfg ext req fleet_id p)
    unfolding rollout_execution_to_fleet
    rollout-Along fleet_id p = Along-bind R pre _ _ (Along-lift R pre _) (λ ds.
        Along-bind R pre _ _ (Along-raise_if R pre _ _) (λ _.
          Along-bind R pre _ _ (Along-lift R pre _) (λ command.
            Along-bind R pre _ _ (Along-lift R pre _) (λ sizes.
              Along-bind R pre _ _ (new_uuid-Along cfg ext R law) (λ _.
                Along-bind R pre _ _ (run_rings-Along p.stop_on_failure _ 1 sizes ds)
                  (λ _. Along-pure R pre _))))))

    cancel_created-Along : (ids : List String) → Along R (cancel_created cfg ext req ids)
    unfolding cancel_created
    cancel_created-Along [] = Along-pure R pre _
    cancel_created-Along (id ∷ ids) = cancel_created-Along ids

    install_on_device-Along : (p : CreatePayload) → Along R (install_on_device cfg ext req p)
    unfolding install_on_device
    install_on_device-Along p =
        Along-bind R pre _ _ (create_execution-Along cfg ext R law req none p)
          (λ _. Along-raise R pre _)

    deploy_devices-Along :
        (stop : Bool) (function_id : String) (ids ds : List String)
        → Along R (deploy_devices cfg ext req stop function_id ids ds)
    unfolding deploy_devices
    deploy_devices-Along stop function_id ids [] = Along-pure R pre _
    deploy_devices-Along stop function_id ids (d ∷ ds) =
        Along-bind R pre _ _ (Along-catch_http R _ (install_on_device-Along _)) (λ r.
          Along-Outcome R pre r _ _
            (λ id. deploy_devices-Along stop function_id (ids ++ id ∷ []) ds)
            (λ e.
              Along-if R pre stop _ _
                (Along-bind R pre _ _ (cancel_created-Along ids) (λ _. Along-raise R pre _))
                (deploy_devices-Along stop function_id ids ds)))

    pub deploy-Along :
        (fleet_id function_id : String) (stop : Bool)
        → Along R (deploy_function_to_fleet cfg ext req fleet_id function_id stop)
    unfolding deploy_function_to_fleet
    deploy-Along fleet_id function_id stop = Along-bind R pre _ _ (Along-lift R pre _) (λ ds.
        Along-bind R pre _ _ (Along-raise_if R pre _ _) (λ _.
          Along-bind R pre _ _ (new_uuid-Along cfg ext R law) (λ _.
            Along-bind R pre _ _ (deploy_devices-Along stop function_id [] ds)
              (λ _. Along-pure R pre _))))

    invoke_devices-Along :
        (function_id : String) (args : Option Json) (mode : Option String) (ds : List String)
        → Along R (invoke_devices cfg ext req function_id args mode ds)
    unfolding invoke_devices create_and_dispatch_function
    invoke_devices-Along function_id args mode [] = Along-pure R pre _
    invoke_devices-Along function_id args mode (d ∷ ds) =
        Along-bind R pre _ _
          (Along-catch_http R _
            (Along-bind R pre _ _ (create_and_dispatch-Along _) (λ v. Along-pure R pre _)))
          (λ r.
            Along-bind R pre _ _ (invoke_devices-Along function_id args mode ds)
              (λ _. Along-pure R pre _))

    pub invoke_fleet-Along :
        (fleet_id function_id : String) (args : Option Json) (mode : Field String)
        → Along R (invoke_function_on_fleet cfg ext req fleet_id function_id args mode)
    unfolding invoke_function_on_fleet
    invoke_fleet-Along fleet_id function_id args mode =
        Along-bind R pre _ _ (Along-lift R pre _) (λ ds.
          Along-bind R pre _ _ (Along-raise_if R pre _ _) (λ _.
            Along-bind R pre _ _ (invoke_devices-Along function_id args _ ds)
              (λ _. Along-pure R pre _)))
