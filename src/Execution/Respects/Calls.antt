-- ===== src/Execution/Respects/Calls.antt =====
-- Every call goes along a relation that allows the writes, and so does a run of calls. Events from
-- the broker add rows without regard to the limit on a device.
use nexora_platform.Prelude.Text.{Json}
use nexora_platform.Prelude.{
  ◌≡◌, refl, String, Bool, true, false, Option, some, List, [], ◌∷◌, any, ◌||◌, arith,
}
use nexora_platform.Prelude.Action.Along.{
  Preorder, Along, Along-pure, Along-raise_if, Along-or_raise, Along-bind, Along-gets, Along-modify,
}
use nexora_platform.Execution.Model.{FunctionTrigger}
use nexora_platform.Execution.World.{Settings, Services, Request, World}
use nexora_platform.Execution.Triggers.{
  TriggerPayload, get_trigger, create_trigger, delete_trigger, enable_trigger, disable_trigger,
}
use nexora_platform.Execution.Functions.{
  create_and_dispatch_function, invoke_function, invoke_function_on_device,
}
use nexora_platform.Execution.Calls.{
  Call, create, dispatch, callback, cancel, delete, invoke, invoke_on, runbook, rollout, deploy,
  invoke_fleet, new_trigger, drop_trigger, enable, disable, event, timeouts, wait, producer,
  perform, perform_all,
}
use nexora_platform.Execution.Respects.{Respects, AddsFreely}
use nexora_platform.Execution.Respects.Handlers.{
  new_uuid-Along, dispatch_execution-Along, callback_execution-Along, cancel_execution-Along,
  delete_execution-Along,
}
use nexora_platform.Execution.Respects.Creation.{create_execution-Along}
use nexora_platform.Execution.Respects.Fleets.{
  consume_event-Along, create_and_dispatch-Along, execute_runbook-Along, rollout-Along,
  deploy-Along, invoke_fleet-Along,
}

unfoldable pub is_event : Call → Bool
is_event (event _ _) = true
is_event _ = false

or_true : (b : Bool) → b || true ≡ true
or_true b = ground arith

module _ (cfg : Settings) (ext : Services) (R : World → World → Type 0)
    (law : Respects cfg ext R) where
  abbrev pre : Preorder R
  pre = law.order

  -- a change of the triggers alone
  triggers-Along :
      (f : World → List FunctionTrigger) (w : World) → R w (record w { triggers = f w })
  triggers-Along f w = law.quiet w (record w { triggers = f w }) refl (omega arith)

  get_trigger-Along : (id : String) → Along R (get_trigger id)
  unfolding get_trigger
  get_trigger-Along id = Along-bind R pre _ _ (Along-gets R pre _) (λ o. Along-or_raise R pre _ _)

  create_trigger-Along : (req : Request) (p : TriggerPayload) → Along R (create_trigger ext req p)
  unfolding create_trigger
  create_trigger-Along req p = Along-bind R pre _ _ (Along-raise_if R pre _ _) (λ _.
      Along-bind R pre _ _ (Along-raise_if R pre _ _) (λ _.
        Along-bind R pre _ _ (Along-or_raise R pre _ _) (λ _.
          Along-bind R pre _ _ (Along-or_raise R pre _ _) (λ _.
            Along-bind R pre _ _ (new_uuid-Along cfg ext R law) (λ _.
              Along-bind R pre _ _ (Along-gets R pre _) (λ _.
                Along-bind R pre _ _ (Along-gets R pre _) (λ _.
                  Along-bind R pre _ _ (Along-raise_if R pre _ _) (λ _.
                    Along-bind R pre _ _ (Along-modify R pre _ (triggers-Along _))
                      (λ _. Along-pure R pre _)))))))))

  delete_trigger-Along : (id : String) → Along R (delete_trigger id)
  unfolding delete_trigger
  delete_trigger-Along id =
      Along-bind R pre _ _ (get_trigger-Along id) (λ t. Along-modify R pre _ (triggers-Along _))

  enable_trigger-Along : (id : String) → Along R (enable_trigger id)
  unfolding enable_trigger
  enable_trigger-Along id = Along-bind R pre _ _ (get_trigger-Along id) (λ t.
      Along-bind R pre _ _ (Along-modify R pre _ (triggers-Along _)) (λ _. Along-pure R pre _))

  disable_trigger-Along : (id : String) → Along R (disable_trigger id)
  unfolding disable_trigger
  disable_trigger-Along id = Along-bind R pre _ _ (get_trigger-Along id) (λ t.
      Along-bind R pre _ _ (Along-modify R pre _ (triggers-Along _)) (λ _. Along-pure R pre _))

  invoke_function-Along :
      (req : Request) (plugin_id : String) (d : Option String) (args : Option Json)
      (mode : Option String)
      → Along R (create_and_dispatch_function cfg ext req plugin_id d args mode)
  unfolding create_and_dispatch_function
  invoke_function-Along req plugin_id d args mode = create_and_dispatch-Along cfg ext R law req _

  pub perform-Along :
      (c : Call) (w : World) → (is_event c ≡ true → AddsFreely ext R) → R w (perform cfg ext c w)
  unfolding perform invoke_function invoke_function_on_device is_event
  perform-Along (create req x p) w free = (create_execution-Along cfg ext R law req x p).at w
  perform-Along (dispatch req id) w free =
      (dispatch_execution-Along cfg ext R law id (some req)).at w
  perform-Along (callback id p) w free = (callback_execution-Along cfg ext R law id p).at w
  perform-Along (cancel req id) w free = (cancel_execution-Along cfg ext R law req id).at w
  perform-Along (delete req id) w free = (delete_execution-Along cfg ext R law req id).at w
  perform-Along (invoke req plugin_id p) w free = (invoke_function-Along req plugin_id _ _ _).at w
  perform-Along (invoke_on req d plugin_id p) w free =
      (invoke_function-Along req plugin_id _ _ _).at w
  perform-Along (runbook req p) w free = (execute_runbook-Along cfg ext R law req p).at w
  perform-Along (rollout req fleet_id p) w free = (rollout-Along cfg ext R law req fleet_id p).at w
  perform-Along (deploy req fleet_id function_id stop) w free =
      (deploy-Along cfg ext R law req fleet_id function_id stop).at w
  perform-Along (invoke_fleet req fleet_id function_id args mode) w free =
      (invoke_fleet-Along cfg ext R law req fleet_id function_id args mode).at w
  perform-Along (new_trigger req p) w free = (create_trigger-Along req p).at w
  perform-Along (drop_trigger id) w free = (delete_trigger-Along id).at w
  perform-Along (enable id) w free = (enable_trigger-Along id).at w
  perform-Along (disable id) w free = (disable_trigger-Along id).at w
  perform-Along (event event_type ev) w free =
      (consume_event-Along cfg ext R law (free refl) event_type ev).at w
  perform-Along timeouts w free = law.expired w
  perform-Along (wait n) w free = law.quiet w _ refl (omega arith)
  perform-Along (producer b) w free = law.quiet w _ refl (omega arith)

  pub perform_all-Along :
      (cs : List Call) (w : World)
      → (any is_event cs ≡ true → AddsFreely ext R)
      → R w (perform_all cfg ext cs w)
  unfolding perform_all
  perform_all-Along [] w free = pre.here w
  perform_all-Along (c ∷ cs) w free =
      pre.after w (perform cfg ext c w) (perform_all cfg ext cs (perform cfg ext c w))
        (perform-Along c w (λ h. free (rw h refl)))
        (perform_all-Along cs (perform cfg ext c w) (λ h. free (rw (h, or_true (is_event c)) refl)))
