-- ===== src/Samples/Executions.antt =====
-- The theorems on single executions, applied.
use nexora_platform.Prelude.{◌≤◌, ◌≡◌, refl, true, false, none, some, [], ◌∷◌, All, is_some, arith}
use nexora_platform.Prelude.Text.{missing}
use nexora_platform.Prelude.Action.{Outcome, ok, is_raised, ◌>>=◌}
use nexora_platform.Prelude.Table.{find}
use nexora_platform.Execution.Status.{queued, dispatched, succeeded, transition_allowed}
use nexora_platform.Execution.Model.{ExecutionView}
use nexora_platform.Execution.World.{
  World, Raised, new_uuid, emit_audit, publish_event, send, attempt_send,
}
use nexora_platform.Execution.Guardrails.{guardrails_violation}
use nexora_platform.Execution.Create.{
  create_execution, create_new, check_device_limit, over_limit, count_active_for_device,
  existing_for, insert_execution, caller_tenant,
}
use nexora_platform.Execution.Create.Again.{NewEnds, create-again, create-NewEnds}
use nexora_platform.Execution.Dispatch.{get_row, check_transition, dispatch_execution}
use nexora_platform.Execution.Dispatch.Ends.{DispatchEnd, dispatch-DispatchEnd}
use nexora_platform.Execution.Callback.{CallbackPayload, callback_execution}
use nexora_platform.Execution.Callback.Ends.{CallbackEnd, callback-CallbackEnd}
use nexora_platform.Execution.Access.{get_execution, cancel_execution}
use nexora_platform.Execution.Access.Privacy.{Shown, get-Shown}
use nexora_platform.Execution.Timeouts.{has_timed_out, expire, timeout_round}
use nexora_platform.Execution.Timeouts.Settled.{IsInTime, Fate, Rowwise, timeout_round_settles}
use nexora_platform.Execution.Calls.{create, cancel, timeouts, perform, perform_all}
use nexora_platform.Execution.Respects.{row_of}
use nexora_platform.Execution.Respects.Calls.{is_event}
use nexora_platform.Execution.Transitions.Relation.{Evolves}
use nexora_platform.Execution.Transitions.Histories.{run-Evolves, run-final, run-gone}
use nexora_platform.Execution.Limits.{run_within_limit}
use nexora_platform.Execution.Soundness.{IsSound, run-IsSound}
use nexora_platform.Execution.Triggers.{
  Incoming, no_payload, event, passes_filter, trigger_matches_filter, target_device,
}
use nexora_platform.Execution.Triggers.Consumer.{served}
use nexora_platform.Execution.Model.{FunctionTrigger}
use nexora_platform.Execution.Dispatch.{
  mark_dispatched, write_row, set_dispatched, complete_envelope, announce,
}
use nexora_platform.Execution.Dispatch.Policy.{IsWithinPolicy, dispatch-IsWithinPolicy}
use nexora_platform.Execution.Guardrails.{
  violation_of, first_prefix, normalize, strip, strip_left, to_lower,
}
use nexora_platform.Execution.World.{Settings}
use nexora_platform.Prelude.Text.{codes, is_space}
use nexora_platform.Prelude.Table.{update}
use nexora_platform.Execution.Model.{ExecutionView}
use nexora_platform.Samples.{
  returned, returned-ok, returned-pair, there, there-some, unary-distinct, settings, services, user,
  row, world, command_for,
}

-- a row that was dispatched too long ago
abbrev late : World
late = world (row "a" dispatched ∷ [])

late_later : is_some (row_of "a" (perform_all settings services (timeouts ∷ []) late)) ≡ true
unfolding perform_all perform timeout_round expire has_timed_out find
late_later = refl

run-Evolves_example :
    Evolves
      (row "a" dispatched)
      (there (row_of "a" (perform_all settings services (timeouts ∷ []) late)) late_later)
run-Evolves_example =
    run-Evolves settings services unary-distinct (timeouts ∷ []) late "a" (row "a" dispatched)
      (there (row_of "a" (perform_all settings services (timeouts ∷ []) late)) late_later)
      (1, omega arith, refl) (unfold find in refl) (there-some _ late_later)

abbrev done : World
done = world (row "a" succeeded ∷ [])

done_later :
    row_of "a" (perform_all settings services (cancel user "a" ∷ timeouts ∷ []) done)
    ≡ some (row "a" succeeded)
unfolding perform_all perform cancel_execution get_row check_transition transition_allowed ◌>>=◌
    timeout_round expire has_timed_out find
done_later = refl

run-final_example : (row "a" succeeded).status ≡ (row "a" succeeded).status
run-final_example =
    run-final settings services unary-distinct (cancel user "a" ∷ timeouts ∷ []) done "a"
      (row "a" succeeded) (row "a" succeeded) (1, omega arith, refl) (unfold find in refl) refl
      done_later

run-gone_example :
    row_of "aa" (perform_all settings services (create user none (command_for "d1" none) ∷ []) done)
    ≡ none
run-gone_example =
    run-gone settings services unary-distinct (create user none (command_for "d1" none) ∷ []) done
      "aa" (2, omega arith, refl) (unfold find in refl)

run_within_limit_example :
    count_active_for_device
      (perform_all settings services
        (create user none (command_for "d1" none) ∷ create user none (command_for "d1" none) ∷ [])
        late).executions
      "d1"
    ≤ settings.max_executions_per_device
run_within_limit_example =
    run_within_limit settings services "d1" (λ h. absurd cc)
      (create user none (command_for "d1" none) ∷ create user none (command_for "d1" none) ∷ [])
      late (unfold is_event in refl) (unfold count_active_for_device in omega arith)

empty-IsSound : IsSound []
empty-IsSound = record { ids = λ i. omega arith; keys = λ k. omega arith; stamped = tt }

run-IsSound_example :
    IsSound
      (perform_all settings services
        (create user none (command_for "d1" (some "k")) ∷ timeouts ∷ [])
        (world [])).executions
run-IsSound_example =
    run-IsSound settings services (create user none (command_for "d1" (some "k")) ∷ timeouts ∷ [])
      (world []) empty-IsSound

abbrev first : Outcome Raised ExecutionView × World
first = create_execution settings services user none (command_for "d1" (some "k")) (world [])

first_returns : is_raised first.0 ≡ false
unfolding create_execution create_new check_device_limit over_limit count_active_for_device
    existing_for insert_execution caller_tenant new_uuid guardrails_violation emit_audit
    publish_event send attempt_send ◌>>=◌
first_returns = refl

create-again_example :
    create_execution settings services user none (command_for "d2" (some "k")) first.1
    ≡ (ok (returned first.0 first_returns), first.1)
create-again_example =
    create-again settings services user user none none (command_for "d1" (some "k"))
      (command_for "d2" (some "k")) (world []) first.1 (returned first.0 first_returns) refl refl
      (returned-pair first first_returns)

create-NewEnds_example :
    NewEnds settings
      (command_for "d1" none)
      late
      (create_execution settings services user none (command_for "d1" none) late)
create-NewEnds_example =
    create-NewEnds settings services user none (command_for "d1" none) late
      (unfold existing_for in refl)

dispatch-DispatchEnd_example :
    DispatchEnd "a"
      (world (row "a" queued ∷ []))
      (dispatch_execution settings services "a" (some user) (world (row "a" queued ∷ [])))
dispatch-DispatchEnd_example =
    dispatch-DispatchEnd settings services "a" (some user) (world (row "a" queued ∷ []))

abbrev now_running : CallbackPayload
now_running = record {
  keys = "status" ∷ [];
  status = some "running";
  callback_key = none;
  exit_code = missing;
  stdout = missing;
  stderr = missing;
  function_result = missing;
}

callback-CallbackEnd_example :
    CallbackEnd settings services "a" now_running late
      (callback_execution settings services "a" now_running late)
callback-CallbackEnd_example = callback-CallbackEnd settings services "a" now_running late

get_returns : is_raised (get_execution "a" user done).0 ≡ false
unfolding get_execution get_row ◌>>=◌ find
get_returns = refl

get-Shown_example : Shown user (returned (get_execution "a" user done).0 get_returns)
get-Shown_example =
    get-Shown "a" user done (returned (get_execution "a" user done).0 get_returns) refl
      (returned-ok (get_execution "a" user done).0 get_returns)

timeout_round_settles_example :
    Rowwise (Fate settings late.clock) late.executions (timeout_round settings late).executions
    × All (IsInTime settings late.clock) (timeout_round settings late).executions
    × (timeout_round settings (timeout_round settings late) ≡ timeout_round settings late)
timeout_round_settles_example = timeout_round_settles settings late

abbrev on_boot : FunctionTrigger
on_boot = record {
  id = "t";
  event_type = "device.online";
  function_id = "p";
  target_type = "same_device";
  target_id = none;
  filter_expr = none;
  is_active = true;
  tenant_id = some "t1";
  created_at = none;
}

abbrev online : Incoming
online = record { fields = []; device_id = some "d1"; payload = no_payload }

abbrev armed : World
armed = record (world []) { triggers = on_boot ∷ [] }

-- the trigger is started
on_boot_is_served : served "device.online" (event online) armed ≡ on_boot ∷ []
unfolding passes_filter trigger_matches_filter target_device
on_boot_is_served = refl

abbrev guarded : Settings
guarded = record settings { guardrails_enabled = true; deny_command_prefixes = codes "rm" ∷ [] }

abbrev waiting : World
waiting = world (row "a" queued ∷ [])

guarded_returns : is_raised (dispatch_execution guarded services "a" (some user) waiting).0 ≡ false
unfolding dispatch_execution mark_dispatched get_row guardrails_violation violation_of first_prefix
    normalize strip strip_left to_lower is_space check_transition transition_allowed write_row
    set_dispatched complete_envelope announce emit_audit publish_event send attempt_send find update
    ◌>>=◌
guarded_returns = refl

abbrev guarded_view : ExecutionView
guarded_view =
    returned (dispatch_execution guarded services "a" (some user) waiting).0 guarded_returns

dispatch-IsWithinPolicy_example :
    IsWithinPolicy guarded guarded_view.execution_type guarded_view.command
dispatch-IsWithinPolicy_example =
    dispatch-IsWithinPolicy guarded services "a" (some user) waiting guarded_view refl
      (returned-ok (dispatch_execution guarded services "a" (some user) waiting).0 guarded_returns)
