-- ===== src/Samples/Fleets.antt =====
-- The theorems on rollouts, runbooks, deployments and drift, applied.
use nexora_platform.Prelude.{
  ◌≤◌, ◌<◌, ◌≡◌, ◌↔◌, refl, true, false, none, some, List, [], ◌∷◌, length, sum, All,
}
use nexora_platform.Prelude.Int.{pos}
use nexora_platform.Prelude.Text.{missing, given}
use nexora_platform.Prelude.Action.{ok, is_raised, ◌>>=◌}
use nexora_platform.Prelude.Table.{find, update}
use nexora_platform.Execution.Status.{failed, transition_allowed}
use nexora_platform.Execution.Model.{Execution, execution_to_dict}
use nexora_platform.Execution.World.{new_uuid, emit_audit, publish_event, send, attempt_send}
use nexora_platform.Execution.Guardrails.{guardrails_violation}
use nexora_platform.Execution.Create.{
  create_execution, create_new, check_device_limit, over_limit, count_active_for_device,
  existing_for, insert_execution, caller_tenant,
}
use nexora_platform.Execution.Dispatch.{
  get_row, write_row, check_transition, set_dispatched, mark_dispatched, complete_envelope,
  announce, dispatch_execution,
}
use nexora_platform.Execution.Functions.{catch_http}
use nexora_platform.Execution.Rings.{
  RingPayload, chunks, uniform_rings, from_size, base_rings, limit_rings, compute_canary_rings,
}
use nexora_platform.Execution.Rings.Cover.{IsRing, rings_cover}
use nexora_platform.Execution.Rollout.{
  RolloutPayload, RolloutReport, fleet_members, item_of, count_failed, ring_result, rollout_command,
  device_payload, start_on_device, run_ring, run_rings, rollout_execution_to_fleet,
}
use nexora_platform.Execution.Runbook.{
  StepFields, object, build_runbook_step_payload, step_result, RunbookPayload, RunbookReport,
  run_step, run_steps, execute_runbook,
}
use nexora_platform.Execution.Drift.{Expected, device_drift}
use nexora_platform.Execution.Drift.Score.{has_install, device_drift_lem}
use nexora_platform.Samples.{returned, settings, services, user, row, world}

abbrev two_by_two : RingPayload
two_by_two = record { ring_sizes = none; ring_size = given (pos 2); max_rings = none }

planned : compute_canary_rings 5 two_by_two ≡ ok (2 ∷ 2 ∷ 1 ∷ [])
unfolding compute_canary_rings base_rings from_size uniform_rings chunks limit_rings
planned = refl

rings_cover_example :
    All IsRing (2 ∷ 2 ∷ 1 ∷ []) × (two_by_two.max_rings ≡ none → 5 ≤ sum (2 ∷ 2 ∷ 1 ∷ []))
rings_cover_example = rings_cover 5 two_by_two (2 ∷ 2 ∷ 1 ∷ []) planned

abbrev list_files : RolloutPayload
list_files = record {
  execution_type = missing;
  command = some "ls";
  plugin_id = none;
  args = none;
  mode = missing;
  stop_on_failure = true;
  rings = record { ring_sizes = none; ring_size = missing; max_rings = none };
}

rollout_returns :
    is_raised (rollout_execution_to_fleet settings services user "f" list_files (world [])).0
    ≡ false
unfolding rollout_execution_to_fleet fleet_members rollout_command compute_canary_rings base_rings
    from_size uniform_rings chunks limit_rings run_rings run_ring catch_http start_on_device
    device_payload create_execution create_new check_device_limit over_limit count_active_for_device
    existing_for insert_execution caller_tenant new_uuid guardrails_violation emit_audit
    publish_event send attempt_send dispatch_execution mark_dispatched get_row check_transition
    transition_allowed write_row set_dispatched complete_envelope announce item_of ring_result
    count_failed execution_to_dict find update ◌>>=◌
rollout_returns = refl

abbrev rolled : RolloutReport
rolled =
    returned (rollout_execution_to_fleet settings services user "f" list_files (world [])).0
      rollout_returns

abbrev two_steps : RunbookPayload
two_steps =
    let step : StepFields = record {
      name = missing;
      execution_type = missing;
      command = some "ls";
      plugin_id = none;
      mode = missing;
      args = missing;
    } in
    record { device_id = some "d1"; steps = object step ∷ object step ∷ []; stop_on_failure = true }

runbook_returns : is_raised (execute_runbook settings services user two_steps (world [])).0 ≡ false
unfolding execute_runbook run_steps catch_http run_step build_runbook_step_payload step_result
    create_execution create_new check_device_limit over_limit count_active_for_device existing_for
    insert_execution caller_tenant new_uuid guardrails_violation emit_audit publish_event send
    attempt_send dispatch_execution mark_dispatched get_row check_transition transition_allowed
    write_row set_dispatched complete_envelope announce execution_to_dict find update ◌>>=◌
runbook_returns = refl

abbrev walked : RunbookReport
walked = returned (execute_runbook settings services user two_steps (world [])).0 runbook_returns

-- one installation failed, and the other is missing
abbrev failed_install : Execution
failed_install = record (row "a" failed) {
  execution_type = some "function.install";
  plugin_id = some "p";
}

abbrev expected : List Expected
expected =
    record { plugin_id = "p"; max_age = none } ∷ record { plugin_id = "q"; max_age = none } ∷ []

device_drift_lem_example :
    let r = device_drift 50 expected (failed_install ∷ []) "d1" in
    (r.has_drift ≡ true ↔ 0 < length r.issues)
    × (r.drift_score ≤ 100)
    × (r.missing_installs ≡ 0 ↔ All (λ e. has_install (failed_install ∷ []) "d1" e ≡ true) expected)
    × (r.failed_latest_installs ≤ r.missing_installs)
device_drift_lem_example = device_drift_lem 50 expected (failed_install ∷ []) "d1"
