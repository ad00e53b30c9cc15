-- ===== src/Execution/Runbook.antt =====
-- `execute_runbook` and `_build_runbook_step_payload` of services/execution-service/main.py.
pub mod Runs
pub mod Results
use nexora_platform.Prelude.{
  ℕ, suc, String, Bool, true, false, not, ◌&&◌, Option, none, some, List, [], ◌∷◌, length, count,
  any, if◌then◌else◌,
}
use nexora_platform.Prelude.Text.{
  Json, Field, missing, null, given, get_field_or, truthy, text_or, append,
}
use nexora_platform.Prelude.Action.{
  Outcome, ok, raised, pure, lift, raise, raise_if, or_raise, ◌>>=◌, ◌>>◌,
}
use nexora_platform.Execution.Model.{is_function}
use nexora_platform.Execution.World.{
  Settings, Services, Request, Handler, Raised, HttpError, http, plugin_id_required,
  command_required, device_id_required, steps_required, step_not_object, new_uuid,
}
use nexora_platform.Execution.Create.{CreatePayload, create_execution}
use nexora_platform.Execution.Dispatch.{dispatch_execution}
use nexora_platform.Execution.Functions.{
  set_to, catch_http, ItemStatus, dispatched, error, is_dispatched, is_error,
}

-- A step of the body: an object, of which these fields are read, or something else.
pub record StepFields : Type 0 where
  pub name : Field String
  pub execution_type : Field String
  pub command : Option String
  pub plugin_id : Option String
  pub mode : Field String
  pub args : Field Json

pub data Step : Type 0 where
  object : StepFields → Step
  not_object : Step

-- `str(x)` of a text or None
abbrev str_field : Field String → String → String
str_field missing d = d
str_field null d = "None"
str_field (given s) d = s

abbrev plain : {A : Type 0} → Field A → Option A
plain missing = none
plain null = none
plain (given a) = some a

abbrev step_payload : StepFields → String → String → String → CreatePayload
step_payload s device_id execution_type command = record {
  idempotency_key = none;
  device_id = some device_id;
  type = missing;
  execution_type = given execution_type;
  command = given command;
  plugin_id = (if truthy s.plugin_id then s.plugin_id else none);
  args = plain s.args;
  mode = set_to (get_field_or s.mode (some "async"));
}

unfoldable pub build_runbook_step_payload : StepFields → String → Outcome Raised CreatePayload
build_runbook_step_payload s device_id =
    let execution_type = str_field s.execution_type "command" in
    if is_function (some execution_type)
    then (if truthy s.plugin_id
        then ok (
            step_payload s device_id execution_type
              (text_or s.command (append execution_type (append ":" (text_or s.plugin_id "")))))
        else raised (http plugin_id_required))
    else if truthy s.command
    then ok (step_payload s device_id execution_type (text_or s.command ""))
    else raised (http command_required)

-- The name of a step: its own, or `step-{idx}`.
pub data StepName : Type 0 where
  named : String → StepName
  numbered : ℕ → StepName

abbrev pub step_name : Field String → ℕ → StepName
step_name missing idx = numbered idx
step_name null idx = named "None"
step_name (given s) idx = named s

pub record StepResult : Type 0 where
  pub index : ℕ
  pub name : StepName
  pub execution_id : Option String
  pub status : ItemStatus
  pub detail : Option HttpError

unfoldable pub step_result : ℕ → StepName → Outcome HttpError String → StepResult
step_result idx name (ok id) = record {
  index = idx;
  name = name;
  execution_id = some id;
  status = dispatched;
  detail = none;
}
step_result idx name (raised e) = record {
  index = idx;
  name = name;
  execution_id = none;
  status = error;
  detail = some e;
}

pub record RunbookPayload : Type 0 where
  pub device_id : Option String
  pub steps : List Step
  pub stop_on_failure : Bool

pub data RunbookStatus : Type 0 where
  stopped_on_failure running : RunbookStatus

pub record RunbookReport : Type 0 where
  pub runbook_id : String
  pub device_id : String
  pub total_steps : ℕ
  pub completed_steps : ℕ
  pub dispatched : ℕ
  pub failed : ℕ
  pub status : RunbookStatus
  pub results : List StepResult

unfoldable pub count_dispatched : List StepResult → ℕ
count_dispatched = count (λ r. is_dispatched r.status)

unfoldable pub count_failed : List StepResult → ℕ
count_failed = count (λ r. is_error r.status)

unfoldable pub report_status : Bool → List StepResult → RunbookStatus
report_status stop results =
    if any (λ r. is_error r.status) results && stop then stopped_on_failure else running

module _ (cfg : Settings) (ext : Services) (req : Request) where
  -- the body of the `try`
  unfoldable pub run_step : StepFields → String → Handler String
  run_step s device_id = do
    p ← lift (build_runbook_step_payload s device_id)
    created ← create_execution cfg ext req none p
    dispatch_execution cfg ext created.id (some req)
    pure created.id

  -- the loop over the steps, from the index `idx`
  unfoldable pub run_steps : Bool → String → ℕ → List Step → Handler (List StepResult)
  run_steps stop device_id idx [] = pure []
  run_steps stop device_id idx (not_object ∷ steps) = raise (http (step_not_object idx))
  run_steps stop device_id idx (object s ∷ steps) =
      let rest = run_steps stop device_id (suc idx) steps in
      do
        r ← catch_http (run_step s device_id)
        let result = step_result idx (step_name s.name idx) r
        if is_error result.status && stop
            then pure (result ∷ [])
            else (do later ← rest; pure (result ∷ later))

  unfoldable pub execute_runbook : RunbookPayload → Handler RunbookReport
  execute_runbook p = do
    raise_if (not (truthy p.device_id)) (http device_id_required)
    device_id ← or_raise p.device_id (http device_id_required)
    raise_if (elim p.steps [ [] ↦ true | _ ∷ _ ↦ false ]) (http steps_required)
    runbook_id ← new_uuid ext
    results ← run_steps p.stop_on_failure device_id 1 p.steps
    pure (record {
      runbook_id = runbook_id;
      device_id = device_id;
      total_steps = length p.steps;
      completed_steps = length results;
      dispatched = count_dispatched results;
      failed = count_failed results;
      status = report_status p.stop_on_failure results;
      results = results;
    })
