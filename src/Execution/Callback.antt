-- ===== src/Execution/Callback.antt =====
-- `callback_execution` of services/execution-service/main.py, with the checks of
-- models/execution.py.
pub mod Ends
use nexora_platform.Prelude.{
  ℕ, String, Bool, true, false, not, Option, none, some, List, [], ◌∷◌, all, ◌==◌, if◌then◌else◌,
}
use mathlib.Core.Option
use nexora_platform.Prelude.Int.{ℤ}
use nexora_platform.Prelude.Text.{Json, Field, missing, null, given, member}
use nexora_platform.Prelude.Action.{gets, pure, raise_found, or_raise, ◌>>=◌, ◌>>◌}
use nexora_platform.Execution.Status.{Status, running, valid_status}
use nexora_platform.Execution.Model.{Execution, ExecutionView, execution_to_dict}
use nexora_platform.Execution.World.{
  Settings, Services, Handler, http, CallbackError, unknown_fields, invalid_status, status_required,
  callback_key_required, invalid_callback_key, unacceptable_callback, publish_event, view,
}
use nexora_platform.Execution.Dispatch.{get_row, write_row, check_transition}

-- The body of a callback: its keys, and the fields that the handler reads.
pub record CallbackPayload : Type 0 where
  pub keys : List String
  pub status : Option String
  pub callback_key : Option String
  pub exit_code : Field ℤ
  pub stdout : Field String
  pub stderr : Field String
  pub function_result : Field Json

-- `_CALLBACK_ALLOWED_FIELDS`
abbrev pub callback_allowed_fields : List String
callback_allowed_fields =
    "status" ∷ "exit_code" ∷ "stdout" ∷ "stderr" ∷ "callback_key" ∷ "function_result" ∷ []

unfoldable pub validate_callback_payload : CallbackPayload → Option CallbackError
validate_callback_payload p =
    if not (all (λ k. member k callback_allowed_fields) p.keys)
    then some unknown_fields
    else elim p.status [
      | none ↦ none
      | some s ↦ elim (valid_status s) [ none ↦ some invalid_status | some _ ↦ none ]
    ]

-- The status that the handler goes on with, once the payload is valid: an empty or missing one is
-- refused.
unfoldable pub required_status : CallbackPayload → Option Status
required_status p = elim p.status [ none ↦ none | some s ↦ valid_status s ]

-- `check_and_store_callback_key`. No row has the attribute `callback_received`, which the last test
-- of the function asks for, so that test never fires.
unfoldable pub check_and_store_callback_key :
    Settings → Services → Execution → Option String → Option CallbackError
check_and_store_callback_key cfg ext e key =
    if cfg.agent_callback_secret == "" then none else elim key [
      | none ↦ some callback_key_required
      | some k ↦
          if k == ""
          then some callback_key_required
          else if k == ext.hmac_sha256 cfg.agent_callback_secret e.id
          then none
          else some invalid_callback_key
    ]

-- `if "x" in payload: column = payload["x"]`
abbrev pub assigned : {A : Type 0} → Field A → Option A → Option A
assigned missing old = old
assigned null old = none
assigned (given a) old = some a

-- a null result is passed over
abbrev pub kept : {A : Type 0} → Field A → Option A → Option A
kept missing old = old
kept null old = old
kept (given a) old = some a

abbrev is_running : Status → Bool
is_running running = true
is_running _ = false

unfoldable pub apply_callback : CallbackPayload → Status → ℕ → Execution → Execution
apply_callback p new_status now e = record e {
  status = new_status;
  running_at = (if is_running new_status then some now else e.running_at);
  exit_code = assigned p.exit_code e.exit_code;
  result_stdout = assigned p.stdout e.result_stdout;
  result_stderr = assigned p.stderr e.result_stderr;
  function_result = kept p.function_result e.function_result;
}

unfoldable pub callback_execution :
    Settings → Services → String → CallbackPayload → Handler ExecutionView
callback_execution cfg ext id p = do
  raise_found (Option.map (λ x. http (unacceptable_callback x)) (validate_callback_payload p))
  new_status ← or_raise (required_status p) (http (unacceptable_callback status_required))
  e ← get_row id
  raise_found (
      Option.map (λ x. http (unacceptable_callback x))
        (check_and_store_callback_key cfg ext e p.callback_key))
  check_transition e new_status
  now ← gets (λ w. w.clock)
  write_row id (apply_callback p new_status now)
  let row = apply_callback p new_status now e
  publish_event ext cfg.kafka_retry_attempts "callback" row.id (view (execution_to_dict row true))
  pure (execution_to_dict row true)
