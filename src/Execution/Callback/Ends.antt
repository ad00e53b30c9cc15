-- ===== src/Execution/Callback/Ends.antt =====
-- What a callback leaves behind, whether it is accepted or refused.
use nexora_platform.Prelude.{suc, ◌≤◌, ◌≡◌, refl, String, true, Option, none, some, length}
use mathlib.Core.Option
use nexora_platform.Prelude.Action.{Outcome, ok, raised, pure, ◌>>=◌}
use nexora_platform.Prelude.Action.After.{after_or_raise, after_gets, after_raise_found}
use nexora_platform.Execution.Status.{Status, transition_allowed}
use nexora_platform.Execution.Model.{Execution, ExecutionView, execution_to_dict}
use nexora_platform.Execution.World.{Settings, Services, World, Raised, CallbackError}
use nexora_platform.Execution.Notices.{after_publish}
use nexora_platform.Execution.Respects.{row_of}
use nexora_platform.Execution.Respects.Handlers.{after_get_row, after_check, after_write}
use nexora_platform.Execution.Dispatch.Ends.{found_after}
use nexora_platform.Execution.Callback.{
  CallbackPayload, validate_callback_payload, required_status, check_and_store_callback_key,
  apply_callback, callback_execution,
}

-- What has been checked when a callback is accepted, and what it has recorded.
pub record Accepted (cfg : Settings) (ext : Services) (id : String) (p : CallbackPayload)
    (w t : World) (v : ExecutionView) : Type 0 where
  pub before : Execution
  pub status : Status
  pub there : row_of id w ≡ some before
  pub valid : validate_callback_payload p ≡ none
  pub asked : required_status p ≡ some status
  pub authentic : check_and_store_callback_key cfg ext before p.callback_key ≡ none
  pub allowed : transition_allowed before.status status ≡ true
  pub recorded : row_of id t ≡ some (apply_callback p status w.clock before)
  pub shown : v ≡ execution_to_dict (apply_callback p status w.clock before) true
  pub sent : length t.sent ≤ suc (length w.sent)

pub record CallbackEnd (cfg : Settings) (ext : Services) (id : String) (p : CallbackPayload)
    (w : World) (r : Outcome Raised ExecutionView × World) : Type 0 where
  pub refused : (x : Raised) → r.0 ≡ raised x → r.1 ≡ w
  pub accepted : (v : ExecutionView) → r.0 ≡ ok v → Accepted cfg ext id p w r.1 v

map-none :
    (f : CallbackError → Raised) (o : Option CallbackError) → Option.map f o ≡ none → o ≡ none
map-none f none h = refl
map-none f (some x) h = absurd cc

module _ (cfg : Settings) (ext : Services) (id : String) (p : CallbackPayload) (w : World) where
  refusal : (x : Raised) → CallbackEnd cfg ext id p w (raised x, w)
  refusal x = record { refused = λ y h. refl; accepted = λ v h. absurd cc }

  acceptance :
      (t : World) (e : Execution) (st : Status)
      → row_of id w ≡ some e
      → validate_callback_payload p ≡ none
      → required_status p ≡ some st
      → check_and_store_callback_key cfg ext e p.callback_key ≡ none
      → transition_allowed e.status st ≡ true
      → row_of id t ≡ some (apply_callback p st w.clock e)
      → length t.sent ≤ suc (length w.sent)
      → CallbackEnd cfg ext id p w (pure (execution_to_dict (apply_callback p st w.clock e) true) t)
  unfolding ◌>>=◌
  acceptance t e st there valid asked authentic allowed recorded sent = record {
    refused = λ x h. absurd cc;
    accepted = λ v h. record {
      before = e;
      status = st;
      there = there;
      valid = valid;
      asked = asked;
      authentic = authentic;
      allowed = allowed;
      recorded = recorded;
      shown = same v _ _ h refl;
      sent = sent;
    };
  }
    where
      same :
          (v v' : ExecutionView) (r : Outcome Raised ExecutionView) → r ≡ ok v → r ≡ ok v' → v ≡ v'
      same v v' r h g = cc

  -- A callback that is refused, for whatever reason, has changed nothing at all. One that is
  -- accepted had a valid body with a status, the key that the secret gives for the execution where a
  -- secret is set, and asked for an allowed transition of the row; the row then stands in the table
  -- as the callback changes it, the caller gets the view of it, and at most one event has been sent.
  pub callback-CallbackEnd : CallbackEnd cfg ext id p w (callback_execution cfg ext id p w)
  unfolding callback_execution
  callback-CallbackEnd =
      let Q = CallbackEnd cfg ext id p w in
      after_raise_found Q w _ _ (λ x _. refusal x)
        (λ valid.
          after_or_raise Q w _ _ _ (λ _. refusal _)
            (λ st asked. after_get_row Q w id _ refusal (λ e there.
              after_raise_found Q w _ _ (λ x _. refusal x)
                (λ authentic. after_check Q w e st _ refusal (λ allowed. after_gets Q w _ _ (
                  after_write Q w id _ _ (
                    after_publish Q _ ext _ _ _ _ _ (λ t sent.
                      acceptance t e st there (map-none _ _ valid) asked (map-none _ _ authentic)
                        allowed
                        (rw (sent.executions) (
                          found_after w id (apply_callback p st w.clock) e
                            (λ x. unfold apply_callback in refl) there))
                        (sent.sent)))))))))
