-- ===== src/Execution/Runbook/Runs.antt =====
-- The executions behind the results of a runbook: which step was run from which state.
use nexora_platform.Prelude.{
  ℕ, suc, ◌≡◌, refl, subst, String, Bool, ◌&&◌, none, some, List, [], ◌∷◌, take, length,
}
use nexora_platform.Prelude.Action.{Outcome, ok, raised, pure, raise, lift, ◌>>=◌}
use nexora_platform.Prelude.Action.After.{after_bind, after_if}
use nexora_platform.Execution.World.{
  Settings, Services, Request, World, Raised, HttpError, http, integrity_error, type_error,
  attribute_error,
}
use nexora_platform.Execution.Create.{CreatePayload}
use nexora_platform.Execution.Functions.{dispatched, error, is_error, catch_http}
use nexora_platform.Execution.Attempts.{Attempt, caught-Attempt, create_then_dispatch}
use nexora_platform.Execution.Runbook.{
  Step, object, not_object, StepFields, StepResult, step_name, step_result,
  build_runbook_step_payload, run_step, run_steps,
}

-- what the result of a step says of its run
abbrev pub Tells : StepResult → ℕ → StepFields → Outcome HttpError String → Type 0
Tells i idx s (ok id) =
    (i.index ≡ idx)
    × (i.name ≡ step_name s.name idx)
    × (i.execution_id ≡ some id)
    × (i.status ≡ dispatched)
Tells i idx s (raised e) =
    (i.index ≡ idx)
    × (i.name ≡ step_name s.name idx)
    × (i.execution_id ≡ none)
    × (i.status ≡ error)
    × (i.detail ≡ some e)

step_result-Tells :
    (idx : ℕ) (s : StepFields) (r : Outcome HttpError String)
    → Tells (step_result idx (step_name s.name idx) r) idx s r
unfolding step_result
step_result-Tells idx s (ok id) = (refl, refl, refl, refl)
step_result-Tells idx s (raised e) = (refl, refl, refl, refl, refl)

module _ (cfg : Settings) (ext : Services) (req : Request) (device_id : String) where
  -- How the run of a step ends: its own payload is refused, or an execution is attempted with it.
  pub data StepRun (s : StepFields) (w : World) : Outcome HttpError String → World → Type 0 where
    not_built :
        (e : HttpError)
        → build_runbook_step_payload s device_id ≡ raised (http e)
        → StepRun s w (raised e) w
    attempted :
        (p : CreatePayload) (r : Outcome HttpError String) (t : World)
        → build_runbook_step_payload s device_id ≡ ok p
        → Attempt cfg ext req p w r t
        → StepRun s w r t

  -- The steps are run one after the other, each in the state that the one before it has left.
  pub data Walk : ℕ → List Step → World → List StepResult → World → Type 0 where
    at_end : (idx : ℕ) (w : World) → Walk idx [] w [] w
    next :
        (idx : ℕ) (s : StepFields) (steps : List Step) (w : World) (r : Outcome HttpError String)
        (u : World) (i : StepResult) (l : List StepResult) (t : World)
        → StepRun s w r u
        → Tells i idx s r
        → Walk (suc idx) steps u l t
        → Walk idx (object s ∷ steps) w (i ∷ l) t

  caught_step :
      (s : StepFields) (w : World) (r : Outcome HttpError String) (t : World)
      → catch_http (run_step cfg ext req s device_id) w ≡ (ok r, t)
      → StepRun s w r t
  unfolding run_step catch_http ◌>>=◌
  caught_step s w r t h = by_payload (build_runbook_step_payload s device_id) refl h
    where
      by_payload :
          (b : Outcome Raised CreatePayload)
          → build_runbook_step_payload s device_id ≡ b
          → ◌≡◌ {A = Outcome Raised (Outcome HttpError String) × World}
              (catch_http (lift b >>= λ p. create_then_dispatch cfg ext req p) w)
              (ok r, t)
          → StepRun s w r t
      by_payload (ok p) e q = attempted p r t e (caught-Attempt cfg ext req p w r t q)
      by_payload (raised (http x)) e q =
          let same : Outcome.raised x ≡ r = cc in
          let state : w ≡ t = cc in
          subst (λ z. StepRun s w r z) state (subst (λ z. StepRun s w z w) same (not_built x e))
      by_payload (raised integrity_error) e q = absurd cc
      by_payload (raised type_error) e q = absurd cc
      by_payload (raised attribute_error) e q = absurd cc

  -- where the loop ends: the steps with a result have been run
  pub record StepsEnd (idx : ℕ) (steps : List Step) (w : World)
      (x : Outcome Raised (List StepResult) × World) : Type 0 where
    pub at : (l : List StepResult) → x.0 ≡ ok l → Walk idx (take (length l) steps) w l x.1

  steps_end :
      (idx : ℕ) (steps : List Step) (w t : World) (l : List StepResult)
      → Walk idx (take (length l) steps) w l t
      → StepsEnd idx steps w (pure l t)
  unfolding ◌>>=◌
  steps_end idx steps w t l h = record {
    at = λ k e. let same : l ≡ k = cc in subst (λ x. Walk idx (take (length x) steps) w x t) same h;
  }

  not_ended :
      (idx : ℕ) (steps : List Step) (w t : World) (e : Raised) → StepsEnd idx steps w (raised e, t)
  not_ended idx steps w t e = record { at = λ l q. absurd cc }

  raise_end :
      (idx : ℕ) (steps : List Step) (w : World) (e : Raised) → StepsEnd idx steps w (raise e w)
  unfolding ◌>>=◌
  raise_end idx steps w e = record { at = λ l q. absurd cc }

  pub run_steps-Walk :
      (stop : Bool) (idx : ℕ) (steps : List Step) (w : World)
      → StepsEnd idx steps w (run_steps cfg ext req stop device_id idx steps w)
  unfolding run_steps
  run_steps-Walk stop idx [] w = steps_end idx [] w w [] (at_end idx w)
  run_steps-Walk stop idx (not_object ∷ steps) w = raise_end idx _ w _
  run_steps-Walk stop idx (object s ∷ steps) w =
      let Q = StepsEnd idx (object s ∷ steps) w in
      after_bind Q w (catch_http (run_step cfg ext req s device_id)) _
        (λ r u first.
          let result = step_result idx (step_name s.name idx) r in
          let told = step_result-Tells idx s r in
          let run = caught_step s w r u first in
          after_if Q u (is_error result.status && stop) _ _
            (λ halt.
              steps_end idx (object s ∷ steps) w u (result ∷ [])
                (next idx s [] w r u result [] u run told (at_end (suc idx) u)))
            (λ go_on.
              after_bind Q u (run_steps cfg ext req stop device_id (suc idx) steps) _
                (λ l t rest.
                  let later =
                    (subst (StepsEnd (suc idx) steps u) rest
                        (run_steps-Walk stop (suc idx) steps u)).at
                      l refl in
                  steps_end idx (object s ∷ steps) w t (result ∷ l)
                    (next idx s (take (length l) steps) w r u result l t run told later))
                (λ x t e. not_ended idx _ w t x)))
        (λ x t e. not_ended idx _ w t x)
