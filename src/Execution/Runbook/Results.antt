-- ===== src/Execution/Runbook/Results.antt =====
-- What a runbook has done when it returns.
use nexora_platform.Prelude.{
  ℕ, suc, ◌+◌, ◌≤◌, ◌≡◌, take, some, String, Bool, true, false, ◌&&◌, List, [], ◌∷◌, length, count,
  any,
}
use nexora_platform.Prelude.Action.{Outcome, ok}
use nexora_platform.Execution.Runbook.Runs.{Walk}
use nexora_platform.Prelude.Action.Ensures.{Ensures}
use nexora_platform.Execution.World.{Settings, Services, Request, World, Raised, new_uuid}
use nexora_platform.Execution.Functions.{is_error}
use nexora_platform.Execution.Runbook.{
  Step, StepResult, RunbookPayload, RunbookReport, stopped_on_failure, running,
}

-- the results are numbered from `idx` on
abbrev pub IsNumbered : ℕ → List StepResult → Type 0
IsNumbered idx [] = Unit
IsNumbered idx (r ∷ l) = (r.index ≡ idx) × IsNumbered (suc idx) l

-- What the loop over the steps has done when it returns.
pub record Walked (stop : Bool) (idx : ℕ) (steps : List Step) (l : List StepResult) : Type 0 where
  pub numbered : IsNumbered idx l
  pub within : length l ≤ length steps
  pub complete : (any (λ r. is_error r.status) l && stop) ≡ false → length l ≡ length steps
  pub gate : stop ≡ true → count (λ r. is_error r.status) l ≤ 1

module _ (cfg : Settings) (ext : Services) (req : Request) where
  -- What a runbook that returns reports.
  pub record Reported (p : RunbookPayload) (r : RunbookReport) : Type 0 where
    pub numbered : IsNumbered 1 r.results
    pub counted : r.dispatched + r.failed ≡ r.completed_steps
    pub within : r.completed_steps ≤ r.total_steps
    pub complete : r.status ≡ running → r.completed_steps ≡ r.total_steps
    pub stopped : r.status ≡ stopped_on_failure → (p.stop_on_failure ≡ true) × (r.failed ≡ 1)

  -- The executions behind the results of a runbook from `w` to `t`, after its own id has been drawn.
  pub record HasRun (p : RunbookPayload) (r : RunbookReport) (w t : World) : Type 0 where
    pub device_id : String
    pub given : p.device_id ≡ some device_id
    pub walk :
        Walk cfg ext req device_id 1
          (take (length r.results) p.steps)
          (new_uuid ext w).1
          r.results
          t

  record RunbookEnd (p : RunbookPayload) (w : World) (x : Outcome Raised RunbookReport × World)
      : Type 0 where
    at : (r : RunbookReport) → x.0 ≡ ok r → Reported p r × HasRun p r w x.1
