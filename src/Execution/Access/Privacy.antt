-- ===== src/Execution/Access/Privacy.antt =====
-- What a caller is shown who is neither an operator nor the owner.
use nexora_platform.Prelude.{
  ◌≡◌, refl, ap, inl, inr, String, Bool, true, false, Option, none, some, List, [], ◌∷◌, map, keep,
  All, arith, Bool-cases, eq_iff,
}
use nexora_platform.Prelude.Text.{truthy, opt_eq}
use nexora_platform.Prelude.Action.{ok}
use nexora_platform.Prelude.Action.Ensures.{
  Ensures-pure, Ensures-any, Ensures-raise_if, Ensures-bind,
}
use nexora_platform.Execution.Model.{Execution, ExecutionView, execution_to_dict}
use nexora_platform.Execution.World.{Request, World}
use nexora_platform.Execution.Access.{
  operator_or, reads_payload, is_owned_by, selects, hidden_from, list_executions, get_execution,
}

-- none of what the device answered
pub record IsRedacted (v : ExecutionView) : Type 0 where
  pub exit_code : v.exit_code ≡ none
  pub stdout : v.result_stdout ≡ none
  pub stderr : v.result_stderr ≡ none
  pub result : v.function_result ≡ none

execution_to_dict-IsRedacted :
    (e : Execution) (b : Bool) → b ≡ false → IsRedacted (execution_to_dict e b)
unfolding execution_to_dict
execution_to_dict-IsRedacted e true h = absurd cc
execution_to_dict-IsRedacted e false h = record {
  exit_code = refl;
  stdout = refl;
  stderr = refl;
  result = refl;
}

-- what a caller who is no operator is shown
pub record Shown (req : Request) (v : ExecutionView) : Type 0 where
  pub redacted : opt_eq v.owner_id req.user_id ≡ false → IsRedacted v
  pub same_tenant :
      truthy v.owner_id ≡ true
      → opt_eq v.owner_id req.user_id ≡ false
      → opt_eq v.tenant_id req.tenant_id ≡ true

shown :
    (req : Request) (e : Execution)
    → operator_or true req ≡ false
    → hidden_from req e ≡ false
    → Shown req (execution_to_dict e (reads_payload req e))
unfolding execution_to_dict
shown req e user visible = record {
  redacted = λ h. execution_to_dict-IsRedacted e (reads_payload req e) (ground (arith, h, user));
  same_tenant = λ h g. ground (arith, h, g, user, visible);
}

-- Where get_execution shows an execution of another owner to a caller who is no operator, it shows
-- neither its exit code, nor its output, nor its result; and unless the execution has no owner, it is
-- one of the caller's own tenant.
pub get-Shown :
    (id : String) (req : Request) (w : World) (v : ExecutionView)
    → operator_or true req ≡ false
    → (get_execution id req w).0 ≡ ok v
    → Shown req v
unfolding get_execution
get-Shown id req w v user =
    (Ensures-bind _ _ _ _ (Ensures-any _) (λ e _.
        Ensures-bind _ _ _ _ (Ensures-raise_if _ _)
          (λ _ visible. Ensures-pure (Shown req) _ (shown req e user visible)))).at
      w v

same_owner : (o u : Option String) → is_owned_by o u ≡ true → o ≡ u
same_owner none u h = absurd cc
same_owner (some x) none h = absurd cc
same_owner (some x) (some y) h = ap some ((eq_iff x y).0 h)

selected_owner :
    (req : Request) (e : Execution)
    → operator_or true req ≡ false
    → truthy req.user_id ≡ true
    → selects req e ≡ true
    → e.owner_id ≡ req.user_id
selected_owner req e user named h =
    same_owner e.owner_id req.user_id (ground (arith, user, named, h))

-- A caller who is no operator and has a user id is listed the caller's own executions, and no
-- others.
list-own :
    (req : Request) (w : World)
    → operator_or true req ≡ false
    → truthy req.user_id ≡ true
    → All (λ v. v.owner_id ≡ req.user_id) (list_executions req w)
unfolding list_executions execution_to_dict
list-own req w user named = go w.executions
  where
    go :
        (t : List Execution)
        → All
            (λ v. v.owner_id ≡ req.user_id)
            (map (λ e. execution_to_dict e (reads_payload req e)) (keep (selects req) t))
    go [] = tt
    go (e ∷ t) = elim (Bool-cases (selects req e)) [
      | inl mine ↦ rw mine (selected_owner req e user named mine, go t)
      | inr other ↦ rw other (go t)
    ]
