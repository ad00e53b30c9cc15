-- ===== src/Execution/Dispatch/Policy.antt =====
-- The guardrails, as a dispatch applies them.
use nexora_platform.Prelude.{
  ℕ, ◌≡◌, refl, sym, ap, ◌∙◌, String, true, false, Option, none, some, List, [], ◌∷◌, All, arith,
  Bool-cases, inl, inr, eq_iff,
}
use mathlib.Core.Option
use nexora_platform.Prelude.Text.{codes, text_or}
use nexora_platform.Prelude.Action.{ok}
use nexora_platform.Prelude.Action.Ensures.{
  Ensures, Ensures-pure, Ensures-any, Ensures-raise_found, Ensures-bind,
}
use nexora_platform.Execution.Model.{Execution, ExecutionView, execution_to_dict}
use nexora_platform.Execution.World.{
  Settings, Services, Request, World, Violation, http, policy_violation,
}
use nexora_platform.Execution.Guardrails.{
  normalize, text_eq, starts_with, text_member, first_prefix, violation_of, guardrails_violation,
}
use nexora_platform.Execution.Dispatch.{set_dispatched, mark_dispatched, dispatch_execution}

-- What the policy asks for: the type is not blocked, and a command begins with no denied prefix,
-- whatever the case of its letters and the blanks around it.
pub record IsWithinPolicy (cfg : Settings) (execution_type command : String) : Type 0 where
  pub type_allowed :
      text_member (normalize (codes execution_type)) cfg.blocked_execution_types ≡ false
  pub no_denied_prefix :
      text_eq (normalize (codes execution_type)) (codes "command") ≡ true
      → All (λ p. starts_with (normalize (codes command)) p ≡ false) cfg.deny_command_prefixes

no_prefix :
    (s : List ℕ) (ps : List (List ℕ))
    → first_prefix s ps ≡ none
    → All (λ p. starts_with s p ≡ false) ps
unfolding first_prefix
no_prefix s [] h = tt
no_prefix s (p ∷ ps) h = elim (Bool-cases (starts_with s p)) [
  | inl starts ↦ absurd (ground (arith, h, starts))
  | inr other ↦ (other, no_prefix s ps (ground (arith, h, other)))
]

text_or_again :
    (x : Option String) → text_or (some (text_or x "command")) "command" ≡ text_or x "command"
text_or_again none = refl
text_or_again (some s) = ground arith

text_or_blank : (c : String) → text_or (some c) "" ≡ c
text_or_blank c = ground (arith, eq_iff c "")

nothing_denied :
    (cfg : Settings) (ty cmd : List ℕ)
    → cfg.guardrails_enabled ≡ true
    → violation_of cfg ty cmd ≡ none
    → (text_member ty cfg.blocked_execution_types ≡ false)
      × (text_eq ty (codes "command") ≡ true → first_prefix cmd cfg.deny_command_prefixes ≡ none)
unfolding violation_of
nothing_denied cfg ty cmd on h = (ground (arith, on, h), λ c. ground (arith, on, h, c))

allowed :
    (cfg : Settings) (e : Execution)
    → cfg.guardrails_enabled ≡ true
    → guardrails_violation cfg (some (text_or e.execution_type "command")) (some e.command) ≡ none
    → IsWithinPolicy cfg (text_or e.execution_type "command") e.command
unfolding guardrails_violation
allowed cfg e on h =
    let t : String = text_or e.execution_type "command" in
    let same : guardrails_violation cfg (some t) (some e.command)
        ≡ violation_of cfg (normalize (codes t)) (normalize (codes e.command)) =
      ap
        (λ s.
          violation_of cfg (normalize (codes s)) (normalize (codes (text_or (some e.command) ""))))
        (text_or_again e.execution_type)
      ∙ ap (λ s. violation_of cfg (normalize (codes t)) (normalize (codes s)))
          (text_or_blank e.command) in
    let parts : _ =
      nothing_denied cfg (normalize (codes t)) (normalize (codes e.command)) on (sym same ∙ h) in
    record {
      type_allowed = parts.0;
      no_denied_prefix =
          λ c. no_prefix (normalize (codes e.command)) cfg.deny_command_prefixes (parts.1 c);
    }

module _ (cfg : Settings) (ext : Services) where
  -- the row that a dispatch marks has passed the guardrails
  abbrev Passed : Execution → Type 0
  Passed e =
      guardrails_violation cfg (some (text_or e.execution_type "command")) (some e.command) ≡ none

  map-none_violation :
      (o : Option Violation) → Option.map (λ v. http (policy_violation v)) o ≡ none → o ≡ none
  map-none_violation none h = refl
  map-none_violation (some v) h = absurd cc

  set_dispatched-Passed : (now : ℕ) (e : Execution) → Passed e → Passed (set_dispatched now e)
  unfolding set_dispatched
  set_dispatched-Passed now e h = h

  mark_dispatched-Passed : (id : String) → Ensures Passed (mark_dispatched cfg id)
  unfolding mark_dispatched
  mark_dispatched-Passed id = Ensures-bind _ _ _ _ (Ensures-any _) (λ e _.
      Ensures-bind _ _ _ _ (Ensures-raise_found _) (λ _ clear.
        Ensures-bind _ _ _ _ (Ensures-any _) (λ _ _. Ensures-bind _ _ _ _ (Ensures-any _) (λ now _.
          Ensures-bind _ _ _ _ (Ensures-any _) (λ _ _.
            Ensures-pure Passed (set_dispatched now e)
              (set_dispatched-Passed now e (map-none_violation _ clear)))))))

  view-IsWithinPolicy :
      (e : Execution)
      → cfg.guardrails_enabled ≡ true
      → Passed e
      → IsWithinPolicy cfg
          (execution_to_dict e true).execution_type
          (execution_to_dict e true).command
  unfolding execution_to_dict
  view-IsWithinPolicy e on h = allowed cfg e on h

  -- With the guardrails switched on, a dispatch returns only for an execution whose type is not
  -- blocked, and which, if it is a command, begins with none of the denied prefixes, whatever the
  -- case of its letters and the blanks around it.
  pub dispatch-IsWithinPolicy :
      (id : String) (req : Option Request) (w : World) (v : ExecutionView)
      → cfg.guardrails_enabled ≡ true
      → (dispatch_execution cfg ext id req w).0 ≡ ok v
      → IsWithinPolicy cfg v.execution_type v.command
  unfolding dispatch_execution
  dispatch-IsWithinPolicy id req w v on =
      (Ensures-bind _ _ _ _ (mark_dispatched-Passed id) (λ e passed.
          Ensures-bind _ _ _ _ (Ensures-any _) (λ _ _. Ensures-bind _ _ _ _ (Ensures-any _) (λ _ _.
            Ensures-bind _ _ _ _ (Ensures-any _) (λ _ _.
              Ensures-pure (λ v. IsWithinPolicy cfg v.execution_type v.command)
                (execution_to_dict e true) (view-IsWithinPolicy e on passed)))))).at
        w v
