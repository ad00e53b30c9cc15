-- ===== src/Execution/Guardrails.antt =====
-- The guardrails policy: `_guardrails_violation` of services/execution-service/main.py. Texts are
-- lists of code points; blanks and letter case are those of ASCII.
use nexora_platform.Prelude.{
  ℕ, ◌+◌, String, Bool, true, false, ◌&&◌, ◌||◌, Option, none, some, List, [], ◌∷◌, map, leb,
  nat_eq, if◌then◌else◌,
}
use mathlib.Core.List.{reverse}
use nexora_platform.Prelude.Text.{codes, is_space, text_or}
use nexora_platform.Execution.World.{Violation, blocked_type, denied_prefix, Settings}

unfoldable pub to_lower : ℕ → ℕ
to_lower c = if leb b'A' c && leb c b'Z' then c + 32 else c

-- `str.strip`, from the left and then from the right
unfoldable pub strip_left : List ℕ → List ℕ
unfolding is_space
strip_left [] = []
strip_left (c ∷ s) = if is_space c then strip_left s else c ∷ s

unfoldable pub strip : List ℕ → List ℕ
unfolding strip_left
strip s = reverse (strip_left (reverse (strip_left s)))

-- `s.strip().lower()`
unfoldable pub normalize : List ℕ → List ℕ
unfolding strip to_lower
normalize s = map to_lower (strip s)

abbrev pub text_eq : List ℕ → List ℕ → Bool
text_eq [] [] = true
text_eq [] (d ∷ t) = false
text_eq (c ∷ s) [] = false
text_eq (c ∷ s) (d ∷ t) = nat_eq c d && text_eq s t

-- `s.startswith(prefix)`
abbrev pub starts_with : List ℕ → List ℕ → Bool
starts_with s [] = true
starts_with [] (d ∷ t) = false
starts_with (c ∷ s) (d ∷ t) = nat_eq c d && starts_with s t

abbrev pub text_member : List ℕ → List (List ℕ) → Bool
text_member s [] = false
text_member s (t ∷ ts) = text_eq s t || text_member s ts

-- the loop over the denied prefixes: the first that matches
unfoldable pub first_prefix : List ℕ → List (List ℕ) → Option (List ℕ)
first_prefix s [] = none
first_prefix s (p ∷ ps) = if starts_with s p then some p else first_prefix s ps

-- the violation that is found first
abbrev denied : Option (List ℕ) → Option Violation
denied none = none
denied (some p) = some (denied_prefix p)

-- the checks, on the normalized type and command
unfoldable pub violation_of : Settings → (execution_type command : List ℕ) → Option Violation
unfolding first_prefix
violation_of cfg execution_type command =
    if cfg.guardrails_enabled
    then (if text_member execution_type cfg.blocked_execution_types
        then some (blocked_type execution_type)
        else if text_eq execution_type (codes "command")
        then denied (first_prefix command cfg.deny_command_prefixes)
        else none)
    else none

unfoldable pub guardrails_violation : Settings → Option String → Option String → Option Violation
unfolding normalize violation_of
guardrails_violation cfg execution_type command =
    violation_of cfg (normalize (codes (text_or execution_type "command")))
      (normalize (codes (text_or command "")))
