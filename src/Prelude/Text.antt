-- ===== src/Prelude/Text.antt =====
-- What the services do with optional texts.
use Prim.Native.Nat.{ℕ}
use Prim.Native.Char.{Char, code}
use Prim.Native.String.{String, ◌++◌}
use mathlib.Core.Bool.{Bool, true, false, not, ◌&&◌, ◌||◌}
use mathlib.Core.Option.{Option, none, some}
use mathlib.Core.List.{List, [], ◌∷◌}
use nexora_platform.Prelude.Tests.{leb, nat_eq, ◌==◌, if◌then◌else◌}

-- The truth value of a text or None: only None and "" are false.
abbrev pub truthy : Option String → Bool
truthy none = false
truthy (some s) = not (s == "")

-- `x or default`
abbrev pub text_or : Option String → String → String
text_or none d = d
text_or (some s) d = if s == "" then d else s

-- `a == b` where either may be None.
abbrev pub opt_eq : Option String → Option String → Bool
opt_eq none none = true
opt_eq none (some b) = false
opt_eq (some a) none = false
opt_eq (some a) (some b) = a == b

-- `x in xs`, for an optional text and texts
abbrev pub member : String → List String → Bool
member a [] = false
member a (x ∷ xs) = if a == x then true else member a xs

abbrev pub opt_member : Option String → List String → Bool
opt_member none xs = false
opt_member (some a) xs = member a xs

-- A field of a JSON object: left out, null, or given.
pub data Field (A : Type 0) : Type 0 where
  missing null : Field A
  given : A → Field A

-- `payload.get(key)`
abbrev pub get_field : {A : Type 0} → Field A → Option A
get_field missing = none
get_field null = none
get_field (given a) = some a

-- `payload.get(key, default)`
abbrev pub get_field_or : {A : Type 0} → Field A → Option A → Option A
get_field_or missing d = d
get_field_or null d = none
get_field_or (given a) d = some a

-- A JSON value that a service only stores and passes on, as its text.
pub record Json : Type 0 where
  pub text : String

-- The code points of a text.
abbrev pub codes : String → List ℕ
codes String.[] = []
codes (String.◌∷◌ c s) = code c ∷ codes s

-- The concatenation of an f-string's parts.
abbrev pub append : String → String → String
append s t = s ++ t

-- `a or b`, for optional texts
abbrev pub opt_or : Option String → Option String → Option String
opt_or a b = if truthy a then a else b

-- The blanks that `str.strip` takes off: those of ASCII.
unfoldable pub is_space : ℕ → Bool
is_space c = (leb 9 c && leb c 13) || (leb 28 c && leb c 32)

strip_start : String → String
strip_start String.[] = ""
strip_start (String.◌∷◌ c s) = if is_space (code c) then strip_start s else String.◌∷◌ c s

strip_end : String → String
strip_end String.[] = ""
strip_end (String.◌∷◌ c s) =
    let rest = strip_end s in if is_space (code c) && (rest == "") then "" else String.◌∷◌ c rest

-- `s.strip()`
unfoldable pub strip : String → String
unfolding strip_start strip_end is_space
strip s = strip_end (strip_start s)

-- A value that a JSON object may leave out or set to null, either of which stands for `d`.
abbrev pub given_or : {A : Type 0} → Field A → A → A
given_or missing d = d
given_or null d = d
given_or (given a) d = a

-- `s.removeprefix(p)` where `s` starts with `p`
abbrev pub strip_prefix : String → String → Option String
strip_prefix String.[] s = some s
strip_prefix (String.◌∷◌ c p) String.[] = none
strip_prefix (String.◌∷◌ c p) (String.◌∷◌ d s) =
    if nat_eq (code c) (code d) then strip_prefix p s else none

-- `s.lstrip("/")`
abbrev pub strip_slashes : String → String
strip_slashes String.[] = ""
strip_slashes (String.◌∷◌ c s) = if nat_eq (code c) b'/' then strip_slashes s else String.◌∷◌ c s

abbrev extend_first : Char → List String → List String
extend_first c [] = String.◌∷◌ c "" ∷ []
extend_first c (w ∷ ws) = String.◌∷◌ c w ∷ ws

-- `s.split(d)`, for the character with code `d`
unfoldable pub split : ℕ → String → List String
split d String.[] = "" ∷ []
split d (String.◌∷◌ c s) =
    let rest = split d s in if nat_eq (code c) d then "" ∷ rest else extend_first c rest

abbrev pub is_null : {A : Type 0} → Field A → Bool
is_null null = true
is_null _ = false

-- a field that is set where the object names it, in a column that may be NULL
abbrev pub set_nullable : {A : Type 0} → Field A → Option A → Option A
set_nullable missing old = old
set_nullable null old = none
set_nullable (given a) old = some a
