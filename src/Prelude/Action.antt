-- ===== src/Prelude/Action.antt =====
-- A handler: it reads and writes the service's state `S`, and returns or raises an exception `E`.
-- The state comes back after a raise too: what was committed before stays committed.
pub mod Along
pub mod After
pub mod Ensures
use mathlib.Core.Bool.{Bool, true, false}
use mathlib.Core.Option.{Option, none, some}

pub data Outcome (E A : Type 0) : Type 0 where
  ok : A → Outcome E A
  raised : E → Outcome E A

abbrev pub Action : Type 0 → Type 0 → Type 0 → Type 0
Action E S A = S → Outcome E A × S

module _ {E S : Type 0} where
  pub pure : {A : Type 0} → A → Action E S A
  pure a s = (ok a, s)

  pub raise : {A : Type 0} → E → Action E S A
  raise e s = (raised e, s)

  pub gets : {A : Type 0} → (S → A) → Action E S A
  gets f s = (ok (f s), s)

  pub modify : (S → S) → Action E S (Unit {0})
  modify f s = (ok tt, f s)

  -- `if c: raise e`
  pub raise_if : Bool → E → Action E S (Unit {0})
  raise_if true e s = (raised e, s)
  raise_if false e s = (ok tt, s)

  -- `if x is None: raise e`, which goes on with `x`
  pub or_raise : {A : Type 0} → Option A → E → Action E S A
  or_raise none e s = (raised e, s)
  or_raise (some a) e s = (ok a, s)

  -- `raise e` if a check found an error `e`
  pub raise_found : Option E → Action E S (Unit {0})
  raise_found none s = (ok tt, s)
  raise_found (some e) s = (raised e, s)

  -- a computation without effects that may have raised
  pub lift : {A : Type 0} → Outcome E A → Action E S A
  lift r s = (r, s)

  -- `try: m`, with the outcome handed on
  pub try_call : {A : Type 0} → Action E S A → Action E S (Outcome E A)
  try_call m s = let (r, s') = m s in (ok r, s')

  abbrev continue : {A B : Type 0} → Outcome E A → (A → Action E S B) → Action E S B
  continue (ok a) f s = f a s
  continue (raised e) f s = (raised e, s)

  infixl 5 ◌>>=◌ ◌>>◌
  -- opening this opens the actions above too
  unfoldable pub ◌>>=◌ : {A B : Type 0} → Action E S A → (A → Action E S B) → Action E S B
  unfolding pure raise gets modify raise_if or_raise raise_found lift try_call
  ◌>>=◌ m f s = let (r, s') = m s in continue r f s'

  abbrev pub ◌>>◌ : {A B : Type 0} → Action E S A → Action E S B → Action E S B
  m >> k = m >>= λ _. k

-- `ok a >>= f` for outcomes alone
abbrev pub and_then : {E A B : Type 0} → Outcome E A → (A → Outcome E B) → Outcome E B
and_then (ok a) f = f a
and_then (raised e) f = raised e

abbrev pub is_raised : {E A : Type 0} → Outcome E A → Bool
is_raised (ok a) = false
is_raised (raised e) = true
