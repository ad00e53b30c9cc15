-- ===== src/Prelude/Action/Along.antt =====
-- An action moves the state along a preorder, whether it returns or raises: one rule for each way
-- to build an action.
use mathlib.Core.Bool.{Bool, true, false}
use mathlib.Core.Option.{Option, none, some}
use nexora_platform.Prelude.Tests.{if◌then◌else◌}
use nexora_platform.Prelude.Action.{
  Outcome, ok, raised, Action, pure, raise, gets, modify, raise_if, or_raise, raise_found, lift,
  try_call, ◌>>=◌,
}

pub record Preorder {S : Type 0} (R : S → S → Type 0) : Type 0 where
  pub here : (s : S) → R s s
  pub after : (s t u : S) → R s t → R t u → R s u

pub record Along {E S A : Type 0} (R : S → S → Type 0) (m : Action E S A) : Type 0 where
  pub at : (s : S) → R s (m s).1

module _ {E S : Type 0} (R : S → S → Type 0) (pre : Preorder R) where
  pub Along-pure : {A : Type 0} (a : A) → Along {E = E} R (pure a)
  unfolding pure
  Along-pure a = record { at = pre.here }

  pub Along-raise : {A : Type 0} (e : E) → Along R (raise {A = A} e)
  unfolding raise
  Along-raise e = record { at = pre.here }

  pub Along-gets : {A : Type 0} (f : S → A) → Along {E = E} R (gets f)
  unfolding gets
  Along-gets f = record { at = pre.here }

  pub Along-modify : (f : S → S) → ((s : S) → R s (f s)) → Along {E = E} R (modify f)
  unfolding modify
  Along-modify f h = record { at = h }

  pub Along-raise_if : (b : Bool) (e : E) → Along R (raise_if b e)
  unfolding raise_if
  Along-raise_if true e = record { at = pre.here }
  Along-raise_if false e = record { at = pre.here }

  pub Along-or_raise : {A : Type 0} (o : Option A) (e : E) → Along R (or_raise o e)
  unfolding or_raise
  Along-or_raise none e = record { at = pre.here }
  Along-or_raise (some a) e = record { at = pre.here }

  pub Along-raise_found : (o : Option E) → Along R (raise_found o)
  unfolding raise_found
  Along-raise_found none = record { at = pre.here }
  Along-raise_found (some e) = record { at = pre.here }

  pub Along-lift : {A : Type 0} (r : Outcome E A) → Along R (lift r)
  unfolding lift
  Along-lift r = record { at = pre.here }

  pub Along-try_call : {A : Type 0} (m : Action E S A) → Along R m → Along {E = E} R (try_call m)
  unfolding try_call
  Along-try_call m h = record { at = h.at }

  continue_along :
      {A B : Type 0} (r : Outcome E A) (f : A → Action E S B) (s t : S)
      → R s t
      → ((a : A) → Along R (f a))
      → R s ((lift r >>= f) t).1
  unfolding ◌>>=◌
  continue_along (ok a) f s t h k = pre.after s t ((f a) t).1 h ((k a).at t)
  continue_along (raised e) f s t h k = h

  -- from `t`, a state later than `s`: what follows an action that has gone along `R`
  pub along_from :
      {A B : Type 0} (s t : S) (m : Action E S A) (f : A → Action E S B)
      → R s (m t).1
      → ((a : A) → Along R (f a))
      → R s ((m >>= f) t).1
  unfolding ◌>>=◌
  along_from s t m f h k = let (r, u) = m t in continue_along r f s u h k

  pub along_then :
      {A B : Type 0} (s : S) (m : Action E S A) (f : A → Action E S B)
      → R s (m s).1
      → ((a : A) → Along R (f a))
      → R s ((m >>= f) s).1
  along_then s m f h k = along_from s s m f h k

  pub Along-bind :
      {A B : Type 0} (m : Action E S A) (f : A → Action E S B)
      → Along R m
      → ((a : A) → Along R (f a))
      → Along R (m >>= f)
  Along-bind m f h k = record { at = λ s. along_then s m f (h.at s) k }

  pub Along-if :
      {A : Type 0} (b : Bool) (m n : Action E S A)
      → Along R m
      → Along R n
      → Along R (if b then m else n)
  Along-if true m n h k = h
  Along-if false m n h k = k

  pub Along-Option :
      {A B : Type 0} (o : Option B) (m : Action E S A) (f : B → Action E S A)
      → Along R m
      → ((b : B) → Along R (f b))
      → Along R (elim o [ none ↦ m | some b ↦ f b ])
  Along-Option none m f h k = h
  Along-Option (some b) m f h k = k b

  pub Along-Outcome :
      {F A B : Type 0} (r : Outcome F B) (f : B → Action E S A) (g : F → Action E S A)
      → ((b : B) → Along R (f b))
      → ((x : F) → Along R (g x))
      → Along R (elim r [ ok b ↦ f b | raised x ↦ g x ])
  Along-Outcome (ok b) f g h k = h b
  Along-Outcome (raised x) f g h k = k x
