-- ===== src/Prelude/Action/Ensures.antt =====
-- What holds of every value that an action returns, whatever state it starts from: one rule for each
-- way to build an action.
use mathlib.Core.Path.{◌≡◌, refl, subst}
use mathlib.Core.Bool.{Bool, true, false}
use mathlib.Core.Option.{Option, none, some}
use nexora_platform.Prelude.Tests.{if◌then◌else◌}
use nexora_platform.Prelude.Action.{
  Outcome, ok, raised, Action, pure, raise, raise_if, raise_found, or_raise, lift, ◌>>=◌,
}

pub record Ensures {E S A : Type 0} (P : A → Type 0) (m : Action E S A) : Type 0 where
  pub at : (s : S) (a : A) → (m s).0 ≡ ok a → P a

module _ {E S : Type 0} where
  pub Ensures-pure :
      {A : Type 0} (P : A → Type 0) (a : A) → P a → Ensures {E = E} {S = S} P (pure a)
  unfolding pure
  Ensures-pure P a h = record { at = λ s b e. let same : a ≡ b = cc in subst P same h }

  pub Ensures-raise : {A : Type 0} (P : A → Type 0) (e : E) → Ensures {S = S} P (raise e)
  unfolding raise
  Ensures-raise P e = record { at = λ s a h. absurd cc }

  -- nothing is claimed
  pub Ensures-any : {A : Type 0} (m : Action E S A) → Ensures (λ _. Unit {0}) m
  Ensures-any m = record { at = λ s a h. tt }

  pub Ensures-lift :
      {A : Type 0} (P : A → Type 0) (r : Outcome E A)
      → ((a : A) → r ≡ ok a → P a)
      → Ensures {S = S} P (lift r)
  unfolding lift
  Ensures-lift P r h = record { at = λ s a e. h a e }

  pub Ensures-raise_if : (b : Bool) (e : E) → Ensures {S = S} (λ _. b ≡ false) (raise_if b e)
  unfolding raise_if
  Ensures-raise_if true e = record { at = λ s a h. absurd cc }
  Ensures-raise_if false e = record { at = λ s a h. refl }

  pub Ensures-raise_found : (o : Option E) → Ensures {S = S} (λ _. o ≡ none) (raise_found o)
  unfolding raise_found
  Ensures-raise_found none = record { at = λ s a h. refl }
  Ensures-raise_found (some e) = record { at = λ s a h. absurd cc }

  pub Ensures-or_raise :
      {A : Type 0} (o : Option A) (e : E) → Ensures {S = S} (λ a. o ≡ some a) (or_raise o e)
  unfolding or_raise
  Ensures-or_raise none e = record { at = λ s a h. absurd cc }
  Ensures-or_raise (some x) e = record { at = λ s a h. cc }

  pub Ensures-if :
      {A : Type 0} (P : A → Type 0) (b : Bool) (m k : Action E S A)
      → (b ≡ true → Ensures P m)
      → (b ≡ false → Ensures P k)
      → Ensures P (if b then m else k)
  Ensures-if P true m k h g = h refl
  Ensures-if P false m k h g = g refl

  bind_returned :
      {A B : Type 0} (Q : A → Type 0) (P : B → Type 0) (k : A → Action E S B)
      → ((a : A) → Q a → Ensures P (k a))
      → (r : Outcome E A × S) → ((a : A) → r.0 ≡ ok a → Q a)
      → (b : B) → ((lift r.0 >>= k) r.1).0 ≡ ok b
      → P b
  unfolding ◌>>=◌
  bind_returned Q P k g (ok a, t) q b e = (g a (q a refl)).at t b e
  bind_returned Q P k g (raised x, t) q b e = absurd cc

  pub Ensures-bind :
      {A B : Type 0} (Q : A → Type 0) (P : B → Type 0) (m : Action E S A) (k : A → Action E S B)
      → Ensures Q m
      → ((a : A) → Q a → Ensures P (k a))
      → Ensures P (m >>= k)
  unfolding ◌>>=◌
  Ensures-bind Q P m k h g = record { at = λ s. bind_returned Q P k g (m s) (h.at s) }
