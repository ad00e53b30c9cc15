-- ===== src/Prelude/Action/After.antt =====
-- What holds of the outcome and the state after a handler, step by step: a rule for each action that
-- a block can begin with. `Q` is the statement about both.
use mathlib.Core.Path.{◌≡◌, refl, subst, sym}
use mathlib.Core.Bool.{Bool, true, false}
use mathlib.Core.Option.{Option, none, some}
use nexora_platform.Prelude.Tests.{if◌then◌else◌}
use nexora_platform.Prelude.Action.{
  Outcome, ok, raised, Action, gets, modify, raise_if, or_raise, raise_found, lift, ◌>>=◌,
}

module _ {E S A B : Type 0} (Q : Outcome E B × S → Type 0) (s : S) where
  pub after_bind :
      (m : Action E S A) (k : A → Action E S B)
      → ((a : A) (t : S) → m s ≡ (ok a, t) → Q (k a t))
      → ((e : E) (t : S) → m s ≡ (raised e, t) → Q (raised e, t))
      → Q ((m >>= k) s)
  unfolding ◌>>=◌
  after_bind m k h g = go (m s) refl
    where
      go : (r : Outcome E A × S) → m s ≡ r → Q ((lift r.0 >>= k) r.1)
      go (ok a, t) e = h a t e
      go (raised x, t) e = g x t e

  -- where the first action's end is known
  pub after_known :
      (m : Action E S A) (k : A → Action E S B) (a : A) (t : S)
      → m s ≡ (ok a, t)
      → Q (k a t)
      → Q ((m >>= k) s)
  unfolding ◌>>=◌
  after_known m k a t e h = subst (λ r. Q ((lift r.0 >>= k) r.1)) (sym e) h

  pub after_or_raise :
      (o : Option A) (e : E) (k : A → Action E S B)
      → (o ≡ none → Q (raised e, s))
      → ((a : A) → o ≡ some a → Q (k a s))
      → Q ((or_raise o e >>= k) s)
  unfolding ◌>>=◌
  after_or_raise none e k h g = h refl
  after_or_raise (some a) e k h g = g a refl

  pub after_lift :
      (r : Outcome E A) (k : A → Action E S B)
      → ((e : E) → r ≡ raised e → Q (raised e, s))
      → ((a : A) → r ≡ ok a → Q (k a s))
      → Q ((lift r >>= k) s)
  unfolding ◌>>=◌
  after_lift (ok a) k h g = g a refl
  after_lift (raised e) k h g = h e refl

  pub after_gets : (f : S → A) (k : A → Action E S B) → Q (k (f s) s) → Q ((gets f >>= k) s)
  unfolding ◌>>=◌
  after_gets f k h = h

module _ {E S B : Type 0} (Q : Outcome E B × S → Type 0) (s : S) where
  pub after_raise_if :
      (b : Bool) (e : E) (k : Unit {0} → Action E S B)
      → (b ≡ true → Q (raised e, s))
      → (b ≡ false → Q (k tt s))
      → Q ((raise_if b e >>= k) s)
  unfolding ◌>>=◌
  after_raise_if true e k h g = h refl
  after_raise_if false e k h g = g refl

  pub after_raise_found :
      (o : Option E) (k : Unit {0} → Action E S B)
      → ((e : E) → o ≡ some e → Q (raised e, s))
      → (o ≡ none → Q (k tt s))
      → Q ((raise_found o >>= k) s)
  unfolding ◌>>=◌
  after_raise_found none k h g = g refl
  after_raise_found (some e) k h g = h e refl

  pub after_modify :
      (f : S → S) (k : Unit {0} → Action E S B) → Q (k tt (f s)) → Q ((modify f >>= k) s)
  unfolding ◌>>=◌
  after_modify f k h = h

  pub after_if :
      (b : Bool) (m n : Action E S B)
      → (b ≡ true → Q (m s))
      → (b ≡ false → Q (n s))
      → Q ((if b then m else n) s)
  after_if true m n h g = h refl
  after_if false m n h g = g refl
