-- ===== src/Prelude/Dict.antt =====
-- A Python dictionary with texts as keys: pairs in the order of insertion.
use nexora_platform.Prelude.Tests.{◌==◌, if◌then◌else◌}
use Prim.Native.String.{String}
use mathlib.Core.Path.{◌≡◌, refl}
use mathlib.Core.Option.{Option, none, some}
use mathlib.Core.List.{List, [], ◌∷◌}
use native.Mathlib.Omega.{arith}
use text.Mathlib.TextEquality.{eq_iff}

abbrev pub Dict : Type 0 → Type 0
Dict V = List (String × V)

module _ {V : Type 0} where
  -- `d.get(k)`
  unfoldable pub lookup : String → Dict V → Option V
  lookup k [] = none
  lookup k (e ∷ d) = if e.0 == k then some e.1 else lookup k d

  -- `d[k] = v`
  unfoldable pub assign : String → V → Dict V → Dict V
  assign k v [] = (k, v) ∷ []
  assign k v (e ∷ d) = if e.0 == k then (k, v) ∷ d else e ∷ assign k v d

  -- `d.pop(k, None)`
  unfoldable pub discard : String → Dict V → Dict V
  discard k [] = []
  discard k (e ∷ d) = if e.0 == k then discard k d else e ∷ discard k d

  -- `d.values()`
  abbrev pub values : Dict V → List V
  values [] = []
  values (e ∷ d) = e.1 ∷ values d

  pub lookup-assign :
      (j k : String) (v : V) (d : Dict V)
      → lookup j (assign k v d) ≡ (if k == j then some v else lookup j d)
  unfolding lookup assign
  lookup-assign j k v [] = refl
  lookup-assign j k v (e ∷ d) =
      ground (arith, lookup-assign j k v d, eq_iff e.0 k, eq_iff e.0 j, eq_iff k j)

  pub lookup-discard :
      (j k : String) (d : Dict V) → lookup j (discard k d) ≡ (if k == j then none else lookup j d)
  unfolding lookup discard
  lookup-discard j k [] = ground arith
  lookup-discard j k (e ∷ d) =
      ground (arith, lookup-discard j k d, eq_iff e.0 k, eq_iff e.0 j, eq_iff k j)
