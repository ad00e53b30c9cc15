-- ===== src/Execution/Rings.antt =====
-- `_compute_canary_rings` of services/execution-service/main.py: how many devices each ring of a
-- rollout takes. Integers of the body may be negative.
pub mod Cover
use nexora_platform.Prelude.{
  ℕ, zero, suc, ◌-◌, Option, none, some, List, [], ◌∷◌, ◌++◌, min, sum, take, ltb, if◌then◌else◌,
}
use nexora_platform.Prelude.Int.{ℤ, pos, negsuc}
use nexora_platform.Prelude.Text.{Field, missing, null, given}
use nexora_platform.Prelude.Action.{Outcome, ok, raised, and_then}
use nexora_platform.Execution.World.{
  Raised, http, type_error, bad_ring_sizes, bad_ring_size, bad_max_rings,
}

-- The fields read from the body; `ring_sizes` is none if it is no list.
pub record RingPayload : Type 0 where
  pub ring_sizes : Option (List ℤ)
  pub ring_size : Field ℤ
  pub max_rings : Option ℤ

-- `[int(x) for x in ring_sizes if int(x) > 0]`
unfoldable pub positives : List ℤ → List ℕ
positives [] = []
positives (pos zero ∷ l) = positives l
positives (pos (suc n) ∷ l) = suc n ∷ positives l
positives (negsuc n ∷ l) = positives l

-- `while left > 0`; a positive size takes at least one each round
unfoldable pub chunks : (fuel size left : ℕ) → List ℕ
chunks zero size left = []
chunks (suc fuel) size zero = []
chunks (suc fuel) size (suc n) = min size (suc n) ∷ chunks fuel size (suc n - min size (suc n))

unfoldable pub uniform_rings : ℕ → ℤ → Outcome Raised (List ℕ)
unfolding chunks
uniform_rings total (pos zero) = raised (http bad_ring_size)
uniform_rings total (pos (suc n)) = ok (chunks total (suc n) total)
uniform_rings total (negsuc n) = raised (http bad_ring_size)

-- `int(payload.get("ring_size", 1))`
unfoldable pub from_size : ℕ → Field ℤ → Outcome Raised (List ℕ)
unfolding uniform_rings
from_size total missing = uniform_rings total (pos 1)
from_size total null = raised type_error
from_size total (given z) = uniform_rings total z

abbrev pub some_ring : List ℕ → Outcome Raised (List ℕ)
some_ring [] = raised (http bad_ring_sizes)
some_ring (n ∷ ns) = ok (n ∷ ns)

-- the sizes that are listed, or rings of one size
unfoldable pub base_rings : ℕ → Field ℤ → Option (List ℤ) → Outcome Raised (List ℕ)
unfolding from_size positives
base_rings total size none = from_size total size
base_rings total size (some []) = from_size total size
base_rings total size (some (x ∷ l)) = some_ring (positives (x ∷ l))

-- A bound on the rings cuts the list; without one the rest of the fleet is the last ring.
unfoldable pub limit_rings : ℕ → Option ℤ → List ℕ → Outcome Raised (List ℕ)
limit_rings total none sizes =
    ok (if ltb (sum sizes) total then sizes ++ (total - sum sizes) ∷ [] else sizes)
limit_rings total (some (pos zero)) sizes = raised (http bad_max_rings)
limit_rings total (some (pos (suc m))) sizes = ok (take (suc m) sizes)
limit_rings total (some (negsuc m)) sizes = raised (http bad_max_rings)

unfoldable pub compute_canary_rings : ℕ → RingPayload → Outcome Raised (List ℕ)
unfolding base_rings limit_rings
compute_canary_rings zero p = ok []
compute_canary_rings (suc n) p =
    and_then (base_rings (suc n) p.ring_size p.ring_sizes)
      (λ sizes. limit_rings (suc n) p.max_rings sizes)
