-- ===== src/Execution/Rings/Cover.antt =====
-- How the rings of a rollout divide the fleet.
use nexora_platform.Prelude.{
  ℕ, zero, suc, ◌-◌, ◌≤◌, ◌<◌, ◌≡◌, refl, Option, none, some, List, [], ◌∷◌, ◌++◌, min, sum,
  sum-append, take, ltb, Bool-cases, All, arith, inl, inr, subst,
}
use nexora_platform.Prelude.Int.{ℤ, pos, negsuc}
use nexora_platform.Prelude.Text.{Field, missing, null, given}
use nexora_platform.Prelude.Action.{Outcome, ok, raised, and_then}
use nexora_platform.Execution.World.{Raised}
use nexora_platform.Execution.Rings.{
  RingPayload, positives, some_ring, chunks, uniform_rings, from_size, base_rings, limit_rings,
  compute_canary_rings,
}

-- a ring of at least one device
abbrev pub IsRing : ℕ → Type 0
IsRing n = 0 < n

abbrev pub IsRingUpTo : ℕ → ℕ → Type 0
IsRingUpTo size n = (0 < n) × (n ≤ size)

-- Fuel for every device is enough: the rings together hold exactly what is left.
sum-chunks : (fuel size left : ℕ) → left ≤ fuel → sum (chunks fuel (suc size) left) ≡ left
unfolding chunks
sum-chunks zero size zero h = refl
sum-chunks zero size (suc n) h = absurd (omega (arith, h))
sum-chunks (suc fuel) size zero h = refl
sum-chunks (suc fuel) size (suc n) h =
    omega (arith, sum-chunks fuel size (suc n - min (suc size) (suc n)) (omega (arith, h)), h)

chunks-bounded : (fuel size left : ℕ) → All (IsRingUpTo (suc size)) (chunks fuel (suc size) left)
unfolding chunks
chunks-bounded zero size left = tt
chunks-bounded (suc fuel) size zero = tt
chunks-bounded (suc fuel) size (suc n) =
    ((omega arith, omega arith), chunks-bounded fuel size (suc n - min (suc size) (suc n)))

All-rings : (size : ℕ) (l : List ℕ) → All (IsRingUpTo size) l → All IsRing l
All-rings size [] a = tt
All-rings size (x ∷ l) a = (a.0.0, All-rings size l a.1)

positives-rings : (l : List ℤ) → All IsRing (positives l)
unfolding positives
positives-rings [] = tt
positives-rings (pos zero ∷ l) = positives-rings l
positives-rings (pos (suc n) ∷ l) = (omega arith, positives-rings l)
positives-rings (negsuc n ∷ l) = positives-rings l

All-take : (n : ℕ) (l : List ℕ) → All IsRing l → All IsRing (take n l)
All-take zero l a = tt
All-take (suc n) [] a = tt
All-take (suc n) (x ∷ l) a = (a.0, All-take n l a.1)

All-last : (l : List ℕ) (n : ℕ) → 0 < n → All IsRing l → All IsRing (l ++ n ∷ [])
All-last [] n h a = (h, tt)
All-last (x ∷ l) n h a = (a.0, All-last l n h a.1)

uniform-rings :
    (total : ℕ) (z : ℤ) (sizes : List ℕ) → uniform_rings total z ≡ ok sizes → All IsRing sizes
unfolding uniform_rings
uniform-rings total (pos zero) sizes h = absurd cc
uniform-rings total (pos (suc n)) sizes h =
    let same : chunks total (suc n) total ≡ sizes = cc in
    subst (λ l. All IsRing l) same (All-rings (suc n) _ (chunks-bounded total n total))
uniform-rings total (negsuc n) sizes h = absurd cc

from_size-rings :
    (total : ℕ) (f : Field ℤ) (sizes : List ℕ) → from_size total f ≡ ok sizes → All IsRing sizes
unfolding from_size
from_size-rings total missing sizes h = uniform-rings total (pos 1) sizes h
from_size-rings total null sizes h = absurd cc
from_size-rings total (given z) sizes h = uniform-rings total z sizes h

some_ring-rings : (l sizes : List ℕ) → All IsRing l → some_ring l ≡ ok sizes → All IsRing sizes
some_ring-rings [] sizes a h = absurd cc
some_ring-rings (n ∷ ns) sizes a h =
    let same : (n ∷ ns) ≡ sizes = cc in subst (λ l. All IsRing l) same a

base-rings :
    (total : ℕ) (f : Field ℤ) (o : Option (List ℤ)) (sizes : List ℕ)
    → base_rings total f o ≡ ok sizes
    → All IsRing sizes
unfolding base_rings
base-rings total f none sizes h = from_size-rings total f sizes h
base-rings total f (some []) sizes h = from_size-rings total f sizes h
base-rings total f (some (x ∷ l)) sizes h =
    some_ring-rings (positives (x ∷ l)) sizes (positives-rings (x ∷ l)) h

limited-rings :
    (total : ℕ) (m : Option ℤ) (base sizes : List ℕ)
    → All IsRing base
    → limit_rings total m base ≡ ok sizes
    → All IsRing sizes
unfolding limit_rings
limited-rings total none base sizes a h = elim (Bool-cases (ltb (sum base) total)) [
  | inl short ↦
      let same : (base ++ (total - sum base) ∷ []) ≡ sizes = ground (arith, short, h) in
      subst (λ l. All IsRing l) same (All-last base (total - sum base) (ground (arith, short)) a)
  | inr full ↦ let same : base ≡ sizes = ground (arith, full, h) in subst (λ l. All IsRing l) same a
]
limited-rings total (some (pos zero)) base sizes a h = absurd cc
limited-rings total (some (pos (suc m))) base sizes a h =
    let same : take (suc m) base ≡ sizes = cc in
    subst (λ l. All IsRing l) same (All-take (suc m) base a)
limited-rings total (some (negsuc m)) base sizes a h = absurd cc

limited-covers :
    (total : ℕ) (base sizes : List ℕ) → limit_rings total none base ≡ ok sizes → total ≤ sum sizes
unfolding limit_rings
limited-covers total base sizes h = elim (Bool-cases (ltb (sum base) total)) [
  | inl short ↦
      let same : (base ++ (total - sum base) ∷ []) ≡ sizes = ground (arith, short, h) in
      subst (λ l. total ≤ sum l) same (omega (arith, sum-append base ((total - sum base) ∷ [])))
  | inr full ↦
      let same : base ≡ sizes = ground (arith, full, h) in
      subst (λ l. total ≤ sum l) same (ground (arith, full))
]

-- Whatever sizes are asked for, a plan of rings that is returned has no empty ring, and without a
-- bound on the number of rings the plan is large enough for the whole fleet.
pub rings_cover :
    (total : ℕ) (p : RingPayload) (sizes : List ℕ)
    → compute_canary_rings total p ≡ ok sizes
    → All IsRing sizes × (p.max_rings ≡ none → total ≤ sum sizes)
unfolding compute_canary_rings
rings_cover zero p sizes h =
    let same : [] ≡ sizes = cc in (subst (λ l. All IsRing l) same tt, λ _. omega arith)
rings_cover (suc n) p sizes h = after_base (base_rings (suc n) p.ring_size p.ring_sizes) refl h
  where
    after_base :
        (r : Outcome Raised (List ℕ))
        → base_rings (suc n) p.ring_size p.ring_sizes ≡ r
        → and_then r (λ l. limit_rings (suc n) p.max_rings l) ≡ ok sizes
        → All IsRing sizes × (p.max_rings ≡ none → suc n ≤ sum sizes)
    after_base (raised e) at h = absurd cc
    after_base (ok base) at h = (
      limited-rings (suc n) p.max_rings base sizes
          (base-rings (suc n) p.ring_size p.ring_sizes base at) h,
      λ free. limited-covers (suc n) base sizes (rw free at h),
    )

-- Rings of one size, which is positive, together take every device of the fleet exactly once, and
-- none of them is empty or larger than that size.
uniform_rings_partition :
    (total size : ℕ)
    → (sizes : List ℕ) × (uniform_rings total (pos (suc size)) ≡ ok sizes)
      × (sum sizes ≡ total)
      × All (IsRingUpTo (suc size)) sizes
unfolding uniform_rings
uniform_rings_partition total size = (
  chunks total (suc size) total,
  refl,
  sum-chunks total size total (omega arith),
  chunks-bounded total size total,
)
