-- ===== src/Prelude/Table.antt =====
-- A database table with a text primary key: rows in the order of insertion. The laws are stated for
-- changes that keep the key.
use nexora_platform.Prelude.Tests.{◌==◌, if◌then◌else◌, Bool-cases}
use nexora_platform.Prelude.Lists.{All, count}
use Prim.Native.Nat.{◌≤◌}
use mathlib.Core.Bool.{Bool, true}
use Prim.Native.String.{String}
use mathlib.Core.Path.{◌≡◌, refl, subst}
use mathlib.Core.Logic.{inl, inr}
use mathlib.Core.Option
use mathlib.Core.Option.{Option, none, some}
use mathlib.Core.List.{List, [], ◌∷◌, ◌++◌, map}
use native.Mathlib.Omega.{arith}
use text.Mathlib.TextEquality.{eq_iff}

module _ {R : Type 0} (key : R → String) where
  -- `db.get(Model, k)`
  unfoldable pub find : String → List R → Option R
  find k [] = none
  find k (r ∷ t) = if key r == k then some r else find k t

  -- attribute assignments to the row `k`, and `db.commit()`
  unfoldable pub update : String → (R → R) → List R → List R
  update k f [] = []
  update k f (r ∷ t) = if key r == k then f r ∷ t else r ∷ update k f t

  -- `db.delete(row)`
  unfoldable pub remove : String → List R → List R
  remove k [] = []
  remove k (r ∷ t) = if key r == k then remove k t else r ∷ remove k t

  pub find-append_one :
      (k : String) (r : R) (t : List R)
      → find k (t ++ r ∷ [])
        ≡ elim (find k t) [ none ↦ (if key r == k then some r else none) | some x ↦ some x ]
  unfolding find
  find-append_one k r [] = refl
  find-append_one k r (x ∷ t) = ground (arith, find-append_one k r t)

  pub find-update :
      (j k : String) (f : R → R) (t : List R)
      → ((r : R) → key (f r) ≡ key r)
      → find j (update k f t) ≡ (if k == j then Option.map f (find j t) else find j t)
  unfolding find update
  find-update j k f [] h = ground arith
  find-update j k f (r ∷ t) h = ground (
    arith,
    find-update j k f t h,
    h r,
    eq_iff (key r) k,
    eq_iff (key r) j,
    eq_iff k j,
    eq_iff (key (f r)) j,
  )

  pub find-remove :
      (j k : String) (t : List R) → find j (remove k t) ≡ (if k == j then none else find j t)
  unfolding find remove
  find-remove j k [] = ground arith
  find-remove j k (r ∷ t) =
      ground (arith, find-remove j k t, eq_iff (key r) k, eq_iff (key r) j, eq_iff k j)

  pub key-find : (k : String) (t : List R) {r : R} → find k t ≡ some r → key r ≡ k
  unfolding find
  key-find k [] h = cc
  key-find k (x ∷ t) {r} h = ground (arith, key-find k t {r = r}, eq_iff (key x) k)

  -- What holds of every row holds of a row that is found.
  pub All-find {κ} :
      (P : R → Type κ) (k : String) (t : List R) {r : R} → All P t → find k t ≡ some r → P r
  unfolding find
  All-find P k [] a h = cc
  All-find P k (x ∷ t) {r} a h = elim (Bool-cases (key x == k)) [
    | inl e ↦ let same : x ≡ r = ground arith in subst P same a.0
    | inr e ↦ All-find P k t a.1 (rw e at h)
  ]

  pub All-append_one {κ} :
      (P : R → Type κ) (r : R) (t : List R) → All P t → P r → All P (t ++ r ∷ [])
  All-append_one P r [] a p = (p, tt)
  All-append_one P r (x ∷ t) a p = (a.0, All-append_one P r t a.1 p)

  -- An update changes the row that is found, and no other.
  pub All-update {κ} :
      (P : R → Type κ) (k : String) (f : R → R) (t : List R) {e : R}
      → find k t ≡ some e
      → P (f e)
      → All P t
      → All P (update k f t)
  unfolding find update
  All-update P k f [] h p a = tt
  All-update P k f (x ∷ t) {e} h p a = elim (Bool-cases (key x == k)) [
    | inl eq ↦ let same : e ≡ x = ground arith in rw eq (subst (λ y. P (f y)) same p, a.1)
    | inr eq ↦ rw eq (a.0, All-update P k f t (rw eq at h) p a.1)
  ]

  pub count-update :
      (p : R → Bool) (k : String) (f : R → R) (t : List R) {e : R}
      → find k t ≡ some e
      → (p (f e) ≡ true → p e ≡ true)
      → count p (update k f t) ≤ count p t
  unfolding find update
  count-update p k f [] h g = omega arith
  count-update p k f (x ∷ t) {e} h g = elim (Bool-cases (key x == k)) [
    | inl eq ↦ let same : x ≡ e = ground arith in rw (eq, same) (ground arith)
    | inr eq ↦ rw eq (ground (arith, count-update p k f t {e = e} (rw eq at h) g))
  ]

  pub count-map :
      (p : R → Bool) (f : R → R) (t : List R)
      → ((x : R) → p (f x) ≡ true → p x ≡ true)
      → count p (map f t) ≤ count p t
  count-map p f [] h = omega arith
  count-map p f (x ∷ t) h = ground (arith, count-map p f t h, h x)

  pub count-remove : (p : R → Bool) (k : String) (t : List R) → count p (remove k t) ≤ count p t
  unfolding remove
  count-remove p k [] = omega arith
  count-remove p k (x ∷ t) = ground (arith, count-remove p k t)

  pub All-remove {κ} : (P : R → Type κ) (k : String) (t : List R) → All P t → All P (remove k t)
  unfolding remove
  All-remove P k [] a = tt
  All-remove P k (x ∷ t) a = elim (Bool-cases (key x == k)) [
    | inl e ↦ rw e (All-remove P k t a.1)
    | inr e ↦ rw e (a.0, All-remove P k t a.1)
  ]
