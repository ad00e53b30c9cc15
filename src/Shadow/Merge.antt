-- ===== src/Shadow/Merge.antt =====
-- What a merge and a delta hold for each key.
use nexora_platform.Prelude.{
  ◌≡◌, refl, ap, ◌∙◌, String, Bool, true, false, not, ◌&&◌, is_some, Option, none, some, [], ◌∷◌,
  ◌==◌, if◌then◌else◌, arith, eq_iff, Bool-cases, inl, inr,
}
use nexora_platform.Prelude.Text.{Json}
use nexora_platform.Shadow.{Doc, get, put, overwrite, drop_nulls, merge, same, compute_delta}

-- the last value that an update gives for a key, or else the old one
abbrev pub updated : String → Doc → Option Json → Option Json
updated k [] old = old
updated k ((j, v) ∷ s) old = updated k s (if j == k then v else old)

-- no key twice
abbrev pub has_key : String → Doc → Bool
has_key k [] = false
has_key k ((j, v) ∷ d) = if j == k then true else has_key k d

abbrev pub IsDict : Doc → Type 0
IsDict [] = Unit
IsDict ((k, v) ∷ d) = (has_key k d ≡ false) × IsDict d

get-put :
    (k j : String) (v : Option Json) (d : Doc) → get k (put j v d) ≡ (if j == k then v else get k d)
unfolding get put
get-put k j v [] = refl
get-put k j v ((i, x) ∷ d) = ground (arith, get-put k j v d, eq_iff i j, eq_iff i k, eq_iff j k)

get-overwrite : (k : String) (d s : Doc) → get k (overwrite d s) ≡ updated k s (get k d)
unfolding overwrite
get-overwrite k d [] = refl
get-overwrite k d ((j, v) ∷ s) = get-overwrite k (put j v d) s ∙ ap (updated k s) (get-put k j v d)

has_key-put :
    (k j : String) (v : Option Json) (d : Doc)
    → has_key k (put j v d) ≡ (if j == k then true else has_key k d)
unfolding put
has_key-put k j v [] = refl
has_key-put k j v ((i, x) ∷ d) =
    ground (arith, has_key-put k j v d, eq_iff i j, eq_iff i k, eq_iff j k)

put-IsDict : (j : String) (v : Option Json) (d : Doc) → IsDict d → IsDict (put j v d)
unfolding put
put-IsDict j v [] o = (refl, tt)
put-IsDict j v ((i, x) ∷ d) o = elim (Bool-cases (i == j)) [
  | inl here ↦ rw here o
  | inr other ↦ rw other (
    has_key-put i j v d ∙ ground (arith, other, o.0, eq_iff i j, eq_iff j i),
    put-IsDict j v d o.1,
  )
]

overwrite-IsDict : (d s : Doc) → IsDict d → IsDict (overwrite d s)
unfolding overwrite
overwrite-IsDict d [] o = o
overwrite-IsDict d ((k, v) ∷ s) o = overwrite-IsDict (put k v d) s (put-IsDict k v d o)

absent-get : (k : String) (d : Doc) → has_key k d ≡ false → get k d ≡ none
unfolding get
absent-get k [] h = refl
absent-get k ((j, v) ∷ d) h = ground (arith, h, absent-get k d)

get-drop_nulls : (k : String) (d : Doc) → IsDict d → get k (drop_nulls d) ≡ get k d
unfolding get drop_nulls
get-drop_nulls k [] o = refl
get-drop_nulls k ((j, none) ∷ d) o = elim (Bool-cases (j == k)) [
  | inl here ↦
      let at : j ≡ k = (eq_iff j k).0 here in
      rw here (get-drop_nulls k d o.1 ∙ absent-get k d (rw (← at) o.0))
  | inr other ↦ rw other (get-drop_nulls k d o.1)
]
get-drop_nulls k ((j, some v) ∷ d) o = ground (arith, get-drop_nulls k d o.1)

has_key-drop_nulls :
    (k : String) (d : Doc) → IsDict d → has_key k (drop_nulls d) ≡ is_some (get k d)
unfolding get drop_nulls
has_key-drop_nulls k [] o = refl
has_key-drop_nulls k ((j, none) ∷ d) o = elim (Bool-cases (j == k)) [
  | inl here ↦
      let at : j ≡ k = (eq_iff j k).0 here in
      rw here (has_key-drop_nulls k d o.1 ∙ ap is_some (absent-get k d (rw (← at) o.0)))
  | inr other ↦ rw other (has_key-drop_nulls k d o.1)
]
has_key-drop_nulls k ((j, some v) ∷ d) o = ground (arith, has_key-drop_nulls k d o.1)

-- Merging an update into a document leaves under each key the last value that the update gives for
-- it, and the old value of a key that the update does not name; and the key is there exactly if this
-- value is not null. The document is assumed to hold no key twice.
pub get-merge :
    (k : String) (d s : Doc)
    → IsDict d
    → (get k (merge d s) ≡ updated k s (get k d))
      × (has_key k (merge d s) ≡ is_some (updated k s (get k d)))
unfolding merge
get-merge k d s o =
    let dict : IsDict (overwrite d s) = overwrite-IsDict d s o in
    let value = get-overwrite k d s in
    (
      get-drop_nulls k (overwrite d s) dict ∙ value,
      has_key-drop_nulls k (overwrite d s) dict ∙ ap is_some value,
    )

has_key-delta :
    (k : String) (d r : Doc) → has_key k d ≡ false → has_key k (compute_delta d r) ≡ false
unfolding compute_delta
has_key-delta k [] r h = refl
has_key-delta k ((j, v) ∷ d) r h = ground (arith, h, has_key-delta k d r)

value-delta :
    (k : String) (d r : Doc)
    → IsDict d
    → get k (compute_delta d r) ≡ (if same (get k r) (get k d) then none else get k d)
unfolding compute_delta get
value-delta k [] r o = ground arith
value-delta k ((j, v) ∷ d) r o = elim (Bool-cases (j == k)) [
  | inl here ↦
      let at : j ≡ k = (eq_iff j k).0 here in
      let gone : get k (compute_delta d r) ≡ none =
        absent-get k (compute_delta d r) (has_key-delta k d r (rw (← at) o.0)) in
      ground (arith, here, at, gone)
  | inr other ↦ ground (arith, other, value-delta k d r o.1)
]

key-delta :
    (k : String) (d r : Doc)
    → IsDict d
    → has_key k (compute_delta d r) ≡ (has_key k d && not (same (get k r) (get k d)))
unfolding compute_delta get
key-delta k [] r o = refl
key-delta k ((j, v) ∷ d) r o = elim (Bool-cases (j == k)) [
  | inl here ↦
      let at : j ≡ k = (eq_iff j k).0 here in
      let gone : has_key k (compute_delta d r) ≡ false = has_key-delta k d r (rw (← at) o.0) in
      ground (arith, here, at, gone)
  | inr other ↦ ground (arith, other, key-delta k d r o.1)
]

-- The delta holds exactly those keys of the desired document whose reported value differs, and under
-- each of them the desired value. The desired document is assumed to hold no key twice.
pub get-compute_delta :
    (k : String) (d r : Doc)
    → IsDict d
    → (get k (compute_delta d r) ≡ (if same (get k r) (get k d) then none else get k d))
      × (has_key k (compute_delta d r) ≡ (has_key k d && not (same (get k r) (get k d))))
get-compute_delta k d r o = (value-delta k d r o, key-delta k d r o)
