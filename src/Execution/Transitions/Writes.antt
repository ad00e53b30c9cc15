-- ===== src/Execution/Transitions/Writes.antt =====
-- What each write to the table of executions does to one row.
use nexora_platform.Prelude.{
  ℕ, ◌≤◌, ◌<◌, ◌≡◌, sym, ◌∙◌, String, false, Option, none, some, List, [], ◌∷◌, ◌++◌, arith, ◌≢◌,
  eq_iff, ◌==◌, inl, inr, Option-cases, Bool-cases,
}
use nexora_platform.Prelude.Table.{find, update, remove, find-update, find-remove, find-append_one}
use nexora_platform.Execution.Model.{Execution}
use nexora_platform.Execution.World.{Services, World}
use nexora_platform.Execution.Dispatch.{key_of}
use nexora_platform.Execution.Respects.{IsMove, row_of}
use nexora_platform.Execution.Transitions.Relation.{
  RowEvolves, RowEvolves-refl, Evolves-move, Follows,
}

-- An allowed move of one row is one of every row, since the other rows stay.
moves-update :
    (i id : String) (f : Execution → Execution) (t : List Execution) {e : Execution}
    → ((x : Execution) → key_of (f x) ≡ key_of x)
    → find key_of id t ≡ some e
    → IsMove e (f e)
    → RowEvolves (find key_of i t) (find key_of i (update key_of id f t))
moves-update i id f t {e} keeps found moved =
    rw (find-update key_of i id f t keeps) (elim (Bool-cases (id == i)) [
      | inl same ↦
          let at_i : find key_of i t ≡ some e = rw (← (eq_iff id i).0 same) found in
          rw (same, at_i) (Evolves-move e (f e) moved)
      | inr other ↦ rw other (RowEvolves-refl (find key_of i t))
    ])

moves-remove :
    (i id : String) (t : List Execution)
    → RowEvolves (find key_of i t) (find key_of i (remove key_of id t))
moves-remove i id t = rw (find-remove key_of i id t) (elim (Bool-cases (id == i)) [
  | inl same ↦ rw same (goes (find key_of i t))
  | inr other ↦ rw other (RowEvolves-refl (find key_of i t))
])
  where
    goes : (o : Option Execution) → RowEvolves o none
    goes none = tt
    goes (some e) = tt

-- A new row with another id leaves the row that is looked up as it is.
moves-append :
    (i : String) (row : Execution) (t : List Execution)
    → row.id ≢ i
    → RowEvolves (find key_of i t) (find key_of i (t ++ row ∷ []))
moves-append i row t other =
    rw (find-append_one key_of i row t) (elim (Option-cases (find key_of i t)) [
      | inl gone ↦ rw (gone, differs) tt
      | inr (e, found) ↦ rw found (RowEvolves-refl (some e))
    ])
  where
    differs : row.id == i ≡ false
    differs = ground (arith, eq_iff row.id i)

module _ (ext : Services) (i : String) where
  pub Follows-update :
      (w : World) (id : String) (f : Execution → Execution) {e : Execution}
      → ((x : Execution) → key_of (f x) ≡ key_of x)
      → row_of id w ≡ some e
      → IsMove e (f e)
      → Follows ext i w (record w { executions = update key_of id f w.executions })
  Follows-update w id f keeps found moved = record {
    drawn = omega arith;
    moves = λ d. moves-update i id f w.executions keeps found moved;
  }

  pub Follows-remove :
      (w : World) (id : String)
      → Follows ext i w (record w { executions = remove key_of id w.executions })
  Follows-remove w id = record { drawn = omega arith; moves = λ d. moves-remove i id w.executions }

  -- A row appended under an id that was drawn after `w`.
  pub Follows-append :
      (distinct : (j k : ℕ) → ext.uuid j ≡ ext.uuid k → j ≡ k)
      → (w t : World) (row : Execution) (n : ℕ) → t.executions ≡ w.executions
      → w.uuids_drawn ≤ n
      → n < t.uuids_drawn
      → row.id ≡ ext.uuid n
      → Follows ext i w (record t { executions = t.executions ++ row ∷ [] })
  Follows-append distinct w t row n same from before drawn = record {
    drawn = omega arith;
    moves = λ d. rw same (
        moves-append i row w.executions
          (λ e. absurd (omega (arith, distinct n d.0 (sym drawn ∙ e ∙ d.2), d.1))));
  }
