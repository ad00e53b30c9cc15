-- ===== src/Execution/Respects/Creation.antt =====
-- Creating an execution goes along a relation that allows the new row.
use nexora_platform.Prelude.{
  ℕ, suc, ◌≤◌, ◌<◌, ◌≡◌, refl, String, ◌||◌, Option, none, some, any, [], ◌∷◌, ◌++◌, arith,
  Bool-cases, ◌==◌, inl, inr,
}
use mathlib.Core.Option
use nexora_platform.Prelude.Text.{text_or}
use nexora_platform.Prelude.Action.{Outcome, raised, raise_found, ◌>>=◌}
use nexora_platform.Prelude.Action.Along.{
  Preorder, Along, Along-pure, Along-bind, Along-gets, Along-Option, along_from,
}
use nexora_platform.Prelude.Action.After.{after_gets, after_raise_if, after_raise_found}
use nexora_platform.Execution.Status.{queued}
use nexora_platform.Execution.Model.{Execution, ExecutionView, FunctionTrigger}
use nexora_platform.Execution.World.{
  Settings, Services, Request, World, Handler, Raised, http, too_many_active, new_uuid,
}
use nexora_platform.Execution.Create.{
  CreatePayload, over_limit, has_key, check_device_limit, insert_execution, create_new,
  create_execution,
}
use nexora_platform.Execution.Triggers.{start_triggered}
use nexora_platform.Execution.Respects.{Respects, IsNew, AddsFreely, with_executions}
use nexora_platform.Execution.Respects.Handlers.{
  audit-Along, publish-Along, dispatch_execution-Along,
}

module _ {B : Type 0} (Q : Outcome Raised B × World → Type 0) (w : World) where
  -- A block that begins with the check of the limit.
  pub after_limit :
      (cfg : Settings) (d : Option String) (k : Unit {0} → Handler B)
      → ((n : ℕ)
          → over_limit cfg d w.executions ≡ some n
          → Q (raised (http (too_many_active (text_or d "") n)), w))
      → (over_limit cfg d w.executions ≡ none → Q (k tt w))
      → Q ((check_device_limit cfg d >>= k) w)
  unfolding check_device_limit ◌>>=◌
  after_limit cfg d k h g = go (over_limit cfg d w.executions) refl
    where
      go :
          (o : Option ℕ)
          → over_limit cfg d w.executions ≡ o
          → Q ((raise_found (Option.map (λ n. http (too_many_active (text_or d "") n)) o) >>= k) w)
      go none e = g e
      go (some n) e = h n e

  -- A block that begins by drawing an id.
  pub after_new_uuid :
      (ext : Services) (k : String → Handler B)
      → Q (k (ext.uuid w.uuids_drawn) (record w { uuids_drawn = suc w.uuids_drawn }))
      → Q ((new_uuid ext >>= k) w)
  unfolding new_uuid ◌>>=◌
  after_new_uuid ext k h = h

module _ (cfg : Settings) (ext : Services) (R : World → World → Type 0)
    (law : Respects cfg ext R) where
  abbrev pre : Preorder R
  pre = law.order

  -- An insertion under an id drawn after `w`, where the new row is welcome.
  insert-Along :
      (w t : World) (row : Execution) (n : ℕ)
      → t.executions ≡ w.executions
      → w.uuids_drawn ≤ n
      → n < t.uuids_drawn
      → row.id ≡ ext.uuid n
      → row.status ≡ queued
      → (IsNew ext w t row → R w (with_executions t (t.executions ++ row ∷ [])))
      → R w (insert_execution row t).1
  unfolding insert_execution
  insert-Along w t row n same from before drawn starts add =
      elim (Bool-cases (any (λ e. e.id == row.id || has_key row.idempotency_key e) t.executions)) [
        | inl taken ↦ rw taken (law.quiet w t same (omega arith))
        | inr fresh ↦ rw fresh (
            add (record {
              same = same;
              serial = n;
              from = from;
              before = before;
              drawn = drawn;
              starts = starts;
              free = rw (← same) fresh;
            }))
      ]

  -- what is left of `w` after ids have been drawn
  later : (w : World) (n : ℕ) → w.uuids_drawn ≤ n → R w (record w { uuids_drawn = n })
  later w n h = law.quiet w (record w { uuids_drawn = n }) refl h

  create_new-Along :
      (req : Request) (x : Option String) (p : CreatePayload) → Along R (create_new cfg ext req x p)
  unfolding create_new
  create_new-Along req x p = record {
    at = λ w.
        let Q = λ (r : Outcome Raised ExecutionView × World). R w r.1 in
        let w₁ : World = record w { uuids_drawn = suc w.uuids_drawn } in
        let w₂ : World = record w { uuids_drawn = suc (suc w.uuids_drawn) } in
        after_limit Q w cfg p.device_id _ (λ n _. later w w.uuids_drawn (omega arith))
          (λ room. after_new_uuid Q w ext _ (
            after_gets Q w₁ _ _ (
              after_raise_found Q w₁ _ _ (λ v _. later w _ (omega arith))
                (λ _.
                  after_raise_if Q w₁ _ _ _ (λ _. later w _ (omega arith))
                    (λ _. after_new_uuid Q w₁ ext _ (
                      along_from R pre w w₂ (insert_execution _) _
                        (insert-Along w w₂ _ w.uuids_drawn refl (omega arith) (omega arith) refl
                          refl (λ new. law.added w w₂ _ new room))
                        (λ _. search (
                          Along-bind R pre,
                          audit-Along cfg ext R law,
                          publish-Along cfg ext R law,
                          Along-pure R pre,
                        ))))))));
  }

  pub create_execution-Along :
      (req : Request) (x : Option String) (p : CreatePayload)
      → Along R (create_execution cfg ext req x p)
  unfolding create_execution
  create_execution-Along req x p =
      Along-bind R pre _ _ (Along-gets R pre _)
        (λ found. Along-Option R pre found _ _ (create_new-Along req x p) (λ e. Along-pure R pre _))

  pub start_triggered-Along :
      AddsFreely ext R
      → (t : FunctionTrigger) (d : Option String) → Along R (start_triggered cfg ext t d)
  unfolding start_triggered
  start_triggered-Along free t d = record {
    at = λ w.
        let Q = λ (r : Outcome Raised (Unit {0}) × World). R w r.1 in
        let w₁ : World = record w { uuids_drawn = suc w.uuids_drawn } in
        let w₂ : World = record w { uuids_drawn = suc (suc w.uuids_drawn) } in
        after_gets Q w _ _ (
          after_new_uuid Q w ext _ (
            after_new_uuid Q w₁ ext _ (
              along_from R pre w w₂ (insert_execution _) _
                (insert-Along w w₂ _ w.uuids_drawn refl (omega arith) (omega arith) refl refl
                  (free w w₂ _))
                (λ _.
                  Along-bind R pre _ _
                    (dispatch_execution-Along cfg ext R law (ext.uuid w.uuids_drawn) none)
                    (λ _. Along-pure R pre _)))));
  }
