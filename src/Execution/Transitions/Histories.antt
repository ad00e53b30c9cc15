-- ===== src/Execution/Transitions/Histories.antt =====
-- What becomes of an execution over any run of calls.
use nexora_platform.Prelude.{
  ℕ, ◌≡◌, refl, inl, inr, String, true, Option, none, some, List, [], ◌∷◌, map, arith, Bool-cases,
}
use mathlib.Core.Option
use nexora_platform.Prelude.Table.{find}
use nexora_platform.Execution.Status.{
  Status, stay, move, transition_allowed, is_terminal, Reaches-terminal,
}
use nexora_platform.Execution.Model.{Execution}
use nexora_platform.Execution.World.{Settings, Services, World}
use nexora_platform.Execution.Dispatch.{key_of}
use nexora_platform.Execution.Timeouts.{has_timed_out, expire, timeout_round}
use nexora_platform.Execution.Calls.{Call, perform_all}
use nexora_platform.Execution.Respects.{Respects, AddsFreely, row_of}
use nexora_platform.Execution.Respects.Calls.{perform_all-Along}
use nexora_platform.Execution.Transitions.Relation.{
  Evolves, Evolves-refl, RowEvolves, IsDrawn, Follows, Follows-preorder, Follows-same,
}
use nexora_platform.Execution.Transitions.Writes.{Follows-update, Follows-remove, Follows-append}

timeout_allowed :
    (cfg : Settings) (now : ℕ) (s : Status) (e : Execution)
    → has_timed_out cfg now s e ≡ true
    → transition_allowed s Status.timeout ≡ true
unfolding has_timed_out transition_allowed
timeout_allowed cfg now s e h = ground arith

-- A round of the timeout loop may change a status to `timeout`, and only where that is allowed.
expire-Evolves : (cfg : Settings) (now : ℕ) (e : Execution) → Evolves e (expire cfg now e)
unfolding expire
expire-Evolves cfg now e = elim (Bool-cases (has_timed_out cfg now e.status e)) [
  | inl over ↦ rw over (record {
    moves = move stay (timeout_allowed cfg now e.status e over);
    device = refl;
    key = refl;
    owner = refl;
    tenant = refl;
  })
  | inr waiting ↦ rw waiting (Evolves-refl e)
]

find-expire :
    (cfg : Settings) (now : ℕ) (i : String) (t : List Execution)
    → find key_of i (map (expire cfg now) t) ≡ Option.map (expire cfg now) (find key_of i t)
unfolding find expire
find-expire cfg now i [] = refl
find-expire cfg now i (e ∷ t) = ground (arith, find-expire cfg now i t)

RowEvolves-expire :
    (cfg : Settings) (now : ℕ) (o : Option Execution) → RowEvolves o (Option.map (expire cfg now) o)
RowEvolves-expire cfg now none = tt
RowEvolves-expire cfg now (some e) = expire-Evolves cfg now e

module _ (cfg : Settings) (ext : Services)
    (distinct : (j k : ℕ) → ext.uuid j ≡ ext.uuid k → j ≡ k) where
  Follows-Respects : (i : String) → Respects cfg ext (Follows ext i)
  unfolding timeout_round
  Follows-Respects i = record {
    order = Follows-preorder ext i;
    quiet = Follows-same ext i;
    moved = λ w id f e keeps found m. Follows-update ext i w id f keeps found m;
    removed = Follows-remove ext i;
    added = λ w t row new _. free i w t row new;
    expired = λ w. record {
      drawn = omega arith;
      moves = λ d.
          rw (find-expire cfg w.clock i w.executions) (RowEvolves-expire cfg w.clock (row_of i w));
    };
  }
    where
      free : (i : String) → AddsFreely ext (Follows ext i)
      free i w t row new =
          Follows-append ext i distinct w t row new.serial new.same new.from new.before new.drawn

  Follows-all :
      (cs : List Call) (w : World) (id : String) → Follows ext id w (perform_all cfg ext cs w)
  Follows-all cs w id =
      perform_all-Along cfg ext (Follows ext id) (Follows-Respects id) cs w (λ _ w t row new.
        Follows-append ext id distinct w t row new.serial new.same new.from new.before new.drawn)

  -- Over any run of calls, a row that is there before and after has moved along the allowed status
  -- transitions, and its device, idempotency key, owner and tenant are what they were. The ids are
  -- assumed to be drawn without repetition, and the row's id to be one that had been drawn.
  pub run-Evolves :
      (cs : List Call) (w : World) (id : String) (e e' : Execution)
      → IsDrawn ext id w
      → row_of id w ≡ some e
      → row_of id (perform_all cfg ext cs w) ≡ some e'
      → Evolves e e'
  run-Evolves cs w id e e' drawn before later =
      rows (row_of id w) (row_of id (perform_all cfg ext cs w)) before later
        ((Follows-all cs w id).moves drawn)
    where
      rows : (o p : Option Execution) → o ≡ some e → p ≡ some e' → RowEvolves o p → Evolves e e'
      rows o p h g r = cast r
        where
          cast : RowEvolves o p → Evolves e e'
          cast = rw (h, g) (λ x. x)

  -- Over any run of calls, a row with a final status (succeeded, failed, cancelled or timeout)
  -- keeps that status for as long as it is there, whatever callbacks, dispatches, cancellations and
  -- timeout rounds follow. The ids are assumed to be drawn without repetition, and the row's id to
  -- be one that had been drawn.
  pub run-final :
      (cs : List Call) (w : World) (id : String) (e e' : Execution)
      → IsDrawn ext id w
      → row_of id w ≡ some e
      → is_terminal e.status ≡ true
      → row_of id (perform_all cfg ext cs w) ≡ some e'
      → e'.status ≡ e.status
  run-final cs w id e e' drawn before final later =
      Reaches-terminal final (run-Evolves cs w id e e' drawn before later).moves

  -- Over any run of calls, an id that had been drawn and has no row gets none: a deleted execution
  -- does not come back. The ids are assumed to be drawn without repetition.
  pub run-gone :
      (cs : List Call) (w : World) (id : String)
      → IsDrawn ext id w
      → row_of id w ≡ none
      → row_of id (perform_all cfg ext cs w) ≡ none
  run-gone cs w id drawn gone =
      rows (row_of id w) (row_of id (perform_all cfg ext cs w)) gone
        ((Follows-all cs w id).moves drawn)
    where
      rows : (o p : Option Execution) → o ≡ none → RowEvolves o p → p ≡ none
      rows none none h r = refl
      rows none (some e) h r = absurd r
      rows (some e) p h r = ground (arith, h)
