-- ===== src/Execution/Respects/Handlers.antt =====
-- Every handler of one execution goes along a relation that allows the writes.
use nexora_platform.Prelude.{ℕ, ◌≡◌, refl, String, true, not, Option, none, some, List, arith}
use nexora_platform.Prelude.Action.{Outcome, raised, ◌>>=◌}
use nexora_platform.Prelude.Action.Along.{
  Preorder, Along, Along-pure, Along-bind, Along-gets, Along-lift, along_then,
}
use nexora_platform.Prelude.Action.After.{
  after_or_raise, after_gets, after_raise_if, after_raise_found,
}
use nexora_platform.Prelude.Table.{update}
use nexora_platform.Execution.Status.{Status, transition_allowed, dispatched, cancelled}
use nexora_platform.Execution.Model.{Execution}
use nexora_platform.Execution.World.{
  http, execution_not_found, invalid_transition, Settings, Services, Request, World, Handler,
  Raised, EventPayload, Envelope, new_uuid, emit_audit, publish_event,
}
use nexora_platform.Execution.Dispatch.{
  key_of, get_row, write_row, delete_row, check_transition, set_dispatched, mark_dispatched,
  announce, dispatch_execution,
}
use nexora_platform.Execution.Callback.{CallbackPayload, apply_callback, callback_execution}
use nexora_platform.Execution.Access.{set_cancelled, cancel_execution, delete_execution}
use nexora_platform.Execution.Respects.{Respects, IsMove, row_of, with_executions}

-- What leaves the executions and the drawn ids alone.
pub record Same (w t : World) : Type 0 where
  pub executions : t.executions ≡ w.executions
  pub drawn : t.uuids_drawn ≡ w.uuids_drawn

pub publish_event-Same :
    (ext : Services) (n : ℕ) (action id : String) (p : EventPayload) (w : World)
    → Same w (publish_event ext n action id p w).1
unfolding publish_event
publish_event-Same ext n action id p w = ground arith

pub emit_audit-Same :
    (action id : String) (tenant user actor : Option String) (roles : List String)
    (correlation : Option String) (w : World)
    → Same w (emit_audit action id tenant user actor roles correlation w).1
unfolding emit_audit
emit_audit-Same action id tenant user actor roles correlation w = ground arith

set_dispatched-IsMove :
    (now : ℕ) (e : Execution)
    → transition_allowed e.status dispatched ≡ true
    → IsMove e (set_dispatched now e)
unfolding set_dispatched
set_dispatched-IsMove now e h = record {
  allowed = h;
  device = refl;
  key = refl;
  owner = refl;
  tenant = refl;
  stamped = λ x. ground arith;
}

set_cancelled-IsMove :
    (e : Execution) → transition_allowed e.status cancelled ≡ true → IsMove e (set_cancelled e)
unfolding set_cancelled
set_cancelled-IsMove e h = record {
  allowed = h;
  device = refl;
  key = refl;
  owner = refl;
  tenant = refl;
  stamped = λ x. ground arith;
}

apply_callback-IsMove :
    (p : CallbackPayload) (st : Status) (now : ℕ) (e : Execution)
    → transition_allowed e.status st ≡ true
    → IsMove e (apply_callback p st now e)
unfolding apply_callback
apply_callback-IsMove p st now e h = record {
  allowed = h;
  device = refl;
  key = refl;
  owner = refl;
  tenant = refl;
  stamped = λ x. rw x refl;
}

-- A block that begins with the lookup of a row.
module _ {B : Type 0} (Q : Outcome Raised B × World → Type 0) (w : World) where
  pub after_get_row :
      (id : String) (k : Execution → Handler B)
      → ((e : Raised) → Q (raised e, w))
      → ((e : Execution) → row_of id w ≡ some e → Q (k e w))
      → Q ((get_row id >>= k) w)
  unfolding get_row ◌>>=◌
  after_get_row id k h g =
      after_or_raise Q w (row_of id w) (http execution_not_found) k
        (λ e. h (http execution_not_found)) g

  pub after_write :
      (id : String) (f : Execution → Execution) (k : Unit {0} → Handler B)
      → Q (k tt (with_executions w (update key_of id f w.executions)))
      → Q ((write_row id f >>= k) w)
  unfolding write_row ◌>>=◌
  after_write id f k h = h

  pub after_check :
      (e : Execution) (to : Status) (k : Unit {0} → Handler B)
      → ((x : Raised) → Q (raised x, w))
      → (transition_allowed e.status to ≡ true → Q (k tt w))
      → Q ((check_transition e to >>= k) w)
  unfolding check_transition
  after_check e to k h g =
      after_raise_if Q w (not (transition_allowed e.status to))
        (http (invalid_transition e.status to)) k (λ p. h (http (invalid_transition e.status to)))
        (λ p. g (ground arith))

module _ (cfg : Settings) (ext : Services) (R : World → World → Type 0)
    (law : Respects cfg ext R) where
  along_Same : (w t : World) → Same w t → R w t
  along_Same w t h = law.quiet w t h.executions (omega (arith, h.drawn))

  pub publish-Along :
      (n : ℕ) (action id : String) (p : EventPayload) → Along R (publish_event ext n action id p)
  publish-Along n action id p = record {
    at = λ w.
        along_Same w (publish_event ext n action id p w).1 (publish_event-Same ext n action id p w);
  }

  pub audit-Along :
      (action id : String) (tenant user actor : Option String) (roles : List String)
      (correlation : Option String)
      → Along R (emit_audit action id tenant user actor roles correlation)
  audit-Along action id tenant user actor roles correlation = record {
    at = λ w.
        along_Same w (emit_audit action id tenant user actor roles correlation w).1
          (emit_audit-Same action id tenant user actor roles correlation w);
  }

  pub new_uuid-Along : Along R (new_uuid ext)
  unfolding new_uuid
  new_uuid-Along = record { at = λ w. law.quiet w (new_uuid ext w).1 refl (omega arith) }

  write-Along :
      (w : World) (id : String) (f : Execution → Execution) {e : Execution}
      → ((x : Execution) → key_of (f x) ≡ key_of x)
      → row_of id w ≡ some e
      → IsMove e (f e)
      → R w (write_row id f w).1
  unfolding write_row ◌>>=◌
  write-Along w id f {e} keeps found move = law.moved w id f e keeps found move

  delete-Along : (w : World) (id : String) → R w (delete_row id w).1
  unfolding delete_row ◌>>=◌
  delete-Along w id = law.removed w id

  module _ (w : World) where
    abbrev pub Ends : {A : Type 0} → Outcome Raised A × World → Type 0
    Ends r = R w r.1

    pub unchanged : R w w
    unchanged = law.order.here w

  abbrev pub order : Preorder R
  order = law.order

  mark_dispatched-Along : (id : String) → Along R (mark_dispatched cfg id)
  unfolding mark_dispatched
  mark_dispatched-Along id = record {
    at = λ w.
        after_get_row (Ends w) w id _ (λ x. unchanged w)
          (λ e found.
            after_raise_found (Ends w) w _ _ (λ x _. unchanged w)
              (λ _.
                after_check (Ends w) w e dispatched _ (λ x. unchanged w)
                  (λ allowed. after_gets (Ends w) w _ _ (
                    along_then R order w (write_row id (set_dispatched w.clock)) _
                      (write-Along w id (set_dispatched w.clock)
                        (λ x. unfold set_dispatched in refl) found
                        (set_dispatched-IsMove w.clock e allowed))
                      (λ _. Along-pure R order _)))));
  }

  announce-Along :
      (e : Execution) (req : Option Request) (env : Envelope) → Along R (announce cfg ext e req env)
  unfolding announce
  announce-Along e none env = search (Along-bind R order, audit-Along, publish-Along)
  announce-Along e (some r) env = search (Along-bind R order, audit-Along, publish-Along)

  pub dispatch_execution-Along :
      (id : String) (req : Option Request) → Along R (dispatch_execution cfg ext id req)
  unfolding dispatch_execution
  dispatch_execution-Along id req =
      search
        (
          Along-bind R order,
          Along-gets R order,
          Along-lift R order,
          Along-pure R order,
          mark_dispatched-Along,
          announce-Along,
        )
        depth 9

  pub callback_execution-Along :
      (id : String) (p : CallbackPayload) → Along R (callback_execution cfg ext id p)
  unfolding callback_execution
  callback_execution-Along id p = record {
    at = λ w.
        after_raise_found (Ends w) w _ _ (λ x _. unchanged w)
          (λ _.
            after_or_raise (Ends w) w _ _ _ (λ _. unchanged w)
              (λ st _.
                after_get_row (Ends w) w id _ (λ x. unchanged w)
                  (λ e found.
                    after_raise_found (Ends w) w _ _ (λ x _. unchanged w)
                      (λ _.
                        after_check (Ends w) w e st _ (λ x. unchanged w)
                          (λ allowed. after_gets (Ends w) w _ _ (
                            along_then R order w (write_row id (apply_callback p st w.clock)) _
                              (write-Along w id (apply_callback p st w.clock)
                                (λ x. unfold apply_callback in refl) found
                                (apply_callback-IsMove p st w.clock e allowed))
                              (λ _.
                                search
                                  (Along-bind R order, publish-Along, Along-pure R order))))))));
  }

  module _ (req : Request) where
    pub cancel_execution-Along : (id : String) → Along R (cancel_execution cfg ext req id)
    unfolding cancel_execution
    cancel_execution-Along id = record {
      at = λ w.
          after_get_row (Ends w) w id _ (λ x. unchanged w)
            (λ e found.
              after_check (Ends w) w e cancelled _ (λ x. unchanged w)
                (λ allowed.
                  along_then R order w (write_row id set_cancelled) _
                    (write-Along w id set_cancelled (λ x. unfold set_cancelled in refl) found
                      (set_cancelled-IsMove e allowed))
                    (λ _.
                      search
                        (Along-bind R order, audit-Along, publish-Along, Along-pure R order))));
    }

    pub delete_execution-Along : (id : String) → Along R (delete_execution cfg ext req id)
    unfolding delete_execution
    delete_execution-Along id = record {
      at = λ w.
          after_get_row (Ends w) w id _ (λ x. unchanged w)
            (λ e found.
              along_then R order w (delete_row id) _ (delete-Along w id)
                (λ _. search (Along-bind R order, audit-Along, publish-Along, Along-pure R order)));
    }
