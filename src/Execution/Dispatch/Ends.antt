-- ===== src/Execution/Dispatch/Ends.antt =====
-- What a dispatch leaves behind, whether it returns or raises.
use nexora_platform.Prelude.{
  ℕ, suc, ◌≤◌, ◌≡◌, refl, ap, ◌∙◌, String, true, Option, none, some, length, eq_refl,
}
use nexora_platform.Prelude.Action.{Outcome, ok, raised, pure, ◌>>=◌}
use nexora_platform.Prelude.Action.After.{after_bind, after_gets, after_raise_found, after_lift}
use nexora_platform.Prelude.Table.{find, update, find-update}
use nexora_platform.Execution.Status.{dispatched}
use nexora_platform.Execution.Model.{Execution, ExecutionView, execution_to_dict}
use nexora_platform.Execution.World.{
  Settings, Services, Request, World, Raised, Envelope, EventPayload, publish_event, send, event_of,
}
use nexora_platform.Execution.Notices.{Published, Audited, after_audit, send-Published}
use nexora_platform.Execution.Respects.{row_of}
use nexora_platform.Execution.Respects.Handlers.{after_get_row, after_check}
use nexora_platform.Execution.Dispatch.{
  key_of, write_row, set_dispatched, mark_dispatched, announce, dispatch_execution,
}

-- After `mark_dispatched`: the row is committed as dispatched, or nothing has changed.
pub record MarkEnd (id : String) (w : World) (r : Outcome Raised Execution × World) : Type 0 where
  pub kept : (x : Raised) → r.0 ≡ raised x → r.1 ≡ w
  pub sent : r.1.sent ≡ w.sent
  pub audits : r.1.audits ≡ w.audits
  pub row : (e : Execution) → r.0 ≡ ok e → (row_of id r.1 ≡ some e) × (e.status ≡ dispatched)

refused_mark : (id : String) (w : World) (x : Raised) → MarkEnd id w (raised x, w)
refused_mark id w x = record {
  kept = λ y h. refl;
  sent = refl;
  audits = refl;
  row = λ e h. absurd cc;
}

-- an update of a row that is there
pub found_after :
    (w : World) (id : String) (f : Execution → Execution) (e : Execution)
    → ((x : Execution) → key_of (f x) ≡ key_of x)
    → row_of id w ≡ some e
    → find key_of id (update key_of id f w.executions) ≡ some (f e)
found_after w id f e keeps h =
    find-update key_of id id f w.executions keeps ∙ rw (eq_refl id, h) refl

same_row : (e e' : Execution) (r : Outcome Raised Execution) → r ≡ ok e → r ≡ ok e' → e ≡ e'
same_row e e' r h g = cc

marked :
    (id : String) (w : World) (e : Execution)
    → row_of id w ≡ some e
    → MarkEnd id w
        ((write_row id (set_dispatched w.clock) >>= λ _. pure (set_dispatched w.clock e)) w)
unfolding write_row ◌>>=◌
marked id w e found = record {
  kept = λ x h. absurd cc;
  sent = refl;
  audits = refl;
  row = λ e' h.
      let same : set_dispatched w.clock e ≡ e' =
        same_row (set_dispatched w.clock e) e' (ok (set_dispatched w.clock e)) refl h in
      (
        found_after w id (set_dispatched w.clock) e (λ x. unfold set_dispatched in refl) found
            ∙ ap some same,
        rw (← same) (unfold set_dispatched in refl),
      );
}

mark_dispatched-MarkEnd :
    (cfg : Settings) (id : String) (w : World) → MarkEnd id w (mark_dispatched cfg id w)
unfolding mark_dispatched
mark_dispatched-MarkEnd cfg id w =
    let Q = MarkEnd id w in
    after_get_row Q w id _ (refused_mark id w) (λ e found.
      after_raise_found Q w _ _ (λ x _. refused_mark id w x)
        (λ _.
          after_check Q w e dispatched _ (refused_mark id w)
            (λ _. after_gets Q w _ _ (marked id w e found))))

-- After `announce`: one more audit event, and at most one more event.
pub record AnnounceEnd (w : World) (r : Outcome Raised (Unit {0}) × World) : Type 0 where
  pub executions : r.1.executions ≡ w.executions
  pub sent : length r.1.sent ≤ suc (length w.sent)
  pub audits : length r.1.audits ≡ suc (length w.audits)
  pub returns : r.0 ≡ ok tt

-- How a dispatch of `id` from `w` ends.
pub record DispatchEnd (id : String) (w : World) (r : Outcome Raised ExecutionView × World)
    : Type 0 where
  pub unannounced : (x : Raised) → r.0 ≡ raised x → (r.1.sent ≡ w.sent) × (r.1.audits ≡ w.audits)
  pub dispatched_row :
      (v : ExecutionView)
      → r.0 ≡ ok v
      → (e : Execution) × (row_of id r.1 ≡ some e)
        × (e.status ≡ dispatched)
        × (v ≡ execution_to_dict e true)
  pub announced :
      (v : ExecutionView)
      → r.0 ≡ ok v
      → (length r.1.audits ≡ suc (length w.audits)) × (length r.1.sent ≤ suc (length w.sent))

module _ (cfg : Settings) (ext : Services) where
  announced_after :
      (w t : World)
      → Audited w t
      → (n : ℕ) (action id : String) (p : EventPayload)
      → AnnounceEnd w (publish_event ext n action id p t)
  unfolding publish_event
  announced_after w t a n action id p =
      let sent : Published t (send ext n (event_of ext action id p t.clock) t) =
        send-Published ext n _ t in
      record {
        executions = sent.executions ∙ a.executions;
        sent = rw (← a.sent) (sent.sent);
        audits = ap length sent.audits ∙ a.audits;
        returns = refl;
      }

  announce-AnnounceEnd :
      (e : Execution) (req : Option Request) (env : Envelope) (w : World)
      → AnnounceEnd w (announce cfg ext e req env w)
  unfolding announce
  announce-AnnounceEnd e none env w =
      after_audit (AnnounceEnd w) w _ _ _ _ _ _ _ _ (λ t a. announced_after w t a _ _ _ _)
  announce-AnnounceEnd e (some r) env w =
      after_audit (AnnounceEnd w) w _ _ _ _ _ _ _ _ (λ t a. announced_after w t a _ _ _ _)

  same_outcome :
      (v v' : ExecutionView) (r : Outcome Raised ExecutionView) → r ≡ ok v → r ≡ ok v' → v ≡ v'
  same_outcome v v' r h g = cc

  quiet :
      (id : String) (w t : World) (x : Raised)
      → t.sent ≡ w.sent
      → t.audits ≡ w.audits
      → DispatchEnd id w (raised x, t)
  quiet id w t x sent audits = record {
    unannounced = λ y h. (sent, audits);
    dispatched_row = λ v h. absurd cc;
    announced = λ v h. absurd cc;
  }

  never : {t : World} (x : Raised) (u : World) → AnnounceEnd t (raised x, u) → ⊥
  never x u a = let same : raised x ≡ ok tt = a.returns in absurd cc

  dispatch_ended :
      (id : String) (w t u : World) (e : Execution)
      → t.sent ≡ w.sent
      → t.audits ≡ w.audits
      → row_of id t ≡ some e
      → e.status ≡ dispatched
      → AnnounceEnd t (ok tt, u)
      → DispatchEnd id w (pure (execution_to_dict e true) u)
  unfolding ◌>>=◌
  dispatch_ended id w t u e sent audits found st a = record {
    unannounced = λ x h. absurd cc;
    dispatched_row =
        λ v h. (e, rw (a.executions) found, st, same_outcome v (execution_to_dict e true) _ h refl);
    announced = λ v h. (rw (← audits) (a.audits), rw (← sent) (a.sent));
  }

  -- A dispatch that raises has sent no event and written no audit event. One that returns has left
  -- the row in the table as dispatched, and returned the view of that row; it has written one audit
  -- event, and sent at most one event.
  pub dispatch-DispatchEnd :
      (id : String) (req : Option Request) (w : World)
      → DispatchEnd id w (dispatch_execution cfg ext id req w)
  unfolding dispatch_execution
  dispatch-DispatchEnd id req w =
      let Q = DispatchEnd id w in
      after_bind Q w (mark_dispatched cfg id) _
        (λ e t at.
          let m : MarkEnd id w (ok e, t) = rw at at (mark_dispatched-MarkEnd cfg id w) in
          after_gets Q t _ _ (
            after_lift Q t _ _ (λ x _. quiet id w t x m.sent m.audits)
              (λ env _.
                after_bind Q t (announce cfg ext e req env) _
                  (λ _ u ended.
                    dispatch_ended id w t u e m.sent m.audits (m.row e refl).0 (m.row e refl).1
                      (rw ended at (announce-AnnounceEnd e req env t)))
                  (λ x u ended.
                    absurd (never x u (rw ended at (announce-AnnounceEnd e req env t)))))))
        (λ x t at.
          let m : MarkEnd id w (raised x, t) = rw at at (mark_dispatched-MarkEnd cfg id w) in
          quiet id w t x m.sent m.audits)
