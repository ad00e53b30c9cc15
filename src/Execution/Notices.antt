-- ===== src/Execution/Notices.antt =====
-- The audit trail and the events: what writing to them leaves alone, as rules for a block that begins
-- with an audit event or a publication.
use nexora_platform.Prelude.{
  ℕ, suc, ◌≤◌, ◌≡◌, refl, String, Bool, true, false, Option, List, [], ◌∷◌, ◌++◌, length,
  length-append, arith, ◌∙◌, if◌then◌else◌,
}
use nexora_platform.Prelude.Action.{Outcome, ◌>>=◌}
use nexora_platform.Execution.World.{
  Services, World, Handler, Raised, EventPayload, Event, emit_audit, publish_event, send,
  attempt_send,
}

pub record Audited (w t : World) : Type 0 where
  pub executions : t.executions ≡ w.executions
  pub sent : t.sent ≡ w.sent
  pub audits : length t.audits ≡ suc (length w.audits)
  pub clock : t.clock ≡ w.clock

-- At most one event is sent.
pub record Published (w t : World) : Type 0 where
  pub executions : t.executions ≡ w.executions
  pub sent : length t.sent ≤ suc (length w.sent)
  pub audits : t.audits ≡ w.audits
  pub clock : t.clock ≡ w.clock

length_snoc : (l : List Event) (x : Event) → length (l ++ x ∷ []) ≡ suc (length l)
length_snoc [] x = refl
length_snoc (y ∷ l) x = omega (arith, length_snoc l x)

when_sent :
    (w : World) (ev : Event) (on taken : Bool)
    → Published w (if on then (if taken then record w { sent = w.sent ++ ev ∷ [] } else w) else w)
when_sent w ev true true = record {
  executions = refl;
  sent = omega (arith, length_snoc w.sent ev);
  audits = refl;
  clock = refl;
}
when_sent w ev true false = record {
  executions = refl;
  sent = omega arith;
  audits = refl;
  clock = refl;
}
when_sent w ev false taken = record {
  executions = refl;
  sent = omega arith;
  audits = refl;
  clock = refl;
}

pub send-Published :
    (ext : Services) (n : ℕ) (ev : Event) (w : World) → Published w (send ext n ev w)
unfolding send
send-Published ext n ev w = when_sent w ev w.producer_connected (attempt_send ext ev n 1)

module _ {B : Type 0} (Q : Outcome Raised B × World → Type 0) (w : World) where
  pub after_audit :
      (action id : String) (tenant user actor : Option String) (roles : List String)
      (correlation : Option String) (k : Unit {0} → Handler B)
      → ((t : World) → Audited w t → Q (k tt t))
      → Q ((emit_audit action id tenant user actor roles correlation >>= k) w)
  unfolding emit_audit ◌>>=◌
  after_audit action id tenant user actor roles correlation k h = h _ (record {
    executions = refl;
    sent = refl;
    audits = length-append w.audits _ ∙ omega arith;
    clock = refl;
  })

  pub after_publish :
      (ext : Services) (n : ℕ) (action id : String) (p : EventPayload) (k : Unit {0} → Handler B)
      → ((t : World) → Published w t → Q (k tt t))
      → Q ((publish_event ext n action id p >>= k) w)
  unfolding publish_event ◌>>=◌
  after_publish ext n action id p k h = h _ (send-Published ext n _ w)
