-- ===== src/Execution/Create/Again.antt =====
-- What a creation leaves behind, and what a second one with the same idempotency key does.
use nexora_platform.Prelude.{
  suc, ◌≡◌, refl, sym, ap, ◌∙◌, inl, inr, String, true, ◌||◌, Option, none, some, List, [], ◌∷◌,
  ◌++◌, any, length, arith, Bool-cases, Option-cases, eq_refl, ◌==◌,
}
use nexora_platform.Prelude.Text.{truthy, given_or}
use nexora_platform.Prelude.Action.{Outcome, ok, raised, pure, ◌>>=◌}
use nexora_platform.Prelude.Action.After.{after_gets, after_raise_if, after_raise_found}
use nexora_platform.Execution.Status.{queued}
use nexora_platform.Execution.Model.{Execution, ExecutionView, execution_to_dict}
use nexora_platform.Execution.World.{
  Settings, Services, Request, World, Handler, Raised, integrity_error,
}
use nexora_platform.Execution.Notices.{after_audit, after_publish}
use nexora_platform.Execution.Create.{
  CreatePayload, over_limit, has_key, first_with_key, existing_for, insert_execution, create_new,
  create_execution,
}
use nexora_platform.Execution.Respects.Creation.{after_limit, after_new_uuid}

-- The state after the creation of `row`.
pub record Created (cfg : Settings) (p : CreatePayload) (w t : World) (v : ExecutionView)
    : Type 0 where
  pub row : Execution
  pub appended : t.executions ≡ w.executions ++ row ∷ []
  pub shown : v ≡ execution_to_dict row true
  pub starts : row.status ≡ queued
  pub key : row.idempotency_key ≡ p.idempotency_key
  pub device : row.device_id ≡ p.device_id
  pub command : row.command ≡ given_or p.command "noop"
  pub room : over_limit cfg p.device_id w.executions ≡ none
  pub audited : length t.audits ≡ suc (length w.audits)

-- What a creation of a new row may end with.
abbrev pub NewEnds :
    Settings → CreatePayload → World → Outcome Raised ExecutionView × World → Type 0
NewEnds cfg p w (raised e, t) =
    (t.executions ≡ w.executions) × (t.sent ≡ w.sent) × (t.audits ≡ w.audits)
NewEnds cfg p w (ok v, t) = Created cfg p w t v

module _ {B : Type 0} (Q : Outcome Raised B × World → Type 0) (w : World) where
  after_insert :
      (row : Execution) (k : Unit {0} → Handler B)
      → Q (raised integrity_error, w)
      → Q (k tt (record w { executions = w.executions ++ row ∷ [] }))
      → Q ((insert_execution row >>= k) w)
  unfolding insert_execution ◌>>=◌
  after_insert row k h g =
      elim (Bool-cases (any (λ e. e.id == row.id || has_key row.idempotency_key e) w.executions)) [
        | inl taken ↦ rw taken h
        | inr free ↦ rw free g
      ]

-- the same, as one thing
record NewEnd (cfg : Settings) (p : CreatePayload) (w : World)
    (r : Outcome Raised ExecutionView × World) : Type 0 where
  holds : NewEnds cfg p w r

untouched :
    (cfg : Settings) (p : CreatePayload) (w t : World) (e : Raised)
    → t.executions ≡ w.executions
    → t.sent ≡ w.sent
    → t.audits ≡ w.audits
    → NewEnd cfg p w (raised e, t)
untouched cfg p w t e h g k = record { holds = (h, g, k) }

made :
    (cfg : Settings) (p : CreatePayload) (w t : World) (row : Execution)
    → t.executions ≡ w.executions ++ row ∷ []
    → row.status ≡ queued
    → row.idempotency_key ≡ p.idempotency_key
    → row.device_id ≡ p.device_id
    → row.command ≡ given_or p.command "noop"
    → over_limit cfg p.device_id w.executions ≡ none
    → length t.audits ≡ suc (length w.audits)
    → NewEnd cfg p w (pure (execution_to_dict row true) t)
unfolding ◌>>=◌
made cfg p w t row appended starts key device command room audited = record {
  holds = record {
    row = row;
    appended = appended;
    shown = refl;
    starts = starts;
    key = key;
    device = device;
    command = command;
    room = room;
    audited = audited;
  };
}

same_view :
    (v v' : ExecutionView) (r : Outcome Raised ExecutionView) → r ≡ ok v → r ≡ ok v' → v ≡ v'
same_view v v' r h g = cc

module _ (cfg : Settings) (ext : Services) where
  create_new-NewEnds :
      (req : Request) (x : Option String) (p : CreatePayload) (w : World)
      → NewEnd cfg p w (create_new cfg ext req x p w)
  unfolding create_new
  create_new-NewEnds req x p w =
      let Q = NewEnd cfg p w in
      let w₁ : World = record w { uuids_drawn = suc w.uuids_drawn } in
      let w₂ : World = record w { uuids_drawn = suc (suc w.uuids_drawn) } in
      after_limit Q w cfg p.device_id _ (λ n _. untouched cfg p w w _ refl refl refl)
        (λ room. after_new_uuid Q w ext _ (
          after_gets Q w₁ _ _ (
            after_raise_found Q w₁ _ _ (λ v _. untouched cfg p w w₁ _ refl refl refl)
              (λ _.
                after_raise_if Q w₁ _ _ _ (λ _. untouched cfg p w w₁ _ refl refl refl)
                  (λ _. after_new_uuid Q w₁ ext _ (
                    after_insert Q w₂ _ _ (untouched cfg p w w₂ _ refl refl refl) (
                      after_audit Q _ _ _ _ _ _ _ _ _ (λ t a.
                        after_publish Q t ext _ _ _ _ _ (λ u b.
                          made cfg p w u _ (b.executions ∙ a.executions) refl refl refl refl room
                            (ap length b.audits ∙ a.audits))))))))))

  has_key_self :
      (k : Option String) (row : Execution)
      → truthy k ≡ true
      → row.idempotency_key ≡ k
      → has_key k row ≡ true
  has_key_self none row h e = absurd cc
  has_key_self (some k) row h e = rw e (eq_refl k)

  first_with_key-append :
      (k : Option String) (row : Execution) (t : List Execution)
      → has_key k row ≡ true
      → first_with_key k t ≡ none
      → first_with_key k (t ++ row ∷ []) ≡ some row
  first_with_key-append k row [] h g = rw h refl
  first_with_key-append k row (e ∷ t) h g = elim (Bool-cases (has_key k e)) [
    | inl here ↦ absurd (ground (arith, g, here))
    | inr other ↦ rw other (first_with_key-append k row t h (ground (arith, g, other)))
  ]

  existing_for-append :
      (k : Option String) (row : Execution) (t : List Execution)
      → truthy k ≡ true
      → row.idempotency_key ≡ k
      → existing_for k t ≡ none
      → existing_for k (t ++ row ∷ []) ≡ some row
  unfolding existing_for
  existing_for-append k row t h e g =
      rw h (first_with_key-append k row t (has_key_self k row h e) (ground (arith, g, h)))

  -- Whoever asks, a creation with the key of a row that is there gives that row and writes nothing.
  create-existing :
      (req : Request) (x : Option String) (p : CreatePayload) (w : World) (e : Execution)
      → existing_for p.idempotency_key w.executions ≡ some e
      → create_execution cfg ext req x p w ≡ (ok (execution_to_dict e true), w)
  unfolding create_execution ◌>>=◌
  create-existing req x p w e h = rw h refl

  create-fresh :
      (req : Request) (x : Option String) (p : CreatePayload) (w : World)
      → existing_for p.idempotency_key w.executions ≡ none
      → create_execution cfg ext req x p w ≡ create_new cfg ext req x p w
  unfolding create_execution ◌>>=◌
  create-fresh req x p w h = rw h refl

  -- After a creation that returned `v`, a creation with the same idempotency key, by any caller and
  -- whatever else it asks for, returns `v` again, and writes nothing: no row, no audit event and no
  -- event. The key is assumed not to be empty.
  pub create-again :
      (req req' : Request) (x x' : Option String) (p p' : CreatePayload) (w t : World)
      (v : ExecutionView)
      → truthy p.idempotency_key ≡ true
      → p'.idempotency_key ≡ p.idempotency_key
      → create_execution cfg ext req x p w ≡ (ok v, t)
      → create_execution cfg ext req' x' p' t ≡ (ok v, t)
  create-again req req' x x' p p' w t v given same first =
      elim (Option-cases (existing_for p.idempotency_key w.executions)) [
        | inr (e, there) ↦
            let found : create_execution cfg ext req x p w ≡ (ok (execution_to_dict e true), w) =
              create-existing req x p w e there in
            let world : w ≡ t = ap (λ r. r.1) (sym found ∙ first) in
            let view : execution_to_dict e true ≡ v =
              same_view (execution_to_dict e true) v _ (ap (λ r. r.0) found)
                (ap (λ r. r.0) first) in
            create-existing req' x' p' t e (rw (same, ← world) there) ∙ rw view refl
        | inl fresh ↦
            let ends : NewEnds cfg p w (create_execution cfg ext req x p w) =
              rw (create-fresh req x p w fresh) ((create_new-NewEnds req x p w).holds) in
            let new : Created cfg p w t v = rw first at ends in
            create-existing req' x' p' t new.row (
              rw (same, new.appended)
                (existing_for-append p.idempotency_key new.row w.executions given new.key fresh))
            ∙ rw (new.shown) refl
      ]

  -- A creation that does not find its idempotency key either returns the view of one new row, queued
  -- and appended to the table of executions, with the command of the body or else noop, where the
  -- limit on its device had room, with one audit event; or it raises, and then it has left the executions, the events and the audit trail alone.
  pub create-NewEnds :
      (req : Request) (x : Option String) (p : CreatePayload) (w : World)
      → existing_for p.idempotency_key w.executions ≡ none
      → NewEnds cfg p w (create_execution cfg ext req x p w)
  create-NewEnds req x p w fresh =
      rw (create-fresh req x p w fresh) ((create_new-NewEnds req x p w).holds)
