-- ===== src/Execution/Timeouts/Settled.antt =====
-- What a round of the timeout loop leaves.
use nexora_platform.Prelude.{
  ℕ, ◌-◌, ◌≤◌, ◌<◌, ◌≡◌, refl, ap, false, true, Option, none, some, List, [], ◌∷◌, map, All,
  Bool-cases, inl, inr, arith, ltb→lt,
}
use nexora_platform.Execution.Status.{
  Status, queued, dispatched, running, succeeded, failed, timeout, cancelled,
}
use nexora_platform.Execution.Model.{Execution}
use nexora_platform.Execution.World.{Settings, World}
use nexora_platform.Execution.Timeouts.{is_over, has_timed_out, expire, timeout_round}

-- Within the threshold of its status: what waits for its agent since `dispatched_at`, and what runs
-- since `running_at`.
pub record IsInTime (cfg : Settings) (now : ℕ) (e : Execution) : Type 0 where
  pub waiting :
      (since : ℕ)
      → e.status ≡ dispatched
      → e.dispatched_at ≡ some since
      → now - since ≤ cfg.dispatched_timeout
  pub working :
      (since : ℕ)
      → e.status ≡ running
      → e.running_at ≡ some since
      → now - since ≤ cfg.running_timeout

-- What a round may do to an execution: nothing, or end one that has waited or run for too long.
pub data Fate (cfg : Settings) (now : ℕ) (e : Execution) : Execution → Type 0 where
  left_alone : Fate cfg now e e
  waited_too_long :
      (since : ℕ)
      → e.status ≡ dispatched
      → e.dispatched_at ≡ some since
      → cfg.dispatched_timeout < now - since
      → Fate cfg now e (record e { status = timeout })
  ran_too_long :
      (since : ℕ)
      → e.status ≡ running
      → e.running_at ≡ some since
      → cfg.running_timeout < now - since
      → Fate cfg now e (record e { status = timeout })

-- row by row
abbrev pub Rowwise : (Execution → Execution → Type 0) → List Execution → List Execution → Type 0
Rowwise R [] [] = Unit
Rowwise R [] (f ∷ u) = ⊥
Rowwise R (e ∷ t) [] = ⊥
Rowwise R (e ∷ t) (f ∷ u) = R e f × Rowwise R t u

module _ (cfg : Settings) (now : ℕ) where
  test_false : (e : Execution) → has_timed_out cfg now e.status e ≡ false → IsInTime cfg now e
  unfolding has_timed_out
  test_false e h = record {
    waiting = λ since st at. ground (arith, h, st, at);
    working = λ since st at. ground (arith, h, st, at);
  }

  over_since :
      (threshold : ℕ) (o : Option ℕ)
      → is_over now threshold o ≡ true
      → (since : ℕ) × (o ≡ some since) × (threshold < now - since)
  over_since threshold none h = absurd cc
  over_since threshold (some since) h = (since, refl, ltb→lt threshold (now - since) h)

  test_true :
      (e : Execution)
      → has_timed_out cfg now e.status e ≡ true
      → Fate cfg now e (record e { status = timeout })
  unfolding has_timed_out
  test_true e = go e.status refl
    where
      go :
          (s : Status)
          → e.status ≡ s
          → has_timed_out cfg now s e ≡ true
          → Fate cfg now e (record e { status = timeout })
      go dispatched st h =
          let (since, at, over) = over_since cfg.dispatched_timeout e.dispatched_at h in
          waited_too_long since st at over
      go running st h =
          let (since, at, over) = over_since cfg.running_timeout e.running_at h in
          ran_too_long since st at over
      go queued st h = absurd cc
      go succeeded st h = absurd cc
      go failed st h = absurd cc
      go timeout st h = absurd cc
      go cancelled st h = absurd cc

  ended-IsInTime : (e : Execution) → IsInTime cfg now (record e { status = timeout })
  ended-IsInTime e = record {
    waiting = λ since st at. absurd cc;
    working = λ since st at. absurd cc;
  }

  expire-Fate :
      (e : Execution) → Fate cfg now e (expire cfg now e) × IsInTime cfg now (expire cfg now e)
  unfolding expire
  expire-Fate e = elim (Bool-cases (has_timed_out cfg now e.status e)) [
    | inl over ↦ rw over (test_true e over, ended-IsInTime e)
    | inr waiting ↦ rw waiting (left_alone, test_false e waiting)
  ]

  All-expire :
      (t : List Execution)
      → Rowwise (Fate cfg now) t (map (expire cfg now) t)
        × All (IsInTime cfg now) (map (expire cfg now) t)
  All-expire [] = (tt, tt)
  All-expire (e ∷ t) =
      let first = expire-Fate e in let rest = All-expire t in ((first.0, rest.0), (first.1, rest.1))

  expire_again : (e : Execution) → expire cfg now (expire cfg now e) ≡ expire cfg now e
  unfolding expire has_timed_out
  expire_again e = elim (Bool-cases (has_timed_out cfg now e.status e)) [
    | inl over ↦ rw over refl
    | inr waiting ↦ rw (waiting, waiting) refl
  ]

  expire_all_again :
      (t : List Execution) → map (expire cfg now) (map (expire cfg now) t) ≡ map (expire cfg now) t
  expire_all_again [] = refl
  expire_all_again (e ∷ t) = rw (expire_again e, expire_all_again t) refl

-- A round of the timeout loop does nothing to an execution, or ends with the status timeout one that
-- is dispatched, or running, for longer than the threshold of its status. Afterwards no execution is
-- dispatched or running for longer than its threshold, and a second round at the same time changes
-- nothing. An execution without the time at which it was dispatched, or began to run, is not ended.
pub timeout_round_settles :
    (cfg : Settings) (w : World)
    → Rowwise (Fate cfg w.clock) w.executions (timeout_round cfg w).executions
      × All (IsInTime cfg w.clock) (timeout_round cfg w).executions
      × (timeout_round cfg (timeout_round cfg w) ≡ timeout_round cfg w)
unfolding timeout_round
timeout_round_settles cfg w =
    let done = All-expire cfg w.clock w.executions in
    (
      done.0,
      done.1,
      ap (λ t. record w { executions = t }) (expire_all_again cfg w.clock w.executions),
    )
