-- ===== src/Execution/Limits.antt =====
-- The limit on the active executions of a device, over any run of calls that holds no broker event:
-- an execution started by a trigger is created without the check.
use nexora_platform.Prelude.{
  ℕ, ◌+◌, ◌≤◌, ◌≡◌, ◌≢◌, refl, inl, inr, String, true, false, Option, none, some, List, [], ◌∷◌,
  ◌++◌, any, map, count, count-append, arith, Bool-cases, eq_iff,
}
use nexora_platform.Prelude.Table.{count-map, count-update, count-remove}
use nexora_platform.Execution.Status.{
  Status, is_active, transition_allowed, active-or-terminal, not_from_terminal,
}
use nexora_platform.Execution.Model.{Execution}
use nexora_platform.Execution.World.{Settings, Services, World}
use nexora_platform.Execution.Create.{is_active_on, count_active_for_device, over_limit}
use nexora_platform.Execution.Dispatch.{key_of}
use nexora_platform.Execution.Timeouts.{has_timed_out, expire, timeout_round}
use nexora_platform.Execution.Calls.{Call, perform_all}
use nexora_platform.Execution.Respects.{Respects, IsMove}
use nexora_platform.Execution.Respects.Calls.{is_event, perform_all-Along}

-- An allowed move leads from an active status.
active_before : (s t : Status) → transition_allowed s t ≡ true → is_active s ≡ true
active_before s t h = ground (arith, active-or-terminal s, not_from_terminal s t)

-- A write by a handler makes no row active.
is_active_on-IsMove :
    (d : String) (e e' : Execution)
    → IsMove e e'
    → is_active_on d e' ≡ true
    → is_active_on d e ≡ true
is_active_on-IsMove d e e' m h =
    rw (← m.device, active_before e.status e'.status m.allowed) (ground (arith, h))

expire-inactive :
    (cfg : Settings) (now : ℕ) (d : String) (e : Execution)
    → is_active_on d (expire cfg now e) ≡ true
    → is_active_on d e ≡ true
unfolding expire
expire-inactive cfg now d e h = elim (Bool-cases (has_timed_out cfg now e.status e)) [
  | inl over ↦ absurd (ground (arith, h, over))
  | inr waiting ↦ ground (arith, h, waiting)
]

count-expire :
    (cfg : Settings) (now : ℕ) (d : String) (t : List Execution)
    → count_active_for_device (map (expire cfg now) t) d ≤ count_active_for_device t d
unfolding count_active_for_device
count-expire cfg now d t =
    count-map key_of (is_active_on d) (expire cfg now) t (expire-inactive cfg now d)

count-added :
    (cfg : Settings) (d : String) (row : Execution) (t : List Execution)
    → d ≢ ""
    → over_limit cfg row.device_id t ≡ none
    → (n : ℕ) → cfg.max_executions_per_device ≤ n
    → count_active_for_device t d ≤ n
    → count_active_for_device (t ++ row ∷ []) d ≤ n
unfolding over_limit count_active_for_device
count-added cfg d row t h room n m c =
    rw (count-append (is_active_on d) t (row ∷ [])) (go row.device_id refl room)
  where
    go :
        (o : Option String)
        → row.device_id ≡ o
        → over_limit cfg o t ≡ none
        → count (is_active_on d) t + count (is_active_on d) (row ∷ []) ≤ n
    go none at room = rw at (omega (arith, c))
    go (some x) at room = rw at (ground (arith, room, m, c, h, eq_iff x d, eq_iff x ""))

module _ (cfg : Settings) (ext : Services) (d : String) (given : d ≢ "") where
  -- No bound at or above the limit that holds before is broken after.
  pub record Within (s t : World) : Type 0 where
    pub bound :
        (n : ℕ)
        → cfg.max_executions_per_device ≤ n
        → count_active_for_device s.executions d ≤ n
        → count_active_for_device t.executions d ≤ n

  within :
      (s t : World)
      → count_active_for_device t.executions d ≤ count_active_for_device s.executions d
      → Within s t
  within s t h = record { bound = λ n m c. omega (arith, h, c) }

  Within-Respects : Respects cfg ext Within
  unfolding timeout_round
  Within-Respects = record {
    order = record {
      here = λ s. record { bound = λ n m c. c };
      after = λ s t u h g. record { bound = λ n m c. g.bound n m (h.bound n m c) };
    };
    quiet = λ s t same drawn. within s t (rw same (omega arith));
    moved = λ w id f e keeps found m. within w _ (
        unfold count_active_for_device in
        count-update key_of (is_active_on d) id f w.executions found
          (is_active_on-IsMove d e (f e) m));
    removed = λ w id.
        within w _
          (unfold count_active_for_device in count-remove key_of (is_active_on d) id w.executions);
    added = λ w t row new room. record {
      bound = λ n m c. rw (new.same) (count-added cfg d row w.executions given room n m c);
    };
    expired = λ w. within w (timeout_round cfg w) (count-expire cfg w.clock d w.executions);
  }

  -- If the limit on a device with a name that is not empty holds, it holds after any run of calls
  -- that holds no broker event: creations, dispatches, callbacks, cancellations, deletions, timeout
  -- rounds and the operations over fleets, whether they succeed or fail.
  pub run_within_limit :
      (cs : List Call) (w : World)
      → any is_event cs ≡ false
      → count_active_for_device w.executions d ≤ cfg.max_executions_per_device
      → count_active_for_device (perform_all cfg ext cs w).executions d
        ≤ cfg.max_executions_per_device
  run_within_limit cs w quiet held =
      (perform_all-Along cfg ext Within Within-Respects cs w
          (λ h. absurd (ground (arith, h, quiet)))).bound
        cfg.max_executions_per_device (omega arith) held
