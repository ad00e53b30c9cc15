-- ===== src/Execution/Soundness.antt =====
-- The keys of the table of executions and the times of its running rows, over any run of calls.
use nexora_platform.Prelude.{
  ℕ, ◌+◌, ◌≤◌, ◌≡◌, refl, inl, inr, String, true, false, Bool, ◌||◌, Option, none, some, List, [],
  ◌∷◌, ◌++◌, any, map, count, count-append, arith, Bool-cases, ◌==◌, eq_iff, All, is_some,
}
use nexora_platform.Prelude.Text.{opt_eq}
use nexora_platform.Prelude.Table.{
  find, update, remove, count-map, count-update, count-remove, All-update, All-remove,
  All-append_one,
}
use nexora_platform.Execution.Status.{queued, running}
use nexora_platform.Execution.Model.{Execution}
use nexora_platform.Execution.World.{Settings, Services, World}
use nexora_platform.Execution.Create.{has_key}
use nexora_platform.Execution.Dispatch.{key_of}
use nexora_platform.Execution.Timeouts.{has_timed_out, expire, timeout_round}
use nexora_platform.Execution.Calls.{Call, perform_all}
use nexora_platform.Execution.Respects.{Respects, AddsFreely, IsMove}
use nexora_platform.Execution.Respects.Calls.{perform_all-Along}

abbrev pub has_id : String → Execution → Bool
has_id i e = e.id == i

-- a running row has the time since which it has been running
abbrev pub IsStamped : Execution → Type 0
IsStamped e = e.status ≡ running → is_some e.running_at ≡ true

pub record IsSound (t : List Execution) : Type 0 where
  pub ids : (i : String) → count (has_id i) t ≤ 1
  pub keys : (k : String) → count (has_key (some k)) t ≤ 1
  pub stamped : All IsStamped t

count-none :
    (p : Execution → Bool) (q : Execution → Bool) (t : List Execution)
    → any q t ≡ false
    → ((e : Execution) → q e ≡ false → p e ≡ false)
    → count p t ≡ 0
count-none p q [] h g = refl
count-none p q (e ∷ t) h g = ground (arith, h, g e, count-none p q t (ground (arith, h)) g)

expire-IsStamped :
    (cfg : Settings) (now : ℕ) (e : Execution) → IsStamped e → IsStamped (expire cfg now e)
unfolding expire
expire-IsStamped cfg now e h g = elim (Bool-cases (has_timed_out cfg now e.status e)) [
  | inl over ↦ absurd (ground (arith, g, over))
  | inr waiting ↦ rw waiting (h (rw waiting at g))
]

-- what a timeout round leaves alone
expire-keys :
    (cfg : Settings) (now : ℕ) (e : Execution)
    → (key_of (expire cfg now e) ≡ key_of e)
      × ((expire cfg now e).idempotency_key ≡ e.idempotency_key)
unfolding expire
expire-keys cfg now e = elim (Bool-cases (has_timed_out cfg now e.status e)) [
  | inl over ↦ rw over (refl, refl)
  | inr waiting ↦ rw waiting (refl, refl)
]

has_key-same :
    (k : String) (e e' : Execution)
    → e'.idempotency_key ≡ e.idempotency_key
    → has_key (some k) e' ≡ true
    → has_key (some k) e ≡ true
has_key-same k e e' h g = rw (← h) g

has_id-same :
    (i : String) (e e' : Execution) → key_of e' ≡ key_of e → has_id i e' ≡ true → has_id i e ≡ true
has_id-same i e e' h g = rw (← h) g

All-expire :
    (cfg : Settings) (now : ℕ) (t : List Execution)
    → All IsStamped t
    → All IsStamped (map (expire cfg now) t)
All-expire cfg now [] a = tt
All-expire cfg now (e ∷ t) a = (expire-IsStamped cfg now e a.0, All-expire cfg now t a.1)

expire-IsSound :
    (cfg : Settings) (now : ℕ) (t : List Execution) → IsSound t → IsSound (map (expire cfg now) t)
expire-IsSound cfg now t s = record {
  ids = λ i. omega (
    arith,
    s.ids i,
    count-map key_of (has_id i) (expire cfg now) t
        (λ e. has_id-same i e (expire cfg now e) (expire-keys cfg now e).0),
  );
  keys = λ k. omega (
    arith,
    s.keys k,
    count-map key_of (has_key (some k)) (expire cfg now) t
        (λ e. has_key-same k e (expire cfg now e) (expire-keys cfg now e).1),
  );
  stamped = All-expire cfg now t s.stamped;
}

update-IsSound :
    (id : String) (f : Execution → Execution) (e : Execution) (t : List Execution)
    → ((x : Execution) → key_of (f x) ≡ key_of x)
    → find key_of id t ≡ some e
    → IsMove e (f e)
    → IsSound t
    → IsSound (update key_of id f t)
update-IsSound id f e t keeps found m s = record {
  ids = λ i. omega (
    arith,
    s.ids i,
    count-update key_of (has_id i) id f t found (has_id-same i e (f e) (keeps e)),
  );
  keys = λ k. omega (
    arith,
    s.keys k,
    count-update key_of (has_key (some k)) id f t found (has_key-same k e (f e) m.key),
  );
  stamped = All-update key_of IsStamped id f t found m.stamped s.stamped;
}

remove-IsSound : (id : String) (t : List Execution) → IsSound t → IsSound (remove key_of id t)
remove-IsSound id t s = record {
  ids = λ i. omega (arith, s.ids i, count-remove key_of (has_id i) id t);
  keys = λ k. omega (arith, s.keys k, count-remove key_of (has_key (some k)) id t);
  stamped = All-remove key_of IsStamped id t s.stamped;
}

-- A row may be added where its id and its key are not taken.
append-IsSound :
    (row : Execution) (t : List Execution)
    → row.status ≡ queued
    → any (λ e. e.id == row.id || has_key row.idempotency_key e) t ≡ false
    → IsSound t
    → IsSound (t ++ row ∷ [])
append-IsSound row t starts free s = record {
  ids = λ i. rw (count-append (has_id i) t (row ∷ [])) (ids i);
  keys = λ k. rw (count-append (has_key (some k)) t (row ∷ [])) (keys k);
  stamped =
      All-append_one key_of IsStamped row t s.stamped (λ h. absurd (ground (arith, h, starts)));
}
  where
    ids : (i : String) → count (has_id i) t + count (has_id i) (row ∷ []) ≤ 1
    ids i = elim (Bool-cases (row.id == i)) [
      | inl same ↦ ground (
        arith,
        same,
        count-none (has_id i) _ t free
            (λ e h. ground (arith, h, eq_iff row.id i, eq_iff e.id i, eq_iff e.id row.id)),
      )
      | inr other ↦ ground (arith, other, s.ids i)
    ]

    keys : (k : String) → count (has_key (some k)) t + count (has_key (some k)) (row ∷ []) ≤ 1
    keys k = elim (Bool-cases (has_key (some k) row)) [
      | inl same ↦
          ground (arith, same, count-none (has_key (some k)) _ t free (λ e h. not_mine k e same h))
      | inr other ↦ ground (arith, other, s.keys k)
    ]
      where
        not_mine :
            (k : String) (e : Execution)
            → has_key (some k) row ≡ true
            → (e.id == row.id || has_key row.idempotency_key e) ≡ false
            → has_key (some k) e ≡ false
        not_mine k e = go row.idempotency_key
          where
            go :
                (o : Option String)
                → opt_eq o (some k) ≡ true
                → (e.id == row.id || has_key o e) ≡ false
                → has_key (some k) e ≡ false
            go none h g = ground (arith, h)
            go (some x) h g = ground (arith, h, g, eq_iff x k)

module _ (cfg : Settings) (ext : Services) where
  pub record Keeps (s t : World) : Type 0 where
    pub sound : IsSound s.executions → IsSound t.executions

  Keeps-new : AddsFreely ext Keeps
  Keeps-new w t row new = record {
    sound = λ s. rw (new.same) (append-IsSound row w.executions new.starts new.free s);
  }

  Keeps-Respects : Respects cfg ext Keeps
  unfolding timeout_round
  Keeps-Respects = record {
    order = record {
      here = λ s. record { sound = λ x. x };
      after = λ s t u h g. record { sound = λ x. g.sound (h.sound x) };
    };
    quiet = λ s t same drawn. record { sound = λ x. rw same x };
    moved = λ w id f e keeps found m. record {
      sound = update-IsSound id f e w.executions keeps found m;
    };
    removed = λ w id. record { sound = remove-IsSound id w.executions };
    added = λ w t row new room. Keeps-new w t row new;
    expired = λ w. record { sound = expire-IsSound cfg w.clock w.executions };
  }

  -- A table of executions in which no id and no idempotency key occurs twice, and each running row
  -- has the time since which it runs, is still such a table after any run of calls.
  pub run-IsSound :
      (cs : List Call) (w : World)
      → IsSound w.executions
      → IsSound (perform_all cfg ext cs w).executions
  run-IsSound cs w s =
      (perform_all-Along cfg ext Keeps Keeps-Respects cs w (λ _. Keeps-new)).sound s
