-- ===== src/Slo/Evaluation.antt =====
-- The evaluation of objectives on samples against a comprehension over all pairs
-- (services/device-service/src/device_service/api/slo.py).
use nexora_platform.Prelude.{
  ℕ, suc, ◌+◌, ◌≡◌, refl, ap, subst, sym, inl, inr, String, Bool, true, false, not, Option, none,
  some, List, [], ◌∷◌, ◌++◌, keep, map, length, ◌==◌, if◌then◌else◌, append_nil, append_assoc,
  length-append, arith, Bool-cases, eq_iff, ◌∙◌,
}
use nexora_platform.Prelude.Dict.{Dict, lookup, assign, lookup-assign}
use nexora_platform.Prelude.Action.{Outcome, ok, pure, ◌>>=◌}
use nexora_platform.Prelude.Int.{ℤ}
use nexora_platform.Slo.{
  DeviceSlo, SloViolation, Sample, SloError, SloHandler, Board, operator_of, check_with, or_empty,
  indexed, index_from, is_checked, breach_row, add_violation, check_slo, check_slos, check_samples,
  evaluate_all, evaluate_slos,
}

indexed-assign :
    (m k : String) (v : List DeviceSlo) (d : Dict (List DeviceSlo))
    → indexed m (assign k v d) ≡ (if k == m then v else indexed m d)
indexed-assign m k v d = ap or_empty (lookup-assign m k v d) ∙ chosen (k == m) (lookup m d)
  where
    chosen :
        (b : Bool) (o : Option (List DeviceSlo))
        → or_empty (if b then some v else o) ≡ (if b then v else or_empty o)
    chosen true o = refl
    chosen false o = refl

-- the objectives of a metric, in the order of the index's list
indexed-index_from :
    (m : String) (d : Dict (List DeviceSlo)) (ss : List DeviceSlo)
    → indexed m (index_from d ss) ≡ indexed m d ++ keep (λ s. s.metric == m) ss
unfolding index_from
indexed-index_from m d [] = sym (append_nil (indexed m d))
indexed-index_from m d (s ∷ ss) =
    let added = indexed s.metric d ++ s ∷ [] in
    let later = indexed-index_from m (assign s.metric added d) ss in
    let first = indexed-assign m s.metric added d in
    elim (Bool-cases (s.metric == m)) [
      | inl same ↦
          let key : s.metric ≡ m = ground (arith, same, eq_iff s.metric m) in
          let here : indexed m (assign s.metric added d) ≡ indexed m d ++ s ∷ [] =
            rw same at first ∙ ap (λ k. indexed k d ++ s ∷ []) key in
          rw same (
            later
            ∙ ap (λ l. l ++ keep (λ x. x.metric == m) ss) here
            ∙ append_assoc (indexed m d) (s ∷ []) (keep (λ x. x.metric == m) ss))
      | inr other ↦
          let here : indexed m (assign s.metric added d) ≡ indexed m d = rw other at first in
          rw other (later ∙ ap (λ l. l ++ keep (λ x. x.metric == m) ss) here)
    ]

-- An objective that a sample breaches: its operator is known, and does not hold.
abbrev fails : Option (ℤ → ℤ → Bool) → Sample → DeviceSlo → Bool
fails none x s = false
fails (some holds) x s = not (holds x.value s.threshold)

unfoldable pub is_breached : Sample → DeviceSlo → Bool
unfolding operator_of
is_breached x s = fails (operator_of s.operator) x s

abbrev one_if : Bool → Sample × DeviceSlo → List (Sample × DeviceSlo)
one_if true b = b ∷ []
one_if false b = []

-- every objective of the device that is enabled, is about the sample's metric, and is breached
unfoldable pub breaches_of :
    (device_id : String) → List DeviceSlo → Sample → List (Sample × DeviceSlo)
breaches_of device_id slos x =
    map (λ s. (x, s))
      (keep (is_breached x) (keep (λ s. s.metric == x.metric) (keep (is_checked device_id) slos)))

unfoldable pub breaches :
    (device_id : String) → List DeviceSlo → List Sample → List (Sample × DeviceSlo)
breaches device_id slos [] = []
breaches device_id slos (x ∷ xs) = breaches_of device_id slos x ++ breaches device_id slos xs

breaches_none :
    (device_id : String) (slos : List DeviceSlo) (xs : List Sample)
    → keep (is_checked device_id) slos ≡ []
    → breaches device_id slos xs ≡ []
unfolding breaches breaches_of
breaches_none device_id slos [] h = refl
breaches_none device_id slos (x ∷ xs) h = rw (h, breaches_none device_id slos xs h) refl

module _ (uuid : ℕ → String) where
  -- the rows of these breaches, under the ids from the `n`th on
  unfoldable pub rows_from :
      (device_id : String) → ℕ → List (Sample × DeviceSlo) → List SloViolation
  rows_from device_id n [] = []
  rows_from device_id n (b ∷ bs) =
      breach_row (uuid n) device_id b.0 b.1 ∷ rows_from device_id (suc n) bs

  rows_from-append :
      (device_id : String) (n : ℕ) (bs cs : List (Sample × DeviceSlo))
      → rows_from device_id n (bs ++ cs)
        ≡ rows_from device_id n bs ++ rows_from device_id (n + length bs) cs
  unfolding rows_from
  rows_from-append device_id n [] cs = ap (λ k. rows_from device_id k cs) (omega arith)
  rows_from-append device_id n (b ∷ bs) cs =
      let shift : suc n + length bs ≡ n + suc (length bs) = omega arith in
      rw (rows_from-append device_id (suc n) bs cs, shift) refl

  -- the end of an evaluation that has found these breaches
  abbrev recorded :
      (device_id : String)
      → List (Sample × DeviceSlo)
      → Board
      → Outcome SloError (List SloViolation) × Board
  recorded device_id bs w =
      let vs = rows_from device_id w.uuids_drawn bs in
      (ok vs, record w { violations = w.violations ++ vs; uuids_drawn = w.uuids_drawn + length bs })

  recorded_none : (device_id : String) (w : Board) → (ok [], w) ≡ recorded device_id [] w
  unfolding rows_from
  recorded_none device_id w =
      let same : w.uuids_drawn + 0 ≡ w.uuids_drawn = omega arith in
      rw (append_nil w.violations, same) refl

  recorded-append :
      (device_id : String) (bs cs : List (Sample × DeviceSlo)) (w : Board)
      → (
        ok (
            rows_from device_id w.uuids_drawn bs
            ++ rows_from device_id (w.uuids_drawn + length bs) cs),
        (recorded device_id cs (recorded device_id bs w).1).1,
      )
        ≡ recorded device_id (bs ++ cs) w
  recorded-append device_id bs cs w =
      let n = w.uuids_drawn in
      let drawn : n + length bs + length cs ≡ n + length (bs ++ cs) =
        omega (arith, length-append bs cs) in
      rw
        (
          drawn,
          rows_from-append device_id n bs cs,
          append_assoc w.violations (rows_from device_id n bs)
              (rows_from device_id (n + length bs) cs),
        )
        refl

  -- two evaluations in a row
  recorded_both :
      (device_id : String) (bs cs : List (Sample × DeviceSlo)) (w : Board)
      (m k : SloHandler (List SloViolation))
      → m w ≡ recorded device_id bs w
      → ((v : Board) → k v ≡ recorded device_id cs v)
      → (m >>= λ first. k >>= λ rest. pure (first ++ rest)) w ≡ recorded device_id (bs ++ cs) w
  unfolding ◌>>=◌
  recorded_both device_id bs cs w m k h g =
      rw (h, g (recorded device_id bs w).1) (recorded-append device_id bs cs w)

  check_with-recorded :
      (o : Option (ℤ → ℤ → Bool)) (device_id : String) (x : Sample) (s : DeviceSlo) (w : Board)
      → check_with uuid o device_id x s w ≡ recorded device_id (one_if (fails o x s) (x, s)) w
  unfolding check_with add_violation rows_from ◌>>=◌
  check_with-recorded none device_id x s w = recorded_none device_id w
  check_with-recorded (some holds) device_id x s w = elim (Bool-cases (holds x.value s.threshold)) [
    | inl met ↦ rw met (recorded_none device_id w)
    | inr broken ↦
        let one_more : w.uuids_drawn + 1 ≡ suc w.uuids_drawn = omega arith in
        rw (broken, one_more) refl
  ]

  check_slos-recorded :
      (device_id : String) (x : Sample) (ss : List DeviceSlo) (w : Board)
      → check_slos uuid device_id x ss w
        ≡ recorded device_id (map (λ s. (x, s)) (keep (is_breached x) ss)) w
  unfolding check_slos check_slo is_breached ◌>>=◌
  check_slos-recorded device_id x [] w = recorded_none device_id w
  check_slos-recorded device_id x (s ∷ ss) w =
      recorded_both device_id (one_if (is_breached x s) (x, s))
        (map (λ y. (x, y)) (keep (is_breached x) ss)) w (check_slo uuid device_id x s)
        (check_slos uuid device_id x ss)
        (check_with-recorded (operator_of s.operator) device_id x s w)
        (check_slos-recorded device_id x ss)
      ∙ ap (λ l. recorded device_id l w) (joined (is_breached x s))
    where
      joined :
          (b : Bool)
          → one_if b (x, s) ++ map (λ y. (x, y)) (keep (is_breached x) ss)
            ≡ map (λ y. (x, y)) (if b then s ∷ keep (is_breached x) ss else keep (is_breached x) ss)
      joined true = refl
      joined false = refl

  check_samples-recorded :
      (device_id : String) (slos : List DeviceSlo) (xs : List Sample) (w : Board)
      → check_samples uuid device_id (index_from [] (keep (is_checked device_id) slos)) xs w
        ≡ recorded device_id (breaches device_id slos xs) w
  unfolding check_samples breaches breaches_of lookup ◌>>=◌
  check_samples-recorded device_id slos [] w = recorded_none device_id w
  check_samples-recorded device_id slos (x ∷ xs) w =
      recorded_both device_id (breaches_of device_id slos x) (breaches device_id slos xs) w
        (check_slos uuid device_id x
          (indexed x.metric (index_from [] (keep (is_checked device_id) slos))))
        (check_samples uuid device_id (index_from [] (keep (is_checked device_id) slos)) xs)
        (rw (indexed-index_from x.metric [] (keep (is_checked device_id) slos))
          (check_slos-recorded device_id x _ w))
        (check_samples-recorded device_id slos xs)

  -- The objectives that an evaluation reports are exactly those that a sample breaches: for each
  -- sample in turn, every objective of the device, in the order of the table, that is enabled, is
  -- about the sample's metric, and whose operator is known and does not hold. Each is recorded once,
  -- under an id of its own, and nothing else changes; an evaluation never raises.
  pub evaluate_slos-breaches :
      (device_id : String) (xs : List Sample) (w : Board)
      → evaluate_slos uuid device_id xs w ≡ (
        ok (rows_from device_id w.uuids_drawn (breaches device_id w.slos xs)),
        record w {
          violations =
              w.violations ++ rows_from device_id w.uuids_drawn (breaches device_id w.slos xs);
          uuids_drawn = w.uuids_drawn + length (breaches device_id w.slos xs);
        },
      )
  unfolding evaluate_slos ◌>>=◌
  evaluate_slos-breaches device_id xs w = by_slos (keep (is_checked device_id) w.slos) refl
    where
      by_slos :
          (ss : List DeviceSlo)
          → keep (is_checked device_id) w.slos ≡ ss
          → evaluate_all uuid device_id xs ss w
            ≡ recorded device_id (breaches device_id w.slos xs) w
      by_slos [] e = rw (breaches_none device_id w.slos xs e) (recorded_none device_id w)
      by_slos (s ∷ ss) e =
          subst
            (λ l.
              check_samples uuid device_id (index_from [] l) xs w
              ≡ recorded device_id (breaches device_id w.slos xs) w)
            e (check_samples-recorded device_id w.slos xs w)
