-- ===== src/Execution/Rollout/Runs.antt =====
-- The executions behind the results of a rollout: which device was served from which state.
use nexora_platform.Prelude.{
  ℕ, suc, ◌+◌, ◌≡◌, refl, sym, subst, String, Bool, true, false, ◌&&◌, none, some, List, [], ◌∷◌,
  ◌++◌, take, drop, take_add, length, sum, ltb, append_nil, arith,
}
use nexora_platform.Prelude.Action.{Outcome, ok, raised, pure, ◌>>=◌}
use nexora_platform.Prelude.Action.After.{after_bind, after_if}
use nexora_platform.Execution.World.{Settings, Services, Request, World, Raised, HttpError}
use nexora_platform.Execution.Create.{CreatePayload}
use nexora_platform.Execution.Functions.{dispatched, error, catch_http}
use nexora_platform.Execution.Attempts.{Attempt, caught-Attempt}
use nexora_platform.Execution.Rollout.{
  Item, item_of, ring_result, Progress, all_results, start_on_device, run_ring, run_rings,
}

-- what the result of a device says of its attempt
abbrev pub Tells : Item → String → Outcome HttpError String → Type 0
Tells i d (ok id) = (i.device_id ≡ d) × (i.execution_id ≡ some id) × (i.status ≡ dispatched)
Tells i d (raised e) =
    (i.device_id ≡ d) × (i.execution_id ≡ none) × (i.status ≡ error) × (i.detail ≡ some e)

item_of-Tells : (d : String) (r : Outcome HttpError String) → Tells (item_of d r) d r
unfolding item_of
item_of-Tells d (ok id) = (refl, refl, refl)
item_of-Tells d (raised e) = (refl, refl, refl, refl)

module _ (cfg : Settings) (ext : Services) (req : Request) (f : String → CreatePayload) where
  -- The devices are served one after the other, each with its own payload, in the state that the one
  -- before it has left.
  pub data Served : List String → World → List Item → World → Type 0 where
    nobody : (w : World) → Served [] w [] w
    next :
        (d : String) (ds : List String) (w : World) (r : Outcome HttpError String) (u : World)
        (i : Item) (items : List Item) (t : World)
        → Attempt cfg ext req (f d) w r u
        → Tells i d r
        → Served ds u items t
        → Served (d ∷ ds) w (i ∷ items) t

  Served-append :
      (ds es : List String) (w u t : World) (items more : List Item)
      → Served ds w items u
      → Served es u more t
      → Served (ds ++ es) w (items ++ more) t
  Served-append _ es _ _ t _ more (nobody w) h = h
  Served-append _ es _ v t _ more (next d ds w r u i items _ a s k) h =
      next d (ds ++ es) w r u i (items ++ more) t a s (Served-append ds es u v t items more k h)

  record RingEnd (ds : List String) (w : World) (r : Outcome Raised (List Item) × World)
      : Type 0 where
    at : (items : List Item) → r.0 ≡ ok items → Served ds w items r.1

  ring_end :
      (ds : List String) (w t : World) (items : List Item)
      → Served ds w items t
      → RingEnd ds w (pure items t)
  unfolding ◌>>=◌
  ring_end ds w t items h = record {
    at = λ l e. let same : items ≡ l = cc in subst (λ x. Served ds w x t) same h;
  }

  run_ring-Served : (ds : List String) (w : World) → RingEnd ds w (run_ring cfg ext req f ds w)
  unfolding run_ring start_on_device
  run_ring-Served [] w = ring_end [] w w [] (nobody w)
  run_ring-Served (d ∷ ds) w =
      let Q = RingEnd (d ∷ ds) w in
      after_bind Q w (catch_http (start_on_device cfg ext req (f d))) _
        (λ r u first.
          after_bind Q u (run_ring cfg ext req f ds) _
            (λ items t rest.
              let later = (subst (RingEnd ds u) rest (run_ring-Served ds u)).at items refl in
              let attempt = caught-Attempt cfg ext req (f d) w r u first in
              ring_end (d ∷ ds) w t (item_of d r ∷ items)
                (next d ds w r u (item_of d r) items t attempt (item_of-Tells d r) later))
            (λ x t e. record { at = λ l q. absurd cc }))
        (λ x t e. record { at = λ l q. absurd cc })

  -- the devices of the rings that have run
  abbrev pub reached : List ℕ → List String → Progress → List String
  reached sizes left p = take (sum (take (length p.rings) sizes)) left

  pub record RingsEnd (sizes : List ℕ) (left : List String) (w : World)
      (r : Outcome Raised Progress × World) : Type 0 where
    pub at : (p : Progress) → r.0 ≡ ok p → Served (reached sizes left p) w (all_results p.rings) r.1

  rings_end :
      (sizes : List ℕ) (left : List String) (w t : World) (p : Progress)
      → Served (reached sizes left p) w (all_results p.rings) t
      → RingsEnd sizes left w (pure p t)
  unfolding ◌>>=◌
  rings_end sizes left w t p h = record {
    at = λ q e.
        let same : p ≡ q = cc in
        subst (λ x. Served (reached sizes left x) w (all_results x.rings) t) same h;
  }

  only_ring :
      (size : ℕ) (left : List String) (w u : World) (items : List Item)
      → Served (take size left) w items u
      → Served (take (size + 0) left) w (items ++ []) u
  only_ring size left w u items h =
      let same : size ≡ size + 0 = omega arith in
      subst (λ n. Served (take n left) w (items ++ []) u) same
        (subst (λ l. Served (take size left) w l u) (sym (append_nil items)) h)

  pub run_rings-Served :
      (stop : Bool) (index : ℕ) (sizes : List ℕ) (left : List String) (w : World)
      → RingsEnd sizes left w (run_rings cfg ext req stop f index sizes left w)
  unfolding run_rings all_results ring_result
  run_rings-Served stop index [] left w =
      rings_end [] left w w (record { rings = []; stopped = false }) (nobody w)
  run_rings-Served stop index (size ∷ sizes) left w =
      let Q = RingsEnd (size ∷ sizes) left w in
      after_bind Q w (run_ring cfg ext req f (take size left)) _
        (λ items u ran.
          let here =
            (subst (RingEnd (take size left) w) ran (run_ring-Served (take size left) w)).at items
              refl in
          let ring = ring_result index items (length (take size left)) in
          after_if Q u (stop && ltb 0 ring.failed) _ _
            (λ halt.
              rings_end (size ∷ sizes) left w u (record { rings = ring ∷ []; stopped = true })
                (only_ring size left w u items here))
            (λ go_on.
              after_bind Q u (run_rings cfg ext req stop f (suc index) sizes (drop size left)) _
                (λ p t rest.
                  let later =
                    (subst (RingsEnd sizes (drop size left) u) rest
                        (run_rings-Served stop (suc index) sizes (drop size left) u)).at
                      p refl in
                  rings_end (size ∷ sizes) left w t
                    (record { rings = ring ∷ p.rings; stopped = p.stopped })
                    (subst (λ ds. Served ds w (items ++ all_results p.rings) t)
                      (sym (take_add size (sum (take (length p.rings) sizes)) left))
                      (Served-append _ _ w u t items (all_results p.rings) here later)))
                (λ x t e. record { at = λ l q. absurd cc })))
        (λ x t e. record { at = λ l q. absurd cc })
