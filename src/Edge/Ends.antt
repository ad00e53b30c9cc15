-- ===== src/Edge/Ends.antt =====
-- How a delivery ends (services/nexora-edge/main.py).
use nexora_platform.Prelude.{
  ltb, if◌then◌else◌, ℕ, zero, suc, ◌-◌, ◌≤◌, ◌<◌, ◌≡◌, refl, subst, String, Option, none, some,
  arith,
}
use nexora_platform.Prelude.Action.{Outcome, ok, raised, pure, raise, or_raise, ◌>>=◌}
use nexora_platform.Prelude.Action.After.{after_known, after_gets}
use nexora_platform.Edge.{
  Session, Dispatch, EdgeError, dispatch_not_found, delivery_failed, FailedDelivery, Gateway, Redis,
  EdgeOutside, EdgeSettings, Cache, dispatches_of, cache_get, cache_set, cache_delete,
}
use nexora_platform.Edge.Deliver.{
  Delivered, delivered_answer, no_session, sleep_after, publish_failed, give_up, attempt_delivery,
  session_for, device_text, deliver,
}

module _ {S V : Type 0} (c : Cache S V) (key : String) (w : Gateway S) where
  pub cache_set-done : (v : V) → cache_set c key v w ≡ (ok tt, (cache_set c key v w).1)
  unfolding cache_set
  cache_set-done v = by_client c.redis refl
    where
      by_client :
          (o : Option (Redis S V))
          → c.redis ≡ o
          → cache_set c key v w ≡ (ok tt, (cache_set c key v w).1)
      by_client none e = rw e refl
      by_client (some r) e = rw e refl

  pub cache_delete-done : cache_delete c key w ≡ (ok tt, (cache_delete c key w).1)
  unfolding cache_delete
  cache_delete-done = by_client c.redis refl
    where
      by_client :
          (o : Option (Redis S V))
          → c.redis ≡ o
          → cache_delete c key w ≡ (ok tt, (cache_delete c key w).1)
      by_client none e = rw e refl
      by_client (some r) e = rw e refl

module _ {S : Type 0} (cfg : EdgeSettings) (ext : EdgeOutside S)
    (pause : (attempt : ℕ) → Gateway S → Gateway S) (id : String) where
  -- The gateway after the dispatch has been deleted.
  pub record Dropped (t : Gateway S) : Type 0 where
    pub before : Gateway S
    pub last : t ≡ (cache_delete (dispatches_of ext) id before).1

  abbrev pub failure : (device_id last_error : String) → FailedDelivery
  failure device_id last_error = record {
    execution_id = id;
    device_id = device_id;
    attempts = cfg.max_delivery_attempts;
    last_error = last_error;
  }

  -- The end of a delivery that fails, whose attempts have led to the gateway `x`: the failure is
  -- published, and the dispatch deleted.
  pub record GaveUp (device_id last_error : String) (x : Gateway S)
      (r : Outcome EdgeError Delivered × Gateway S) : Type 0 where
    pub answer : r.0 ≡ raised (delivery_failed (failure device_id last_error))
    pub left :
        r.1
        ≡ (cache_delete
            (dispatches_of ext)
            id
            (publish_failed cfg ext pause (failure device_id last_error) x).1).1
    pub dropped : Dropped r.1

  raised_end :
      (device_id last_error : String) (x t : Gateway S)
      → t
        ≡ (cache_delete
            (dispatches_of ext)
            id
            (publish_failed cfg ext pause (failure device_id last_error) x).1).1
      → GaveUp device_id last_error x (raise (delivery_failed (failure device_id last_error)) t)
  unfolding ◌>>=◌
  raised_end device_id last_error x t h = record {
    answer = refl;
    left = h;
    dropped = record { before = _; last = h };
  }

  give_up-GaveUp :
      (device_id last_error : String) (w : Gateway S)
      → GaveUp device_id last_error w (give_up cfg ext pause id device_id last_error w)
  unfolding give_up publish_failed
  give_up-GaveUp device_id last_error w =
      let Q = GaveUp device_id last_error w in
      after_known Q w _ _ tt _ refl (
        after_known Q _ _ _ tt _ (cache_delete-done (dispatches_of ext) id _)
          (raised_end device_id last_error w _ refl))

  -- a dispatch after an attempt that found no session
  abbrev pub missed : (device_id : String) → (attempt : ℕ) → Dispatch → Dispatch
  missed device_id attempt cached = record cached {
    delivery_attempts = attempt;
    delivery_last_error = no_session device_id;
  }

  -- the gateway after an attempt that found no session, and the pause that follows
  unfoldable pub one_miss : (device_id : String) → (attempt : ℕ) → Dispatch → Gateway S → Gateway S
  one_miss device_id attempt cached w =
      let tried = record cached { delivery_attempts = attempt } in
      let counted = (cache_set (dispatches_of ext) id tried w).1 in
      let noted = (cache_set (dispatches_of ext) id (missed device_id attempt cached) counted).1 in
      if ltb attempt cfg.max_delivery_attempts then pause attempt noted else noted

  -- `n` such attempts, of which the first has the number `attempt`
  unfoldable pub misses :
      (n : ℕ) → (device_id : String) → (attempt : ℕ) → Dispatch → Gateway S → Gateway S
  misses zero device_id attempt cached w = w
  misses (suc n) device_id attempt cached w =
      misses n device_id (suc attempt) (missed device_id attempt cached)
        (one_miss device_id attempt cached w)

  missed_attempt :
      (n attempt : ℕ) (device_id : String) (cached : Dispatch) (w x : Gateway S)
      → GaveUp device_id (no_session device_id) x (
          attempt_delivery cfg ext pause n
            (suc attempt)
            id
            device_id
            none
            (missed device_id attempt cached)
            (one_miss device_id attempt cached w))
      → GaveUp device_id
          (no_session device_id)
          x
          (attempt_delivery cfg ext pause (suc n) attempt id device_id none cached w)
  unfolding attempt_delivery sleep_after one_miss
  missed_attempt n attempt device_id cached w x later =
      let Q = GaveUp device_id (no_session device_id) x in
      after_known Q w _ _ tt _
        (cache_set-done (dispatches_of ext) id w (record cached { delivery_attempts = attempt }))
        (after_known Q _ _ _ tt _
          (cache_set-done (dispatches_of ext) id _ (missed device_id attempt cached))
          (after_known Q _ _ _ tt _ refl later))

  missed_all :
      (n attempt : ℕ) (device_id : String) (cached : Dispatch) (w : Gateway S)
      → cached.delivery_last_error ≡ no_session device_id
      → GaveUp device_id
          (no_session device_id)
          (misses n device_id attempt cached w)
          (attempt_delivery cfg ext pause n attempt id device_id none cached w)
  unfolding attempt_delivery misses
  missed_all zero attempt device_id cached w h =
      subst
        (λ e.
          GaveUp device_id e w (give_up cfg ext pause id device_id cached.delivery_last_error w))
        h (give_up-GaveUp device_id cached.delivery_last_error w)
  missed_all (suc n) attempt device_id cached w h =
      missed_attempt n attempt device_id cached w _ (missed_all n (suc attempt) device_id _ _ refl)

  -- The end of a delivery that reaches the agent, from the gateway `x`.
  pub record Reached (device_id : String) (cached : Dispatch) (attempt : ℕ) (x : Gateway S)
      (r : Outcome EdgeError Delivered × Gateway S) : Type 0 where
    pub now : ℕ
    pub answer : r.0 ≡ ok (delivered_answer id device_id attempt now cached)
    pub left :
        r.1
        ≡ (cache_delete
            (dispatches_of ext)
            id
            (cache_set
              (dispatches_of ext)
              id
              (record cached { delivery_attempts = attempt })
              x).1).1
    pub dropped : Dropped r.1

  arrival_end :
      (device_id : String) (cached : Dispatch) (attempt now : ℕ) (x t : Gateway S)
      → t
        ≡ (cache_delete
            (dispatches_of ext)
            id
            (cache_set
              (dispatches_of ext)
              id
              (record cached { delivery_attempts = attempt })
              x).1).1
      → Reached device_id cached attempt x
          (pure (delivered_answer id device_id attempt now cached) t)
  unfolding ◌>>=◌
  arrival_end device_id cached attempt now x t h = record {
    now = now;
    answer = refl;
    left = h;
    dropped = record { before = _; last = h };
  }

  first_attempt :
      (n attempt : ℕ) (device_id : String) (s : Session) (cached : Dispatch) (w : Gateway S)
      → Reached device_id cached attempt w
          (attempt_delivery cfg ext pause (suc n) attempt id device_id (some s) cached w)
  unfolding attempt_delivery
  first_attempt n attempt device_id s cached w =
      let Q = Reached device_id cached attempt w in
      after_known Q w _ _ tt _
        (cache_set-done (dispatches_of ext) id w (record cached { delivery_attempts = attempt }))
        (after_gets Q _ _ _ (
          after_known Q _ _ _ tt _ (cache_delete-done (dispatches_of ext) id _)
            (arrival_end device_id cached attempt _ w _ refl)))

  -- How a delivery of a dispatch ends, by the attempts that it has left and the session that is found;
  -- `u` is the gateway before the loop.
  pub record DeliverEnd (d : Dispatch) (s : Option Session) (u : Gateway S)
      (r : Outcome EdgeError Delivered × Gateway S) : Type 0 where
    pub reached :
        (x : Session)
        → s ≡ some x
        → d.delivery_attempts < cfg.max_delivery_attempts
        → Reached (device_text d.device_id) d (suc d.delivery_attempts) u r
    pub missed_agent :
        s ≡ none
        → d.delivery_attempts < cfg.max_delivery_attempts
        → GaveUp
            (device_text d.device_id)
            (no_session (device_text d.device_id))
            (misses
              (cfg.max_delivery_attempts - d.delivery_attempts)
              (device_text d.device_id)
              (suc d.delivery_attempts)
              d
              u)
            r
    pub used_up :
        cfg.max_delivery_attempts ≤ d.delivery_attempts
        → GaveUp (device_text d.device_id) d.delivery_last_error u r

  after_loop :
      (n : ℕ) (d : Dispatch) (s : Option Session) (w : Gateway S)
      → n ≡ cfg.max_delivery_attempts - d.delivery_attempts
      → DeliverEnd d s w (
          attempt_delivery cfg ext pause n
            (suc d.delivery_attempts)
            id
            (device_text d.device_id)
            s
            d
            w)
  unfolding attempt_delivery misses
  after_loop zero d s w h = record {
    reached = λ x e less. absurd (omega (arith, h, less));
    missed_agent = λ e less. absurd (omega (arith, h, less));
    used_up = λ _. give_up-GaveUp _ _ w;
  }
  after_loop (suc n) d none w h = record {
    reached = λ x e less. absurd cc;
    missed_agent = λ e less.
        let device_id = device_text d.device_id in
        let all =
          missed_attempt n (suc d.delivery_attempts) device_id d w _
            (missed_all n _ device_id _ _ refl) in
        subst
          (λ k.
            GaveUp device_id (no_session device_id)
              (misses k device_id (suc d.delivery_attempts) d w)
              (attempt_delivery cfg ext pause (suc n) (suc d.delivery_attempts) id device_id none d
                w))
          h all;
    used_up = λ none_left. absurd (omega (arith, h, none_left));
  }
  after_loop (suc n) d (some x) w h = record {
    reached = λ y e less. first_attempt n (suc d.delivery_attempts) _ x d w;
    missed_agent = λ e less. absurd cc;
    used_up = λ none_left. absurd (omega (arith, h, none_left));
  }

  or_raise-some :
      (d : Dispatch) (v : Gateway S) → or_raise (some d) dispatch_not_found v ≡ (ok d, v)
  unfolding ◌>>=◌
  or_raise-some d v = refl

  -- A delivery of a cached dispatch always ends. If an attempt is left and a session is found before
  -- the loop, the first attempt returns the dispatch. If none is found, exactly the attempts that the
  -- setting leaves are made, numbered on from those made before, and every one fails, also where the
  -- agent registers in one of the pauses between them. If no attempt is left, none is made, and the
  -- delivery fails with the error of the last one. A failure is published with the number of the
  -- setting. Either way the deletion of the dispatch is the last thing that is done to the gateway.
  pub deliver-DeliverEnd :
      (d : Dispatch) (s : Option Session) (w v u : Gateway S)
      → cache_get (dispatches_of ext) id w ≡ (ok (some d), v)
      → session_for ext d.device_id v ≡ (ok s, u)
      → DeliverEnd d s u (deliver cfg ext pause id w)
  unfolding deliver
  deliver-DeliverEnd d s w v u found looked =
      let Q = DeliverEnd d s u in
      after_known Q w _ _ (some d) v found (
        after_known Q v _ _ d v (or_raise-some d v)
          (after_known Q v _ _ s u looked (after_loop _ d s u refl)))
