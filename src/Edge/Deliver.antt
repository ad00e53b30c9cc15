-- ===== src/Edge/Deliver.antt =====
-- The delivery of a dispatch to an agent that asks for it: `deliver` (services/nexora-edge/main.py).
use nexora_platform.Prelude.{
  ℕ, zero, suc, ◌-◌, String, Option, none, some, [], ◌∷◌, ◌++◌, ◌==◌, ltb, if◌then◌else◌,
}
use nexora_platform.Prelude.Int.{ℤ, sub_ℕ}
use nexora_platform.Prelude.Text.{Field, append}
use nexora_platform.Prelude.Action.{ok, pure, raise, gets, or_raise, ◌>>=◌, ◌>>◌}
use nexora_platform.Edge.{
  Session, EventPayload, Dispatch, FailedDelivery, dispatch_not_found, delivery_failed, Gateway,
  EdgeOutside, EdgeSettings, EdgeHandler, sessions_of, dispatches_of, with_store, cache_get,
  cache_set, cache_delete,
}
use nexora_platform.Edge.Push.{dispatched_at, elapsed}

-- The answer of a delivery.
pub record Delivered : Type 0 where
  pub execution_id : String
  pub device_id : String
  pub attempts : ℕ
  pub kafka_dispatched_at : Option ℕ
  pub kafka_broker_timestamp : Option ℕ
  pub gateway_received_at : ℕ
  pub delivered_at : ℕ
  pub kafka_broker_lag : Option ℤ
  pub kafka_ingestion : Option ℤ
  pub queue_wait : ℤ
  pub dispatch_latency : Option ℤ
  pub payload : Field EventPayload

-- the difference of two times, where both are known
abbrev lag : Option ℕ → Option ℕ → Option ℤ
lag none since = none
lag (some t) since = elapsed t since

unfoldable pub delivered_answer :
    (execution_id device_id : String) → (attempt now : ℕ) → Dispatch → Delivered
delivered_answer execution_id device_id attempt now d = record {
  execution_id = execution_id;
  device_id = device_id;
  attempts = attempt;
  kafka_dispatched_at = dispatched_at d.event;
  kafka_broker_timestamp = d.kafka_broker_timestamp;
  gateway_received_at = d.received_at;
  delivered_at = now;
  kafka_broker_lag = lag d.kafka_broker_timestamp (dispatched_at d.event);
  kafka_ingestion = elapsed d.received_at (dispatched_at d.event);
  queue_wait = sub_ℕ now d.received_at;
  dispatch_latency = elapsed now (dispatched_at d.event);
  payload = d.event.payload;
}

abbrev pub no_session : String → String
no_session device_id = append "no active session for device " device_id

-- the device in a text
abbrev pub device_text : Option String → String
device_text none = "None"
device_text (some device_id) = device_id

module _ {S : Type 0} (ext : EdgeOutside S) where
  abbrev found_session : Option (Option Session) → Option Session
  found_session none = none
  found_session (some v) = v

  -- `_session_get(None)`: the key in Redis ends in "None", and no local key is None
  unfoldable pub session_of_none : EdgeHandler S (Option Session)
  session_of_none w = elim ext.redis [
    | none ↦ (ok none, w)
    | some client ↦
        let (answer, s) = client.sessions.get "None" w.store in
        (ok (found_session answer), with_store s w)
  ]

  -- `_session_get(device_id) if device_id != "unknown" else None`
  unfoldable pub session_for : Option String → EdgeHandler S (Option Session)
  unfolding session_of_none cache_get
  session_for none = session_of_none
  session_for (some device_id) =
      if device_id == "unknown" then pure none else cache_get (sessions_of ext) device_id

module _ {S : Type 0} (cfg : EdgeSettings) (ext : EdgeOutside S)
    (pause : (attempt : ℕ) → Gateway S → Gateway S) where
  -- `pause` is what other requests do while the loop sleeps after an attempt.
  unfoldable pub sleep_after : ℕ → EdgeHandler S (Unit {0})
  sleep_after attempt w =
      (ok tt, if ltb attempt cfg.max_delivery_attempts then pause attempt w else w)

  -- `_publish_event`, whose exceptions are caught; no producer takes nothing
  unfoldable pub publish_failed : FailedDelivery → EdgeHandler S (Unit {0})
  publish_failed f w =
      (ok tt, if ext.takes f then record w { published = w.published ++ f ∷ [] } else w)

  -- the rest of `deliver`, after the loop has used up its attempts
  unfoldable pub give_up : (execution_id device_id last_error : String) → EdgeHandler S Delivered
  unfolding publish_failed cache_delete
  give_up execution_id device_id last_error =
      let report : FailedDelivery = record {
        execution_id = execution_id;
        device_id = device_id;
        attempts = cfg.max_delivery_attempts;
        last_error = last_error;
      } in
      do
        publish_failed report
        cache_delete (dispatches_of ext) execution_id
        raise (delivery_failed report)

  -- The loop with `n` attempts left, of which the next has the number `attempt`; `session` is the
  -- one that was found before the loop.
  unfoldable pub attempt_delivery :
      (n attempt : ℕ)
      → (execution_id device_id : String) → Option Session
      → Dispatch
      → EdgeHandler S Delivered
  unfolding give_up sleep_after cache_set cache_delete delivered_answer
  attempt_delivery zero attempt execution_id device_id session cached =
      give_up execution_id device_id cached.delivery_last_error
  attempt_delivery (suc n) attempt execution_id device_id (some s) cached = do
    cache_set (dispatches_of ext) execution_id (record cached { delivery_attempts = attempt })
    now ← gets (λ w. w.clock)
    cache_delete (dispatches_of ext) execution_id
    pure (delivered_answer execution_id device_id attempt now cached)
  attempt_delivery (suc n) attempt execution_id device_id none cached =
      let tried = record cached { delivery_attempts = attempt } in
      let failed = record tried { delivery_last_error = no_session device_id } in
      do
        cache_set (dispatches_of ext) execution_id tried
        cache_set (dispatches_of ext) execution_id failed
        sleep_after attempt
        attempt_delivery n (suc attempt) execution_id device_id none failed

  unfoldable pub deliver : (execution_id : String) → EdgeHandler S Delivered
  unfolding cache_get attempt_delivery
  deliver execution_id = do
    found ← cache_get (dispatches_of ext) execution_id
    cached ← or_raise found dispatch_not_found
    session ← session_for ext cached.device_id
    attempt_delivery (cfg.max_delivery_attempts - cached.delivery_attempts)
        (suc cached.delivery_attempts) execution_id (device_text cached.device_id) session cached
