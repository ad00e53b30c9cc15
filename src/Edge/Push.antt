-- ===== src/Edge/Push.antt =====
-- How a dispatch reaches the gateway and its agent: `_ws_push_dispatch`, `_ws_replay_pending` and one
-- message of `_consume_dispatched` (services/nexora-edge/main.py).
use nexora_platform.Prelude.{
  ℕ, zero, suc, String, Bool, true, false, Option, none, some, List, [], ◌∷◌, ◌++◌, length,
  if◌then◌else◌,
}
use nexora_platform.Prelude.Int.{ℤ, sub_ℕ}
use nexora_platform.Prelude.Text.{Field, missing, null, given, truthy, text_or, opt_or, opt_eq}
use nexora_platform.Prelude.Dict.{lookup, values}
use nexora_platform.Prelude.Action.{ok, raised, pure, gets, ◌>>=◌, ◌>>◌}
use nexora_platform.Edge.{
  EventPayload, EdgeEvent, Dispatch, ControlMessage, Frame, control, consumer_stopped, Redis,
  EdgeOutside, EdgeHandler, dispatches_of, with_store, cache_set,
}

-- `a or b` for times, of which 0 is false
abbrev pub time_or : Option ℕ → Option ℕ → Option ℕ
time_or none b = b
time_or (some zero) b = b
time_or (some (suc n)) b = some (suc n)

-- `payload.get("kafka_dispatched_at")`, where the payload may be left out
abbrev payload_time : Field EventPayload → Option ℕ
payload_time (given p) = p.kafka_dispatched_at
payload_time _ = none

abbrev pub dispatched_at : EdgeEvent → Option ℕ
dispatched_at e = time_or (payload_time e.payload) e.occurred_at

-- `t - float(since) if since is not None else None`
abbrev pub elapsed : ℕ → Option ℕ → Option ℤ
elapsed t none = none
elapsed t (some since) = some (sub_ℕ t since)

unfoldable pub control_message : (device_id : String) → (now : ℕ) → Dispatch → ControlMessage
control_message device_id now d = record {
  execution_id = d.execution_id;
  device_id = device_id;
  payload = d.event.payload;
  received_at = d.received_at;
  kafka_dispatched_at = dispatched_at d.event;
  delivered_at = now;
  queue_wait = sub_ℕ now d.received_at;
  dispatch_latency = elapsed now (dispatched_at d.event);
}

-- `data.get("device_id") == device_id`
abbrev pub is_for : String → Dispatch → Bool
is_for device_id d = opt_eq d.device_id (some device_id)

module _ {S : Type 0} (ext : EdgeOutside S) where
  -- `websocket.send_json`, whose exception is caught
  unfoldable pub send_frame : (socket : ℕ) → Frame → EdgeHandler S Bool
  send_frame socket f w =
      if ext.arrives (length w.frames) socket f
      then (ok true, record w { frames = w.frames ++ (socket, f) ∷ [] })
      else (ok false, w)

  unfoldable pub ws_push_dispatch :
      (device_id : String) → Dispatch → (socket : ℕ) → EdgeHandler S Bool
  unfolding send_frame control_message
  ws_push_dispatch device_id d socket = do
    delivered_at ← gets (λ w. w.clock)
    send_frame socket (control (control_message device_id delivered_at d))

  -- the loop over the local dispatches
  unfoldable pub push_all :
      (device_id : String) → (socket : ℕ) → List Dispatch → EdgeHandler S (Unit {0})
  unfolding ws_push_dispatch
  push_all device_id socket [] = pure tt
  push_all device_id socket (d ∷ ds) =
      let rest = push_all device_id socket ds in
      if is_for device_id d then ws_push_dispatch device_id d socket >> rest else rest

  -- a value that Redis has answered: pushed where it is for the device
  abbrev push_found :
      (device_id : String)
      → (socket : ℕ) → Option Dispatch
      → EdgeHandler S (Unit {0})
      → EdgeHandler S (Unit {0})
  push_found device_id socket none rest = rest
  push_found device_id socket (some d) rest =
      if is_for device_id d then ws_push_dispatch device_id d socket >> rest else rest

  -- the loop over the keys in Redis, which an exception ends
  unfoldable pub push_keys :
      Redis S Dispatch
      → (device_id : String) → (socket : ℕ) → List String
      → EdgeHandler S (Unit {0})
  push_keys r device_id socket [] = pure tt
  push_keys r device_id socket (key ∷ keys) =
      let rest = push_keys r device_id socket keys in
      λ w.
        let (answer, s) = r.get key w.store in
        elim answer [
          | none ↦ (ok tt, with_store s w)
          | some found ↦ push_found device_id socket found rest (with_store s w)
        ]

  unfoldable pub ws_replay_pending : (device_id : String) → (socket : ℕ) → EdgeHandler S (Unit {0})
  unfolding push_all push_keys
  ws_replay_pending device_id socket w = elim ext.redis [
    | none ↦ push_all device_id socket (values w.local_dispatches) w
    | some client ↦
        let (keys, s) = client.dispatches.keys w.store in
        elim keys [
          | none ↦ (ok tt, with_store s w)
          | some ks ↦ push_keys client.dispatches device_id socket ks (with_store s w)
        ]
  ]

  -- `event.get("resource_id") or event.get("execution_id") or str(uuid4())`
  unfoldable pub execution_id_of : EdgeEvent → EdgeHandler S String
  execution_id_of e w =
      if truthy (opt_or e.resource_id e.execution_id)
      then (ok (text_or (opt_or e.resource_id e.execution_id) ""), w)
      else (ok (ext.uuid w.uuids_drawn), record w { uuids_drawn = suc w.uuids_drawn })

  -- `event.get("payload", {}).get("device_id")`, whose exception ends the consumer
  unfoldable pub device_of : EdgeEvent → EdgeHandler S (Option String)
  device_of e w = elim e.payload [
    | missing ↦ (ok none, w)
    | null ↦ (raised consumer_stopped, w)
    | given p ↦ (ok p.device_id, w)
  ]

  -- the push after a dispatch is cached: over Redis, or over a websocket of this instance
  unfoldable pub announce_dispatch : (device_id : String) → Dispatch → EdgeHandler S (Unit {0})
  unfolding ws_push_dispatch lookup
  announce_dispatch device_id d w = elim ext.redis [
    | some client ↦ let (sent, s) = client.publish device_id d w.store in (ok tt, with_store s w)
    | none ↦ elim (lookup device_id w.connections) [
      | none ↦ (ok tt, w)
      | some socket ↦ (ws_push_dispatch device_id d socket >> pure tt) w
    ]
  ]

  -- One message of the consumer's loop; `timestamp` is that of the broker.
  unfoldable pub consume_dispatched : EdgeEvent → (timestamp : Option ℕ) → EdgeHandler S (Unit {0})
  unfolding execution_id_of device_of cache_set announce_dispatch
  consume_dispatched e timestamp = do
    received_at ← gets (λ w. w.clock)
    execution_id ← execution_id_of e
    device_id ← device_of e
    let d : Dispatch = record {
      execution_id = execution_id;
      device_id = device_id;
      event = e;
      received_at = received_at;
      kafka_broker_timestamp = time_or timestamp none;
      delivery_attempts = 0;
      delivery_last_error = "";
    }
    cache_set (dispatches_of ext) execution_id d
    if truthy device_id then announce_dispatch (text_or device_id "") d else pure tt
