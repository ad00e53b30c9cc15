-- ===== src/Edge.antt =====
-- services/nexora-edge/main.py: the gateway between the broker and the agents. Here are its state, what
-- it calls, and the two caches that it keeps in Redis or, failing that, in local dictionaries.
pub mod Caches
pub mod Push
pub mod Tunnel
pub mod Deliver
pub mod Ends
pub mod Pending
use nexora_platform.Prelude.{
  ℕ, suc, String, Bool, true, false, Option, none, some, List, [], ◌∷◌, ◌++◌, length, ◌==◌,
  if◌then◌else◌,
}
use nexora_platform.Prelude.Int.{ℤ}
use nexora_platform.Prelude.Text.{Field, Json, truthy}
use nexora_platform.Prelude.Dict.{Dict, lookup, assign, discard}
use nexora_platform.Prelude.Action.{Outcome, ok, raised, Action, ◌>>=◌}

-- Times are microseconds.
pub record Session : Type 0 where
  pub device_id : String
  pub registered_at : ℕ
  pub last_seen : ℕ
  pub metadata : Json
  pub ws_connected : Option Bool
  pub gateway_instance : Option String

pub record EventPayload : Type 0 where
  pub device_id : Option String
  pub kafka_dispatched_at : Option ℕ
  pub body : Json

-- The value of a message from the broker.
pub record EdgeEvent : Type 0 where
  pub resource_id : Option String
  pub execution_id : Option String
  pub payload : Field EventPayload
  pub occurred_at : Option ℕ

-- A dispatch that waits for its agent.
pub record Dispatch : Type 0 where
  pub execution_id : String
  pub device_id : Option String
  pub event : EdgeEvent
  pub received_at : ℕ
  pub kafka_broker_timestamp : Option ℕ
  pub delivery_attempts : ℕ
  pub delivery_last_error : String

pub record ControlMessage : Type 0 where
  pub execution_id : String
  pub device_id : String
  pub payload : Field EventPayload
  pub received_at : ℕ
  pub kafka_dispatched_at : Option ℕ
  pub delivered_at : ℕ
  pub queue_wait : ℤ
  pub dispatch_latency : Option ℤ

pub data Frame : Type 0 where
  control : ControlMessage → Frame
  pong : Frame

-- The answer of a failed delivery, which is also published.
pub record FailedDelivery : Type 0 where
  pub execution_id : String
  pub device_id : String
  pub attempts : ℕ
  pub last_error : String

pub data EdgeError : Type 0 where
  device_id_is_required session_not_found dispatch_not_found connection_lost consumer_stopped :
      EdgeError
  delivery_failed : FailedDelivery → EdgeError

-- `S` is the state of the Redis server. A websocket is a number.
pub record Gateway (S : Type 0) : Type 0 where
  pub store : S
  pub local_sessions : Dict Session
  pub local_dispatches : Dict Dispatch
  pub connections : Dict ℕ
  pub frames : List (ℕ × Frame)
  pub published : List FailedDelivery
  pub clock : ℕ
  pub uuids_drawn : ℕ

-- The calls of Redis on the keys of one kind. A call that raises answers none or false.
pub record Redis (S V : Type 0) : Type 0 where
  pub get : String → S → Option (Option V) × S
  pub setex : (key : String) → (ttl : ℕ) → V → S → Bool × S
  pub delete : String → S → Bool × S
  pub keys : S → Option (List String) × S

pub record RedisClient (S : Type 0) : Type 0 where
  pub sessions : Redis S Session
  pub dispatches : Redis S Dispatch
  pub publish : (device_id : String) → Dispatch → S → Bool × S

-- What the gateway calls and does not implement: Redis (none where there is no client), `uuid4`, the
-- websockets (whether the frame after `n` others arrives), and the producer; with the lifetimes that
-- the settings SESSION_TTL_SECONDS and DISPATCH_TTL_SECONDS give to what it stores in Redis.
pub record EdgeOutside (S : Type 0) : Type 0 where
  pub redis : Option (RedisClient S)
  pub session_ttl : ℕ
  pub dispatch_ttl : ℕ
  pub uuid : ℕ → String
  pub arrives : (n : ℕ) → (socket : ℕ) → Frame → Bool
  pub takes : FailedDelivery → Bool

pub record EdgeSettings : Type 0 where
  pub gateway_instance_id : String
  pub max_delivery_attempts : ℕ

abbrev pub EdgeHandler : Type 0 → Type 0 → Type 0
EdgeHandler S A = Action EdgeError (Gateway S) A

-- One of the two caches: its part of Redis, the lifetime of its keys there, and its local dictionary.
pub record Cache (S V : Type 0) : Type 0 where
  pub ttl : ℕ
  pub redis : Option (Redis S V)
  pub local : Gateway S → Dict V
  pub with_local : Dict V → Gateway S → Gateway S

module _ {S : Type 0} where
  abbrev client_sessions : Option (RedisClient S) → Option (Redis S Session)
  client_sessions none = none
  client_sessions (some c) = some c.sessions

  abbrev client_dispatches : Option (RedisClient S) → Option (Redis S Dispatch)
  client_dispatches none = none
  client_dispatches (some c) = some c.dispatches

  abbrev pub sessions_of : EdgeOutside S → Cache S Session
  sessions_of ext = record {
    ttl = ext.session_ttl;
    redis = client_sessions ext.redis;
    local = λ w. w.local_sessions;
    with_local = λ d w. record w { local_sessions = d };
  }

  abbrev pub dispatches_of : EdgeOutside S → Cache S Dispatch
  dispatches_of ext = record {
    ttl = ext.dispatch_ttl;
    redis = client_dispatches ext.redis;
    local = λ w. w.local_dispatches;
    with_local = λ d w. record w { local_dispatches = d };
  }

  abbrev pub with_store : S → Gateway S → Gateway S
  with_store s w = record w { store = s }

  module _ {V : Type 0} (c : Cache S V) where
    -- the answer of Redis, or the local entry where Redis has raised
    abbrev pub answer_or_local : Option (Option V) → String → Gateway S → Option V
    answer_or_local (some v) key w = v
    answer_or_local none key w = lookup key (c.local w)

    -- `_session_get` and `_dispatch_get`
    unfoldable pub cache_get : String → EdgeHandler S (Option V)
    unfolding lookup
    cache_get key w = elim c.redis [
      | none ↦ (ok (lookup key (c.local w)), w)
      | some r ↦
          let (answer, s) = r.get key w.store in (ok (answer_or_local answer key w), with_store s w)
    ]

    -- `_session_set` and `_dispatch_set`
    unfoldable pub cache_set : String → V → EdgeHandler S (Unit {0})
    unfolding assign
    cache_set key v w = elim c.redis [
      | none ↦ (ok tt, c.with_local (assign key v (c.local w)) w)
      | some r ↦
          let (stored, s) = r.setex key c.ttl v w.store in
          (
            ok tt,
            if stored
                then with_store s w
                else c.with_local (assign key v (c.local w)) (with_store s w),
          )
    ]

    -- `_dispatch_delete`
    unfoldable pub cache_delete : String → EdgeHandler S (Unit {0})
    unfolding discard
    cache_delete key w = elim c.redis [
      | none ↦ (ok tt, c.with_local (discard key (c.local w)) w)
      | some r ↦
          let (deleted, s) = r.delete key w.store in
          (
            ok tt,
            if deleted
                then with_store s w
                else c.with_local (discard key (c.local w)) (with_store s w),
          )
    ]

    -- `_session_count` and `_dispatch_count`
    abbrev counted : Option (List String) → Gateway S → ℕ
    counted (some keys) w = length keys
    counted none w = length (c.local w)

    unfoldable pub cache_count : EdgeHandler S ℕ
    cache_count w = elim c.redis [
      | none ↦ (ok (length (c.local w)), w)
      | some r ↦ let (keys, s) = r.keys w.store in (ok (counted keys w), with_store s w)
    ]
