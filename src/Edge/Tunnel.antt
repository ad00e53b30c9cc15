-- ===== src/Edge/Tunnel.antt =====
-- The sessions of agents and their websocket tunnels: `register_agent_session`, `heartbeat`,
-- `get_session` and `agent_ws_tunnel` (services/nexora-edge/main.py).
use nexora_platform.Prelude.{ℕ, String, true, false, not, Option, none, some, if◌then◌else◌}
use nexora_platform.Prelude.Text.{Json, truthy, text_or}
use nexora_platform.Prelude.Dict.{assign, discard}
use nexora_platform.Prelude.Action.{pure, gets, modify, raise_if, or_raise, ◌>>=◌, ◌>>◌}
use nexora_platform.Edge.{
  Session, pong, device_id_is_required, session_not_found, connection_lost, EdgeOutside,
  EdgeSettings, EdgeHandler, sessions_of, dispatches_of, cache_get, cache_set, cache_delete,
}
use nexora_platform.Edge.Push.{send_frame, ws_replay_pending}

module _ {S : Type 0} (ext : EdgeOutside S) where
  unfoldable pub register_agent_session :
      (device_id : Option String) → (metadata : Json) → EdgeHandler S Session
  unfolding cache_set
  register_agent_session device_id metadata = do
    raise_if (not (truthy device_id)) device_id_is_required
    now ← gets (λ w. w.clock)
    let session : Session = record {
      device_id = text_or device_id "";
      registered_at = now;
      last_seen = now;
      metadata = metadata;
      ws_connected = none;
      gateway_instance = none;
    }
    cache_set (sessions_of ext) session.device_id session
    pure session

  unfoldable pub heartbeat : (device_id : String) → EdgeHandler S ℕ
  unfolding cache_get cache_set
  heartbeat device_id = do
    found ← cache_get (sessions_of ext) device_id
    session ← or_raise found session_not_found
    now ← gets (λ w. w.clock)
    cache_set (sessions_of ext) device_id (record session { last_seen = now })
    pure now

  unfoldable pub get_session : (device_id : String) → EdgeHandler S Session
  unfolding cache_get
  get_session device_id = do
    found ← cache_get (sessions_of ext) device_id
    or_raise found session_not_found

  -- the session of a device that connects: the one that is there, or a new one
  abbrev opened_session : (instance_id device_id : String) → (now : ℕ) → Option Session → Session
  opened_session instance_id device_id now none = record {
    device_id = device_id;
    registered_at = now;
    last_seen = now;
    metadata = record { text = "{}" };
    ws_connected = some true;
    gateway_instance = some instance_id;
  }
  opened_session instance_id device_id now (some s) = record s {
    last_seen = now;
    ws_connected = some true;
    gateway_instance = some instance_id;
  }

  -- `agent_ws_tunnel` before its loop
  unfoldable pub open_tunnel :
      EdgeSettings → (device_id : String) → (socket : ℕ) → EdgeHandler S (Unit {0})
  unfolding assign cache_get cache_set ws_replay_pending
  open_tunnel cfg device_id socket = do
    modify (λ w. record w { connections = assign device_id socket w.connections })
    found ← cache_get (sessions_of ext) device_id
    now ← gets (λ w. w.clock)
    cache_set (sessions_of ext) device_id
        (opened_session cfg.gateway_instance_id device_id now found)
    ws_replay_pending ext device_id socket

  -- What an agent sends over its tunnel.
  pub data AgentMessage : Type 0 where
    ack : (execution_id : Option String) → AgentMessage
    ping beat other_message : AgentMessage

  abbrev seen_again : (device_id : String) → Option Session → EdgeHandler S (Unit {0})
  seen_again device_id none = pure tt
  seen_again device_id (some s) = do
    now ← gets (λ w. w.clock)
    cache_set (sessions_of ext) device_id (record s { last_seen = now })

  -- one turn of the loop of `agent_ws_tunnel`
  unfoldable pub tunnel_message :
      (device_id : String) → (socket : ℕ) → AgentMessage → EdgeHandler S (Unit {0})
  unfolding cache_get cache_set cache_delete send_frame
  tunnel_message device_id socket (ack execution_id) =
      if truthy execution_id
      then cache_delete (dispatches_of ext) (text_or execution_id "")
      else pure tt
  tunnel_message device_id socket ping = do
    sent ← send_frame ext socket pong
    raise_if (not sent) connection_lost
  tunnel_message device_id socket beat = do
    found ← cache_get (sessions_of ext) device_id
    seen_again device_id found
  tunnel_message device_id socket other_message = pure tt

  abbrev disconnected : (device_id : String) → Option Session → EdgeHandler S (Unit {0})
  disconnected device_id none = pure tt
  disconnected device_id (some s) =
      cache_set (sessions_of ext) device_id (record s { ws_connected = some false })

  -- the `finally` of `agent_ws_tunnel`
  unfoldable pub close_tunnel : (device_id : String) → EdgeHandler S (Unit {0})
  unfolding discard cache_get cache_set
  close_tunnel device_id = do
    modify (λ w. record w { connections = discard device_id w.connections })
    found ← cache_get (sessions_of ext) device_id
    disconnected device_id found
