-- ===== src/Samples/Gateways.antt =====
-- The theorems on the gateway, applied.
use nexora_platform.Prelude.{
  ℕ, List, ◌≡◌, refl, String, true, Option, none, some, [], ◌∷◌, ◌==◌, if◌then◌else◌,
}
use nexora_platform.Prelude.Text.{given, truthy}
use nexora_platform.Prelude.Dict.{Dict, lookup, assign, discard, lookup-discard}
use nexora_platform.Prelude.Action.{ok}
use nexora_platform.Samples.{unary}
use nexora_platform.Edge.{
  Session, Dispatch, Gateway, RedisClient, EdgeOutside, EdgeSettings, dispatches_of, cache_get,
}
use nexora_platform.Edge.Tunnel.{open_tunnel, tunnel_message, ack}
use nexora_platform.Edge.Deliver.{session_for, deliver}
use nexora_platform.Edge.Caches.{Answers, Trusted, answering, dispatch_map}
use nexora_platform.Edge.Ends.{DeliverEnd, deliver-DeliverEnd}
use nexora_platform.Edge.Pending.{Pushed, open_tunnel-Pushed, settled_is_forgotten}

-- a Redis server as two dictionaries
abbrev Server : Type 0
Server = Dict Session × Dict Dispatch

abbrev keys_of : {V : Type 0} → Dict V → List String
keys_of [] = []
keys_of (e ∷ d) = e.0 ∷ keys_of d

abbrev client : RedisClient Server
client = record {
  sessions = record {
    get = λ k s. (some (lookup k s.0), s);
    setex = λ k ttl v s. (true, (assign k v s.0, s.1));
    delete = λ k s. (true, (discard k s.0, s.1));
    keys = λ s. (some (keys_of s.0), s);
  };
  dispatches = record {
    get = λ k s. (some (lookup k s.1), s);
    setex = λ k ttl v s. (true, (s.0, assign k v s.1));
    delete = λ k s. (true, (s.0, discard k s.1));
    keys = λ s. (some (keys_of s.1), s);
  };
  publish = λ d x s. (true, s);
}

dispatches_answer : Answers client.dispatches
dispatches_answer = record {
  view = λ s k. lookup k s.1;
  get_value = λ k s. refl;
  delete_done = λ k s. refl;
  delete_view = λ k s j. lookup-discard j k s.1;
}

abbrev with_redis : EdgeOutside Server
with_redis = record {
  redis = some client;
  session_ttl = 3600;
  dispatch_ttl = 600;
  uuid = unary;
  arrives = λ n socket f. true;
  takes = λ f. true;
}

abbrev alone : EdgeOutside Server
alone = record {
  redis = none;
  session_ttl = 3600;
  dispatch_ttl = 600;
  uuid = unary;
  arrives = λ n socket f. true;
  takes = λ f. true;
}

abbrev waiting : Dispatch
waiting = record {
  execution_id = "e";
  device_id = some "d";
  event = record {
    resource_id = some "e";
    execution_id = none;
    payload = given (record {
      device_id = some "d";
      kafka_dispatched_at = some 3;
      body = record { text = "{}" };
    });
    occurred_at = some 2;
  };
  received_at = 4;
  kafka_broker_timestamp = none;
  delivery_attempts = 0;
  delivery_last_error = "";
}

abbrev gateway : Gateway Server
gateway = record {
  store = ([], ("e", waiting) ∷ []);
  local_sessions = [];
  local_dispatches = ("e", waiting) ∷ [];
  connections = [];
  frames = [];
  published = [];
  clock = 9;
  uuids_drawn = 0;
}

abbrev edge_settings : EdgeSettings
edge_settings = record { gateway_instance_id = "g1"; max_delivery_attempts = 3 }

served : Trusted with_redis
served = answering client refl dispatches_answer

-- an agent that registers while the delivery sleeps
abbrev registers_late : ℕ → Gateway Server → Gateway Server
registers_late n w = record w {
  local_sessions =
      (
        "d",
        record {
          device_id = "d";
          registered_at = 9;
          last_seen = 9;
          metadata = record { text = "{}" };
          ws_connected = none;
          gateway_instance = none;
        },
      )
      ∷ [];
}

dispatch_found : cache_get (dispatches_of alone) "e" gateway ≡ (ok (some waiting), gateway)
unfolding cache_get lookup
dispatch_found = refl

no_session_found : session_for alone (some "d") gateway ≡ (ok none, gateway)
unfolding session_for cache_get lookup
no_session_found = refl

deliver-DeliverEnd_example :
    DeliverEnd edge_settings alone registers_late "e" waiting none gateway
      (deliver edge_settings alone registers_late "e" gateway)
deliver-DeliverEnd_example =
    deliver-DeliverEnd edge_settings alone registers_late "e" waiting none gateway gateway gateway
      dispatch_found no_session_found

open_tunnel-Pushed_example :
    Pushed alone (λ n socket f. refl) "d" 7 gateway (open_tunnel alone edge_settings "d" 7 gateway)
open_tunnel-Pushed_example =
    open_tunnel-Pushed alone (λ n socket f. refl) edge_settings "d" 7 gateway refl

settled_is_forgotten_example :
    ((id : String) (d : Dispatch) (s : Option Session) (w v u : Gateway Server)
      → cache_get (dispatches_of with_redis) id w ≡ (ok (some d), v)
      → session_for with_redis d.device_id v ≡ (ok s, u)
      → dispatch_map with_redis served (deliver edge_settings with_redis registers_late id w).1 id
        ≡ none)
    × ((device_id id j : String) (socket : ℕ) (w : Gateway Server)
        → truthy (some id) ≡ true
        → dispatch_map with_redis served
            (tunnel_message with_redis device_id socket (ack (some id)) w).1
            j
          ≡ (if id == j then none else dispatch_map with_redis served w j))
settled_is_forgotten_example = settled_is_forgotten edge_settings with_redis registers_late served
