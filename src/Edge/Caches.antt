-- ===== src/Edge/Caches.antt =====
-- The dispatches that the gateway holds (services/nexora-edge/main.py), as a map from ids.
use nexora_platform.Prelude.{◌≡◌, String, true, Option, none, some, ◌==◌, if◌then◌else◌}
use nexora_platform.Prelude.Dict.{lookup, lookup-discard}
use nexora_platform.Edge.{
  Dispatch, Gateway, Redis, RedisClient, EdgeOutside, dispatches_of, cache_delete,
}

-- What Redis documents of GET and DEL, while it answers: GET gives what is stored under a key, and DEL
-- takes away what is stored under its key and no other. Nothing is said of how long a key lives.
pub record Answers {S V : Type 0} (r : Redis S V) : Type 0 where
  pub view : S → String → Option V
  pub get_value : (k : String) (s : S) → (r.get k s).0 ≡ some (view s k)
  pub delete_done : (k : String) (s : S) → (r.delete k s).0 ≡ true
  pub delete_view :
      (k : String) (s : S) (j : String)
      → view (r.delete k s).1 j ≡ (if k == j then none else view s j)

-- Redis is not used, or answers every call.
pub data Trusted {S : Type 0} (ext : EdgeOutside S) : Type 0 where
  no_client : ext.redis ≡ none → Trusted ext
  answering :
      (client : RedisClient S) → ext.redis ≡ some client → Answers client.dispatches → Trusted ext

module _ {S : Type 0} (ext : EdgeOutside S) where
  -- what the gateway holds under an id
  unfoldable pub dispatch_map : Trusted ext → Gateway S → String → Option Dispatch
  dispatch_map (no_client e) w j = lookup j w.local_dispatches
  dispatch_map (answering client e law) w j = law.view w.store j

  pub dispatch_map-delete :
      (t : Trusted ext) (k j : String) (w : Gateway S)
      → dispatch_map t (cache_delete (dispatches_of ext) k w).1 j
        ≡ (if k == j then none else dispatch_map t w j)
  unfolding dispatch_map cache_delete
  dispatch_map-delete (no_client e) k j w = rw e (lookup-discard j k w.local_dispatches)
  dispatch_map-delete (answering client e law) k j w =
      rw (e, law.delete_done k w.store) (law.delete_view k w.store j)
