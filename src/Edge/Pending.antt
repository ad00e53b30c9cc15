-- ===== src/Edge/Pending.antt =====
-- What becomes of the dispatches that wait for an agent (services/nexora-edge/main.py).
use nexora_platform.Prelude.{
  ℕ, ◌≡◌, refl, subst, sym, ap, inl, inr, String, true, false, Option, none, some, List, [], ◌∷◌,
  ◌++◌, map, keep, length, append_nil, append_assoc, ◌∙◌, arith, ◌==◌, if◌then◌else◌, Bool-cases,
  Option-cases, ltb, ltb→lt, eq_refl,
}
use nexora_platform.Prelude.Dict.{lookup, assign, values, lookup-assign}
use nexora_platform.Prelude.Action.{Outcome, ok, ◌>>=◌}
use nexora_platform.Prelude.Action.After.{after_known, after_gets, after_modify}
use nexora_platform.Edge.{
  Session, EdgeError, Dispatch, Frame, control, Gateway, EdgeOutside, EdgeSettings, sessions_of,
  dispatches_of, cache_get, cache_set,
}
use nexora_platform.Edge.Push.{
  control_message, send_frame, ws_push_dispatch, is_for, push_all, ws_replay_pending,
}
use nexora_platform.Edge.Tunnel.{open_tunnel, tunnel_message, ack}
use nexora_platform.Edge.Deliver.{session_for, deliver}
use nexora_platform.Edge.Caches.{Trusted, dispatch_map, dispatch_map-delete}
use nexora_platform.Edge.Ends.{Dropped, deliver-DeliverEnd}
use nexora_platform.Prelude.Text.{truthy}

module _ {S : Type 0} (ext : EdgeOutside S)
    (all_arrive : (n socket : ℕ) (f : Frame) → ext.arrives n socket f ≡ true) where
  -- the frame that carries a dispatch
  abbrev pub frame_of : (device_id : String) → (socket now : ℕ) → Dispatch → ℕ × Frame
  frame_of device_id socket now d = (socket, control (control_message device_id now d))

  abbrev with_frames : Gateway S → List (ℕ × Frame) → Gateway S
  with_frames w fs = record w { frames = w.frames ++ fs }

  push_sends :
      (device_id : String) (d : Dispatch) (socket : ℕ) (w : Gateway S)
      → ws_push_dispatch ext device_id d socket w
        ≡ (ok true, with_frames w (frame_of device_id socket w.clock d ∷ []))
  unfolding ws_push_dispatch send_frame ◌>>=◌
  push_sends device_id d socket w = rw (all_arrive (length w.frames) socket _) refl

  push_all_sends :
      (device_id : String) (socket : ℕ) (ds : List Dispatch) (w : Gateway S)
      → push_all ext device_id socket ds w ≡ (
        ok tt,
        with_frames w (map (frame_of device_id socket w.clock) (keep (is_for device_id) ds)),
      )
  unfolding push_all ◌>>=◌
  push_all_sends device_id socket [] w =
      ap (λ fs. (ok tt, record w { frames = fs })) (sym (append_nil w.frames))
  push_all_sends device_id socket (d ∷ ds) w = elim (Bool-cases (is_for device_id d)) [
    | inl e ↦
        let f = frame_of device_id socket w.clock d in
        let fs = map (frame_of device_id socket w.clock) (keep (is_for device_id) ds) in
        let rest = push_all_sends device_id socket ds (with_frames w (f ∷ [])) in
        rw (e, push_sends device_id d socket w)
          (rest ∙ ap (λ gs. (ok tt, record w { frames = gs })) (append_assoc w.frames (f ∷ []) fs))
    | inr e ↦ rw e (push_all_sends device_id socket ds w)
  ]

  replay_sends :
      (device_id : String) (socket : ℕ) (w : Gateway S)
      → ext.redis ≡ none
      → ws_replay_pending ext device_id socket w ≡ (
        ok tt,
        with_frames w (
            map
              (frame_of device_id socket w.clock)
              (keep (is_for device_id) (values w.local_dispatches))),
      )
  unfolding ws_replay_pending
  replay_sends device_id socket w h =
      rw h (push_all_sends device_id socket (values w.local_dispatches) w)

  -- What an agent that connects finds and leaves.
  pub record Pushed (device_id : String) (socket : ℕ) (w : Gateway S)
      (r : Outcome EdgeError (Unit {0}) × Gateway S) : Type 0 where
    pub opened : r.0 ≡ ok tt
    pub frames :
        r.1.frames
        ≡ w.frames
          ++ map
              (frame_of device_id socket w.clock)
              (keep (is_for device_id) (values w.local_dispatches))
    pub dispatches : r.1.local_dispatches ≡ w.local_dispatches
    pub connected : lookup device_id r.1.connections ≡ some socket

  -- Without Redis, an agent that connects is sent at once every dispatch that waits for it, in the
  -- order of the cache and none of another device, provided that its websocket takes frames; the
  -- websocket is the one of the device from then on. The dispatches stay in the cache.
  pub open_tunnel-Pushed :
      (cfg : EdgeSettings) (device_id : String) (socket : ℕ) (w : Gateway S)
      → ext.redis ≡ none
      → Pushed device_id socket w (open_tunnel ext cfg device_id socket w)
  unfolding open_tunnel
  open_tunnel-Pushed cfg device_id socket w h =
      let Q = Pushed device_id socket w in
      after_modify Q w _ _ (
        after_known Q _ _ _ (lookup device_id w.local_sessions) _ (local_get _ h) (
          after_gets Q _ _ _ (
            after_known Q _ _ _ tt _ (local_set _ _ h) (
              subst Q (sym (replay_sends device_id socket _ h)) (record {
                opened = refl;
                frames = refl;
                dispatches = refl;
                connected =
                    rw (lookup-assign device_id device_id socket w.connections, eq_refl device_id)
                      refl;
              })))))
    where
      local_get :
          (v : Gateway S)
          → ext.redis ≡ none
          → cache_get (sessions_of ext) device_id v ≡ (ok (lookup device_id v.local_sessions), v)
      local_get v e = unfold cache_get in rw e refl

      local_set :
          (v : Gateway S) (s : Session)
          → ext.redis ≡ none
          → cache_set (sessions_of ext) device_id s v
            ≡ (ok tt, record v { local_sessions = assign device_id s v.local_sessions })
      local_set v s e = unfold cache_set in rw e refl

module _ {S : Type 0} (cfg : EdgeSettings) (ext : EdgeOutside S)
    (pause : (attempt : ℕ) → Gateway S → Gateway S) (t : Trusted ext) where
  deleted_is_gone :
      (id : String) (w : Gateway S) → Dropped cfg ext pause id w → dispatch_map ext t w id ≡ none
  deleted_is_gone id w h =
      let deleted = dispatch_map-delete ext t id id h.before in
      rw h.last (deleted ∙ (rw (eq_refl id) refl))

  delivered_is_gone :
      (id : String) (d : Dispatch) (s : Option Session) (w v u : Gateway S)
      → cache_get (dispatches_of ext) id w ≡ (ok (some d), v)
      → session_for ext d.device_id v ≡ (ok s, u)
      → dispatch_map ext t (deliver cfg ext pause id w).1 id ≡ none
  delivered_is_gone id d s w v u found looked =
      let e = deliver-DeliverEnd cfg ext pause id d s w v u found looked in
      elim (Bool-cases (ltb d.delivery_attempts cfg.max_delivery_attempts)) [
        | inl less ↦
            let left = ltb→lt d.delivery_attempts cfg.max_delivery_attempts less in
            elim (Option-cases s) [
              | inl none_found ↦ deleted_is_gone id _ (e.missed_agent none_found left).dropped
              | inr (x, there) ↦ deleted_is_gone id _ (e.reached x there left).dropped
            ]
        | inr all_used ↦ deleted_is_gone id _ (e.used_up (ground (arith, all_used))).dropped
      ]

  acknowledged :
      (device_id id j : String) (socket : ℕ) (w : Gateway S)
      → truthy (some id) ≡ true
      → dispatch_map ext t (tunnel_message ext device_id socket (ack (some id)) w).1 j
        ≡ (if id == j then none else dispatch_map ext t w j)
  unfolding tunnel_message
  acknowledged device_id id j socket w h =
      let named : (id == "") ≡ false = ground (arith, h) in
      rw (h, named) (dispatch_map-delete ext t id j w)

  -- Where Redis is not used or answers every call, a delivery of a cached dispatch, whether it
  -- reaches the agent or fails, leaves no dispatch under the id. An acknowledgement removes the
  -- dispatch with the id that it names and no other, whichever agent sends it.
  pub settled_is_forgotten :
      ((id : String) (d : Dispatch) (s : Option Session) (w v u : Gateway S)
        → cache_get (dispatches_of ext) id w ≡ (ok (some d), v)
        → session_for ext d.device_id v ≡ (ok s, u)
        → dispatch_map ext t (deliver cfg ext pause id w).1 id ≡ none)
      × ((device_id id j : String) (socket : ℕ) (w : Gateway S)
          → truthy (some id) ≡ true
          → dispatch_map ext t (tunnel_message ext device_id socket (ack (some id)) w).1 j
            ≡ (if id == j then none else dispatch_map ext t w j))
  settled_is_forgotten = (delivered_is_gone, acknowledged)
