-- ===== src/Execution/Attempts.antt =====
-- An execution that is created and dispatched at once, with the errors of the handlers caught, as a
-- rollout and a runbook do it for each device and step (services/execution-service/main.py).
use nexora_platform.Prelude.{◌≡◌, refl, subst, String, none, some}
use nexora_platform.Prelude.Action.{Outcome, ok, raised, pure, lift, ◌>>=◌}
use nexora_platform.Execution.Model.{ExecutionView}
use nexora_platform.Execution.World.{
  Settings, Services, Request, World, Handler, Raised, HttpError, http, integrity_error, type_error,
  attribute_error,
}
use nexora_platform.Execution.Create.{CreatePayload, create_execution}
use nexora_platform.Execution.Dispatch.{dispatch_execution}
use nexora_platform.Execution.Functions.{caught, catch_http}

module _ (cfg : Settings) (ext : Services) (req : Request) where
  -- How an attempt from the state `w` ends: the execution is created and then dispatched, or one of
  -- the two is refused.
  pub data Attempt (p : CreatePayload) (w : World) : Outcome HttpError String → World → Type 0 where
    started :
        (created : ExecutionView) (u : World) (shown : ExecutionView) (t : World)
        → create_execution cfg ext req none p w ≡ (ok created, u)
        → dispatch_execution cfg ext created.id (some req) u ≡ (ok shown, t)
        → Attempt p w (ok created.id) t
    not_created :
        (e : HttpError) (t : World)
        → create_execution cfg ext req none p w ≡ (raised (http e), t)
        → Attempt p w (raised e) t
    not_dispatched :
        (created : ExecutionView) (u : World) (e : HttpError) (t : World)
        → create_execution cfg ext req none p w ≡ (ok created, u)
        → dispatch_execution cfg ext created.id (some req) u ≡ (raised (http e), t)
        → Attempt p w (raised e) t

  abbrev pub create_then_dispatch : CreatePayload → Handler String
  create_then_dispatch p = create_execution cfg ext req none p >>= λ created.
      dispatch_execution cfg ext created.id (some req) >>= λ _. pure created.id

  module _ (p : CreatePayload) (w : World) (r : Outcome HttpError String) (t : World) where
    abbrev Caught : Type 0
    Caught = Outcome Raised (Outcome HttpError String) × World

    ended :
        (q : Outcome HttpError String) (u : World)
        → Attempt p w q u
        → ◌≡◌ {A = Caught} (ok q, u) (ok r, t)
        → Attempt p w r t
    ended q u a e =
        let same : q ≡ r = cc in
        let state : u ≡ t = cc in
        subst (λ z. Attempt p w r z) state (subst (λ z. Attempt p w z u) same a)

    abbrev seen : Outcome Raised String × World → Caught
    seen x = (caught x.0, x.1)

    by_dispatch :
        (created : ExecutionView) (u : World)
        → create_execution cfg ext req none p w ≡ (ok created, u)
        → (x : Outcome Raised ExecutionView × World)
        → dispatch_execution cfg ext created.id (some req) u ≡ x
        → seen ((lift x.0 >>= λ _. pure created.id) x.1) ≡ (ok r, t)
        → Attempt p w r t
    unfolding ◌>>=◌
    by_dispatch created u c (ok shown, v) d e =
        ended (ok created.id) v (started created u shown v c d) e
    by_dispatch created u c (raised (http x), v) d e =
        ended (raised x) v (not_dispatched created u x v c d) e
    by_dispatch created u c (raised integrity_error, v) d e = absurd cc
    by_dispatch created u c (raised type_error, v) d e = absurd cc
    by_dispatch created u c (raised attribute_error, v) d e = absurd cc

    by_creation :
        (x : Outcome Raised ExecutionView × World)
        → create_execution cfg ext req none p w ≡ x
        → seen (
            (lift x.0 >>= λ created.
            dispatch_execution cfg ext created.id (some req) >>= λ _. pure created.id)
              x.1)
          ≡ (ok r, t)
        → Attempt p w r t
    unfolding ◌>>=◌
    by_creation (ok created, u) c e =
        by_dispatch created u c (dispatch_execution cfg ext created.id (some req) u) refl e
    by_creation (raised (http x), v) c e = ended (raised x) v (not_created x v c) e
    by_creation (raised integrity_error, v) c e = absurd cc
    by_creation (raised type_error, v) c e = absurd cc
    by_creation (raised attribute_error, v) c e = absurd cc

    pub caught-Attempt : catch_http (create_then_dispatch p) w ≡ (ok r, t) → Attempt p w r t
    unfolding catch_http ◌>>=◌
    caught-Attempt e = by_creation (create_execution cfg ext req none p w) refl e
