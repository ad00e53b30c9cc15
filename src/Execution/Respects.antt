-- ===== src/Execution/Respects.antt =====
-- What a relation between two states of the service must allow, so that every handler goes along
-- it: the few ways in which the handlers write. A property of all handlers is proved by proving
-- these for its relation.
pub mod Handlers
pub mod Creation
pub mod Fleets
pub mod Calls
use nexora_platform.Prelude.{
  ℕ, ◌≤◌, ◌<◌, ◌≡◌, String, Bool, true, false, ◌||◌, Option, none, some, List, [], ◌∷◌, ◌++◌, any,
  map, is_some, ◌==◌,
}
use nexora_platform.Prelude.Action.Along.{Preorder}
use nexora_platform.Prelude.Table.{find, update, remove}
use nexora_platform.Execution.Status.{Status, queued, running, transition_allowed}
use nexora_platform.Execution.Model.{Execution}
use nexora_platform.Execution.World.{Settings, Services, World}
use nexora_platform.Execution.Create.{has_key, over_limit}
use nexora_platform.Execution.Dispatch.{key_of}
use nexora_platform.Execution.Timeouts.{timeout_round}

abbrev pub row_of : String → World → Option Execution
row_of id w = find key_of id w.executions

-- A row before and after a handler's write.
pub record IsMove (e e' : Execution) : Type 0 where
  pub allowed : transition_allowed e.status e'.status ≡ true
  pub device : e'.device_id ≡ e.device_id
  pub key : e'.idempotency_key ≡ e.idempotency_key
  pub owner : e'.owner_id ≡ e.owner_id
  pub tenant : e'.tenant_id ≡ e.tenant_id
  pub stamped : e'.status ≡ running → is_some e'.running_at ≡ true

-- A row appended to the table of `t`, which holds what the table of `w` held: its id was drawn in
-- between, and neither its id nor its idempotency key is taken.
pub record IsNew (ext : Services) (w t : World) (row : Execution) : Type 0 where
  pub same : t.executions ≡ w.executions
  pub serial : ℕ
  pub from : w.uuids_drawn ≤ serial
  pub before : serial < t.uuids_drawn
  pub drawn : row.id ≡ ext.uuid serial
  pub starts : row.status ≡ queued
  pub free : any (λ e. e.id == row.id || has_key row.idempotency_key e) w.executions ≡ false

abbrev pub with_executions : World → List Execution → World
with_executions w t = record w { executions = t }

pub record Respects (cfg : Settings) (ext : Services) (R : World → World → Type 0) : Type 0 where
  pub order : Preorder R
  pub quiet : (s t : World) → t.executions ≡ s.executions → s.uuids_drawn ≤ t.uuids_drawn → R s t
  pub moved :
      (w : World) (id : String) (f : Execution → Execution) (e : Execution)
      → ((x : Execution) → key_of (f x) ≡ key_of x)
      → row_of id w ≡ some e
      → IsMove e (f e)
      → R w (with_executions w (update key_of id f w.executions))
  pub removed : (w : World) (id : String) → R w (with_executions w (remove key_of id w.executions))
  pub added :
      (w t : World) (row : Execution)
      → IsNew ext w t row
      → over_limit cfg row.device_id w.executions ≡ none
      → R w (with_executions t (t.executions ++ row ∷ []))
  pub expired : (w : World) → R w (timeout_round cfg w)

-- A row may be added without regard to the limit, as triggers do.
abbrev pub AddsFreely : Services → (World → World → Type 0) → Type 0
AddsFreely ext R =
    (w t : World) (row : Execution)
    → IsNew ext w t row
    → R w (with_executions t (t.executions ++ row ∷ []))
