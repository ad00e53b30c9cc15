-- ===== src/Execution/Triggers/Consumer.antt =====
-- One message of the trigger consumer loop, whatever goes wrong while it starts executions.
use nexora_platform.Prelude.{
  String, Bool, not, ◌&&◌, Option, none, List, [], ◌∷◌, keep, ◌==◌, if◌then◌else◌,
}
use nexora_platform.Prelude.Text.{truthy}
use nexora_platform.Prelude.Action.{Outcome, ok, raised, is_raised}
use nexora_platform.Execution.Model.{FunctionTrigger}
use nexora_platform.Execution.World.{Settings, Services, World, Raised}
use nexora_platform.Execution.Triggers.{
  Message, not_json, passes_filter, target_device, wants_device, start_triggered,
}

-- the device that is found, if the lookup does not raise
abbrev pub found_device : Outcome Raised (Option String) → Option String
found_device (ok d) = d
found_device (raised e) = none

abbrev pub device_for : Message → FunctionTrigger → Option String
device_for m t = found_device (target_device t m)

-- a trigger that is not skipped for want of a device
abbrev pub can_start : Message → FunctionTrigger → Bool
can_start m t = not (not (truthy (device_for m t)) && wants_device t.target_type)

-- the triggers before the first one whose lookup raises
abbrev pub until_lost : Message → List FunctionTrigger → List FunctionTrigger
until_lost m [] = []
until_lost m (t ∷ ts) = if is_raised (target_device t m) then [] else t ∷ until_lost m ts

-- the triggers that a message starts
abbrev pub served : (event_type : String) → Message → World → List FunctionTrigger
served event_type not_json w = []
served event_type m w = keep (can_start m) (
    until_lost m (
      keep (λ t. passes_filter t.filter_expr m)
        (keep (λ t. t.event_type == event_type && t.is_active) w.triggers)))

module _ (cfg : Settings) (ext : Services) where
  -- each of the triggers is started, in order, in the state that the ones before it have left
  unfoldable pub start_each : Message → List FunctionTrigger → World → World
  start_each m [] w = w
  start_each m (t ∷ ts) w = start_each m ts (start_triggered cfg ext t (device_for m t) w).1

  abbrev after_loop : Message → List FunctionTrigger → World → World
  after_loop m ts w =
      start_each m
        (keep (can_start m) (until_lost m (keep (λ t. passes_filter t.filter_expr m) ts))) w
