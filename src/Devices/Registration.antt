-- ===== src/Devices/Registration.antt =====
-- What a registration of an agent leaves in the table of devices
-- (services/device-service/src/device_service/services/device_service.py).
use nexora_platform.Prelude.{ℕ, ◌≡◌, String, false, Option, none, some, ◌==◌}
use mathlib.Core.Option
use nexora_platform.Prelude.Action.{Outcome, ok}
use nexora_platform.Devices.{Device, DeviceError, DeviceWorld, DeviceOutside, get_device}
use nexora_platform.Devices.Agents.{
  AgentRegister, AgentStatus, agent_status, reregistered, new_agent,
}

-- the row that a registration under an id leaves
abbrev pub registered_row : AgentRegister → (id : String) → (now : ℕ) → Option Device → Device
registered_row r id now none = new_agent r id now
registered_row r id now (some d) = reregistered r now d

-- What a registration may not change in a device that is there.
pub record KeepsOwner (old new : Device) : Type 0 where
  pub owner : new.owner_id ≡ old.owner_id
  pub tenant : new.tenant_id ≡ old.tenant_id
  pub privacy : new.privacy_level ≡ old.privacy_level
  pub tags : new.tags ≡ old.tags

module _ (ext : DeviceOutside) (r : AgentRegister) (id : String) (w : DeviceWorld) where
  -- The end of a registration under an id that the agent gives.
  pub record Registered (x : Outcome DeviceError AgentStatus × DeviceWorld) : Type 0 where
    pub answer : x.0 ≡ ok (agent_status (registered_row r id w.clock (get_device id w)))
    pub stored : get_device id x.1 ≡ some (registered_row r id w.clock (get_device id w))
    pub others : (j : String) → (id == j) ≡ false → get_device j x.1 ≡ get_device j w
    pub online : (registered_row r id w.clock (get_device id w)).status ≡ "online"
    pub kept :
        (d : Device)
        → get_device id w ≡ some d
        → KeepsOwner d (registered_row r id w.clock (get_device id w))

  -- What the write has done, before the event is published.
  record Written (t : DeviceWorld) (d : Device) : Type 0 where
    row : d ≡ registered_row r id w.clock (get_device id w)
    stored : get_device id t ≡ some d
    others : (j : String) → (id == j) ≡ false → get_device j t ≡ get_device j w
