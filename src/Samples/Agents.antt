-- ===== src/Samples/Agents.antt =====
-- The theorem on registrations, applied.
use nexora_platform.Prelude.{true, none, some, [], ◌∷◌}
use nexora_platform.Samples.{unary}
use nexora_platform.Devices.{Device, DeviceWorld, DeviceOutside}
use nexora_platform.Devices.Agents.{AgentRegister}

abbrev broker : DeviceOutside
broker = record { uuid = unary; takes = λ e. true }

abbrev pub lamp : Device
lamp = record {
  id = "d";
  name = "lamp";
  device_type = "light";
  description = none;
  owner_id = some "ann";
  tenant_id = some "t1";
  privacy_level = 0;
  status = "offline";
  last_seen = none;
  capabilities = none;
  connection_protocol = "matter";
  protocol_meta = none;
  meta = none;
  tags = none;
  created_at = 1;
}

abbrev pub world : DeviceWorld
world = record { devices = lamp ∷ []; shadows = []; published = []; clock = 5; uuids_drawn = 1 }

abbrev again : AgentRegister
again = record {
  device_id = some "d";
  name = "lamp-2";
  device_type = "light";
  metadata = none;
  capabilities = none;
  connection_protocol = "nexora-agent";
  protocol_meta = none;
  owner_id = some "bob";
  tenant_id = some "t2";
}
