-- ===== src/Devices/Agents.antt =====
-- The registrations and heartbeats of agents
-- (services/device-service/src/device_service/services/device_service.py).
use nexora_platform.Prelude.{
  ℕ, suc, String, Option, none, some, List, [], ◌∷◌, ◌++◌, ◌==◌, if◌then◌else◌,
}
use nexora_platform.Prelude.Text.{Json, text_or}
use nexora_platform.Prelude.Action.{pure, gets, modify, ◌>>=◌, ◌>>◌}
use nexora_platform.Prelude.Table.{find, update}
use nexora_platform.Shadow.{
  Doc, DeviceShadow, overwrite, compute_delta, key_of, doc_or_empty, fresh,
}
use nexora_platform.Devices.{
  Device, device_key, agent_registered, shadow_delta, DeviceWorld, DeviceOutside, DeviceHandler,
  publish_device_event, draw_device_id, insert_device,
}

pub record AgentRegister : Type 0 where
  pub device_id : Option String
  pub name : String
  pub device_type : String
  pub metadata : Option Json
  pub capabilities : Option Json
  pub connection_protocol : String
  pub protocol_meta : Option Json
  pub owner_id : Option String
  pub tenant_id : Option String

pub record AgentStatus : Type 0 where
  pub device_id : String
  pub status : String
  pub last_seen : Option ℕ

-- `dumps(data.capabilities) if data.capabilities else None`
abbrev capabilities_json : Option Json → Option Json
capabilities_json none = none
capabilities_json (some j) = if j.text == "{}" then none else some j

-- `if x is not None: column = x`
abbrev pub or_kept : {A : Type 0} → Option A → Option A → Option A
or_kept none old = old
or_kept (some a) old = some a

abbrev kept_capabilities : Option Json → Option Json → Option Json
kept_capabilities none old = old
kept_capabilities (some j) old = capabilities_json (some j)

-- the assignments to a device that registers again
unfoldable pub reregistered : AgentRegister → (now : ℕ) → Device → Device
reregistered r now d = record d {
  name = r.name;
  device_type = r.device_type;
  meta = or_kept r.metadata d.meta;
  capabilities = kept_capabilities r.capabilities d.capabilities;
  connection_protocol =
      if r.connection_protocol == "" then d.connection_protocol else r.connection_protocol;
  protocol_meta = or_kept r.protocol_meta d.protocol_meta;
  status = "online";
  last_seen = some now;
}

-- the row of a device that registers for the first time
unfoldable pub new_agent : AgentRegister → (id : String) → (now : ℕ) → Device
new_agent r id now = record {
  id = id;
  name = r.name;
  device_type = r.device_type;
  description = none;
  owner_id = r.owner_id;
  tenant_id = r.tenant_id;
  privacy_level = 0;
  status = "online";
  last_seen = some now;
  capabilities = capabilities_json r.capabilities;
  connection_protocol = r.connection_protocol;
  protocol_meta = r.protocol_meta;
  meta = r.metadata;
  tags = none;
  created_at = now;
}

abbrev pub agent_status : Device → AgentStatus
agent_status d = record { device_id = d.id; status = d.status; last_seen = d.last_seen }

-- `if data.device_id: ...`: the row with the id that the agent gives
abbrev pub known_device : Option String → DeviceWorld → Option Device
known_device none w = none
known_device (some id) w = find device_key id w.devices

-- `str(data.device_id) if data.device_id else str(uuid4())`
abbrev pub id_or_new : DeviceOutside → Option String → DeviceHandler String
id_or_new ext none = draw_device_id ext
id_or_new ext (some id) = pure id

-- the write of a registration, for the row that is there or for a new one
abbrev pub write_registration :
    DeviceOutside → AgentRegister → (now : ℕ) → Option Device → DeviceHandler Device
write_registration ext r now (some d) = do
  modify (λ w. record w { devices = update device_key d.id (reregistered r now) w.devices })
  pure (reregistered r now d)
write_registration ext r now none = do
  id ← id_or_new ext r.device_id
  insert_device (new_agent r id now)
  pure (new_agent r id now)

unfoldable pub register_agent : DeviceOutside → AgentRegister → DeviceHandler AgentStatus
unfolding find update reregistered new_agent draw_device_id insert_device publish_device_event
register_agent ext r = do
  now ← gets (λ w. w.clock)
  found ← gets (known_device r.device_id)
  d ← write_registration ext r now found
  publish_device_event ext (agent_registered d.id d.name)
  pure (agent_status d)

pub record AgentHeartbeat : Type 0 where
  pub status : Option String
  pub telemetry : Option Doc
  pub capabilities : Option Json

unfoldable pub beaten : AgentHeartbeat → (now : ℕ) → Device → Device
beaten b now d = record d {
  last_seen = some now;
  status = text_or b.status "online";
  capabilities = or_kept b.capabilities d.capabilities;
}

-- the assignments of `_update_shadow_reported`: nulls are merged like any other value
unfoldable pub report_telemetry : Doc → (now : ℕ) → DeviceShadow → DeviceShadow
unfolding overwrite compute_delta
report_telemetry telemetry now s =
    let merged = overwrite (doc_or_empty s.reported) telemetry in
    record s {
      reported = some merged;
      delta = some (compute_delta (doc_or_empty s.desired) merged);
      version = suc s.version;
      reported_at = some now;
      updated_at = now;
    }

abbrev shadow_or_new : (device_id : String) → (now : ℕ) → Option DeviceShadow → DeviceShadow
shadow_or_new device_id now none = fresh device_id now
shadow_or_new device_id now (some s) = s

-- the row of the shadow is there before it is changed
abbrev with_shadow : (device_id : String) → (now : ℕ) → List DeviceShadow → List DeviceShadow
with_shadow device_id now t = elim (find key_of device_id t) [
  | none ↦ t ++ fresh device_id now ∷ []
  | some s ↦ t
]

abbrev delta_events :
    DeviceOutside → (device_id : String) → (version : ℕ) → Doc → DeviceHandler (Unit {0})
delta_events ext device_id version [] = pure tt
delta_events ext device_id version (x ∷ l) =
    publish_device_event ext (shadow_delta device_id version (x ∷ l))

unfoldable pub update_shadow_reported :
    DeviceOutside → (device_id : String) → Doc → (now : ℕ) → DeviceHandler (Unit {0})
unfolding find update report_telemetry publish_device_event
update_shadow_reported ext device_id telemetry now = do
  s ← gets (λ w.
      report_telemetry telemetry now
        (shadow_or_new device_id now (find key_of device_id w.shadows)))
  modify (λ w. record w {
    shadows =
        update key_of device_id (report_telemetry telemetry now)
          (with_shadow device_id now w.shadows);
  })
  delta_events ext device_id s.version (doc_or_empty s.delta)

-- `if data.telemetry`
abbrev report_if_any :
    DeviceOutside → (device_id : String) → Option Doc → (now : ℕ) → DeviceHandler (Unit {0})
report_if_any ext device_id none now = pure tt
report_if_any ext device_id (some []) now = pure tt
report_if_any ext device_id (some (x ∷ l)) now = update_shadow_reported ext device_id (x ∷ l) now

abbrev beat_row :
    DeviceOutside → AgentHeartbeat → Option Device → DeviceHandler (Option AgentStatus)
beat_row ext b none = pure none
beat_row ext b (some d) = do
  now ← gets (λ w. w.clock)
  modify (λ w. record w { devices = update device_key d.id (beaten b now) w.devices })
  report_if_any ext d.id b.telemetry now
  pure (some (agent_status (beaten b now d)))

unfoldable pub heartbeat_agent :
    DeviceOutside → (device_id : String) → AgentHeartbeat → DeviceHandler (Option AgentStatus)
unfolding find update beaten update_shadow_reported
heartbeat_agent ext device_id b = do
  found ← gets (λ w. find device_key device_id w.devices)
  beat_row ext b found
