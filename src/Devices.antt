-- ===== src/Devices.antt =====
-- services/device-service/src/device_service/services/device_service.py: the devices, their agents'
-- registrations and heartbeats. Their events are published by core/events.py.
pub mod Agents
pub mod Caller
pub mod Privacy
pub mod Routes
pub mod Ownership
pub mod Listings
pub mod Consents
pub mod Grants
pub mod Sharing
pub mod Revoked
pub mod Registration
use nexora_platform.Prelude.{
  ℕ, suc, ◌-◌, ◌*◌, String, Bool, true, false, not, ◌&&◌, Option, none, some, List, [], ◌∷◌, ◌++◌,
  map, keep, take, drop, any, length, sort_desc, ◌==◌, if◌then◌else◌,
}
use nexora_platform.Prelude.Text.{
  Json, Field, missing, null, given, given_or, is_null, set_nullable, truthy, text_or, opt_eq,
}
use nexora_platform.Prelude.Action.{
  Outcome, ok, raised, Action, pure, gets, modify, or_raise, raise_if, ◌>>=◌, ◌>>◌,
}
use nexora_platform.Prelude.Table.{find, update, remove}
use nexora_platform.Shadow.{
  Doc, DeviceShadow, overwrite, compute_delta, key_of, doc_or_empty, fresh,
}

pub record Device : Type 0 where
  pub id : String
  pub name : String
  pub device_type : String
  pub description : Option String
  pub owner_id : Option String
  pub tenant_id : Option String
  pub privacy_level : ℕ
  pub status : String
  pub last_seen : Option ℕ
  pub capabilities : Option Json
  pub connection_protocol : String
  pub protocol_meta : Option Json
  pub meta : Option Json
  pub tags : Option Json
  pub created_at : ℕ

abbrev pub device_key : Device → String
device_key d = d.id

pub record DeviceUpdate : Type 0 where
  pub name : Field String
  pub device_type : Field String
  pub description : Field String
  pub metadata : Field Json
  pub tags : Field Json
  pub connection_protocol : Field String
  pub protocol_meta : Field Json

pub data DeviceEvent : Type 0 where
  device_created : (device_id name device_type : String) → DeviceEvent
  device_updated : (device_id : String) → DeviceUpdate → DeviceEvent
  device_deleted : (device_id : String) → DeviceEvent
  agent_registered : (device_id name : String) → DeviceEvent
  shadow_delta : (device_id : String) → (version : ℕ) → Doc → DeviceEvent

pub data DeviceError : Type 0 where
  duplicate_id null_in_device : DeviceError

pub record DeviceWorld : Type 0 where
  pub devices : List Device
  pub shadows : List DeviceShadow
  pub published : List DeviceEvent
  pub clock : ℕ
  pub uuids_drawn : ℕ

-- `uuid4`, and whether the broker is there and takes an event
pub record DeviceOutside : Type 0 where
  pub uuid : ℕ → String
  pub takes : DeviceEvent → Bool

abbrev pub DeviceHandler : Type 0 → Type 0
DeviceHandler A = Action DeviceError DeviceWorld A

-- `event_bus.publish`, which passes over its failures
unfoldable pub publish_device_event : DeviceOutside → DeviceEvent → DeviceHandler (Unit {0})
publish_device_event ext e w =
    (ok tt, if ext.takes e then record w { published = w.published ++ e ∷ [] } else w)

pub record DeviceFilter : Type 0 where
  pub status : Option String
  pub device_type : Option String
  pub tenant_id : Option String
  pub owner_id : Option String
  pub connection_protocol : Option String

-- `if x: conditions.append(column == x)`
abbrev matches : Option String → Option String → Bool
matches asked column = if truthy asked then opt_eq column asked else true

unfoldable pub selects_device : DeviceFilter → Device → Bool
selects_device f d =
    matches f.status (some d.status)
    && (matches f.device_type (some d.device_type)
        && (matches f.tenant_id d.tenant_id
            && (matches f.owner_id d.owner_id
                && matches f.connection_protocol (some d.connection_protocol))))

-- a page of the devices, newest first, and the number of all that are selected
unfoldable pub list_devices : (page page_size : ℕ) → DeviceFilter → DeviceWorld → List Device × ℕ
unfolding selects_device
list_devices page page_size f w =
    let selected = keep (selects_device f) w.devices in
    (
      take page_size (drop ((page - 1) * page_size) (sort_desc (λ d. d.created_at) selected)),
      length selected,
    )

unfoldable pub get_device : (device_id : String) → DeviceWorld → Option Device
unfolding find
get_device device_id w = find device_key device_id w.devices

-- `str(uuid4())`
unfoldable pub draw_device_id : DeviceOutside → DeviceHandler String
draw_device_id ext w = (ok (ext.uuid w.uuids_drawn), record w { uuids_drawn = suc w.uuids_drawn })

-- `self.db.add(device)` and the commit, under the primary key
unfoldable pub insert_device : Device → DeviceHandler (Unit {0})
insert_device d w =
    if any (λ x. x.id == d.id) w.devices
    then (raised duplicate_id, w)
    else (ok tt, record w { devices = w.devices ++ d ∷ [] })

pub record DeviceCreate : Type 0 where
  pub name : String
  pub device_type : String
  pub description : Option String
  pub metadata : Option Json
  pub tags : Option Json
  pub connection_protocol : String

unfoldable pub created_device :
    (id : String) → (owner_id tenant_id : Option String) → (now : ℕ) → DeviceCreate → Device
created_device id owner_id tenant_id now body = record {
  id = id;
  name = body.name;
  device_type = body.device_type;
  description = body.description;
  owner_id = owner_id;
  tenant_id = tenant_id;
  privacy_level = 0;
  status = "offline";
  last_seen = none;
  capabilities = none;
  connection_protocol = body.connection_protocol;
  protocol_meta = none;
  meta = body.metadata;
  tags = body.tags;
  created_at = now;
}

unfoldable pub create_device :
    DeviceOutside → DeviceCreate → (owner_id tenant_id : Option String) → DeviceHandler Device
unfolding draw_device_id insert_device publish_device_event created_device
create_device ext body owner_id tenant_id = do
  now ← gets (λ w. w.clock)
  id ← draw_device_id ext
  let d = created_device id owner_id tenant_id now body
  insert_device d
  publish_device_event ext (device_created id body.name body.device_type)
  pure d

unfoldable pub set_device : DeviceUpdate → Device → Device
set_device u d = record d {
  name = given_or u.name d.name;
  device_type = given_or u.device_type d.device_type;
  description = set_nullable u.description d.description;
  meta = set_nullable u.metadata d.meta;
  tags = set_nullable u.tags d.tags;
  connection_protocol = given_or u.connection_protocol d.connection_protocol;
  protocol_meta = set_nullable u.protocol_meta d.protocol_meta;
}

-- the part after the lookup; the commit fails on a null in a column that may not be NULL
abbrev updated_row : DeviceOutside → DeviceUpdate → Option Device → DeviceHandler (Option Device)
updated_row ext u none = pure none
updated_row ext u (some d) = do
  raise_if (is_null u.name) null_in_device
  raise_if (is_null u.device_type) null_in_device
  raise_if (is_null u.connection_protocol) null_in_device
  modify (λ w. record w { devices = update device_key d.id (set_device u) w.devices })
  publish_device_event ext (device_updated d.id u)
  pure (some (set_device u d))

unfoldable pub update_device :
    DeviceOutside → (device_id : String) → DeviceUpdate → DeviceHandler (Option Device)
unfolding find update set_device publish_device_event
update_device ext device_id u = do
  found ← gets (λ w. find device_key device_id w.devices)
  updated_row ext u found

abbrev deleted_row : DeviceOutside → Option Device → DeviceHandler Bool
deleted_row ext none = pure false
deleted_row ext (some d) = do
  modify (λ w. record w { devices = remove device_key d.id w.devices })
  publish_device_event ext (device_deleted d.id)
  pure true

unfoldable pub delete_device : DeviceOutside → (device_id : String) → DeviceHandler Bool
unfolding find remove publish_device_event
delete_device ext device_id = do
  found ← gets (λ w. find device_key device_id w.devices)
  deleted_row ext found
