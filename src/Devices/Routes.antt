-- ===== src/Devices/Routes.antt =====
-- services/device-service/src/device_service/api/devices.py: the endpoints for devices and agents.
use nexora_platform.Prelude.{
  ℕ, String, Bool, not, ◌&&◌, Option, none, some, List, [], ◌∷◌, ◌++◌, map, keep, ◌==◌,
  if◌then◌else◌,
}
use nexora_platform.Prelude.Int.{ℤ}
use nexora_platform.Prelude.Text.{truthy, opt_eq, member, strip, split}
use nexora_platform.Prelude.Dict.{Dict, lookup, assign}
use nexora_platform.Prelude.Action.{
  Outcome, ok, raised, Action, pure, gets, or_raise, raise_if, raise_found, ◌>>=◌, ◌>>◌,
}
use nexora_platform.Devices.{
  Device, DeviceCreate, DeviceUpdate, DeviceFilter, DeviceError, DeviceWorld, DeviceOutside,
  DeviceHandler, list_devices, get_device, create_device, update_device, delete_device,
}
use nexora_platform.Devices.Agents.{
  AgentRegister, AgentStatus, AgentHeartbeat, register_agent, heartbeat_agent,
}
use nexora_platform.Devices.Caller.{DeviceCaller}

pub data RouteError : Type 0 where
  device_not_found foreign_tenant : RouteError
  token_malformed token_revoked token_unknown token_invalid token_expired : RouteError
  no_method_has_role : RouteError
  service_raised : DeviceError → RouteError

-- an exception that no handler catches is answered with 500
abbrev pub route_code : RouteError → ℕ
route_code device_not_found = 404
route_code foreign_tenant = 403
route_code token_malformed = 401
route_code token_revoked = 401
route_code token_unknown = 401
route_code token_invalid = 401
route_code token_expired = 401
route_code no_method_has_role = 500
route_code (service_raised e) = 500

pub record DeviceAudit : Type 0 where
  pub action : String
  pub resource_id : String
  pub tenant_id : Option String
  pub actor_user_id : String
  pub actor_tenant_id : Option String
  pub actor_roles : List String
  pub correlation_id : Option String

pub record RouteWorld : Type 0 where
  pub rows : DeviceWorld
  pub audits : List DeviceAudit

abbrev pub RouteHandler : Type 0 → Type 0
RouteHandler A = Action RouteError RouteWorld A

abbrev of_service : {A : Type 0} → Outcome DeviceError A → Outcome RouteError A
of_service (ok a) = ok a
of_service (raised e) = raised (service_raised e)

-- a call of the service in its state
unfoldable pub call_service : {A : Type 0} → DeviceHandler A → RouteHandler A
call_service m w = let (r, t) = m w.rows in (of_service r, record w { rows = t })

unfoldable pub audit_device :
    (action resource_id : String)
    → (tenant_id : Option String) → DeviceCaller
    → RouteHandler (Unit {0})
audit_device action resource_id tenant_id user w = (
  ok tt,
  record w {
    audits =
        w.audits
        ++ record {
          action = action;
          resource_id = resource_id;
          tenant_id = tenant_id;
          actor_user_id = user.user_id;
          actor_tenant_id = some user.tenant_id;
          actor_roles = user.roles;
          correlation_id = none;
        }
          ∷ [];
  },
)

-- The settings of the bootstrap tokens; `int` converts a text, none where it raises; `later_than`
-- asks whether the clock is past an expiry.
pub record TokenSettings : Type 0 where
  pub bootstrap_tokens : String
  pub revoked_token_ids : String
  pub int : String → Option ℤ
  pub later_than : ℤ → Bool

abbrev with_token : (int : String → Option ℤ) → List String → Dict (String × ℤ) → Dict (String × ℤ)
with_token int (token_id ∷ secret ∷ expiry ∷ []) tokens = elim (int expiry) [
  | none ↦ tokens
  | some t ↦ assign token_id (secret, t) tokens
]
with_token int _ tokens = tokens

-- the loop over the entries, with the tokens so far
unfoldable pub tokens_from :
    (int : String → Option ℤ) → List String → Dict (String × ℤ) → Dict (String × ℤ)
unfolding assign
tokens_from int [] tokens = tokens
tokens_from int (entry ∷ entries) tokens =
    let text = strip entry in
    tokens_from int entries (if text == "" then tokens else with_token int (split b':' text) tokens)

unfoldable pub parse_bootstrap_tokens :
    (int : String → Option ℤ) → (raw : String) → Dict (String × ℤ)
unfolding tokens_from
parse_bootstrap_tokens int raw = tokens_from int (split b',' raw) []

unfoldable pub get_revoked_token_ids : TokenSettings → List String
get_revoked_token_ids cfg = keep (λ t. not (t == "")) (map strip (split b',' cfg.revoked_token_ids))

abbrev entry_refusal : TokenSettings → (secret : String) → Option (String × ℤ) → Option RouteError
entry_refusal cfg secret none = some token_unknown
entry_refusal cfg secret (some (expected, expiry)) =
    if not (secret == expected)
    then some token_invalid
    else if cfg.later_than expiry
    then some token_expired
    else none

abbrev parts_refusal : TokenSettings → List String → Option RouteError
parts_refusal cfg (token_id ∷ secret ∷ []) =
    if member token_id (get_revoked_token_ids cfg)
    then some token_revoked
    else entry_refusal cfg secret
        (lookup token_id (parse_bootstrap_tokens cfg.int cfg.bootstrap_tokens))
parts_refusal cfg _ = some token_malformed

-- why a token is refused, if it is
unfoldable pub validate_bootstrap_token :
    TokenSettings → (header_value : String) → Option RouteError
unfolding get_revoked_token_ids parse_bootstrap_tokens lookup
validate_bootstrap_token cfg header_value = parts_refusal cfg (split b':' header_value)

-- `owner_id or None`
abbrev owner_or_none : Option String → Option String
owner_or_none o = if truthy o then o else none

abbrev pub is_foreign_filter : DeviceCaller → DeviceFilter → Bool
is_foreign_filter user f =
    not user.is_operator && (truthy f.tenant_id && not (opt_eq f.tenant_id (some user.tenant_id)))

abbrev pub own_filter : DeviceCaller → DeviceFilter → DeviceFilter
own_filter user f =
    if user.is_operator
    then f
    else record f { tenant_id = some user.tenant_id; owner_id = owner_or_none f.owner_id }

unfoldable pub list_devices_route :
    (page page_size : ℕ) → DeviceFilter → DeviceCaller → RouteHandler (List Device × ℕ)
unfolding list_devices
list_devices_route page page_size f user = do
  raise_if (is_foreign_filter user f) foreign_tenant
  gets (λ w. list_devices page page_size (own_filter user f) w.rows)

unfoldable pub get_device_route : (device_id : String) → RouteHandler Device
unfolding get_device
get_device_route device_id = do
  found ← gets (λ w. get_device device_id w.rows)
  or_raise found device_not_found

unfoldable pub create_device_route :
    DeviceOutside → DeviceCreate → DeviceCaller → RouteHandler Device
unfolding call_service create_device audit_device
create_device_route ext body user = do
  created ← call_service (create_device ext body (some user.user_id) (some user.tenant_id))
  audit_device "device.created" created.id created.tenant_id user
  pure created

-- whether the device has an owner who is not the caller
abbrev pub has_other_owner : DeviceCaller → Device → Bool
has_other_owner user d = truthy d.owner_id && not (opt_eq d.owner_id (some user.user_id))

-- The check before a change: for another owner's device it calls `has_role`, which this service's
-- CurrentUser does not have, and the AttributeError escapes.
unfoldable pub device_to_change : (device_id : String) → DeviceCaller → RouteHandler Device
unfolding get_device
device_to_change device_id user = do
  found ← gets (λ w. get_device device_id w.rows)
  d ← or_raise found device_not_found
  raise_if (has_other_owner user d) no_method_has_role
  pure d

unfoldable pub update_device_route :
    DeviceOutside → (device_id : String) → DeviceUpdate → DeviceCaller → RouteHandler Device
unfolding device_to_change call_service update_device audit_device
update_device_route ext device_id u user = do
  device_to_change device_id user
  found ← call_service (update_device ext device_id u)
  updated ← or_raise found device_not_found
  audit_device "device.updated" device_id updated.tenant_id user
  pure updated

unfoldable pub delete_device_route :
    DeviceOutside → (device_id : String) → DeviceCaller → RouteHandler (Unit {0})
unfolding device_to_change call_service delete_device audit_device
delete_device_route ext device_id user = do
  d ← device_to_change device_id user
  success ← call_service (delete_device ext device_id)
  raise_if (not success) device_not_found
  audit_device "device.deleted" device_id d.tenant_id user

-- the event of a registration; the answer has no tenant
unfoldable pub audit_registration :
    (device_id : String) → (correlation_id : Option String) → RouteHandler (Unit {0})
audit_registration device_id correlation_id w = (
  ok tt,
  record w {
    audits =
        w.audits
        ++ record {
          action = "agent.registered";
          resource_id = device_id;
          tenant_id = none;
          actor_user_id = "agent-bootstrap";
          actor_tenant_id = none;
          actor_roles = "agent" ∷ [];
          correlation_id = correlation_id;
        }
          ∷ [];
  },
)

unfoldable pub agent_register :
    TokenSettings
    → DeviceOutside
    → AgentRegister
    → (x_bootstrap_token : String) → (correlation_id : Option String) → RouteHandler AgentStatus
unfolding validate_bootstrap_token call_service register_agent audit_registration
agent_register cfg ext body x_bootstrap_token correlation_id = do
  raise_found (validate_bootstrap_token cfg x_bootstrap_token)
  result ← call_service (register_agent ext body)
  audit_registration result.device_id correlation_id
  pure result

unfoldable pub agent_heartbeat :
    DeviceOutside → (device_id : String) → AgentHeartbeat → RouteHandler AgentStatus
unfolding call_service heartbeat_agent
agent_heartbeat ext device_id body = do
  found ← call_service (heartbeat_agent ext device_id body)
  or_raise found device_not_found
