-- ===== src/Devices/Privacy.antt =====
-- services/device-service/src/device_service/api/privacy.py: the consents to share a device's data,
-- and the events that record them.
use nexora_platform.Prelude.{
  ℕ, zero, suc, String, Bool, true, false, not, ◌&&◌, ◌||◌, Option, none, some, List, [], ◌∷◌, ◌++◌,
  map, keep, any, sort_desc, leb, nat_eq, is_some, ◌==◌, if◌then◌else◌,
}
use nexora_platform.Prelude.Text.{opt_eq}
use nexora_platform.Prelude.Action.{
  ok, raised, Action, pure, gets, or_raise, raise_if, lift, Outcome, ◌>>=◌, ◌>>◌,
}
use nexora_platform.Prelude.Table.{find, update}
use nexora_platform.Devices.{Device, device_key}
use nexora_platform.Devices.Caller.{DeviceCaller}

pub record DeviceConsent : Type 0 where
  pub id : String
  pub device_id : String
  pub granted_by : String
  pub granted_to : String
  pub granted_to_type : String
  pub level : ℕ
  pub granted_at : ℕ
  pub revoked_at : Option ℕ
  pub is_active : Bool

abbrev pub consent_key : DeviceConsent → String
consent_key c = c.id

pub data EventDetails : Type 0 where
  consent_granted : (granted_to granted_to_type : String) → (level : ℕ) → EventDetails
  consent_revoked : (consent_id : String) → (level : ℕ) → (granted_to : String) → EventDetails

pub record OwnershipEvent : Type 0 where
  pub id : String
  pub device_id : String
  pub actor_id : String
  pub details : EventDetails
  pub created_at : ℕ

abbrev action_text : EventDetails → String
action_text (consent_granted granted_to granted_to_type level) = "consent_granted"
action_text (consent_revoked consent_id level granted_to) = "consent_revoked"

pub data PrivacyError : Type 0 where
  device_not_found only_the_owner level_not_delegable consent_exists : PrivacyError
  consent_not_found already_revoked : PrivacyError
  several_rows key_taken : PrivacyError

-- an exception of the database is answered with 500
abbrev pub privacy_code : PrivacyError → ℕ
privacy_code device_not_found = 404
privacy_code only_the_owner = 403
privacy_code level_not_delegable = 400
privacy_code consent_exists = 409
privacy_code consent_not_found = 404
privacy_code already_revoked = 409
privacy_code several_rows = 500
privacy_code key_taken = 500

pub record PrivacyWorld : Type 0 where
  pub devices : List Device
  pub consents : List DeviceConsent
  pub events : List OwnershipEvent
  pub clock : ℕ
  pub uuids_drawn : ℕ

abbrev pub PrivacyHandler : Type 0 → Type 0
PrivacyHandler A = Action PrivacyError PrivacyWorld A

pub record ConsentGrantRequest : Type 0 where
  pub granted_to : String
  pub granted_to_type : String
  pub level : ℕ

abbrev level_description : ℕ → String
level_description zero = "Operational (always active — device online/offline, last heartbeat)"
level_description (suc zero) = "Fleet visibility (name, type, zone, aggregate status)"
level_description (suc (suc zero)) =
    "Health metrics (uptime, command success rate, delivery failures)"
level_description (suc (suc (suc zero))) =
    "Command history (action, status, timestamp — no payload)"
level_description (suc (suc (suc (suc zero)))) =
    "Full payload (command content and responses — owner only, not delegatable)"
level_description _ = ""

pub record ConsentResponse : Type 0 where
  pub consent_id : String
  pub device_id : String
  pub granted_to : String
  pub granted_to_type : String
  pub level : ℕ
  pub level_description : String
  pub granted_at : ℕ
  pub is_active : Bool

abbrev pub consent_response : (device_id : String) → DeviceConsent → ConsentResponse
consent_response device_id c = record {
  consent_id = c.id;
  device_id = device_id;
  granted_to = c.granted_to;
  granted_to_type = c.granted_to_type;
  level = c.level;
  level_description = level_description c.level;
  granted_at = c.granted_at;
  is_active = c.is_active;
}

pub record PrivacySummary : Type 0 where
  pub device_id : String
  pub owner_id : Option String
  pub privacy_level : ℕ
  pub active_consents : List ConsentResponse

abbrev pub summary_of : (device_id : String) → Device → List DeviceConsent → PrivacySummary
summary_of device_id d consents = record {
  device_id = device_id;
  owner_id = d.owner_id;
  privacy_level = d.privacy_level;
  active_consents = map (consent_response device_id) consents;
}

abbrev pub is_other : DeviceCaller → Device → Bool
is_other user d = not user.is_operator && not (opt_eq d.owner_id (some user.user_id))

unfoldable pub require_owner : (device_id : String) → DeviceCaller → PrivacyHandler Device
unfolding find
require_owner device_id user = do
  found ← gets (λ w. find device_key device_id w.devices)
  d ← or_raise found device_not_found
  raise_if (is_other user d) only_the_owner
  pure d

abbrev pub is_shared : (device_id : String) → DeviceConsent → Bool
is_shared device_id c = c.device_id == device_id && c.is_active

unfoldable pub get_privacy : (device_id : String) → DeviceCaller → PrivacyHandler PrivacySummary
unfolding require_owner
get_privacy device_id user = do
  d ← require_owner device_id user
  consents ← gets (λ w. keep (is_shared device_id) w.consents)
  pure (summary_of device_id d consents)

-- the rows that `dup_q` selects
unfoldable pub is_same_grant :
    (device_id granted_to granted_to_type : String) → (level : ℕ) → DeviceConsent → Bool
is_same_grant device_id granted_to granted_to_type level c =
    c.device_id == device_id
    && (c.granted_to == granted_to
        && (c.granted_to_type == granted_to_type && (nat_eq c.level level && c.is_active)))

-- `scalar_one_or_none()`, which raises where there is more than one row
abbrev pub scalar_one_or_none : {A : Type 0} → List A → Outcome PrivacyError (Option A)
scalar_one_or_none [] = ok none
scalar_one_or_none (a ∷ []) = ok (some a)
scalar_one_or_none (a ∷ b ∷ l) = raised several_rows

-- `body.level in DELEGATABLE_LEVELS`
abbrev pub is_delegable : ℕ → Bool
is_delegable level = leb 1 level && leb level 3

-- `str(uuid4())`
unfoldable pub draw_row_id : (uuid : ℕ → String) → PrivacyHandler String
draw_row_id uuid w = (ok (uuid w.uuids_drawn), record w { uuids_drawn = suc w.uuids_drawn })

abbrev event_there : String → PrivacyWorld → Bool
event_there id w = any (λ e. e.id == id) w.events

-- `db.add(consent)`, `db.add(event)` and the commit of both, under the two primary keys
unfoldable pub insert_consent : DeviceConsent → OwnershipEvent → PrivacyHandler (Unit {0})
insert_consent c e w =
    if any (λ x. x.id == c.id) w.consents || event_there e.id w
    then (raised key_taken, w)
    else (ok tt, record w { consents = w.consents ++ c ∷ []; events = w.events ++ e ∷ [] })

unfoldable pub new_consent :
    (id device_id : String) → DeviceCaller → (now : ℕ) → ConsentGrantRequest → DeviceConsent
new_consent id device_id user now body = record {
  id = id;
  device_id = device_id;
  granted_by = user.user_id;
  granted_to = body.granted_to;
  granted_to_type = body.granted_to_type;
  level = body.level;
  granted_at = now;
  revoked_at = none;
  is_active = true;
}

abbrev pub grant_event :
    (id device_id : String) → DeviceCaller → (now : ℕ) → ConsentGrantRequest → OwnershipEvent
grant_event id device_id user now body = record {
  id = id;
  device_id = device_id;
  actor_id = user.user_id;
  details = consent_granted body.granted_to body.granted_to_type body.level;
  created_at = now;
}

unfoldable pub grant_consent :
    (uuid : ℕ → String)
    → (device_id : String) → ConsentGrantRequest
    → DeviceCaller
    → PrivacyHandler ConsentResponse
unfolding require_owner is_same_grant draw_row_id insert_consent new_consent
grant_consent uuid device_id body user = do
  require_owner device_id user
  raise_if (not (is_delegable body.level)) level_not_delegable
  rows ← gets (λ w.
      keep (is_same_grant device_id body.granted_to body.granted_to_type body.level) w.consents)
  existing ← lift (scalar_one_or_none rows)
  raise_if (is_some existing) consent_exists
  now ← gets (λ w. w.clock)
  id ← draw_row_id uuid
  event_id ← draw_row_id uuid
  insert_consent (new_consent id device_id user now body)
      (grant_event event_id device_id user now body)
  pure (consent_response device_id (new_consent id device_id user now body))

-- the row with this id, where it is of this device
abbrev pub consent_of : (device_id consent_id : String) → PrivacyWorld → Option DeviceConsent
consent_of device_id consent_id w = elim (find consent_key consent_id w.consents) [
  | none ↦ none
  | some c ↦ if c.device_id == device_id then some c else none
]

unfoldable pub set_revoked : (now : ℕ) → DeviceConsent → DeviceConsent
set_revoked now c = record c { is_active = false; revoked_at = some now }

abbrev pub revoke_event :
    (id device_id consent_id : String) → DeviceCaller → (now : ℕ) → DeviceConsent → OwnershipEvent
revoke_event id device_id consent_id user now c = record {
  id = id;
  device_id = device_id;
  actor_id = user.user_id;
  details = consent_revoked consent_id c.level c.granted_to;
  created_at = now;
}

-- the changed consent and its event, in one commit
unfoldable pub commit_revoked :
    (consent_id : String) → (now : ℕ) → OwnershipEvent → PrivacyHandler (Unit {0})
commit_revoked consent_id now e w = if event_there e.id w then (raised key_taken, w) else (
  ok tt,
  record w {
    consents = update consent_key consent_id (set_revoked now) w.consents;
    events = w.events ++ e ∷ [];
  },
)

unfoldable pub revoke_consent :
    (uuid : ℕ → String) → (device_id consent_id : String) → DeviceCaller → PrivacyHandler (Unit {0})
unfolding require_owner find update draw_row_id commit_revoked set_revoked
revoke_consent uuid device_id consent_id user = do
  require_owner device_id user
  found ← gets (consent_of device_id consent_id)
  c ← or_raise found consent_not_found
  raise_if (not c.is_active) already_revoked
  now ← gets (λ w. w.clock)
  event_id ← draw_row_id uuid
  commit_revoked consent_id now (revoke_event event_id device_id consent_id user now c)

pub record OwnershipEventResponse : Type 0 where
  pub event_id : String
  pub action : String
  pub actor_id : String
  pub details : EventDetails
  pub created_at : ℕ

abbrev event_response : OwnershipEvent → OwnershipEventResponse
event_response e = record {
  event_id = e.id;
  action = action_text e.details;
  actor_id = e.actor_id;
  details = e.details;
  created_at = e.created_at;
}

-- the device's events, the last first
unfoldable pub get_ownership_events :
    (device_id : String) → DeviceCaller → PrivacyHandler (List OwnershipEventResponse)
unfolding require_owner
get_ownership_events device_id user = do
  require_owner device_id user
  rows ← gets (λ w. sort_desc (λ e. e.created_at) (keep (λ e. e.device_id == device_id) w.events))
  pure (map event_response rows)
