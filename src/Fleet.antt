-- ===== src/Fleet.antt =====
-- services/fleet-service/main.py, without its two analytics endpoints, and the tables of
-- fleet_service/models: fleets, their members, and who sees them.
pub mod Membership
pub mod Tenants
use nexora_platform.Prelude.{
  ℕ, suc, String, Bool, true, false, not, ◌&&◌, ◌||◌, Option, none, some, List, [], ◌∷◌, ◌++◌, any,
  keep, map, ◌==◌, if◌then◌else◌,
}
use nexora_platform.Prelude.Text.{
  Field, missing, null, given, get_field_or, truthy, text_or, opt_or, opt_eq, opt_member, member,
}
use nexora_platform.Prelude.Action.{
  ok, raised, Action, pure, gets, modify, or_raise, raise_if, ◌>>=◌, ◌>>◌,
}
use nexora_platform.Auth.{is_valid_internal_key}
use nexora_platform.Prelude.Table.{find, update, remove}

pub record Fleet : Type 0 where
  pub id : String
  pub name : String
  pub description : Option String
  pub owner_id : Option String
  pub tenant_id : Option String

pub record FleetMember : Type 0 where
  pub id : String
  pub fleet_id : String
  pub device_id : String
  pub joined_at : Option ℕ

-- The user of a request, as `current_user_from_request` gives it.
pub record User : Type 0 where
  pub user_id : Option String
  pub tenant_id : Option String
  pub roles : List String
  pub is_platform_admin : Bool
  pub correlation_id : Option String

pub data FleetPayload : Type 0 where
  of_fleet : Fleet → FleetPayload
  of_member : FleetMember → FleetPayload
  of_removal : (fleet_id device_id : String) → FleetPayload

pub record FleetEvent : Type 0 where
  pub action : String
  pub resource_id : String
  pub payload : FleetPayload
  pub occurred_at : ℕ

pub record FleetAudit : Type 0 where
  pub action : String
  pub resource_id : String
  pub tenant_id : Option String
  pub actor_user_id : String
  pub actor_tenant_id : String
  pub actor_roles : List String
  pub correlation_id : Option String
  pub reason : Option String

pub data FleetError : Type 0 where
  fleet_not_found device_id_required already_in_fleet not_in_fleet integrity_error : FleetError

pub record Registry : Type 0 where
  pub fleets : List Fleet
  pub members : List FleetMember
  pub sent : List FleetEvent
  pub audits : List FleetAudit
  pub clock : ℕ
  pub uuids_drawn : ℕ

-- What the service calls and does not implement: `uuid4`, and whether the producer is there and
-- takes an event within its attempts.
pub record Outside : Type 0 where
  pub uuid : ℕ → String
  pub takes : FleetEvent → Bool

abbrev pub Handler : Type 0 → Type 0
Handler A = Action FleetError Registry A

abbrev pub fleet_key : Fleet → String
fleet_key f = f.id

unfoldable pub draw : Outside → Handler String
draw ext w = (ok (ext.uuid w.uuids_drawn), record w { uuids_drawn = suc w.uuids_drawn })

unfoldable pub publish : Outside → String → String → FleetPayload → Handler (Unit {0})
publish ext action id payload w =
    let ev : FleetEvent = record {
      action = action;
      resource_id = id;
      payload = payload;
      occurred_at = w.clock;
    } in
    (ok tt, if ext.takes ev then record w { sent = w.sent ++ ev ∷ [] } else w)

unfoldable pub audit : String → String → Option String → User → Option String → Handler (Unit {0})
audit action id tenant_id user reason w = (
  ok tt,
  record w {
    audits =
        w.audits
        ++ record {
          action = action;
          resource_id = id;
          tenant_id = tenant_id;
          actor_user_id = text_or user.user_id "system";
          actor_tenant_id = text_or (opt_or user.tenant_id tenant_id) "system";
          actor_roles = user.roles;
          correlation_id = user.correlation_id;
          reason = reason;
        }
          ∷ [];
  },
)

-- the second condition of `_ensure_fleet_visible`
unfoldable pub is_hidden : User → Fleet → Bool
is_hidden user f =
    truthy f.tenant_id && (not (opt_eq f.tenant_id user.tenant_id) && not user.is_platform_admin)

-- `db.get(Fleet, id)` and `_ensure_fleet_visible`
unfoldable pub visible_fleet : String → User → Handler Fleet
unfolding is_hidden
visible_fleet id user = do
  found ← gets (λ w. find fleet_key id w.fleets)
  f ← or_raise found fleet_not_found
  raise_if (is_hidden user f) fleet_not_found
  pure f

-- a comparison with None asks for NULL
abbrev pub of_tenant : Option String → Fleet → Bool
of_tenant tenant_id f = opt_eq f.tenant_id tenant_id

unfoldable pub list_fleets : User → (tenant_id : Option String) → Registry → List Fleet
list_fleets user tenant_id w =
    if user.is_platform_admin
    then (if truthy tenant_id then keep (of_tenant tenant_id) w.fleets else w.fleets)
    else keep (of_tenant user.tenant_id) w.fleets

unfoldable pub get_fleet : String → User → Handler Fleet
unfolding visible_fleet
get_fleet id user = visible_fleet id user

-- `if "name" in payload and payload["name"]`
abbrev pub new_name : Field String → String → String
new_name missing old = old
new_name null old = old
new_name (given s) old = if s == "" then old else s

abbrev pub new_description : Field String → Option String → Option String
new_description missing old = old
new_description null old = none
new_description (given s) old = some s

unfoldable pub change_fleet : Field String → Field String → Fleet → Fleet
change_fleet name description f = record f {
  name = new_name name f.name;
  description = new_description description f.description;
}

-- the unique constraint on the fleet and the device
abbrev pub is_member : String → String → FleetMember → Bool
is_member fleet_id device_id m = m.fleet_id == fleet_id && m.device_id == device_id

abbrev pub drop_member : String → String → List FleetMember → List FleetMember
drop_member f d [] = []
drop_member f d (m ∷ l) = if is_member f d m then drop_member f d l else m ∷ drop_member f d l

-- the rows of one device, and the fleets that they name
abbrev pub fleets_of : String → List FleetMember → List String
fleets_of d [] = []
fleets_of d (m ∷ l) = if m.device_id == d then m.fleet_id ∷ fleets_of d l else fleets_of d l

abbrev pub insert_fleet : Fleet → Handler (Unit {0})
insert_fleet f w =
    if any (λ x. x.id == f.id) w.fleets
    then (raised integrity_error, w)
    else (ok tt, record w { fleets = w.fleets ++ f ∷ [] })

-- `db.add(member); db.commit()`: an IntegrityError is a conflict
unfoldable pub insert_member : FleetMember → Handler (Unit {0})
insert_member m w =
    if any (λ x. x.id == m.id || is_member m.fleet_id m.device_id x) w.members
    then (raised already_in_fleet, w)
    else (ok tt, record w { members = w.members ++ m ∷ [] })

module _ (ext : Outside) (user : User) where
  -- a null name breaks the NOT NULL of the column
  unfoldable pub create_fleet : Field String → Option String → Handler Fleet
  create_fleet name description = do
    id ← draw ext
    name' ← or_raise (get_field_or name (some "default-fleet")) integrity_error
    let f : Fleet = record {
      id = id;
      name = name';
      description = description;
      owner_id = user.user_id;
      tenant_id = user.tenant_id;
    }
    insert_fleet f
    audit "fleet.created" f.id f.tenant_id user none
    publish ext "created" f.id (of_fleet f)
    pure f

  unfoldable pub update_fleet : String → Field String → Field String → Handler Fleet
  update_fleet id name description = do
    f ← visible_fleet id user
    modify (λ w. record w { fleets = update fleet_key id (change_fleet name description) w.fleets })
    let g = change_fleet name description f
    audit "fleet.updated" g.id g.tenant_id user none
    publish ext "updated" g.id (of_fleet g)
    pure g

  unfoldable pub delete_fleet : String → Handler (Unit {0})
  delete_fleet id = do
    f ← visible_fleet id user
    modify (λ w. record w { fleets = remove fleet_key id w.fleets })
    audit "fleet.deleted" id f.tenant_id user none
    publish ext "deleted" id (of_fleet f)

  unfoldable pub add_fleet_member : String → Option String → Handler FleetMember
  add_fleet_member fleet_id device_id = do
    raise_if (not (truthy device_id)) device_id_required
    d ← or_raise device_id device_id_required
    f ← visible_fleet fleet_id user
    id ← draw ext
    now ← gets (λ w. w.clock)
    let m : FleetMember = record {
      id = id;
      fleet_id = fleet_id;
      device_id = d;
      joined_at = some now;
    }
    insert_member m
    audit "fleet.member_added" fleet_id f.tenant_id user device_id
    publish ext "member_added" fleet_id (of_member m)
    pure m

  unfoldable pub remove_fleet_member : String → String → Handler (Unit {0})
  remove_fleet_member fleet_id device_id = do
    f ← visible_fleet fleet_id user
    there ← gets (λ w. any (is_member fleet_id device_id) w.members)
    raise_if (not there) not_in_fleet
    modify (λ w. record w { members = drop_member fleet_id device_id w.members })
    audit "fleet.member_removed" fleet_id f.tenant_id user (some device_id)
    publish ext "member_removed" fleet_id (of_removal fleet_id device_id)

-- A caller who passes the internal check is not checked against the tenant; `key` is the key of the
-- setting.
unfoldable pub list_fleet_members :
    (key : String) → (x_internal_key : Option String) → String → User → Handler (List FleetMember)
unfolding is_hidden
list_fleet_members key x_internal_key fleet_id user = do
  found ← gets (λ w. find fleet_key fleet_id w.fleets)
  f ← or_raise found fleet_not_found
  raise_if (not (is_valid_internal_key key x_internal_key) && is_hidden user f) fleet_not_found
  gets (λ w. keep (λ m. m.fleet_id == fleet_id) w.members)

unfoldable pub list_device_fleets : String → User → Registry → List Fleet
list_device_fleets device_id user w =
    let ids = fleets_of device_id w.members in
    keep (λ f. member f.id ids && (user.is_platform_admin || of_tenant user.tenant_id f)) w.fleets
