-- ===== src/Samples/Registry.antt =====
-- The theorems on the fleet service, applied.
use nexora_platform.Prelude.{◌≡◌, refl, String, true, false, Option, none, some, [], ◌∷◌}
use nexora_platform.Prelude.Text.{Field, truthy}
use nexora_platform.Prelude.Action.{ok, raised}
use nexora_platform.Prelude.Action.Along.{Along}
use nexora_platform.Prelude.Table.{find}
use nexora_platform.Fleet.{
  Fleet, User, Registry, Outside, is_hidden, fleet_not_found, get_fleet, create_fleet, update_fleet,
  delete_fleet, add_fleet_member, remove_fleet_member, list_fleet_members,
}
use nexora_platform.Auth.{is_valid_internal_key}
use nexora_platform.Fleet.Membership.{Keeps, members_unique}
use nexora_platform.Fleet.Tenants.{foreign_fleet_is_hidden}
use nexora_platform.Samples.{unary}

abbrev ann : User
ann = record {
  user_id = some "ann";
  tenant_id = some "t1";
  roles = [];
  is_platform_admin = false;
  correlation_id = none;
}

abbrev outside : Outside
outside = record { uuid = unary; takes = λ ev. true }

abbrev others : Fleet
others = record {
  id = "f";
  name = "theirs";
  description = none;
  owner_id = none;
  tenant_id = some "t2";
}

abbrev registry : Registry
registry = record {
  fleets = others ∷ [];
  members = [];
  sent = [];
  audits = [];
  clock = 5;
  uuids_drawn = 1;
}

members_unique_example :
    ((name : Field String) (description : Option String)
      → Along Keeps (create_fleet outside ann name description))
    × ((id : String) (name description : Field String)
        → Along Keeps (update_fleet outside ann id name description))
    × ((id : String) → Along Keeps (delete_fleet outside ann id))
    × ((fleet_id : String) (device_id : Option String)
        → Along Keeps (add_fleet_member outside ann fleet_id device_id))
    × ((fleet_id device_id : String)
        → Along Keeps (remove_fleet_member outside ann fleet_id device_id))
members_unique_example = members_unique outside ann

foreign_fleet_is_hidden_example :
    (get_fleet "f" ann registry ≡ (raised fleet_not_found, registry))
    × ((name description : Field String)
        → update_fleet outside ann "f" name description registry
          ≡ (raised fleet_not_found, registry))
    × (delete_fleet outside ann "f" registry ≡ (raised fleet_not_found, registry))
    × ((d : String)
        → truthy (some d) ≡ true
        → add_fleet_member outside ann "f" (some d) registry ≡ (raised fleet_not_found, registry))
    × ((d : String)
        → remove_fleet_member outside ann "f" d registry ≡ (raised fleet_not_found, registry))
    × ((key : String) (x : Option String)
        → is_valid_internal_key key x ≡ false
        → list_fleet_members key x "f" ann registry ≡ (raised fleet_not_found, registry))
    × ((key : String) (x : Option String)
        → is_valid_internal_key key x ≡ true
        → list_fleet_members key x "f" ann registry ≡ (ok [], registry))
    × ((x : Option String) → is_valid_internal_key "" x ≡ true)
foreign_fleet_is_hidden_example =
    foreign_fleet_is_hidden outside ann "f" registry others (unfold find in refl)
      (unfold is_hidden in refl)
