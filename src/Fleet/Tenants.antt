-- ===== src/Fleet/Tenants.antt =====
-- What a user of another tenant can do to a fleet (fleet-service).
use nexora_platform.Prelude.{◌≡◌, refl, String, true, false, Option, some, keep, ◌==◌}
use nexora_platform.Prelude.Text.{Field, truthy}
use nexora_platform.Prelude.Action.{ok, raised, ◌>>=◌}
use nexora_platform.Prelude.Table.{find}
use nexora_platform.Fleet.{
  Fleet, fleet_not_found, User, Registry, Outside, fleet_key, is_hidden, visible_fleet, get_fleet,
  update_fleet, delete_fleet, add_fleet_member, remove_fleet_member, list_fleet_members,
}
use nexora_platform.Auth.{is_valid_internal_key}

hidden :
    (id : String) (user : User) (w : Registry) (f : Fleet)
    → find fleet_key id w.fleets ≡ some f
    → is_hidden user f ≡ true
    → visible_fleet id user w ≡ (raised fleet_not_found, w)
unfolding visible_fleet ◌>>=◌
hidden id user w f found h = rw (found, h) refl

-- A user who is no platform admin and has another tenant than the fleet is told that it does not
-- exist, and changes nothing: neither can the fleet be read, changed or deleted, nor can members be
-- added, removed or, without the internal key, listed. Where the internal check passes, which it does
-- for everyone where no key is set, the members are listed.
pub foreign_fleet_is_hidden :
    (ext : Outside) (user : User) (id : String) (w : Registry) (f : Fleet)
    → find fleet_key id w.fleets ≡ some f
    → is_hidden user f ≡ true
    → (get_fleet id user w ≡ (raised fleet_not_found, w))
      × ((name description : Field String)
          → update_fleet ext user id name description w ≡ (raised fleet_not_found, w))
      × (delete_fleet ext user id w ≡ (raised fleet_not_found, w))
      × ((d : String)
          → truthy (some d) ≡ true
          → add_fleet_member ext user id (some d) w ≡ (raised fleet_not_found, w))
      × ((d : String) → remove_fleet_member ext user id d w ≡ (raised fleet_not_found, w))
      × ((key : String) (x : Option String)
          → is_valid_internal_key key x ≡ false
          → list_fleet_members key x id user w ≡ (raised fleet_not_found, w))
      × ((key : String) (x : Option String)
          → is_valid_internal_key key x ≡ true
          → list_fleet_members key x id user w ≡ (ok (keep (λ m. m.fleet_id == id) w.members), w))
      × ((x : Option String) → is_valid_internal_key "" x ≡ true)
unfolding list_fleet_members get_fleet update_fleet delete_fleet add_fleet_member
    remove_fleet_member ◌>>=◌
foreign_fleet_is_hidden ext user id w f found h =
    let no : visible_fleet id user w ≡ (raised fleet_not_found, w) = hidden id user w f found h in
    (
      no,
      (λ name description. rw no refl),
      rw no refl,
      (λ d given. rw (given, no) refl),
      (λ d. rw no refl),
      (λ key x invalid. rw (found, invalid, h) refl),
      (λ key x valid. rw (found, valid) refl),
      (λ x. unfold is_valid_internal_key in refl),
    )
