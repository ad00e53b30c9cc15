-- ===== src/Devices/Ownership.antt =====
-- Who can change a device through api/devices.py.
use nexora_platform.Prelude.{◌≡◌, refl, String, true, some}
use nexora_platform.Prelude.Action.{raised, ◌>>=◌}
use nexora_platform.Devices.{Device, DeviceUpdate, DeviceOutside, get_device}
use nexora_platform.Devices.Caller.{DeviceCaller}
use nexora_platform.Devices.Routes.{
  no_method_has_role, RouteWorld, has_other_owner, device_to_change, update_device_route,
  delete_device_route,
}

module _ (ext : DeviceOutside) (device_id : String) (user : DeviceCaller) (w : RouteWorld) where
  stopped :
      (d : Device)
      → get_device device_id w.rows ≡ some d
      → has_other_owner user d ≡ true
      → device_to_change device_id user w ≡ (raised no_method_has_role, w)
  unfolding device_to_change ◌>>=◌
  stopped d there other = rw (there, other) refl

  -- Where a device has an owner who is not the caller, an update and a deletion change neither a
  -- device nor a shadow, publish nothing and are not audited, and both end with the missing method,
  -- also for operators.
  pub owned_is_kept :
      (u : DeviceUpdate) (d : Device)
      → get_device device_id w.rows ≡ some d
      → has_other_owner user d ≡ true
      → (update_device_route ext device_id u user w ≡ (raised no_method_has_role, w))
        × (delete_device_route ext device_id user w ≡ (raised no_method_has_role, w))
  unfolding update_device_route delete_device_route ◌>>=◌
  owned_is_kept u d there other = (rw (stopped d there other) refl, rw (stopped d there other) refl)
