-- ===== src/Samples/Requests.antt =====
-- The theorem on listings of devices, applied.
use nexora_platform.Prelude.{◌≡◌, refl, false, none, some, List, [], ◌∷◌, All, ℕ}
use nexora_platform.Prelude.Action.{ok, is_raised, ◌>>=◌}
use nexora_platform.Samples.{returned, returned-ok}
use nexora_platform.Samples.Agents.{lamp, world}
use nexora_platform.Samples.Consents.{ann}
use nexora_platform.Devices.{Device, DeviceFilter, list_devices, selects_device}
use nexora_platform.Devices.Routes.{RouteWorld, list_devices_route}
use nexora_platform.Devices.Listings.{OfTenant, list_devices_route-OfTenant}

abbrev abroad : Device
abroad = record lamp { id = "e"; tenant_id = some "t2" }

abbrev lamps : RouteWorld
lamps = record { rows = record world { devices = lamp ∷ abroad ∷ [] }; audits = [] }

abbrev lights : DeviceFilter
lights = record {
  status = none;
  device_type = some "light";
  tenant_id = none;
  owner_id = none;
  connection_protocol = none;
}

is_listed : is_raised (list_devices_route 1 50 lights ann lamps).0 ≡ false
unfolding list_devices_route list_devices selects_device ◌>>=◌
is_listed = refl

abbrev page_one : List Device × ℕ
page_one = returned (list_devices_route 1 50 lights ann lamps).0 is_listed

list_devices_route-OfTenant_example : All (OfTenant "t1") page_one.0
list_devices_route-OfTenant_example =
    list_devices_route-OfTenant 1 50 lights ann lamps page_one refl refl
      (returned-ok (list_devices_route 1 50 lights ann lamps).0 is_listed)

-- the one device of the two that is of the tenant
one_is_listed : (list_devices_route 1 50 lights ann lamps).0 ≡ ok (lamp ∷ [], 1)
unfolding list_devices_route list_devices selects_device ◌>>=◌
one_is_listed = refl
