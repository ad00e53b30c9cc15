-- ===== src/Devices/Listings.antt =====
-- What a listing of api/devices.py shows to a caller who is no operator.
use nexora_platform.Prelude.{
  ℕ, ◌≡◌, ap, subst, String, true, false, Option, none, some, ◌==◌, List, All-keep, All-take,
  All-drop, All-sort_desc, All, arith, eq_iff,
}
use nexora_platform.Prelude.Text.{opt_eq}
use nexora_platform.Prelude.Action.{Outcome, ok, ◌>>=◌}
use nexora_platform.Prelude.Action.After.{after_raise_if}
use nexora_platform.Devices.{Device, DeviceFilter, DeviceWorld, list_devices, selects_device}
use nexora_platform.Devices.Caller.{DeviceCaller}
use nexora_platform.Devices.Routes.{
  RouteError, foreign_tenant, RouteWorld, own_filter, is_foreign_filter, list_devices_route,
}

list_devices-All :
    (P : Device → Type 0) (page page_size : ℕ) (f : DeviceFilter) (w : DeviceWorld)
    → ((d : Device) → selects_device f d ≡ true → P d)
    → All P (list_devices page page_size f w).0
unfolding list_devices
list_devices-All P page page_size f w h =
    All-take P page_size _ (All-drop P _ _ (All-sort_desc P _ _ (All-keep P _ w.devices h)))

abbrev pub OfTenant : String → Device → Type 0
OfTenant tenant_id d = d.tenant_id ≡ some tenant_id

asked_tenant :
    (tenant_id : String) (column : Option String)
    → opt_eq column (some tenant_id) ≡ true
    → column ≡ some tenant_id
asked_tenant tenant_id none h = absurd cc
asked_tenant tenant_id (some t) h =
    let same : t ≡ tenant_id = ground (arith, eq_iff t tenant_id) in ap some same

selected_tenant :
    (user : DeviceCaller) (f : DeviceFilter) (d : Device)
    → user.is_operator ≡ false
    → (user.tenant_id == "") ≡ false
    → selects_device (own_filter user f) d ≡ true
    → OfTenant user.tenant_id d
unfolding selects_device
selected_tenant user f d plain named h =
    asked_tenant user.tenant_id d.tenant_id (ground (arith, h, plain, named))

-- What an endpoint that lists devices returns.
record Listed (P : Device → Type 0) (r : Outcome RouteError (List Device × ℕ) × RouteWorld)
    : Type 0 where
  at : (v : List Device × ℕ) → r.0 ≡ ok v → All P v.0

listed :
    (P : Device → Type 0) (v : List Device × ℕ) (w : RouteWorld) → All P v.0 → Listed P (ok v, w)
listed P v w a = record { at = λ u e. let same : v ≡ u = cc in subst (λ x. All P x.0) same a }

route-Listed :
    (page page_size : ℕ) (f : DeviceFilter) (user : DeviceCaller) (w : RouteWorld)
    → user.is_operator ≡ false
    → (user.tenant_id == "") ≡ false
    → Listed (OfTenant user.tenant_id) (list_devices_route page page_size f user w)
unfolding list_devices_route ◌>>=◌
route-Listed page page_size f user w plain named =
    let P = OfTenant user.tenant_id in
    after_raise_if (Listed P) w (is_foreign_filter user f) foreign_tenant _
      (λ _. record { at = λ u e. absurd cc })
      (λ _. listed P (list_devices page page_size (own_filter user f) w.rows) w (
        list_devices-All P page page_size (own_filter user f) w.rows
          (λ d h. selected_tenant user f d plain named h)))

-- A caller who is no operator, and whose tenant has a name, is listed only devices of that tenant,
-- whatever filters the request has.
pub list_devices_route-OfTenant :
    (page page_size : ℕ) (f : DeviceFilter) (user : DeviceCaller) (w : RouteWorld)
    (v : List Device × ℕ)
    → user.is_operator ≡ false
    → (user.tenant_id == "") ≡ false
    → (list_devices_route page page_size f user w).0 ≡ ok v
    → All (OfTenant user.tenant_id) v.0
list_devices_route-OfTenant page page_size f user w v plain named shown =
    (route-Listed page page_size f user w plain named).at v shown
