-- ===== src/Slo/Endpoints.antt =====
-- The endpoints of service level objectives, without the assistant
-- (services/device-service/src/device_service/api/slo.py).
use nexora_platform.Prelude.{
  ℕ, suc, ◌-◌, String, Bool, true, false, not, ◌&&◌, Option, none, some, List, [], ◌∷◌, ◌++◌, keep,
  take, leb, sort_desc, ◌*◌, ◌==◌, if◌then◌else◌,
}
use nexora_platform.Prelude.Int.{ℤ}
use nexora_platform.Prelude.Text.{
  Field, given, truthy, text_or, member, given_or, is_null, set_nullable,
}
use nexora_platform.Prelude.Action.{ok, raised, pure, gets, modify, or_raise, raise_if, ◌>>=◌, ◌>>◌}
use nexora_platform.Prelude.Table.{find, update, remove}
use nexora_platform.Slo.{
  DeviceSlo, SloViolation, device_not_found, slo_not_found, validation_error, null_in_column,
  SloHandler,
}

-- `_assert_device_exists`
unfoldable pub assert_device_exists : (device_id : String) → SloHandler (Unit {0})
assert_device_exists device_id w =
    if member device_id w.devices then (ok tt, w) else (raised device_not_found, w)

abbrev operators : List String
operators = "lt" ∷ "lte" ∷ "gt" ∷ "gte" ∷ "eq" ∷ []

pub record SloCreate : Type 0 where
  pub metric : String
  pub operator : String
  pub threshold : ℤ
  pub description : Option String

unfoldable pub create_slo :
    (uuid : ℕ → String) → (device_id : String) → SloCreate → SloHandler DeviceSlo
unfolding assert_device_exists
create_slo uuid device_id body = do
  raise_if (not (member body.operator operators)) validation_error
  assert_device_exists device_id
  w ← gets (λ w. w)
  let slo : DeviceSlo = record {
    id = uuid w.uuids_drawn;
    device_id = device_id;
    metric = body.metric;
    operator = body.operator;
    threshold = body.threshold;
    description = body.description;
    enabled = true;
    created_at = w.clock;
  }
  modify (λ v. record v { slos = v.slos ++ slo ∷ []; uuids_drawn = suc v.uuids_drawn })
  pure slo

abbrev slo_of_device : String → DeviceSlo → Bool
slo_of_device device_id s = s.device_id == device_id

unfoldable pub list_slos : (device_id : String) → SloHandler (List DeviceSlo)
unfolding assert_device_exists
list_slos device_id = do
  assert_device_exists device_id
  gets (λ w. sort_desc (λ s. s.created_at) (keep (slo_of_device device_id) w.slos))

abbrev slo_key : DeviceSlo → String
slo_key s = s.id

-- the row with the id, if it is the device's
abbrev own_slo : (device_id : String) → Option DeviceSlo → Option DeviceSlo
own_slo device_id none = none
own_slo device_id (some s) = if s.device_id == device_id then some s else none

pub record SloUpdate : Type 0 where
  pub operator : Field String
  pub threshold : Field ℤ
  pub description : Field String
  pub enabled : Field Bool

abbrev bad_operator : Field String → Bool
bad_operator (given s) = not (member s operators)
bad_operator _ = false

unfoldable pub set_slo : SloUpdate → DeviceSlo → DeviceSlo
set_slo u s = record s {
  operator = given_or u.operator s.operator;
  threshold = given_or u.threshold s.threshold;
  description = set_nullable u.description s.description;
  enabled = given_or u.enabled s.enabled;
}

-- An explicit null is set as well, and the commit then fails on the columns that may not be NULL.
unfoldable pub update_slo : (device_id slo_id : String) → SloUpdate → SloHandler DeviceSlo
unfolding assert_device_exists find update set_slo
update_slo device_id slo_id u = do
  raise_if (bad_operator u.operator) validation_error
  assert_device_exists device_id
  found ← gets (λ w. own_slo device_id (find slo_key slo_id w.slos))
  s ← or_raise found slo_not_found
  raise_if (is_null u.operator) null_in_column
  raise_if (is_null u.threshold) null_in_column
  raise_if (is_null u.enabled) null_in_column
  modify (λ w. record w { slos = update slo_key slo_id (set_slo u) w.slos })
  pure (set_slo u s)

abbrev removed_slo : (slo_id : String) → Option DeviceSlo → SloHandler (Unit {0})
removed_slo slo_id none = pure tt
removed_slo slo_id (some s) = modify (λ w. record w { slos = remove slo_key slo_id w.slos })

unfoldable pub delete_slo : (device_id slo_id : String) → SloHandler (Unit {0})
unfolding assert_device_exists find remove
delete_slo device_id slo_id = do
  assert_device_exists device_id
  found ← gets (λ w. own_slo device_id (find slo_key slo_id w.slos))
  removed_slo slo_id found

-- the violations of a device from the last `hours`; 3600000000 microseconds are an hour
abbrev pub is_recent : (device_id : String) → (now hours : ℕ) → SloViolation → Bool
is_recent device_id now hours v =
    (v.device_id == device_id) && leb (now - 3600000000 * hours) v.violated_at

abbrev of_metric : Option String → SloViolation → Bool
of_metric metric v = if truthy metric then v.metric == text_or metric "" else true

unfoldable pub list_violations :
    (device_id : String)
    → (hours : ℕ) → (metric : Option String) → (limit : ℕ) → SloHandler (List SloViolation)
unfolding assert_device_exists
list_violations device_id hours metric limit = do
  assert_device_exists device_id
  gets (λ w. take limit (
      sort_desc (λ v. v.violated_at)
        (keep (of_metric metric) (keep (is_recent device_id w.clock hours) w.violations))))
