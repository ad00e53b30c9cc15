-- ===== src/Slo.antt =====
-- services/device-service/src/device_service/api/slo.py: service level objectives of devices, and
-- their evaluation on samples; the endpoints are in Slo/Endpoints.antt and Slo/Assistant.antt. A
-- value is an integer in a fixed unit, where the code has a floating point number.
pub mod Evaluation
pub mod Endpoints
pub mod Assistant
use nexora_platform.Prelude.{
  ℕ, suc, ◌-◌, String, Bool, true, false, not, ◌&&◌, Option, none, some, List, [], ◌∷◌, ◌++◌, keep,
  take, leb, sort_desc, ◌*◌, ◌==◌, if◌then◌else◌,
}
use nexora_platform.Prelude.Int.{ℤ, lt_ℤ, eq_ℤ}
use nexora_platform.Prelude.Text.{Field, missing, null, given, truthy, text_or, member}
use nexora_platform.Prelude.Dict.{Dict, lookup, assign}
use nexora_platform.Prelude.Action.{
  Outcome, ok, raised, Action, pure, gets, modify, or_raise, raise_if, ◌>>=◌, ◌>>◌,
}
use nexora_platform.Prelude.Table.{find, update, remove}

pub record DeviceSlo : Type 0 where
  pub id : String
  pub device_id : String
  pub metric : String
  pub operator : String
  pub threshold : ℤ
  pub description : Option String
  pub enabled : Bool
  pub created_at : ℕ

pub record SloViolation : Type 0 where
  pub id : String
  pub slo_id : String
  pub device_id : String
  pub metric : String
  pub observed_value : ℤ
  pub threshold : ℤ
  pub operator : String
  pub violated_at : ℕ

pub record Sample : Type 0 where
  pub metric : String
  pub value : ℤ
  pub ts : ℕ

pub data SloError : Type 0 where
  device_not_found slo_not_found validation_error null_in_column : SloError

-- The tables, with the ids of the devices that are known.
pub record Board : Type 0 where
  pub devices : List String
  pub slos : List DeviceSlo
  pub violations : List SloViolation
  pub clock : ℕ
  pub uuids_drawn : ℕ

abbrev pub SloHandler : Type 0 → Type 0
SloHandler A = Action SloError Board A

-- `_OPERATORS.get(operator)`
unfoldable pub operator_of : String → Option (ℤ → ℤ → Bool)
operator_of s =
    if s == "lt"
    then some (λ a b. lt_ℤ a b)
    else if s == "lte"
    then some (λ a b. not (lt_ℤ b a))
    else if s == "gt"
    then some (λ a b. lt_ℤ b a)
    else if s == "gte"
    then some (λ a b. not (lt_ℤ a b))
    else if s == "eq"
    then some (λ a b. eq_ℤ a b)
    else none

abbrev pub or_empty : Option (List DeviceSlo) → List DeviceSlo
or_empty none = []
or_empty (some l) = l

-- `slo_index.get(metric, [])`
abbrev pub indexed : String → Dict (List DeviceSlo) → List DeviceSlo
indexed metric d = or_empty (lookup metric d)

-- `slo_index.setdefault(slo.metric, []).append(slo)`, for each objective in turn
unfoldable pub index_from : Dict (List DeviceSlo) → List DeviceSlo → Dict (List DeviceSlo)
unfolding lookup assign
index_from d [] = d
index_from d (s ∷ ss) = index_from (assign s.metric (indexed s.metric d ++ s ∷ []) d) ss

abbrev pub is_checked : (device_id : String) → DeviceSlo → Bool
is_checked device_id s = (s.device_id == device_id) && s.enabled

abbrev pub breach_row : (id device_id : String) → Sample → DeviceSlo → SloViolation
breach_row id device_id x s = record {
  id = id;
  slo_id = s.id;
  device_id = device_id;
  metric = x.metric;
  observed_value = x.value;
  threshold = s.threshold;
  operator = s.operator;
  violated_at = x.ts;
}

module _ (uuid : ℕ → String) where
  -- `db.add(v)` and `violations.append(v)`
  unfoldable pub add_violation :
      (device_id : String) → Sample → DeviceSlo → SloHandler (List SloViolation)
  add_violation device_id x s w =
      let v = breach_row (uuid w.uuids_drawn) device_id x s in
      (
        ok (v ∷ []),
        record w { violations = w.violations ++ v ∷ []; uuids_drawn = suc w.uuids_drawn },
      )

  -- the test of an operator that is known; one that is not is passed over
  unfoldable pub check_with :
      Option (ℤ → ℤ → Bool)
      → (device_id : String) → Sample
      → DeviceSlo
      → SloHandler (List SloViolation)
  unfolding add_violation
  check_with none device_id x s = pure []
  check_with (some holds) device_id x s =
      if holds x.value s.threshold then pure [] else add_violation device_id x s

  -- the body of the inner loop
  unfoldable pub check_slo :
      (device_id : String) → Sample → DeviceSlo → SloHandler (List SloViolation)
  unfolding operator_of check_with
  check_slo device_id x s = check_with (operator_of s.operator) device_id x s

  unfoldable pub check_slos :
      (device_id : String) → Sample → List DeviceSlo → SloHandler (List SloViolation)
  unfolding check_slo
  check_slos device_id x [] = pure []
  check_slos device_id x (s ∷ ss) = do
    first ← check_slo device_id x s
    rest ← check_slos device_id x ss
    pure (first ++ rest)

  unfoldable pub check_samples :
      (device_id : String) → Dict (List DeviceSlo) → List Sample → SloHandler (List SloViolation)
  unfolding check_slos
  check_samples device_id index [] = pure []
  check_samples device_id index (x ∷ xs) = do
    first ← check_slos device_id x (indexed x.metric index)
    rest ← check_samples device_id index xs
    pure (first ++ rest)

  abbrev pub evaluate_all :
      (device_id : String) → List Sample → List DeviceSlo → SloHandler (List SloViolation)
  evaluate_all device_id xs [] = pure []
  evaluate_all device_id xs (s ∷ ss) = check_samples device_id (index_from [] (s ∷ ss)) xs

  unfoldable pub evaluate_slos : (device_id : String) → List Sample → SloHandler (List SloViolation)
  unfolding check_samples index_from
  evaluate_slos device_id xs = do
    slos ← gets (λ w. keep (is_checked device_id) w.slos)
    evaluate_all device_id xs slos
