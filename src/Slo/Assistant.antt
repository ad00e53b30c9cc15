-- ===== src/Slo/Assistant.antt =====
-- The hints on recent violations: `slo_assistant`
-- (services/device-service/src/device_service/api/slo.py). The sentence of a recommendation is the
-- data that it is made of.
use nexora_platform.Prelude.{
  ℕ, suc, String, Bool, true, false, Option, none, some, List, [], ◌∷◌, ◌++◌, keep, take, map,
  length, sort_desc, leb, ◌==◌, if◌then◌else◌,
}
use nexora_platform.Prelude.Int.{ℤ}
use nexora_platform.Prelude.Text.{append}
use nexora_platform.Prelude.Dict.{Dict, lookup, assign}
use nexora_platform.Prelude.Action.{gets, ◌>>◌}
use nexora_platform.Slo.{SloViolation, SloHandler}
use nexora_platform.Slo.Endpoints.{assert_device_exists, is_recent}

-- The values of `metric_agg`.
pub record MetricAgg : Type 0 where
  pub violations : ℕ
  pub latest_observed_value : ℤ
  pub threshold : ℤ
  pub operator : String

abbrev first_seen : SloViolation → MetricAgg
first_seen v = record {
  violations = 0;
  latest_observed_value = v.observed_value;
  threshold = v.threshold;
  operator = v.operator;
}

abbrev found_or : Option MetricAgg → MetricAgg → MetricAgg
found_or none d = d
found_or (some a) d = a

-- `metric_agg.setdefault(v.metric, {...})` and the count
abbrev counted_in : SloViolation → Dict MetricAgg → Dict MetricAgg
counted_in v d =
    let a = found_or (lookup v.metric d) (first_seen v) in
    assign v.metric (record a { violations = suc a.violations }) d

unfoldable pub aggregate_from : Dict MetricAgg → List SloViolation → Dict MetricAgg
unfolding lookup assign
aggregate_from d [] = d
aggregate_from d (v ∷ vs) = aggregate_from (counted_in v d) vs

pub data Severity : Type 0 where
  high_severity medium_severity low_severity : Severity

unfoldable pub severity_of : ℕ → Severity
severity_of count =
    if leb 5 count then high_severity else if leb 2 count then medium_severity else low_severity

pub data Advice : Type 0 where
  reduce_pressure increase_floor stabilize : Advice

unfoldable pub advice_of : (operator : String) → Advice
advice_of operator =
    if operator == "lt"
    then reduce_pressure
    else if operator == "lte"
    then reduce_pressure
    else if operator == "gt"
    then increase_floor
    else if operator == "gte"
    then increase_floor
    else stabilize

pub record AssistantMetric : Type 0 where
  pub metric : String
  pub violations : ℕ
  pub latest_observed_value : ℤ
  pub threshold : ℤ
  pub operator : String
  pub severity : Severity
  pub recommendation : Advice

unfoldable pub assistant_metric : String × MetricAgg → AssistantMetric
unfolding severity_of advice_of
assistant_metric e =
    let a = e.1 in
    record {
      metric = e.0;
      violations = a.violations;
      latest_observed_value = a.latest_observed_value;
      threshold = a.threshold;
      operator = a.operator;
      severity = severity_of a.violations;
      recommendation = advice_of a.operator;
    }

pub record SuggestedStep : Type 0 where
  pub name : String
  pub command : String

abbrev diagnose_step : String × MetricAgg → SuggestedStep
diagnose_step e = record { name = append "diagnose-" e.0; command = append "echo diagnose-" e.0 }

abbrev verify_step : SuggestedStep
verify_step = record { name = "verify-slo-stability"; command = "echo verify-slo-stability" }

abbrev health_step : SuggestedStep
health_step = record { name = "health-check"; command = "echo health-ok" }

pub record SloAssistant : Type 0 where
  pub hours : ℕ
  pub total_violations : ℕ
  pub is_healthy : Bool
  pub top_metrics : List AssistantMetric
  pub suggested_runbook_steps : List SuggestedStep

abbrev pub agg_count : String × MetricAgg → ℕ
agg_count e = e.1.violations

unfoldable pub top_items : List SloViolation → List (String × MetricAgg)
unfolding aggregate_from
top_items vs = take 5 (sort_desc agg_count (aggregate_from [] vs))

unfoldable pub hints : (hours : ℕ) → List SloViolation → SloAssistant
unfolding top_items assistant_metric
hints hours [] = record {
  hours = hours;
  total_violations = 0;
  is_healthy = true;
  top_metrics = [];
  suggested_runbook_steps = health_step ∷ [];
}
hints hours (v ∷ vs) = record {
  hours = hours;
  total_violations = length (v ∷ vs);
  is_healthy = false;
  top_metrics = map assistant_metric (top_items (v ∷ vs));
  suggested_runbook_steps = map diagnose_step (top_items (v ∷ vs)) ++ verify_step ∷ [];
}

unfoldable pub slo_assistant : (device_id : String) → (hours limit : ℕ) → SloHandler SloAssistant
unfolding assert_device_exists hints
slo_assistant device_id hours limit = do
  assert_device_exists device_id
  gets (λ w. hints hours (
      take limit
        (sort_desc (λ v. v.violated_at) (keep (is_recent device_id w.clock hours) w.violations))))
