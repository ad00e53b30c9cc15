-- ===== src/Plugin/Scan.antt =====
-- The verdict of a security scan: `_normalize_severity_counts`, `_scan_verdict` and the body of
-- `record_plugin_security_scan` (services/plugin-service/src/plugin_service/api/plugins.py).
use nexora_platform.Prelude.{ℕ, String, Bool, List, ◌||◌, Option, none, some, if◌then◌else◌}
use nexora_platform.Prelude.Text.{
  Field, missing, given_or, get_field, text_or, truthy, strip, codes,
}
use nexora_platform.Execution.Guardrails.{normalize, text_eq}
use nexora_platform.Prelude.Int.{ℤ, pos, lt_ℤ}
use nexora_platform.Prelude.Action.{Outcome, ok, raised, and_then}
use nexora_platform.Plugin.{
  PluginSettings, ScanStatus, pending, passed, failed, Counts, Plugin, PluginError, negative_count,
  bad_scan_status,
}

-- The counts in a payload; one that is left out or null is 0.
pub record CountFields : Type 0 where
  pub critical : Field ℤ
  pub high : Field ℤ
  pub medium : Field ℤ
  pub low : Field ℤ
  pub unknown : Field ℤ

pub record ScanPayload : Type 0 where
  pub scan_tool : Field String
  pub status : Field String
  pub vulnerability_counts : Field CountFields
  pub sbom_uri : Field String

abbrev no_counts : CountFields
no_counts = record {
  critical = missing;
  high = missing;
  medium = missing;
  low = missing;
  unknown = missing;
}

abbrev is_negative : ℤ → Bool
is_negative v = lt_ℤ v (pos 0)

abbrev counts_of : CountFields → Counts
counts_of raw = record {
  critical = given_or raw.critical (pos 0);
  high = given_or raw.high (pos 0);
  medium = given_or raw.medium (pos 0);
  low = given_or raw.low (pos 0);
  unknown = given_or raw.unknown (pos 0);
}

unfoldable pub any_negative : Counts → Bool
any_negative c =
    is_negative c.critical
    || (is_negative c.high
        || (is_negative c.medium || (is_negative c.low || is_negative c.unknown)))

unfoldable pub normalize_severity_counts : ScanPayload → Outcome PluginError Counts
unfolding any_negative
normalize_severity_counts p =
    let counts = counts_of (given_or p.vulnerability_counts no_counts) in
    if any_negative counts then raised negative_count else ok counts

unfoldable pub scan_verdict : PluginSettings → Counts → ScanStatus
scan_verdict cfg counts =
    if lt_ℤ cfg.max_critical counts.critical
    then failed
    else if lt_ℤ cfg.max_high counts.high
    then failed
    else passed

-- `status in _VALID_SCAN_STATUSES`, as the status that is meant; a text is its code points
unfoldable pub valid_scan_status : List ℕ → Option ScanStatus
valid_scan_status s =
    if text_eq s (codes "pending")
    then some pending
    else if text_eq s (codes "passed")
    then some passed
    else if text_eq s (codes "failed")
    then some failed
    else none

abbrev known_status : Option ScanStatus → Outcome PluginError ScanStatus
known_status none = raised bad_scan_status
known_status (some s) = ok s

-- the verdict, unless the payload names a status
unfoldable pub recorded_status :
    PluginSettings → ScanPayload → Counts → Outcome PluginError ScanStatus
unfolding scan_verdict valid_scan_status normalize
recorded_status cfg p counts =
    let requested = get_field p.status in
    if truthy requested
    then known_status (valid_scan_status (normalize (codes (text_or requested ""))))
    else ok (scan_verdict cfg counts)

-- What the first half of the handler hands to the second.
pub record ScanResult : Type 0 where
  pub tool : String
  pub counts : Counts
  pub status : ScanStatus

unfoldable pub scan_result : PluginSettings → ScanPayload → Outcome PluginError ScanResult
unfolding normalize_severity_counts recorded_status
scan_result cfg p = and_then (normalize_severity_counts p) (λ counts.
    and_then (recorded_status cfg p counts) (λ status. ok (record {
      tool = strip (text_or (get_field p.scan_tool) "unknown");
      counts = counts;
      status = status;
    })))

-- the assignments of the handler
unfoldable pub set_scan : PluginSettings → ScanPayload → ScanResult → ℕ → Plugin → Plugin
set_scan cfg p r now plugin = record plugin {
  sbom_uri = if truthy (get_field p.sbom_uri) then get_field p.sbom_uri else plugin.sbom_uri;
  security_scan_tool = some r.tool;
  security_scan_status = r.status;
  security_scan_summary = some (record {
    vulnerability_counts = r.counts;
    max_critical = cfg.max_critical;
    max_high = cfg.max_high;
    verdict = r.status;
  });
  scanned_at = some now;
  updated_at = now;
}
