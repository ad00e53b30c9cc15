-- ===== src/Plugin/Fields.antt =====
-- The bodies of the requests that create and update a plugin, and what they write into its row
-- (services/plugin-service/src/plugin_service/api/plugins.py).
use nexora_platform.Prelude.{ℕ, String, Bool, Option, none, some, [], ◌∷◌, if◌then◌else◌}
use nexora_platform.Prelude.Text.{Json, Field, missing, null, given, given_or, get_field, member}
use nexora_platform.Prelude.Int.{ℤ, pos}
use nexora_platform.Plugin.{Plugin, draft, pending, Caller}

-- The body of `create_plugin`.
pub record CreateFields : Type 0 where
  pub name : Field String
  pub version : Field String
  pub module_type : Field String
  pub artifact_uri : Field String
  pub artifact_checksum : Field String
  pub runtime_type : Field String
  pub entrypoint : Field String
  pub timeout_seconds : Field ℤ
  pub memory_limit_mb : Field ℤ
  pub permissions : Field Json
  pub required_capabilities : Field Json
  pub input_schema : Field Json
  pub env_schema : Field Json

-- The JSON values that are false in a condition.
abbrev is_falsy : Json → Bool
is_falsy j = member j.text ("null" ∷ "false" ∷ "0" ∷ "0.0" ∷ "-0.0" ∷ "\"\"" ∷ "[]" ∷ "{}" ∷ [])

-- `json.dumps(payload.get(key) or [])`
abbrev dumps_or_list : Field Json → Option Json
dumps_or_list (given j) = some (if is_falsy j then record { text = "[]" } else j)
dumps_or_list _ = some (record { text = "[]" })

-- `json.dumps(payload[key]) if payload.get(key) else None`
abbrev dumps_schema : Field Json → Option Json
dumps_schema (given j) = if is_falsy j then none else some j
dumps_schema _ = none

-- The row of a new plugin. The columns with a default take it where the payload gives null.
unfoldable pub new_plugin : (id : String) → (now : ℕ) → Caller → CreateFields → Plugin
new_plugin id now caller p = record {
  id = id;
  name = given_or p.name "";
  version = given_or p.version "0.1.0";
  module_type = given_or p.module_type "plugin";
  artifact_uri = get_field p.artifact_uri;
  artifact_checksum = get_field p.artifact_checksum;
  runtime_type = get_field p.runtime_type;
  entrypoint = get_field p.entrypoint;
  timeout_seconds = given_or p.timeout_seconds (pos 30);
  memory_limit_mb = given_or p.memory_limit_mb (pos 64);
  permissions = dumps_or_list p.permissions;
  required_capabilities = dumps_or_list p.required_capabilities;
  env_schema = dumps_schema p.env_schema;
  input_schema = dumps_schema p.input_schema;
  sbom_uri = none;
  security_scan_tool = none;
  security_scan_status = pending;
  security_scan_summary = none;
  scanned_at = none;
  status = draft;
  owner_id = some caller.user.user_id;
  tenant_id = some caller.user.tenant_id;
  created_at = now;
  updated_at = now;
}

-- The body of `update_plugin`.
pub record UpdateFields : Type 0 where
  pub name : Field String
  pub version : Field String
  pub artifact_uri : Field String
  pub artifact_checksum : Field String
  pub runtime_type : Field String
  pub entrypoint : Field String
  pub timeout_seconds : Field ℤ
  pub memory_limit_mb : Field ℤ
  pub permissions : Field Json
  pub required_capabilities : Field Json
  pub input_schema : Field Json
  pub env_schema : Field Json
  pub sbom_uri : Field String

-- a column without null: `if field in payload and payload[field] is not None`
abbrev set_text : Field String → Option String → Option String
set_text (given s) old = some s
set_text _ old = old

-- `if json_field in payload`
abbrev set_json : Field Json → Option Json → Option Json
set_json missing old = old
set_json null old = some (record { text = "null" })
set_json (given j) old = some j

abbrev set_if_there : Field String → Option String → Option String
set_if_there missing old = old
set_if_there null old = none
set_if_there (given s) old = some s

unfoldable pub set_fields : UpdateFields → ℕ → Plugin → Plugin
set_fields u now p = record p {
  name = given_or u.name p.name;
  version = given_or u.version p.version;
  artifact_uri = set_text u.artifact_uri p.artifact_uri;
  artifact_checksum = set_text u.artifact_checksum p.artifact_checksum;
  runtime_type = set_text u.runtime_type p.runtime_type;
  entrypoint = set_text u.entrypoint p.entrypoint;
  timeout_seconds = given_or u.timeout_seconds p.timeout_seconds;
  memory_limit_mb = given_or u.memory_limit_mb p.memory_limit_mb;
  permissions = set_json u.permissions p.permissions;
  required_capabilities = set_json u.required_capabilities p.required_capabilities;
  input_schema = set_json u.input_schema p.input_schema;
  env_schema = set_json u.env_schema p.env_schema;
  sbom_uri = set_if_there u.sbom_uri p.sbom_uri;
  updated_at = now;
}
