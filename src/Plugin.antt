-- ===== src/Plugin.antt =====
-- services/plugin-service: the plugins of models/plugin.py, who sees them, and how api/plugins.py
-- shows, lists and amends them. The operations are in Plugin/Handlers.antt, the fields of their
-- requests in Plugin/Fields.antt, the verdict of a security
-- scan in Plugin/Scan.antt.
pub mod Scan
pub mod Fields
pub mod Handlers
pub mod Amends
pub mod Lifecycle
pub mod Calls
pub mod Histories
pub mod Readiness
pub mod Refusals
pub mod Tenants
use nexora_platform.Prelude.{
  ℕ, suc, String, Bool, true, false, not, ◌&&◌, Option, none, some, List, [], ◌∷◌, ◌++◌, keep, map,
  ◌==◌, if◌then◌else◌,
}
use nexora_platform.Prelude.Text.{Json, truthy, text_or, opt_eq}
use nexora_platform.Prelude.Int.{ℤ}
use nexora_platform.Prelude.Action.{
  ok, raised, Action, pure, gets, modify, or_raise, raise_if, raise_found, ◌>>=◌, ◌>>◌,
}
use nexora_platform.Prelude.Table.{find, update}
use nexora_platform.Auth.{AuthSettings, CurrentUser, is_platform_admin}

pub data PluginStatus : Type 0 where
  draft active deprecated archived : PluginStatus

-- `_STATUS_TRANSITIONS`
unfoldable pub may_become : PluginStatus → PluginStatus → Bool
may_become draft active = true
may_become active deprecated = true
may_become deprecated archived = true
may_become _ _ = false

pub data ScanStatus : Type 0 where
  pending passed failed : ScanStatus

pub record Counts : Type 0 where
  pub critical : ℤ
  pub high : ℤ
  pub medium : ℤ
  pub low : ℤ
  pub unknown : ℤ

pub record ScanSummary : Type 0 where
  pub vulnerability_counts : Counts
  pub max_critical : ℤ
  pub max_high : ℤ
  pub verdict : ScanStatus

-- A row of the table `plugins`. A JSON column holds the text of its value.
pub record Plugin : Type 0 where
  pub id : String
  pub name : String
  pub version : String
  pub module_type : String
  pub artifact_uri : Option String
  pub artifact_checksum : Option String
  pub runtime_type : Option String
  pub entrypoint : Option String
  pub timeout_seconds : ℤ
  pub memory_limit_mb : ℤ
  pub permissions : Option Json
  pub required_capabilities : Option Json
  pub env_schema : Option Json
  pub input_schema : Option Json
  pub sbom_uri : Option String
  pub security_scan_tool : Option String
  pub security_scan_status : ScanStatus
  pub security_scan_summary : Option ScanSummary
  pub scanned_at : Option ℕ
  pub status : PluginStatus
  pub owner_id : Option String
  pub tenant_id : Option String
  pub created_at : ℕ
  pub updated_at : ℕ

abbrev pub plugin_key : Plugin → String
plugin_key p = p.id

-- What `_plugin_to_dict` answers.
pub record PluginView : Type 0 where
  pub id : String
  pub name : String
  pub version : String
  pub module_type : String
  pub status : PluginStatus
  pub artifact_uri : Option String
  pub artifact_checksum : Option String
  pub runtime_type : Option String
  pub entrypoint : Option String
  pub timeout_seconds : ℤ
  pub memory_limit_mb : ℤ
  pub permissions : Json
  pub required_capabilities : Json
  pub input_schema : Option Json
  pub env_schema : Option Json
  pub sbom_uri : Option String
  pub security_scan_tool : Option String
  pub security_scan_status : ScanStatus
  pub security_scan_summary : Option ScanSummary
  pub scanned_at : Option ℕ
  pub owner_id : Option String
  pub tenant_id : Option String
  pub created_at : ℕ
  pub updated_at : ℕ

-- `json.loads(p.permissions) if p.permissions else []`
abbrev loads_or : Option Json → String → Json
loads_or none d = record { text = d }
loads_or (some j) d = if j.text == "" then record { text = d } else j

unfoldable pub plugin_to_dict : Plugin → PluginView
plugin_to_dict p = record {
  id = p.id;
  name = p.name;
  version = p.version;
  module_type = if p.module_type == "" then "plugin" else p.module_type;
  status = p.status;
  artifact_uri = p.artifact_uri;
  artifact_checksum = p.artifact_checksum;
  runtime_type = p.runtime_type;
  entrypoint = p.entrypoint;
  timeout_seconds = p.timeout_seconds;
  memory_limit_mb = p.memory_limit_mb;
  permissions = loads_or p.permissions "[]";
  required_capabilities = loads_or p.required_capabilities "[]";
  input_schema = p.input_schema;
  env_schema = p.env_schema;
  sbom_uri = p.sbom_uri;
  security_scan_tool = p.security_scan_tool;
  security_scan_status = p.security_scan_status;
  security_scan_summary = p.security_scan_summary;
  scanned_at = p.scanned_at;
  owner_id = p.owner_id;
  tenant_id = p.tenant_id;
  created_at = p.created_at;
  updated_at = p.updated_at;
}

-- core/config.py, with the settings of authentication
pub record PluginSettings : Type 0 where
  pub auth : AuthSettings
  pub internal_service_key : String
  pub scan_required : Bool
  pub max_critical : ℤ
  pub max_high : ℤ

pub data PluginError : Type 0 where
  name_is_required plugin_not_found only_draft only_active integrity_error : PluginError
  cannot_activate_from : PluginStatus → PluginError
  artifact_uri_required entrypoint_required sbom_uri_required scan_must_pass : PluginError
  negative_count bad_scan_status : PluginError

pub record PluginAudit : Type 0 where
  pub action : String
  pub resource_id : String
  pub tenant_id : Option String
  pub actor_user_id : String
  pub actor_tenant_id : String
  pub actor_roles : List String
  pub correlation_id : Option String

pub record Catalog : Type 0 where
  pub plugins : List Plugin
  pub audits : List PluginAudit
  pub clock : ℕ
  pub uuids_drawn : ℕ

-- The user of a request and its correlation id.
pub record Caller : Type 0 where
  pub user : CurrentUser
  pub correlation_id : Option String

abbrev pub PluginHandler : Type 0 → Type 0
PluginHandler A = Action PluginError Catalog A

-- `emit_audit_event`, whose outcome is "success" and whose service and resource type do not vary
unfoldable pub audit_plugin : String → String → Option String → Caller → PluginHandler (Unit {0})
audit_plugin action id tenant_id caller w = (
  ok tt,
  record w {
    audits =
        w.audits
        ++ record {
          action = action;
          resource_id = id;
          tenant_id = tenant_id;
          actor_user_id = text_or (some caller.user.user_id) "system";
          actor_tenant_id = text_or (some caller.user.tenant_id) (text_or tenant_id "system");
          actor_roles = caller.user.roles;
          correlation_id = caller.correlation_id;
        }
          ∷ [];
  },
)

-- the condition of the second 404
unfoldable pub is_foreign : PluginSettings → CurrentUser → Plugin → Bool
is_foreign cfg user p =
    truthy p.tenant_id
    && (not (opt_eq p.tenant_id (some user.tenant_id)) && not (is_platform_admin cfg.auth user))

-- `db.get(Plugin, plugin_id)` and the two 404s after it
unfoldable pub visible_plugin : PluginSettings → String → CurrentUser → PluginHandler Plugin
unfolding is_foreign
visible_plugin cfg id user = do
  found ← gets (λ w. find plugin_key id w.plugins)
  p ← or_raise found plugin_not_found
  raise_if (is_foreign cfg user p) plugin_not_found
  pure p

-- the assignments to the row, and `db.commit()`
unfoldable pub commit_plugin : String → (Plugin → Plugin) → PluginHandler (Unit {0})
commit_plugin id f = modify (λ w. record w { plugins = update plugin_key id f w.plugins })

-- The steps that each endpoint which changes a plugin takes: the plugin must be visible, nothing may
-- speak against the change, the row is changed at the present time, and the change is audited.
unfoldable pub amend :
    PluginSettings
    → (action : String) → (refusal : Plugin → Option PluginError) → (change : ℕ → Plugin → Plugin)
    → String
    → Caller
    → PluginHandler PluginView
amend cfg action refusal change id caller = do
  p ← visible_plugin cfg id caller.user
  raise_found (refusal p)
  now ← gets (λ w. w.clock)
  commit_plugin id (change now)
  audit_plugin action id p.tenant_id caller
  pure (plugin_to_dict (change now p))
