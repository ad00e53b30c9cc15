-- ===== src/Samples/Plugins.antt =====
-- The theorems on authentication and on the plugin service, applied.
use nexora_platform.Prelude.{
  ℕ, List, ◌≡◌, refl, String, true, false, ◌||◌, Option, none, some, [], ◌∷◌, All,
}
use nexora_platform.Prelude.Int.{pos}
use nexora_platform.Prelude.Text.{missing, given, member}
use nexora_platform.Prelude.Action.{ok, raised, is_raised, ◌>>=◌}
use nexora_platform.Prelude.Table.{find}
use nexora_platform.Samples.{unary, returned, returned-ok}
use nexora_platform.Auth.{
  AuthSettings, Claims, HttpRequest, passed, has_role, is_platform_admin, can_write, middleware,
  identify, admit, is_valid_internal_key, dev_user, authenticate_internal_key, authenticate_header,
  readonly_methods,
}
use nexora_platform.Auth.Admission.{Vouched, middleware_vouches}
use nexora_platform.Plugin.{
  Plugin, plugin_key, plugin_to_dict, PluginSettings, draft, passed as scan_passed,
  plugin_not_found, Catalog, Caller, is_foreign, visible_plugin, amend, commit_plugin, audit_plugin,
}
use nexora_platform.Plugin.Lifecycle.{MovedTo}
use nexora_platform.Plugin.Scan.{ScanPayload, ScanResult, scan_result}
use nexora_platform.Plugin.Fields.{CreateFields, UpdateFields}
use nexora_platform.Plugin.Handlers.{
  create_plugin, update_plugin, delete_plugin, activate_plugin, deprecate_plugin, get_plugin,
  get_plugin_schema, record_plugin_security_scan, activation_refusal,
}
use nexora_platform.Plugin.Calls.{PluginCall, updated, activated, retired, scanned, perform_all}
use nexora_platform.Plugin.Histories.{run-Moves}
use nexora_platform.Plugin.Readiness.{IsReady, run-IsReady}
use nexora_platform.Plugin.Refusals.{
  WritesNothing, refused_call-WritesNothing, PassedGate, activate-PassedGate,
}
use nexora_platform.Plugin.Tenants.{foreign_plugin_is_hidden}

abbrev auth : AuthSettings
auth = record {
  auth_enabled = true;
  auth_dev_bypass_enabled = true;
  auth_dev_token = "dev-token";
  platform_admin_role = "platform-admin";
  tenant_admin_role = "tenant-admin";
  operator_role = "operator";
  viewer_role = "viewer";
}

abbrev refuse_all : String → Option Claims
refuse_all token = none

abbrev request : HttpRequest
request = record {
  path = "/api/v2/plugins";
  method = "POST";
  x_internal_key = none;
  authorization = some "Bearer dev-token";
}

admitted : middleware auth "" refuse_all request ≡ passed (dev_user auth) true
unfolding middleware identify admit authenticate_internal_key authenticate_header is_platform_admin
    can_write
admitted = refl

middleware_vouches_example :
    Vouched auth "" refuse_all request (dev_user auth)
    × (auth.auth_enabled ≡ true
        → member request.method readonly_methods ≡ false
        → can_write auth (dev_user auth) ≡ true)
    × (true
        ≡ (is_platform_admin auth (dev_user auth) || has_role (dev_user auth) auth.operator_role))
middleware_vouches_example =
    middleware_vouches auth "" refuse_all request (dev_user auth) true admitted

abbrev scans : PluginSettings
scans = record {
  auth = auth;
  internal_service_key = "k";
  scan_required = true;
  max_critical = pos 0;
  max_high = pos 0;
}

abbrev ann : Caller
ann = record {
  user = record { user_id = "ann"; tenant_id = "t1"; roles = "operator" ∷ [] };
  correlation_id = none;
}

abbrev bob : Caller
bob = record {
  user = record { user_id = "bob"; tenant_id = "t2"; roles = "operator" ∷ [] };
  correlation_id = none;
}

abbrev resize : Plugin
resize = record {
  id = "p";
  name = "resize";
  version = "1.0.0";
  module_type = "function";
  artifact_uri = some "s3://a";
  artifact_checksum = none;
  runtime_type = some "wasm-wasi";
  entrypoint = some "_start";
  timeout_seconds = pos 30;
  memory_limit_mb = pos 64;
  permissions = none;
  required_capabilities = none;
  env_schema = none;
  input_schema = none;
  sbom_uri = some "s3://b";
  security_scan_tool = none;
  security_scan_status = scan_passed;
  security_scan_summary = none;
  scanned_at = none;
  status = draft;
  owner_id = some "ann";
  tenant_id = some "t1";
  created_at = 1;
  updated_at = 1;
}

abbrev catalog : Catalog
catalog = record { plugins = resize ∷ []; audits = []; clock = 5; uuids_drawn = 1 }

abbrev no_update : UpdateFields
no_update = record {
  name = given "shrink";
  version = missing;
  artifact_uri = missing;
  artifact_checksum = missing;
  runtime_type = missing;
  entrypoint = missing;
  timeout_seconds = missing;
  memory_limit_mb = missing;
  permissions = missing;
  required_capabilities = missing;
  input_schema = missing;
  env_schema = missing;
  sbom_uri = missing;
}

abbrev scan : ScanPayload
scan = record {
  scan_tool = missing;
  status = given "failed";
  vulnerability_counts = missing;
  sbom_uri = missing;
}

abbrev calls : List PluginCall
calls = activated "p" ann ∷ updated no_update "p" ann ∷ scanned scan "p" ann ∷ retired "p" ann ∷ []

run-Moves_example :
    MovedTo resize (find plugin_key "p" (perform_all scans unary calls catalog).plugins)
run-Moves_example =
    run-Moves scans unary "p" calls catalog resize (refl, (refl, (refl, (refl, tt))))
      (unfold find in refl)

run-IsReady_example : All IsReady (perform_all scans unary calls catalog).plugins
run-IsReady_example =
    run-IsReady scans unary calls catalog
      (record { fetched = λ out f. refl; started = λ out f. refl }, tt)

refused_call-WritesNothing_example :
    ((uuid : ℕ → String) (p : CreateFields)
      → WritesNothing catalog (create_plugin uuid p bob catalog))
    × ((u : UpdateFields) (id : String)
        → WritesNothing catalog (update_plugin scans u id bob catalog))
    × ((id : String) → WritesNothing catalog (delete_plugin scans id bob catalog))
    × ((id : String) → WritesNothing catalog (activate_plugin scans id bob catalog))
    × ((id : String) → WritesNothing catalog (deprecate_plugin scans id bob catalog))
    × ((p : ScanPayload) (id : String)
        → WritesNothing catalog (record_plugin_security_scan scans p id bob catalog))
refused_call-WritesNothing_example = refused_call-WritesNothing scans catalog bob

activation_returns : is_raised (activate_plugin scans "p" ann catalog).0 ≡ false
unfolding activate_plugin amend visible_plugin is_foreign activation_refusal find commit_plugin
    audit_plugin ◌>>=◌
activation_returns = refl

activate-PassedGate_example :
    PassedGate scans catalog ann "p"
      (returned (activate_plugin scans "p" ann catalog).0 activation_returns)
activate-PassedGate_example =
    activate-PassedGate scans catalog ann "p" _
      (returned-ok (activate_plugin scans "p" ann catalog).0 activation_returns)

foreign_to_bob : is_foreign scans bob.user resize ≡ true
unfolding is_foreign is_platform_admin
foreign_to_bob = refl

foreign_plugin_is_hidden_example :
    ((x : Option String)
      → is_valid_internal_key "k" x ≡ false
      → get_plugin scans x "p" bob catalog ≡ (raised plugin_not_found, catalog))
    × ((x : Option String)
        → is_valid_internal_key "k" x ≡ true
        → get_plugin scans x "p" bob catalog ≡ (ok (plugin_to_dict resize), catalog))
    × (get_plugin_schema scans "p" bob catalog ≡ (raised plugin_not_found, catalog))
    × ((u : UpdateFields)
        → update_plugin scans u "p" bob catalog ≡ (raised plugin_not_found, catalog))
    × (delete_plugin scans "p" bob catalog ≡ (raised plugin_not_found, catalog))
    × (activate_plugin scans "p" bob catalog ≡ (raised plugin_not_found, catalog))
    × (deprecate_plugin scans "p" bob catalog ≡ (raised plugin_not_found, catalog))
    × ((s : ScanPayload) (r : ScanResult)
        → scan_result scans s ≡ ok r
        → record_plugin_security_scan scans s "p" bob catalog ≡ (raised plugin_not_found, catalog))
foreign_plugin_is_hidden_example =
    foreign_plugin_is_hidden scans bob "p" catalog resize (unfold find in refl) foreign_to_bob
