-- ===== src/Plugin/Handlers.antt =====
-- The endpoints of services/plugin-service/src/plugin_service/api/plugins.py.
use nexora_platform.Prelude.{
  ℕ, suc, String, Bool, true, false, not, Option, none, some, List, [], ◌∷◌, ◌++◌, keep, map, any,
  length, ◌==◌, if◌then◌else◌,
}
use nexora_platform.Prelude.Text.{Json, get_field, truthy, text_or, opt_eq}
use nexora_platform.Prelude.Action.{
  ok, raised, pure, gets, modify, or_raise, raise_if, lift, ◌>>=◌, ◌>>◌,
}
use nexora_platform.Prelude.Table.{find, remove}
use nexora_platform.Auth.{is_platform_admin, is_valid_internal_key}
use nexora_platform.Plugin.{
  Plugin, plugin_key, PluginView, plugin_to_dict, PluginStatus, draft, active, deprecated, passed,
  ScanStatus, PluginSettings, PluginError, name_is_required, plugin_not_found, only_draft,
  only_active, integrity_error, cannot_activate_from, artifact_uri_required, entrypoint_required,
  sbom_uri_required, scan_must_pass, Catalog, Caller, PluginHandler, audit_plugin, visible_plugin,
  amend,
}
use nexora_platform.Plugin.Fields.{CreateFields, new_plugin, UpdateFields, set_fields}
use nexora_platform.Plugin.Scan.{ScanPayload, scan_result, set_scan}

-- a comparison with None asks for NULL, and a caller's tenant is never None
abbrev pub of_tenant : String → Plugin → Bool
of_tenant tenant_id p = opt_eq p.tenant_id (some tenant_id)

-- the rows that `list_plugins` selects; `total` is their number
unfoldable pub select_plugins :
    PluginSettings → Caller → (tenant_id : Option String) → List Plugin → List Plugin
select_plugins cfg caller tenant_id t =
    if is_platform_admin cfg.auth caller.user
    then (if truthy tenant_id then keep (of_tenant (text_or tenant_id "")) t else t)
    else keep (of_tenant caller.user.tenant_id) t

unfoldable pub list_plugins :
    PluginSettings → Caller → (tenant_id : Option String) → Catalog → List PluginView × ℕ
unfolding select_plugins
list_plugins cfg caller tenant_id w =
    let items = select_plugins cfg caller tenant_id w.plugins in
    (map plugin_to_dict items, length items)

abbrev pub is_function_module : Plugin → Bool
is_function_module p = p.module_type == "function"

unfoldable pub list_functions : PluginSettings → Caller → Catalog → List PluginView × ℕ
list_functions cfg caller w =
    let functions = keep is_function_module w.plugins in
    let items =
      if is_platform_admin cfg.auth caller.user
      then functions
      else keep (of_tenant caller.user.tenant_id) functions in
    (map plugin_to_dict items, length items)

-- `str(uuid4())`
unfoldable pub draw_id : (uuid : ℕ → String) → PluginHandler String
draw_id uuid w = (ok (uuid w.uuids_drawn), record w { uuids_drawn = suc w.uuids_drawn })

-- `db.add(plugin)` and `db.commit()`, under the primary key
unfoldable pub insert_plugin : Plugin → PluginHandler (Unit {0})
insert_plugin p w =
    if any (λ q. q.id == p.id) w.plugins
    then (raised integrity_error, w)
    else (ok tt, record w { plugins = w.plugins ++ p ∷ [] })

unfoldable pub create_plugin :
    (uuid : ℕ → String) → CreateFields → Caller → PluginHandler PluginView
unfolding draw_id insert_plugin audit_plugin new_plugin
create_plugin uuid p caller = do
  raise_if (not (truthy (get_field p.name))) name_is_required
  now ← gets (λ w. w.clock)
  id ← draw_id uuid
  insert_plugin (new_plugin id now caller p)
  audit_plugin "plugin.created" id (some caller.user.tenant_id) caller
  pure (plugin_to_dict (new_plugin id now caller p))

-- the branch of `get_plugin` for the platform's own services: no tenant is compared
unfoldable pub get_for_service : String → PluginHandler PluginView
get_for_service id = do
  found ← gets (λ w. find plugin_key id w.plugins)
  p ← or_raise found plugin_not_found
  pure (plugin_to_dict p)

unfoldable pub get_for_user : PluginSettings → String → Caller → PluginHandler PluginView
unfolding visible_plugin
get_for_user cfg id caller = do p ← visible_plugin cfg id caller.user; pure (plugin_to_dict p)

-- `get_plugin`, where the header x-internal-key holds `x`
unfoldable pub get_plugin :
    PluginSettings → (x : Option String) → String → Caller → PluginHandler PluginView
unfolding get_for_service get_for_user
get_plugin cfg x id caller =
    if is_valid_internal_key cfg.internal_service_key x
    then get_for_service id
    else get_for_user cfg id caller

unfoldable pub is_draft : PluginStatus → Bool
is_draft draft = true
is_draft _ = false

unfoldable pub is_active_plugin : PluginStatus → Bool
is_active_plugin active = true
is_active_plugin _ = false

unfoldable pub update_refusal : Plugin → Option PluginError
unfolding is_draft
update_refusal p = if is_draft p.status then none else some only_draft

unfoldable pub update_plugin :
    PluginSettings → UpdateFields → String → Caller → PluginHandler PluginView
unfolding update_refusal set_fields
update_plugin cfg u id caller = amend cfg "plugin.updated" update_refusal (set_fields u) id caller

unfoldable pub delete_plugin : PluginSettings → String → Caller → PluginHandler (Unit {0})
unfolding visible_plugin audit_plugin
delete_plugin cfg id caller = do
  p ← visible_plugin cfg id caller.user
  modify (λ w. record w { plugins = remove plugin_key id w.plugins })
  audit_plugin "plugin.deleted" id p.tenant_id caller

abbrev pub is_passed : ScanStatus → Bool
is_passed passed = true
is_passed _ = false

-- the checks of a function that is to be activated, in their order
unfoldable pub function_refusal : (scan_required : Bool) → Plugin → Option PluginError
function_refusal scan_required p =
    if not (truthy p.artifact_uri)
    then some artifact_uri_required
    else if not (truthy p.entrypoint)
    then some entrypoint_required
    else if not scan_required
    then none
    else if not (truthy p.sbom_uri)
    then some sbom_uri_required
    else if is_passed p.security_scan_status
    then none
    else some scan_must_pass

unfoldable pub activation_refusal : PluginSettings → Plugin → Option PluginError
unfolding is_draft function_refusal
activation_refusal cfg p =
    if not (is_draft p.status)
    then some (cannot_activate_from p.status)
    else if is_function_module p
    then function_refusal cfg.scan_required p
    else none

unfoldable pub set_status : PluginStatus → ℕ → Plugin → Plugin
set_status s now p = record p { status = s; updated_at = now }

unfoldable pub activate_plugin : PluginSettings → String → Caller → PluginHandler PluginView
unfolding activation_refusal set_status
activate_plugin cfg id caller =
    amend cfg "plugin.activated" (activation_refusal cfg) (set_status active) id caller

unfoldable pub deprecation_refusal : Plugin → Option PluginError
unfolding is_active_plugin
deprecation_refusal p = if is_active_plugin p.status then none else some only_active

unfoldable pub deprecate_plugin : PluginSettings → String → Caller → PluginHandler PluginView
unfolding deprecation_refusal set_status
deprecate_plugin cfg id caller =
    amend cfg "plugin.deprecated" deprecation_refusal (set_status deprecated) id caller

-- `get_plugin_schema`: the schema, or {} where there is none
unfoldable pub get_plugin_schema : PluginSettings → String → Caller → PluginHandler (String × Json)
unfolding visible_plugin
get_plugin_schema cfg id caller = do
  p ← visible_plugin cfg id caller.user
  pure (id, elim p.input_schema [ none ↦ record { text = "{}" } | some j ↦ j ])

abbrev pub no_refusal : Plugin → Option PluginError
no_refusal p = none

unfoldable pub record_plugin_security_scan :
    PluginSettings → ScanPayload → String → Caller → PluginHandler PluginView
unfolding scan_result set_scan
record_plugin_security_scan cfg p id caller = do
  r ← lift (scan_result cfg p)
  amend cfg "plugin.security_scanned" no_refusal (set_scan cfg p r) id caller
