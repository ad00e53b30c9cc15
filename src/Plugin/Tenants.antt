-- ===== src/Plugin/Tenants.antt =====
-- What a user of another tenant can do to a plugin (plugin-service).
use nexora_platform.Prelude.{◌≡◌, refl, String, true, false, Option, some}
use nexora_platform.Prelude.Action.{ok, raised, ◌>>=◌}
use nexora_platform.Prelude.Table.{find}
use nexora_platform.Auth.{is_valid_internal_key}
use nexora_platform.Plugin.{
  Plugin, plugin_key, plugin_to_dict, PluginSettings, plugin_not_found, Catalog, Caller, is_foreign,
  visible_plugin, amend,
}
use nexora_platform.Plugin.Scan.{ScanPayload, ScanResult, scan_result}
use nexora_platform.Plugin.Fields.{UpdateFields}
use nexora_platform.Plugin.Handlers.{
  update_plugin, delete_plugin, activate_plugin, deprecate_plugin, get_plugin, get_for_service,
  get_for_user, get_plugin_schema, record_plugin_security_scan,
}

module _ (cfg : PluginSettings) (caller : Caller) (id : String) (w : Catalog) (p : Plugin) where
  hidden :
      find plugin_key id w.plugins ≡ some p
      → is_foreign cfg caller.user p ≡ true
      → visible_plugin cfg id caller.user w ≡ (raised plugin_not_found, w)
  unfolding visible_plugin ◌>>=◌
  hidden found h = rw (found, h) refl

  -- A plugin of another tenant does not exist for a user who is no platform admin: every operation
  -- answers that it is not found and changes nothing. The one exception is a request for the plugin
  -- with a key that the internal check accepts, which is shown the plugin whoever the user is; where
  -- no internal key is set, the check accepts every request.
  pub foreign_plugin_is_hidden :
      find plugin_key id w.plugins ≡ some p
      → is_foreign cfg caller.user p ≡ true
      → ((x : Option String)
          → is_valid_internal_key cfg.internal_service_key x ≡ false
          → get_plugin cfg x id caller w ≡ (raised plugin_not_found, w))
        × ((x : Option String)
            → is_valid_internal_key cfg.internal_service_key x ≡ true
            → get_plugin cfg x id caller w ≡ (ok (plugin_to_dict p), w))
        × (get_plugin_schema cfg id caller w ≡ (raised plugin_not_found, w))
        × ((u : UpdateFields) → update_plugin cfg u id caller w ≡ (raised plugin_not_found, w))
        × (delete_plugin cfg id caller w ≡ (raised plugin_not_found, w))
        × (activate_plugin cfg id caller w ≡ (raised plugin_not_found, w))
        × (deprecate_plugin cfg id caller w ≡ (raised plugin_not_found, w))
        × ((s : ScanPayload) (r : ScanResult)
            → scan_result cfg s ≡ ok r
            → record_plugin_security_scan cfg s id caller w ≡ (raised plugin_not_found, w))
  unfolding get_plugin get_for_service get_for_user get_plugin_schema update_plugin delete_plugin
      activate_plugin deprecate_plugin record_plugin_security_scan amend ◌>>=◌
  foreign_plugin_is_hidden found h =
      let nothing : visible_plugin cfg id caller.user w ≡ (raised plugin_not_found, w) =
        hidden found h in
      (
        (λ x k. rw (k, nothing) refl),
        (λ x k. rw (k, found) refl),
        rw nothing refl,
        (λ u. rw nothing refl),
        rw nothing refl,
        rw nothing refl,
        rw nothing refl,
        (λ s r e. rw (e, nothing) refl),
      )
