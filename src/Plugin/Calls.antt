-- ===== src/Plugin/Calls.antt =====
-- The calls that change the table of plugins, and how a relation between catalogs that allows each
-- single write holds across every call.
use nexora_platform.Prelude.{
  ℕ, suc, ◌≡◌, refl, ap, String, Bool, true, Option, none, some, List, [], ◌∷◌, ◌++◌,
}
use nexora_platform.Prelude.Action.{Outcome, ok, raised, ◌>>=◌}
use nexora_platform.Prelude.Action.After.{after_gets, after_raise_if, after_lift}
use nexora_platform.Prelude.Table.{find, update, remove}
use nexora_platform.Plugin.{
  Plugin, plugin_key, PluginView, PluginSettings, active, deprecated, PluginError, name_is_required,
  plugin_not_found, Catalog, Caller, amend, audit_plugin,
}
use nexora_platform.Plugin.Amends.{
  AmendEnd, amend-AmendEnd, after_visible, after_draw, after_insert, after_audit,
}
use nexora_platform.Plugin.Scan.{ScanPayload, ScanResult, scan_result, set_scan}
use nexora_platform.Plugin.Fields.{CreateFields, UpdateFields, set_fields, new_plugin}
use nexora_platform.Plugin.Handlers.{
  set_status, create_plugin, update_plugin, delete_plugin, activate_plugin, deprecate_plugin,
  record_plugin_security_scan, activation_refusal, update_refusal, deprecation_refusal, no_refusal,
}

-- The calls that may change the table.
pub data PluginCall : Type 0 where
  created : CreateFields → Caller → PluginCall
  updated : UpdateFields → String → Caller → PluginCall
  deleted : String → Caller → PluginCall
  activated : String → Caller → PluginCall
  retired : String → Caller → PluginCall
  scanned : ScanPayload → String → Caller → PluginCall

module _ (cfg : PluginSettings) (uuid : ℕ → String) where
  unfoldable pub perform : PluginCall → Catalog → Catalog
  perform (created p caller) w = (create_plugin uuid p caller w).1
  perform (updated u id caller) w = (update_plugin cfg u id caller w).1
  perform (deleted id caller) w = (delete_plugin cfg id caller w).1
  perform (activated id caller) w = (activate_plugin cfg id caller w).1
  perform (retired id caller) w = (deprecate_plugin cfg id caller w).1
  perform (scanned p id caller) w = (record_plugin_security_scan cfg p id caller w).1

  unfoldable pub perform_all : List PluginCall → Catalog → Catalog
  perform_all [] w = w
  perform_all (c ∷ cs) w = perform_all cs (perform c w)

-- The changes of a row that the endpoints make, with what each has checked.
pub data IsChange (cfg : PluginSettings) (e : Plugin) : (Plugin → Plugin) → Type 0 where
  updating :
      (u : UpdateFields) (now : ℕ) → update_refusal e ≡ none → IsChange cfg e (set_fields u now)
  activating : (now : ℕ) → activation_refusal cfg e ≡ none → IsChange cfg e (set_status active now)
  retiring : (now : ℕ) → deprecation_refusal e ≡ none → IsChange cfg e (set_status deprecated now)
  scanning : (p : ScanPayload) (r : ScanResult) (now : ℕ) → IsChange cfg e (set_scan cfg p r now)

pub record Allows (cfg : PluginSettings) (removable : String → Bool)
    (R : Catalog → Catalog → Type 0) : Type 0 where
  pub same : (w t : Catalog) → t.plugins ≡ w.plugins → R w t
  pub changed :
      (k : String) (f : Plugin → Plugin) (w t : Catalog) (e : Plugin)
      → t.plugins ≡ update plugin_key k f w.plugins
      → ((q : Plugin) → plugin_key (f q) ≡ plugin_key q)
      → find plugin_key k w.plugins ≡ some e
      → IsChange cfg e f
      → R w t
  pub removed :
      (k : String) (w t : Catalog)
      → t.plugins ≡ remove plugin_key k w.plugins
      → removable k ≡ true
      → R w t
  pub added :
      (w t : Catalog) (id : String) (now : ℕ) (caller : Caller) (p : CreateFields)
      → t.plugins ≡ w.plugins ++ new_plugin id now caller p ∷ []
      → R w t

-- Where a call leaves the catalog, whatever it answers.
record LeadsOn {A : Type 0} (R : Catalog → Catalog → Type 0) (w : Catalog)
    (r : Outcome PluginError A × Catalog) : Type 0 where
  at : R w r.1

abbrev pub spares : (removable : String → Bool) → PluginCall → Bool
spares removable (deleted k caller) = removable k
spares removable _ = true

module _ (cfg : PluginSettings) (removable : String → Bool) (R : Catalog → Catalog → Type 0)
    (law : Allows cfg removable R) where
  amend_leads :
      (action : String) (refusal : Plugin → Option PluginError) (change : ℕ → Plugin → Plugin)
      → ((now : ℕ) (q : Plugin) → plugin_key (change now q) ≡ plugin_key q)
      → ((now : ℕ) (q : Plugin) → refusal q ≡ none → IsChange cfg q (change now))
      → (k : String) (caller : Caller) (w : Catalog)
      → R w (amend cfg action refusal change k caller w).1
  amend_leads action refusal change keyed moves k caller w =
      from_end (amend cfg action refusal change k caller w)
        (amend-AmendEnd cfg action refusal change k caller w)
    where
      from_end :
          (r : Outcome PluginError PluginView × Catalog)
          → AmendEnd cfg action refusal change k caller w r
          → R w r.1
      from_end (raised e, t) h = law.same w t (ap (λ x. x.plugins) (h.refused e refl))
      from_end (ok v, t) h =
          let a = h.amended v refl in
          law.changed k (change w.clock) w t a.before a.rows (keyed w.clock) a.there
            (moves w.clock a.before a.allowed)

  unmoved : {A : Type 0} (e : PluginError) (w : Catalog) → LeadsOn {A = A} R w (raised e, w)
  unmoved e w = record { at = law.same w w refl }

  create_leads :
      (uuid : ℕ → String) (p : CreateFields) (caller : Caller) (w : Catalog)
      → LeadsOn R w (create_plugin uuid p caller w)
  unfolding create_plugin
  create_leads uuid p caller w =
      let Q = LeadsOn {A = PluginView} R w in
      let v : Catalog = record w { uuids_drawn = suc w.uuids_drawn } in
      let id = uuid w.uuids_drawn in
      after_raise_if Q w _ name_is_required _ (λ _. unmoved name_is_required w)
        (λ _. after_gets Q w _ _ (
          after_draw Q uuid w _ (
            after_insert Q (new_plugin id w.clock caller p) v _ (record { at = law.same w v refl })
              (λ _.
                after_audit Q _ _ _ caller _ _
                  (λ t kept. record { at = law.added w t id w.clock caller p kept.plugins })))))

  delete_leads :
      (k : String) (caller : Caller) (w : Catalog)
      → removable k ≡ true
      → LeadsOn R w (delete_plugin cfg k caller w)
  unfolding delete_plugin audit_plugin ◌>>=◌
  delete_leads k caller w h =
      after_visible (LeadsOn R w) cfg k caller.user w _ (unmoved plugin_not_found w)
        (λ p there seen. record { at = law.removed k w _ refl h })

  scan_leads :
      (p : ScanPayload) (k : String) (caller : Caller) (w : Catalog)
      → LeadsOn R w (record_plugin_security_scan cfg p k caller w)
  unfolding record_plugin_security_scan set_scan
  scan_leads p k caller w =
      after_lift (LeadsOn R w) w (scan_result cfg p) _ (λ e _. unmoved e w)
        (λ r _. record {
          at =
              amend_leads "plugin.security_scanned" no_refusal (set_scan cfg p r) (λ now q. refl)
                (λ now q _. scanning p r now) k caller w;
        })

  pub perform_leads :
      (uuid : ℕ → String) (c : PluginCall) (w : Catalog)
      → spares removable c ≡ true
      → R w (perform cfg uuid c w)
  unfolding perform update_plugin activate_plugin deprecate_plugin set_fields set_status
  perform_leads uuid (created p caller) w h = (create_leads uuid p caller w).at
  perform_leads uuid (updated u k caller) w h =
      amend_leads _ update_refusal (set_fields u) (λ now q. refl) (λ now q. updating u now) k caller
        w
  perform_leads uuid (deleted k caller) w h = (delete_leads k caller w h).at
  perform_leads uuid (activated k caller) w h =
      amend_leads _ (activation_refusal cfg) (set_status active) (λ now q. refl)
        (λ now q. activating now) k caller w
  perform_leads uuid (retired k caller) w h =
      amend_leads _ deprecation_refusal (set_status deprecated) (λ now q. refl)
        (λ now q. retiring now) k caller w
  perform_leads uuid (scanned p k caller) w h = (scan_leads p k caller w).at
