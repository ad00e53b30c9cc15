-- ===== src/Plugin/Refusals.antt =====
-- What a refused call of the plugin service leaves, when it refuses an activation, and what a user of
-- another tenant can do.
use nexora_platform.Prelude.{ℕ, suc, ◌≡◌, refl, ap, String, true, false, Option, some, arith}
use nexora_platform.Prelude.Text.{truthy}
use nexora_platform.Prelude.Action.{Outcome, ok, raised, ◌>>=◌}
use nexora_platform.Prelude.Action.After.{after_gets, after_raise_if, after_lift}
use nexora_platform.Prelude.Table.{find}
use nexora_platform.Plugin.{
  Plugin, plugin_key, PluginView, plugin_to_dict, PluginSettings, PluginStatus, draft, active,
  PluginError, name_is_required, plugin_not_found, Catalog, Caller, audit_plugin, is_foreign, amend,
}
use nexora_platform.Plugin.Amends.{
  amend-AmendEnd, after_visible, after_draw, after_insert, after_audit,
}
use nexora_platform.Plugin.Scan.{ScanPayload, scan_result, set_scan}
use nexora_platform.Plugin.Fields.{CreateFields, UpdateFields, set_fields, new_plugin}
use nexora_platform.Plugin.Handlers.{
  set_status, is_draft, is_function_module, is_passed, function_refusal, create_plugin,
  update_plugin, delete_plugin, activate_plugin, deprecate_plugin, record_plugin_security_scan,
  activation_refusal, update_refusal, deprecation_refusal, no_refusal,
}

pub record SameRows (w t : Catalog) : Type 0 where
  pub plugins : t.plugins ≡ w.plugins
  pub audits : t.audits ≡ w.audits

-- A call that answers with an error has left the rows and the audit trail alone.
pub record WritesNothing {A : Type 0} (w : Catalog) (r : Outcome PluginError A × Catalog)
    : Type 0 where
  pub if_refused : (e : PluginError) → r.0 ≡ raised e → SameRows w r.1

untouched : {A : Type 0} (e : PluginError) (w : Catalog) → WritesNothing {A = A} w (raised e, w)
untouched e w = record { if_refused = λ x h. record { plugins = refl; audits = refl } }

accepted : {A : Type 0} (a : A) (w t : Catalog) → WritesNothing w (ok a, t)
accepted a w t = record { if_refused = λ x h. absurd cc }

module _ (cfg : PluginSettings) (w : Catalog) (caller : Caller) where
  amend-WritesNothing :
      (action : String) (refusal : Plugin → Option PluginError) (change : ℕ → Plugin → Plugin)
      (id : String)
      → WritesNothing w (amend cfg action refusal change id caller w)
  amend-WritesNothing action refusal change id = record {
    if_refused = λ e h.
        let same = (amend-AmendEnd cfg action refusal change id caller w).refused e h in
        record { plugins = ap (λ x. x.plugins) same; audits = ap (λ x. x.audits) same };
  }

  create-WritesNothing :
      (uuid : ℕ → String) (p : CreateFields) → WritesNothing w (create_plugin uuid p caller w)
  unfolding create_plugin
  create-WritesNothing uuid p =
      let Q = WritesNothing {A = PluginView} w in
      let v : Catalog = record w { uuids_drawn = suc w.uuids_drawn } in
      after_raise_if Q w _ name_is_required _ (λ _. untouched name_is_required w)
        (λ _. after_gets Q w _ _ (
          after_draw Q uuid w _ (
            after_insert Q (new_plugin (uuid w.uuids_drawn) w.clock caller p) v _
              (record { if_refused = λ x h. record { plugins = refl; audits = refl } })
              (λ _. after_audit Q _ _ _ caller _ _ (λ t kept. accepted _ w t)))))

  delete-WritesNothing : (id : String) → WritesNothing w (delete_plugin cfg id caller w)
  unfolding delete_plugin audit_plugin ◌>>=◌
  delete-WritesNothing id =
      after_visible (WritesNothing w) cfg id caller.user w _ (untouched plugin_not_found w)
        (λ p there seen. accepted _ w _)

  scan-WritesNothing :
      (p : ScanPayload) (id : String)
      → WritesNothing w (record_plugin_security_scan cfg p id caller w)
  unfolding record_plugin_security_scan
  scan-WritesNothing p id =
      after_lift (WritesNothing w) w (scan_result cfg p) _ (λ e _. untouched e w)
        (λ r _. amend-WritesNothing _ no_refusal (set_scan cfg p r) id)

  -- Whatever the error is, a call that is refused has written no row and no audit event: a creation,
  -- an update, a deletion, an activation, a deprecation and the record of a scan.
  pub refused_call-WritesNothing :
      ((uuid : ℕ → String) (p : CreateFields) → WritesNothing w (create_plugin uuid p caller w))
      × ((u : UpdateFields) (id : String) → WritesNothing w (update_plugin cfg u id caller w))
      × ((id : String) → WritesNothing w (delete_plugin cfg id caller w))
      × ((id : String) → WritesNothing w (activate_plugin cfg id caller w))
      × ((id : String) → WritesNothing w (deprecate_plugin cfg id caller w))
      × ((p : ScanPayload) (id : String)
          → WritesNothing w (record_plugin_security_scan cfg p id caller w))
  unfolding update_plugin activate_plugin deprecate_plugin
  refused_call-WritesNothing = (
    create-WritesNothing,
    (λ u id. amend-WritesNothing _ update_refusal (set_fields u) id),
    delete-WritesNothing,
    (λ id. amend-WritesNothing _ (activation_refusal cfg) (set_status active) id),
    (λ id. amend-WritesNothing _ deprecation_refusal (set_status _) id),
    scan-WritesNothing,
  )

  -- What an activation that is accepted has found.
  pub record PassedGate (id : String) (v : PluginView) : Type 0 where
    pub before : Plugin
    pub there : find plugin_key id w.plugins ≡ some before
    pub visible : is_foreign cfg caller.user before ≡ false
    pub was_draft : before.status ≡ draft
    pub now_active : v.status ≡ active
    pub artifact : is_function_module before ≡ true → truthy before.artifact_uri ≡ true
    pub entrypoint : is_function_module before ≡ true → truthy before.entrypoint ≡ true
    pub sbom :
        is_function_module before ≡ true → cfg.scan_required ≡ true → truthy before.sbom_uri ≡ true
    pub scan :
        is_function_module before ≡ true
        → cfg.scan_required ≡ true
        → is_passed before.security_scan_status ≡ true

  draft-is_draft : (s : PluginStatus) → is_draft s ≡ true → s ≡ draft
  unfolding is_draft
  draft-is_draft draft h = refl
  draft-is_draft _ h = absurd cc

  -- An activation that is accepted found a draft that the caller may see. A function had an artifact
  -- and an entry point, and where scans are required also a bill of materials and a passed scan. The
  -- answer shows the plugin as active.
  pub activate-PassedGate :
      (id : String) (v : PluginView) → (activate_plugin cfg id caller w).0 ≡ ok v → PassedGate id v
  unfolding activate_plugin activation_refusal function_refusal set_status plugin_to_dict
  activate-PassedGate id v h =
      let a =
        (amend-AmendEnd cfg _ (activation_refusal cfg) (set_status active) id caller w).amended v
          h in
      let ok_row = a.allowed in
      record {
        before = a.before;
        there = a.there;
        visible = a.visible;
        was_draft = draft-is_draft a.before.status (ground (arith, ok_row));
        now_active = rw a.shown refl;
        artifact = λ f. ground (arith, ok_row, f);
        entrypoint = λ f. ground (arith, ok_row, f);
        sbom = λ f required. ground (arith, ok_row, f, required);
        scan = λ f required. ground (arith, ok_row, f, required);
      }
