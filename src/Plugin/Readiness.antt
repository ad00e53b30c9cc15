-- ===== src/Plugin/Readiness.antt =====
-- What every plugin that has left the draft status has (services/plugin-service).
use nexora_platform.Prelude.{ℕ, ◌≡◌, String, Bool, true, false, none, List, [], ◌∷◌, arith, All}
use nexora_platform.Prelude.Text.{truthy}
use nexora_platform.Prelude.Table.{All-find, All-update, All-append_one, All-remove}
use nexora_platform.Plugin.{Plugin, plugin_key, PluginSettings, Catalog}
use nexora_platform.Plugin.Scan.{set_scan}
use nexora_platform.Plugin.Fields.{set_fields, new_plugin}
use nexora_platform.Plugin.Handlers.{
  set_status, is_draft, is_active_plugin, is_function_module, function_refusal, activation_refusal,
  update_refusal, deprecation_refusal,
}
use nexora_platform.Plugin.Calls.{
  PluginCall, perform, perform_all, IsChange, updating, activating, retiring, scanning, Allows,
  spares, perform_leads,
}

-- A function that is no draft can be fetched and started.
pub record IsReady (p : Plugin) : Type 0 where
  pub fetched :
      is_draft p.status ≡ false → is_function_module p ≡ true → truthy p.artifact_uri ≡ true
  pub started : is_draft p.status ≡ false → is_function_module p ≡ true → truthy p.entrypoint ≡ true

module _ (cfg : PluginSettings) where
  refusal_checks :
      (q : Plugin)
      → activation_refusal cfg q ≡ none
      → is_function_module q ≡ true
      → (truthy q.artifact_uri ≡ true) × (truthy q.entrypoint ≡ true)
  unfolding activation_refusal function_refusal
  refusal_checks q h f = (ground (arith, h, f), ground (arith, h, f))

  change-IsReady : (q : Plugin) (f : Plugin → Plugin) → IsChange cfg q f → IsReady q → IsReady (f q)
  unfolding update_refusal set_fields set_status set_scan deprecation_refusal is_active_plugin
      is_draft
  change-IsReady q f (updating u now h) r = record {
    fetched = λ out g. absurd (ground (arith, h, out));
    started = λ out g. absurd (ground (arith, h, out));
  }
  change-IsReady q f (activating now h) r = record {
    fetched = λ out g. (refusal_checks q h g).0;
    started = λ out g. (refusal_checks q h g).1;
  }
  change-IsReady q f (retiring now h) r = record {
    fetched = λ out g. r.fetched (ground (arith, h)) g;
    started = λ out g. r.started (ground (arith, h)) g;
  }
  change-IsReady q f (scanning p s now) r = record { fetched = r.fetched; started = r.started }

  pub record StaysReady (w t : Catalog) : Type 0 where
    pub at : All IsReady w.plugins → All IsReady t.plugins

  abbrev pub any_plugin : String → Bool
  any_plugin k = true

  StaysReady-Allows : Allows cfg any_plugin StaysReady
  unfolding new_plugin is_draft
  StaysReady-Allows = record {
    same = λ w t rows. record { at = λ a. rw rows a };
    changed = λ k f w t e rows keyed there c. record {
      at = λ a. rw rows (
          All-update plugin_key IsReady k f w.plugins there
            (change-IsReady e f c (All-find plugin_key IsReady k w.plugins a there)) a);
    };
    removed =
        λ k w t rows h. record { at = λ a. rw rows (All-remove plugin_key IsReady k w.plugins a) };
    added = λ w t id now caller p rows. record {
      at = λ a. rw rows (
          All-append_one plugin_key IsReady _ w.plugins a
            (record { fetched = λ out g. absurd cc; started = λ out g. absurd cc }));
    };
  }

  -- Where every function that is no draft has an artifact and an entry point, every run of calls
  -- leaves it so: none is activated without them, and none loses them afterwards.
  pub run-IsReady :
      (uuid : ℕ → String) (cs : List PluginCall) (w : Catalog)
      → All IsReady w.plugins
      → All IsReady (perform_all cfg uuid cs w).plugins
  unfolding perform_all
  run-IsReady uuid [] w a = a
  run-IsReady uuid (c ∷ cs) w a =
      run-IsReady uuid cs (perform cfg uuid c w)
        ((perform_leads cfg any_plugin StaysReady StaysReady-Allows uuid c w (all_spared c)).at a)
    where
      all_spared : (c : PluginCall) → spares any_plugin c ≡ true
      all_spared c = ground arith
