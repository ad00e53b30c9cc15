-- ===== src/Plugin/Histories.antt =====
-- What becomes of a plugin over any run of calls of the plugin service.
use nexora_platform.Prelude.{
  ℕ, ◌≡◌, refl, String, Bool, true, not, none, some, List, [], ◌∷◌, arith, All, ◌==◌,
}
use nexora_platform.Prelude.Table.{find}
use nexora_platform.Plugin.{
  Plugin, plugin_key, PluginSettings, active, deprecated, may_become, Catalog,
}
use nexora_platform.Plugin.Lifecycle.{
  stay, move, Moves, MovedTo, Follows, Follows-same, Follows-update, Follows-remove, Follows-append,
  Moves-refl, Moves-trans,
}
use nexora_platform.Plugin.Scan.{set_scan}
use nexora_platform.Plugin.Fields.{set_fields}
use nexora_platform.Plugin.Handlers.{
  set_status, is_draft, is_active_plugin, activation_refusal, update_refusal, deprecation_refusal,
}
use nexora_platform.Plugin.Calls.{
  PluginCall, perform, perform_all, IsChange, updating, activating, retiring, scanning, Allows,
  spares, perform_leads,
}

module _ (cfg : PluginSettings) where
  activation_allowed :
      (q : Plugin) → activation_refusal cfg q ≡ none → may_become q.status active ≡ true
  unfolding activation_refusal is_draft may_become
  activation_allowed q h = ground (arith, h)

  deprecation_allowed :
      (q : Plugin) → deprecation_refusal q ≡ none → may_become q.status deprecated ≡ true
  unfolding deprecation_refusal is_active_plugin may_become
  deprecation_allowed q h = ground (arith, h)

  change-Moves : (q : Plugin) (f : Plugin → Plugin) → IsChange cfg q f → Moves q (f q)
  unfolding update_refusal set_fields set_status set_scan
  change-Moves q f (updating u now h) = record {
    status = stay;
    tenant = refl;
    owner = refl;
    frozen = λ out. absurd (ground (arith, h, out));
  }
  change-Moves q f (activating now h) = record {
    status = move stay (activation_allowed q h);
    tenant = refl;
    owner = refl;
    frozen = λ _. refl;
  }
  change-Moves q f (retiring now h) = record {
    status = move stay (deprecation_allowed q h);
    tenant = refl;
    owner = refl;
    frozen = λ _. refl;
  }
  change-Moves q f (scanning p r now) = record {
    status = stay;
    tenant = refl;
    owner = refl;
    frozen = λ _. refl;
  }

  -- every plugin but this one may be removed
  abbrev pub other_than : String → String → Bool
  other_than id k = not (k == id)

  Follows-Allows : (id : String) → Allows cfg (other_than id) (Follows id)
  Follows-Allows id = record {
    same = Follows-same id;
    changed = λ k f w t e rows keyed there c.
        Follows-update id k f w t e rows keyed there (change-Moves e f c);
    removed = λ k w t rows h. Follows-remove id k w t rows (ground (arith, h));
    added = λ w t k now caller p rows. Follows-append id w t _ rows;
  }

  -- Over any run of calls that does not delete it, a plugin stays in the table, keeps its tenant and
  -- its owner, and its status moves only along the table of transitions. Once it is no draft, its
  -- name, version, artifact, entry point, limits, permissions and schemas stay what they are.
  pub run-Moves :
      (uuid : ℕ → String) (id : String) (cs : List PluginCall) (w : Catalog) (p : Plugin)
      → All (λ c. spares (other_than id) c ≡ true) cs
      → find plugin_key id w.plugins ≡ some p
      → MovedTo p (find plugin_key id (perform_all cfg uuid cs w).plugins)
  unfolding perform_all
  run-Moves uuid id [] w p a h = record { after = p; there = h; moves = Moves-refl p }
  run-Moves uuid id (c ∷ cs) w p a h =
      let first =
        (perform_leads cfg (other_than id) (Follows id) (Follows-Allows id) uuid c w a.0).at p h in
      let rest = run-Moves uuid id cs (perform cfg uuid c w) first.after a.1 first.there in
      record {
        after = rest.after;
        there = rest.there;
        moves = Moves-trans p first.after rest.after first.moves rest.moves;
      }
