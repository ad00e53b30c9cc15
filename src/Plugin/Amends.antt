-- ===== src/Plugin/Amends.antt =====
-- How an endpoint that changes a plugin ends.
use nexora_platform.Prelude.{
  ℕ, suc, ◌≡◌, refl, any, if◌then◌else◌, ◌==◌, String, Bool, true, false, Option, none, some, ◌++◌,
  [], ◌∷◌, length, length-append, arith,
}
use nexora_platform.Prelude.Action.{Outcome, ok, raised, pure, or_raise, raise_if, ◌>>=◌}
use nexora_platform.Prelude.Action.After.{after_gets, after_raise_found}
use nexora_platform.Prelude.Table.{find, update}
use nexora_platform.Auth.{CurrentUser}
use nexora_platform.Plugin.Handlers.{draw_id, insert_plugin}
use nexora_platform.Plugin.{
  integrity_error, Plugin, plugin_key, PluginView, plugin_to_dict, PluginSettings, PluginError,
  Catalog, Caller, PluginHandler, plugin_not_found, audit_plugin, is_foreign, visible_plugin,
  commit_plugin, amend,
}

-- `visible_plugin` and what follows it: two refusals, or a row that the user may see.
pub after_visible :
    {B : Type 0} (Q : Outcome PluginError B × Catalog → Type 0) (cfg : PluginSettings) (id : String)
    (user : CurrentUser) (w : Catalog) (k : Plugin → PluginHandler B)
    → Q (raised plugin_not_found, w)
    → ((p : Plugin)
        → find plugin_key id w.plugins ≡ some p
        → is_foreign cfg user p ≡ false
        → Q (k p w))
    → Q ((visible_plugin cfg id user >>= k) w)
unfolding visible_plugin ◌>>=◌
after_visible Q cfg id user w k absent go = by_row (find plugin_key id w.plugins) refl
  where
    by_test :
        (p : Plugin) (b : Bool)
        → find plugin_key id w.plugins ≡ some p
        → is_foreign cfg user p ≡ b
        → Q (((raise_if b plugin_not_found >>= λ _. pure p) >>= k) w)
    by_test p true e f = absent
    by_test p false e f = go p e f

    by_row :
        (o : Option Plugin)
        → find plugin_key id w.plugins ≡ o
        → Q (
            ((or_raise o plugin_not_found >>= λ p.
            raise_if (is_foreign cfg user p) plugin_not_found >>= λ _. pure p)
                >>= k)
              w)
    by_row none e = absent
    by_row (some p) e = by_test p (is_foreign cfg user p) e refl

pub after_draw :
    {B : Type 0} (Q : Outcome PluginError B × Catalog → Type 0) (uuid : ℕ → String) (w : Catalog)
    (k : String → PluginHandler B)
    → Q (k (uuid w.uuids_drawn) (record w { uuids_drawn = suc w.uuids_drawn }))
    → Q ((draw_id uuid >>= k) w)
unfolding draw_id ◌>>=◌
after_draw Q uuid w k h = h

-- The table and the number of drawn ids after an audit.
pub record SamePlugins (w t : Catalog) : Type 0 where
  pub plugins : t.plugins ≡ w.plugins
  pub drawn : t.uuids_drawn ≡ w.uuids_drawn
  pub clock : t.clock ≡ w.clock
  pub audited : length t.audits ≡ suc (length w.audits)

pub after_audit :
    {B : Type 0} (Q : Outcome PluginError B × Catalog → Type 0) (action id : String)
    (tenant_id : Option String) (caller : Caller) (w : Catalog) (b : B)
    → ((t : Catalog) → SamePlugins w t → Q (ok b, t))
    → Q ((audit_plugin action id tenant_id caller >>= λ _. pure b) w)
unfolding audit_plugin ◌>>=◌
after_audit Q action id tenant_id caller w b h = h _ (record {
  plugins = refl;
  drawn = refl;
  clock = refl;
  audited = omega (arith, length-append w.audits _);
})

-- `insert_plugin` and what follows it
pub after_insert :
    {B : Type 0} (Q : Outcome PluginError B × Catalog → Type 0) (p : Plugin) (w : Catalog)
    (k : Unit {0} → PluginHandler B)
    → Q (raised integrity_error, w)
    → (any (λ q. q.id == p.id) w.plugins ≡ false
        → Q (k tt (record w { plugins = w.plugins ++ p ∷ [] })))
    → Q ((insert_plugin p >>= k) w)
unfolding insert_plugin ◌>>=◌
after_insert Q p w k refused go = by_test (any (λ q. q.id == p.id) w.plugins) refl
  where
    by_test :
        (b : Bool)
        → any (λ q. q.id == p.id) w.plugins ≡ b
        → Q (
            ((λ v.
                  if b
                  then (raised integrity_error, v)
                  else (ok tt, record v { plugins = v.plugins ++ p ∷ [] }))
                >>= k)
              w)
    by_test true e = refused
    by_test false e = go e

module _ (cfg : PluginSettings) (action : String) (refusal : Plugin → Option PluginError)
    (change : ℕ → Plugin → Plugin) (id : String) (caller : Caller) (w : Catalog) where
  -- What has been checked when a plugin is changed, and what has been written.
  pub record Amended (t : Catalog) (v : PluginView) : Type 0 where
    pub before : Plugin
    pub there : find plugin_key id w.plugins ≡ some before
    pub visible : is_foreign cfg caller.user before ≡ false
    pub allowed : refusal before ≡ none
    pub rows : t.plugins ≡ update plugin_key id (change w.clock) w.plugins
    pub shown : v ≡ plugin_to_dict (change w.clock before)
    pub audited : length t.audits ≡ suc (length w.audits)

  pub record AmendEnd (r : Outcome PluginError PluginView × Catalog) : Type 0 where
    pub refused : (e : PluginError) → r.0 ≡ raised e → r.1 ≡ w
    pub amended : (v : PluginView) → r.0 ≡ ok v → Amended r.1 v

  refusal_end : (e : PluginError) → AmendEnd (raised e, w)
  refusal_end e = record { refused = λ x h. refl; amended = λ v h. absurd cc }

  amended_end :
      (p : Plugin)
      → find plugin_key id w.plugins ≡ some p
      → is_foreign cfg caller.user p ≡ false
      → refusal p ≡ none
      → AmendEnd (
          (commit_plugin id (change w.clock) >>= λ _.
          audit_plugin action id p.tenant_id caller >>= λ _.
          pure (plugin_to_dict (change w.clock p)))
            w)
  unfolding ◌>>=◌ commit_plugin audit_plugin
  amended_end p there visible allowed = record {
    refused = λ e h. absurd cc;
    amended = λ v h. record {
      before = p;
      there = there;
      visible = visible;
      allowed = allowed;
      rows = refl;
      shown = cc;
      audited = omega (arith, length-append w.audits _);
    };
  }

  pub amend-AmendEnd : AmendEnd (amend cfg action refusal change id caller w)
  unfolding amend
  amend-AmendEnd =
      let Q = AmendEnd in
      after_visible Q cfg id caller.user w _ (refusal_end plugin_not_found) (λ p there visible.
        after_raise_found Q w (refusal p) _ (λ e _. refusal_end e)
          (λ allowed. after_gets Q w _ _ (amended_end p there visible allowed)))
