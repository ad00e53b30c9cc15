-- ===== src/Plugin/Lifecycle.antt =====
-- How the row of a plugin may change (services/plugin-service).
use nexora_platform.Prelude.{
  ◌≡◌, refl, subst, ◌∙◌, inl, inr, String, true, false, Option, some, [], ◌∷◌, arith, ◌++◌, ◌==◌,
  Bool-cases, if◌then◌else◌, eq_iff,
}
use mathlib.Core.Option
use nexora_platform.Prelude.Table.{find, update, remove, find-update, find-remove, find-append_one}
use nexora_platform.Prelude.Int.{ℤ}
use nexora_platform.Prelude.Text.{Json}
use nexora_platform.Plugin.{
  Plugin, plugin_key, PluginStatus, draft, active, deprecated, archived, may_become, Catalog,
}
use nexora_platform.Plugin.Handlers.{is_draft}

-- Statuses that follow from one another by the table of transitions.
pub data Reaches (s : PluginStatus) : PluginStatus → Type 0 where
  stay : Reaches s s
  move : {t u : PluginStatus} → Reaches s t → may_become t u ≡ true → Reaches s u

pub Reaches-trans : {s t u : PluginStatus} → Reaches s t → Reaches t u → Reaches s u
Reaches-trans h stay = h
Reaches-trans h (move g m) = move (Reaches-trans h g) m

leaves_draft : (t u : PluginStatus) → may_become t u ≡ true → is_draft u ≡ false
unfolding may_become is_draft
leaves_draft draft draft h = absurd cc
leaves_draft active draft h = absurd cc
leaves_draft deprecated draft h = absurd cc
leaves_draft archived draft h = absurd cc
leaves_draft t active h = refl
leaves_draft t deprecated h = refl
leaves_draft t archived h = refl

pub stays_out : {s t : PluginStatus} → Reaches s t → is_draft s ≡ false → is_draft t ≡ false
stays_out stay h = h
stays_out {t = t} (move {t = v} g m) h = leaves_draft v t m

-- What devices run: the fields of a plugin that its activation publishes.
pub record Artifact : Type 0 where
  pub name : String
  pub version : String
  pub module_type : String
  pub artifact_uri : Option String
  pub artifact_checksum : Option String
  pub runtime_type : Option String
  pub entrypoint : Option String
  pub limits : ℤ × ℤ
  pub permissions : Option Json
  pub required_capabilities : Option Json
  pub schemas : Option Json × Option Json

abbrev pub artifact_of : Plugin → Artifact
artifact_of p = record {
  name = p.name;
  version = p.version;
  module_type = p.module_type;
  artifact_uri = p.artifact_uri;
  artifact_checksum = p.artifact_checksum;
  runtime_type = p.runtime_type;
  entrypoint = p.entrypoint;
  limits = (p.timeout_seconds, p.memory_limit_mb);
  permissions = p.permissions;
  required_capabilities = p.required_capabilities;
  schemas = (p.input_schema, p.env_schema);
}

pub record Moves (p q : Plugin) : Type 0 where
  pub status : Reaches p.status q.status
  pub tenant : q.tenant_id ≡ p.tenant_id
  pub owner : q.owner_id ≡ p.owner_id
  pub frozen : is_draft p.status ≡ false → artifact_of q ≡ artifact_of p

pub Moves-trans : (p q r : Plugin) → Moves p q → Moves q r → Moves p r
Moves-trans p q r h k = record {
  status = Reaches-trans h.status k.status;
  tenant = cc;
  owner = cc;
  frozen = λ out. k.frozen (stays_out h.status out) ∙ h.frozen out;
}

-- A plugin that is found after a call has moved from what it was.
pub record MovedTo (p : Plugin) (o : Option Plugin) : Type 0 where
  pub after : Plugin
  pub there : o ≡ some after
  pub moves : Moves p after

pub record Follows (id : String) (w t : Catalog) : Type 0 where
  pub at :
      (p : Plugin)
      → find plugin_key id w.plugins ≡ some p
      → MovedTo p (find plugin_key id t.plugins)

pub Moves-refl : (p : Plugin) → Moves p p
Moves-refl p = record { status = stay; tenant = refl; owner = refl; frozen = λ _. refl }

pub Follows-same : (id : String) (w t : Catalog) → t.plugins ≡ w.plugins → Follows id w t
Follows-same id w t same = record {
  at = λ p h. record { after = p; there = cc; moves = Moves-refl p };
}

pub Follows-update :
    (id k : String) (f : Plugin → Plugin) (w t : Catalog) (e : Plugin)
    → t.plugins ≡ update plugin_key k f w.plugins
    → ((q : Plugin) → plugin_key (f q) ≡ plugin_key q)
    → find plugin_key k w.plugins ≡ some e
    → Moves e (f e)
    → Follows id w t
Follows-update id k f w t e rows keyed there moves = record {
  at = λ p h.
      let found : find plugin_key id t.plugins ≡ (
          if k == id
          then Option.map f (find plugin_key id w.plugins)
          else find plugin_key id w.plugins) =
        rw rows (find-update plugin_key id k f w.plugins keyed) in
      elim (Bool-cases (k == id)) [
        | inl same ↦
            let key : k ≡ id = ground (arith, same, eq_iff k id) in
            let row : e ≡ p = ground (arith, there, key, h) in
            record {
              after = f e;
              there = ground (arith, found, same, row, h);
              moves = subst (λ q. Moves q (f e)) row moves;
            }
        | inr other ↦ record {
          after = p;
          there = ground (arith, found, other, h);
          moves = Moves-refl p;
        }
      ];
}

pub Follows-remove :
    (id k : String) (w t : Catalog)
    → t.plugins ≡ remove plugin_key k w.plugins
    → (k == id) ≡ false
    → Follows id w t
Follows-remove id k w t rows other = record {
  at = λ p h.
      let found : find plugin_key id t.plugins ≡ find plugin_key id w.plugins =
        rw rows (ground (arith, find-remove plugin_key id k w.plugins, other)) in
      record { after = p; there = cc; moves = Moves-refl p };
}

pub Follows-append :
    (id : String) (w t : Catalog) (e : Plugin) → t.plugins ≡ w.plugins ++ e ∷ [] → Follows id w t
Follows-append id w t e rows = record {
  at = λ p h.
      let found : find plugin_key id (w.plugins ++ e ∷ []) ≡ some p =
        rw (find-append_one plugin_key id e w.plugins, h) refl in
      record { after = p; there = rw rows found; moves = Moves-refl p };
}
