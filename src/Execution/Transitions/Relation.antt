-- ===== src/Execution/Transitions/Relation.antt =====
-- The row of one execution before and after: its status has moved along the allowed transitions,
-- and its device, key, owner and tenant are the same, or
-- the row is gone; a row that was drawn an id and is gone does not come back.
use nexora_platform.Prelude.{ℕ, ◌≤◌, ◌<◌, ◌≡◌, refl, ◌∙◌, String, Option, none, some, arith}
use nexora_platform.Prelude.Action.Along.{Preorder}
use nexora_platform.Execution.Status.{Reaches, stay, move, Reaches-trans}
use nexora_platform.Execution.Model.{Execution}
use nexora_platform.Execution.World.{Services, World}
use nexora_platform.Execution.Respects.{IsMove, row_of}

-- what no handler changes, and how the status may have moved
pub record Evolves (e e' : Execution) : Type 0 where
  pub moves : Reaches e.status e'.status
  pub device : e'.device_id ≡ e.device_id
  pub key : e'.idempotency_key ≡ e.idempotency_key
  pub owner : e'.owner_id ≡ e.owner_id
  pub tenant : e'.tenant_id ≡ e.tenant_id

abbrev pub RowEvolves : Option Execution → Option Execution → Type 0
RowEvolves none none = Unit
RowEvolves none (some e) = ⊥
RowEvolves (some e) none = Unit
RowEvolves (some e) (some e') = Evolves e e'

pub Evolves-refl : (e : Execution) → Evolves e e
Evolves-refl e = record { moves = stay; device = refl; key = refl; owner = refl; tenant = refl }

Evolves-trans : (a b c : Execution) → Evolves a b → Evolves b c → Evolves a c
Evolves-trans a b c h g = record {
  moves = Reaches-trans h.moves g.moves;
  device = g.device ∙ h.device;
  key = g.key ∙ h.key;
  owner = g.owner ∙ h.owner;
  tenant = g.tenant ∙ h.tenant;
}

pub Evolves-move : (e e' : Execution) → IsMove e e' → Evolves e e'
Evolves-move e e' h = record {
  moves = move stay h.allowed;
  device = h.device;
  key = h.key;
  owner = h.owner;
  tenant = h.tenant;
}

pub RowEvolves-refl : (o : Option Execution) → RowEvolves o o
RowEvolves-refl none = tt
RowEvolves-refl (some e) = Evolves-refl e

pub RowEvolves-trans : (o p q : Option Execution) → RowEvolves o p → RowEvolves p q → RowEvolves o q
RowEvolves-trans none none none h g = tt
RowEvolves-trans none none (some e) h g = g
RowEvolves-trans none (some e) q h g = absurd h
RowEvolves-trans (some e) none none h g = tt
RowEvolves-trans (some e) none (some e') h g = absurd g
RowEvolves-trans (some e) (some e') none h g = tt
RowEvolves-trans (some e) (some e') (some e'') h g = Evolves-trans e e' e'' h g

module _ (ext : Services) where
  -- one of the ids that have been drawn
  abbrev pub IsDrawn : String → World → Type 0
  IsDrawn id w = (i : ℕ) × (i < w.uuids_drawn) × (id ≡ ext.uuid i)

  pub record Follows (id : String) (s t : World) : Type 0 where
    pub drawn : s.uuids_drawn ≤ t.uuids_drawn
    pub moves : IsDrawn id s → RowEvolves (row_of id s) (row_of id t)

  pub Follows-preorder : (id : String) → Preorder (Follows id)
  Follows-preorder id = record {
    here = λ s. record { drawn = omega arith; moves = λ d. RowEvolves-refl (row_of id s) };
    after = λ s t u h g. record {
      drawn = omega (arith, h.drawn, g.drawn);
      moves = λ d.
          RowEvolves-trans (row_of id s) (row_of id t) (row_of id u) (h.moves d)
            (g.moves (d.0, omega (arith, h.drawn), d.2));
    };
  }

  -- nothing about executions or ids has changed
  pub Follows-same :
      (id : String) (s t : World)
      → t.executions ≡ s.executions
      → s.uuids_drawn ≤ t.uuids_drawn
      → Follows id s t
  Follows-same id s t e h = record { drawn = h; moves = λ d. rw e (RowEvolves-refl (row_of id s)) }
