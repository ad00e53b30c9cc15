-- ===== src/Shadow.antt =====
-- services/device-service/src/device_service/api/shadow.py: the desired and the reported state of a
-- device, merged update by update, and what differs between them. A stored document is the JSON text
-- that `json.dumps` gives, which `json.loads` reads back; here it is the dictionary itself.
pub mod Merge
pub mod Updates
use nexora_platform.Prelude.{
  ℕ, zero, suc, String, Bool, true, false, not, Option, none, some, List, [], ◌∷◌, ◌++◌, keep, ◌==◌,
  if◌then◌else◌,
}
use nexora_platform.Prelude.Text.{Json}
use nexora_platform.Prelude.Table.{find, update, remove}

-- A dictionary in the order of insertion; a null is none.
abbrev pub Doc : Type 0
Doc = List (String × Option Json)

-- `d.get(key)`: a key that is not there gives null
unfoldable pub get : String → Doc → Option Json
get k [] = none
get k ((j, v) ∷ d) = if j == k then v else get k d

-- `d[key] = v`, which keeps the place of a key that is there
unfoldable pub put : String → Option Json → Doc → Doc
put k v [] = (k, v) ∷ []
put k v ((j, x) ∷ d) = if j == k then (j, v) ∷ d else (j, x) ∷ put k v d

-- `{**existing, **state}`
unfoldable pub overwrite : Doc → Doc → Doc
unfolding put
overwrite d [] = d
overwrite d ((k, v) ∷ s) = overwrite (put k v d) s

-- `{k: v for k, v in merged.items() if v is not None}`
unfoldable pub drop_nulls : Doc → Doc
drop_nulls [] = []
drop_nulls ((k, none) ∷ d) = drop_nulls d
drop_nulls ((k, some v) ∷ d) = (k, some v) ∷ drop_nulls d

unfoldable pub merge : Doc → Doc → Doc
unfolding overwrite drop_nulls
merge existing state = drop_nulls (overwrite existing state)

-- equality of two JSON values, null among them
abbrev pub same : Option Json → Option Json → Bool
same none none = true
same none (some b) = false
same (some a) none = false
same (some a) (some b) = a.text == b.text

unfoldable pub compute_delta : Doc → Doc → Doc
unfolding get
compute_delta [] reported = []
compute_delta ((k, v) ∷ d) reported =
    let rest = compute_delta d reported in if same (get k reported) v then rest else (k, v) ∷ rest

pub record DeviceShadow : Type 0 where
  pub device_id : String
  pub desired : Option Doc
  pub reported : Option Doc
  pub delta : Option Doc
  pub version : ℕ
  pub desired_at : Option ℕ
  pub reported_at : Option ℕ
  pub updated_at : ℕ

pub data ShadowEvent : Type 0 where
  delta : (device_id : String) (version : ℕ) → Doc → ShadowEvent
  synced : (device_id : String) (version : ℕ) → ShadowEvent

-- The device service, as far as shadows go: the devices, their shadows, and the events published.
pub record Store : Type 0 where
  pub devices : List String
  pub shadows : List DeviceShadow
  pub published : List ShadowEvent
  pub clock : ℕ

abbrev pub key_of : DeviceShadow → String
key_of s = s.device_id

-- `json.loads(x) if x else {}`
abbrev pub doc_or_empty : Option Doc → Doc
doc_or_empty none = []
doc_or_empty (some d) = d

abbrev pub fresh : String → ℕ → DeviceShadow
fresh d now = record {
  device_id = d;
  desired = none;
  reported = none;
  delta = none;
  version = 1;
  desired_at = none;
  reported_at = none;
  updated_at = now;
}

-- the row that is there, or a new one
abbrev pub or_created : String → Store → Option DeviceShadow → DeviceShadow × Store
or_created d w none = (fresh d w.clock, record w { shadows = w.shadows ++ fresh d w.clock ∷ [] })
or_created d w (some s) = (s, w)

-- `_get_or_create_shadow`
unfoldable pub get_or_create : String → Store → DeviceShadow × Store
get_or_create d w = or_created d w (find key_of d w.shadows)

abbrev pub member : String → List String → Bool
member d [] = false
member d (x ∷ l) = if d == x then true else member d l

-- the assignments of `update_desired`
unfoldable pub set_desired : Doc → ℕ → DeviceShadow → DeviceShadow
unfolding merge compute_delta
set_desired state now s =
    let merged = merge (doc_or_empty s.desired) state in
    record s {
      desired = some merged;
      delta = some (compute_delta merged (doc_or_empty s.reported));
      version = suc s.version;
      desired_at = some now;
      updated_at = now;
    }

-- the assignments of `update_reported`
unfoldable pub set_reported : Doc → ℕ → DeviceShadow → DeviceShadow
unfolding merge compute_delta
set_reported state now s =
    let merged = merge (doc_or_empty s.reported) state in
    record s {
      reported = some merged;
      delta = some (compute_delta (doc_or_empty s.desired) merged);
      version = suc s.version;
      reported_at = some now;
      updated_at = now;
    }

-- what is published after a change of the desired state
unfoldable pub desired_events : DeviceShadow → List ShadowEvent
desired_events s = elim (doc_or_empty s.delta) [
  | [] ↦ []
  | x ∷ l ↦ delta s.device_id s.version (x ∷ l) ∷ []
]

-- and of the reported one
unfoldable pub reported_events : DeviceShadow → List ShadowEvent
reported_events s = elim (doc_or_empty s.delta) [
  | [] ↦ synced s.device_id s.version ∷ []
  | x ∷ l ↦ delta s.device_id s.version (x ∷ l) ∷ []
]

-- `takes` tells whether the broker is connected and takes an event; `event_bus.publish` passes over
-- its failures.
unfoldable pub write_shadow :
    (takes : ShadowEvent → Bool)
    → (DeviceShadow → DeviceShadow)
    → (DeviceShadow → List ShadowEvent)
    → String
    → Store
    → Option DeviceShadow × Store
unfolding get_or_create
write_shadow takes change events d w =
    if member d w.devices
    then (let (s, t) = get_or_create d w in
        (
          some (change s),
          record t {
            shadows = update key_of d change t.shadows;
            published = t.published ++ keep takes (events (change s));
          },
        ))
    else (none, w)

-- none is the 404 for a device that does not exist
unfoldable pub update_desired :
    (takes : ShadowEvent → Bool) → String → Doc → Store → Option DeviceShadow × Store
unfolding write_shadow set_desired desired_events
update_desired takes d state w = write_shadow takes (set_desired state w.clock) desired_events d w

unfoldable pub update_reported :
    (takes : ShadowEvent → Bool) → String → Doc → Store → Option DeviceShadow × Store
unfolding write_shadow set_reported reported_events
update_reported takes d state w =
    write_shadow takes (set_reported state w.clock) reported_events d w

-- `get_shadow`, which answers for a device without a shadow an empty one of version 0
unfoldable pub get_shadow : String → Store → Option DeviceShadow
get_shadow d w =
    if member d w.devices
    then elim (find key_of d w.shadows) [
      | none ↦ some (record (fresh d w.clock) { version = 0 })
      | some s ↦ some s
    ]
    else none

-- true if the device exists
unfoldable pub delete_shadow : String → Store → Bool × Store
delete_shadow d w =
    if member d w.devices
    then (true, record w { shadows = remove key_of d w.shadows })
    else (false, w)
