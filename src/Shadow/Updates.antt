-- ===== src/Shadow/Updates.antt =====
-- What an update of a shadow stores and publishes.
use nexora_platform.Prelude.{
  suc, ◌≡◌, refl, ◌∙◌, String, Bool, true, Option, none, some, List, [], ◌∷◌, ◌++◌, keep, eq_refl,
}
use nexora_platform.Prelude.Text.{Json}
use nexora_platform.Prelude.Table.{find, find-update, find-append_one, key-find}
use nexora_platform.Shadow.{
  Doc, merge, compute_delta, DeviceShadow, ShadowEvent, delta, synced, Store, key_of, doc_or_empty,
  member, fresh, or_created, get_or_create, set_reported, reported_events, write_shadow,
  update_reported, get_shadow,
}

-- The shadow that an update starts from: it is in the table, it is the device's, and the rest of the
-- service is as it was.
record Opened (d : String) (w : Store) (r : DeviceShadow × Store) : Type 0 where
  found : find key_of d r.1.shadows ≡ some r.0
  own : r.0.device_id ≡ d
  published : r.1.published ≡ w.published
  devices : r.1.devices ≡ w.devices

get_or_create-Opened : (d : String) (w : Store) → Opened d w (get_or_create d w)
unfolding get_or_create
get_or_create-Opened d w = go (find key_of d w.shadows) refl
  where
    go : (o : Option DeviceShadow) → find key_of d w.shadows ≡ o → Opened d w (or_created d w o)
    go (some s) e = record {
      found = e;
      own = key-find key_of d w.shadows e;
      published = refl;
      devices = refl;
    }
    go none e = record {
      found = find-append_one key_of d (fresh d w.clock) w.shadows ∙ rw (e, eq_refl d) refl;
      own = refl;
      published = refl;
      devices = refl;
    }

-- What a report leaves, from the shadow that was there or was opened for it.
pub record AfterReport (takes : ShadowEvent → Bool) (d : String) (state : Doc) (w : Store)
    (r : Option DeviceShadow × Store) : Type 0 where
  pub old : DeviceShadow
  pub opened : old ≡ (get_or_create d w).0
  pub new : DeviceShadow
  pub answered : r.0 ≡ some new
  pub read_back : get_shadow d r.1 ≡ some new
  pub next_version : new.version ≡ suc old.version
  pub desired : new.desired ≡ old.desired
  pub reported : new.reported ≡ some (merge (doc_or_empty old.reported) state)
  pub difference :
      doc_or_empty new.delta
      ≡ compute_delta (doc_or_empty old.desired) (merge (doc_or_empty old.reported) state)
  pub in_sync :
      doc_or_empty new.delta ≡ []
      → r.1.published ≡ w.published ++ keep takes (synced d new.version ∷ [])
  pub differing :
      (x : String × Option Json) (l : Doc)
      → doc_or_empty new.delta ≡ x ∷ l
      → r.1.published ≡ w.published ++ keep takes (delta d new.version (x ∷ l) ∷ [])

events_in_sync :
    (s : DeviceShadow)
    → doc_or_empty s.delta ≡ []
    → reported_events s ≡ synced s.device_id s.version ∷ []
unfolding reported_events
events_in_sync s h = rw (reported_events, h) refl

events_differing :
    (s : DeviceShadow) (x : String × Option Json) (l : Doc)
    → doc_or_empty s.delta ≡ x ∷ l
    → reported_events s ≡ delta s.device_id s.version (x ∷ l) ∷ []
unfolding reported_events
events_differing s x l h = rw (reported_events, h) refl

read_after :
    (takes : ShadowEvent → Bool) (change : DeviceShadow → DeviceShadow)
    (events : DeviceShadow → List ShadowEvent) (d : String) (w : Store)
    → member d w.devices ≡ true
    → ((s : DeviceShadow) → key_of (change s) ≡ key_of s)
    → get_shadow d (write_shadow takes change events d w).1 ≡ some (change (get_or_create d w).0)
unfolding get_shadow write_shadow
read_after takes change events d w there keeps =
    let o = get_or_create-Opened d w in
    let changed = find-update key_of d d change (get_or_create d w).1.shadows keeps in
    rw (there, o.devices, there, changed, eq_refl d, o.found) refl

published_after :
    (takes : ShadowEvent → Bool) (change : DeviceShadow → DeviceShadow)
    (events : DeviceShadow → List ShadowEvent) (d : String) (w : Store)
    → member d w.devices ≡ true
    → (write_shadow takes change events d w).1.published
      ≡ w.published ++ keep takes (events (change (get_or_create d w).0))
unfolding write_shadow
published_after takes change events d w there =
    let o = get_or_create-Opened d w in rw (there, o.published) refl

answered_after :
    (takes : ShadowEvent → Bool) (change : DeviceShadow → DeviceShadow)
    (events : DeviceShadow → List ShadowEvent) (d : String) (w : Store)
    → member d w.devices ≡ true
    → (write_shadow takes change events d w).0 ≡ some (change (get_or_create d w).0)
unfolding write_shadow
answered_after takes change events d w there = rw there refl

-- A reported state that is accepted for a device is answered and read back as the shadow with the
-- report merged into what was reported, the desired state as it was, a version one higher and what
-- still differs. Where nothing differs, that the states agree is published, and else what differs,
-- under the new version; each only if the broker takes it.
pub reported_is_stored :
    (takes : ShadowEvent → Bool) (d : String) (state : Doc) (w : Store)
    → member d w.devices ≡ true
    → AfterReport takes d state w (update_reported takes d state w)
unfolding update_reported set_reported
reported_is_stored takes d state w there =
    let change = set_reported state w.clock in
    let old = (get_or_create d w).0 in
    let sent = published_after takes change reported_events d w there in
    let own = (get_or_create-Opened d w).own in
    record {
      old = old;
      opened = refl;
      new = change old;
      answered = answered_after takes change reported_events d w there;
      read_back = read_after takes change reported_events d w there (λ s. refl);
      next_version = refl;
      desired = refl;
      reported = refl;
      difference = refl;
      in_sync = λ h. let event = events_in_sync (change old) h in sent ∙ rw (event, own) refl;
      differing =
          λ x l h. let event = events_differing (change old) x l h in sent ∙ rw (event, own) refl;
    }
