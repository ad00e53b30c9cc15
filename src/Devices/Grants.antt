-- ===== src/Devices/Grants.antt =====
-- Where a grant and a revocation of api/privacy.py end.
use nexora_platform.Prelude.{
  ℕ, suc, ◌≡◌, refl, String, Bool, true, false, Option, none, some, List, [], if◌then◌else◌, ◌||◌,
  is_some, ◌∷◌, ◌++◌, keep, any, arith,
}
use nexora_platform.Prelude.Action.{Outcome, ok, raised, pure, or_raise, raise_if, ◌>>=◌}
use nexora_platform.Prelude.Action.After.{after_gets, after_raise_if, after_lift, after_or_raise}
use nexora_platform.Prelude.Table.{find, update}
use nexora_platform.Devices.{Device, device_key}
use nexora_platform.Devices.Caller.{DeviceCaller}
use nexora_platform.Devices.Privacy.{
  DeviceConsent, consent_key, OwnershipEvent, PrivacyError, several_rows, key_taken,
  device_not_found, only_the_owner, level_not_delegable, consent_exists, consent_not_found,
  already_revoked, is_other, PrivacyWorld, PrivacyHandler, ConsentGrantRequest, ConsentResponse,
  require_owner, is_same_grant, scalar_one_or_none, draw_row_id, insert_consent, new_consent,
  grant_consent, consent_of, set_revoked, revoke_event, commit_revoked, revoke_consent,
}
use nexora_platform.Devices.Consents.{
  IsSound, Granting, Revoking, has_id, at_most_one, no_rows, length-keep,
}

-- `require_owner` and what follows it: two refusals, or the device.
pub after_owner :
    {B : Type 0} (Q : Outcome PrivacyError B × PrivacyWorld → Type 0) (device_id : String)
    (user : DeviceCaller) (w : PrivacyWorld) (k : Device → PrivacyHandler B)
    → Q (raised device_not_found, w)
    → Q (raised only_the_owner, w)
    → ((d : Device) → Q (k d w))
    → Q ((require_owner device_id user >>= k) w)
unfolding require_owner ◌>>=◌
after_owner Q device_id user w k absent foreign go = by_row (find device_key device_id w.devices)
  where
    by_test : (d : Device) (b : Bool) → Q (((raise_if b only_the_owner >>= λ _. pure d) >>= k) w)
    by_test d true = foreign
    by_test d false = go d

    by_row :
        (o : Option Device)
        → Q (
            ((or_raise o device_not_found >>= λ d.
            raise_if (is_other user d) only_the_owner >>= λ _. pure d)
                >>= k)
              w)
    by_row none = absent
    by_row (some d) = by_test d (is_other user d)

after_draw :
    {B : Type 0} (Q : Outcome PrivacyError B × PrivacyWorld → Type 0) (uuid : ℕ → String)
    (w : PrivacyWorld) (k : String → PrivacyHandler B)
    → Q (k (uuid w.uuids_drawn) (record w { uuids_drawn = suc w.uuids_drawn }))
    → Q ((draw_row_id uuid >>= k) w)
unfolding draw_row_id ◌>>=◌
after_draw Q uuid w k h = h

-- Where a call ends: as `P` says, or with a refusal that leaves the table as it is, and that is not
-- for a second row.
abbrev pub EndOf :
    {A : Type 0}
    → (List DeviceConsent → Type 0)
    → List DeviceConsent
    → Outcome PrivacyError A × PrivacyWorld
    → Type 0
EndOf P t (ok a, u) = P u.consents
EndOf P t (raised e, u) = (u.consents ≡ t) × ¬ (e ≡ several_rows)

pub record Ends {A : Type 0} (P : List DeviceConsent → Type 0) (t : List DeviceConsent)
    (r : Outcome PrivacyError A × PrivacyWorld) : Type 0 where
  pub at : EndOf P t r

refused :
    {A : Type 0} {P : List DeviceConsent → Type 0} (e : PrivacyError) (w : PrivacyWorld)
    → ¬ (e ≡ several_rows)
    → Ends {A = A} P w.consents (raised e, w)
refused e w h = record { at = (refl, h) }

insert_end :
    {A : Type 0} (P : List DeviceConsent → Type 0) (c : DeviceConsent) (e : OwnershipEvent)
    (w : PrivacyWorld) (a : A)
    → (any (has_id c.id) w.consents ≡ false → P (w.consents ++ c ∷ []))
    → Ends P w.consents ((insert_consent c e >>= λ _. pure a) w)
unfolding insert_consent ◌>>=◌
insert_end P c e w a n = by_test _ _ n
  where
    by_test :
        (taken event_taken : Bool)
        → (taken ≡ false → P (w.consents ++ c ∷ []))
        → Ends P w.consents (
            ((λ (x : PrivacyWorld). if taken || event_taken then (raised key_taken, x) else (
              ok tt,
              record x { consents = x.consents ++ c ∷ []; events = x.events ++ e ∷ [] },
            ))
                >>= λ _. pure a)
              w)
    by_test true b h = refused key_taken w (λ q. absurd cc)
    by_test false true h = refused key_taken w (λ q. absurd cc)
    by_test false false h = record { at = h refl }

commit_end :
    (P : List DeviceConsent → Type 0) (k : String) (now : ℕ) (e : OwnershipEvent) (w : PrivacyWorld)
    → P (update consent_key k (set_revoked now) w.consents)
    → Ends P w.consents (commit_revoked k now e w)
unfolding commit_revoked
commit_end P k now e w n = by_test _
  where
    by_test :
        (b : Bool)
        → Ends P w.consents (
            if b then (raised key_taken, w) else (
              ok tt,
              record w {
                consents = update consent_key k (set_revoked now) w.consents;
                events = w.events ++ e ∷ [];
              },
            ))
    by_test true = refused key_taken w (λ q. absurd cc)
    by_test false = record { at = n }

consent_of-find :
    (device_id k : String) (w : PrivacyWorld) (c : DeviceConsent)
    → consent_of device_id k w ≡ some c
    → find consent_key k w.consents ≡ some c
consent_of-find device_id k w c h = ground (arith, h)

only_none : {A : Type 0} (o : Option A) → is_some o ≡ false → o ≡ none
only_none none h = refl
only_none (some a) h = absurd cc

module _ (uuid : ℕ → String) (device_id : String) (user : DeviceCaller) (w : PrivacyWorld) where
  pub grant-Ends :
      (body : ConsentGrantRequest)
      → IsSound w.consents
      → Ends (Granting w.consents) w.consents (grant_consent uuid device_id body user w)
  unfolding grant_consent new_consent
  grant-Ends body s =
      let P = Granting w.consents in
      let Q = Ends {A = ConsentResponse} P w.consents in
      let same = is_same_grant device_id body.granted_to body.granted_to_type body.level in
      let rows = keep same w.consents in
      let single = s.single device_id body.granted_to body.granted_to_type body.level in
      after_owner Q device_id user w _ (refused device_not_found w (λ e. absurd cc))
        (refused only_the_owner w (λ e. absurd cc))
        (λ d.
          after_raise_if Q w _ level_not_delegable _
            (λ _. refused level_not_delegable w (λ e. absurd cc))
            (λ lv. after_gets Q w _ _ (
              after_lift Q w (scalar_one_or_none rows) _
                (λ e f.
                  refused e w
                    (λ g. at_most_one rows (omega (arith, length-keep same w.consents, single)) cc))
                (λ o f.
                  after_raise_if Q w _ consent_exists _
                    (λ _. refused consent_exists w (λ e. absurd cc))
                    (λ g.
                      let absent = only_none o g in
                      let fresh : rows ≡ [] = no_rows rows cc in
                      after_gets Q w _ _ (
                        after_draw Q uuid w _ (
                          after_draw Q uuid _ _ (
                            insert_end P _ _ _ _ (λ new. record {
                              consent =
                                  new_consent (uuid w.uuids_drawn) device_id user w.clock body;
                              new_id = new;
                              no_other = fresh;
                              delegable = ground arith;
                              rows = refl;
                            })))))))))

  pub revoke-Ends :
      (consent_id : String)
      → Ends
          (Revoking consent_id w.consents)
          w.consents
          (revoke_consent uuid device_id consent_id user w)
  unfolding revoke_consent
  revoke-Ends consent_id =
      let P = Revoking consent_id w.consents in
      let Q = Ends {A = Unit {0}} P w.consents in
      after_owner Q device_id user w _ (refused device_not_found w (λ e. absurd cc))
        (refused only_the_owner w (λ e. absurd cc))
        (λ d. after_gets Q w _ _ (
          after_or_raise Q w (consent_of device_id consent_id w) consent_not_found _
            (λ _. refused consent_not_found w (λ e. absurd cc))
            (λ c f.
              after_raise_if Q w _ already_revoked _
                (λ _. refused already_revoked w (λ e. absurd cc))
                (λ g. after_gets Q w _ _ (
                  after_draw Q uuid w _ (
                    commit_end P consent_id w.clock
                      (revoke_event (uuid w.uuids_drawn) device_id consent_id user w.clock c)
                      (record w { uuids_drawn = suc w.uuids_drawn })
                      (record {
                        now = w.clock;
                        before = c;
                        there = consent_of-find device_id consent_id w c f;
                        rows = refl;
                      })))))))
