-- ===== src/Devices/Sharing.antt =====
-- The calls of api/privacy.py that change the consents, in any order.
use nexora_platform.Prelude.{ℕ, ◌≡◌, sym, subst, String, Option, none, some, List, [], ◌∷◌, All}
use nexora_platform.Prelude.Action.{Outcome, ok, raised}
use nexora_platform.Devices.Caller.{DeviceCaller}
use nexora_platform.Devices.Privacy.{
  DeviceConsent, PrivacyError, several_rows, PrivacyWorld, ConsentGrantRequest, grant_consent,
  revoke_consent,
}
use nexora_platform.Devices.Consents.{IsSound, IsSound-grant, IsSound-revoke, Granting, Revoking}
use nexora_platform.Devices.Grants.{Ends, grant-Ends, revoke-Ends}

-- The calls that change the table of consents.
pub data PrivacyCall : Type 0 where
  granted : (device_id : String) → ConsentGrantRequest → DeviceCaller → PrivacyCall
  revoked : (device_id consent_id : String) → DeviceCaller → PrivacyCall

abbrev pub error_of : {A : Type 0} → Outcome PrivacyError A → Option PrivacyError
error_of (ok a) = none
error_of (raised e) = some e

module _ (uuid : ℕ → String) where
  -- what a call raises, and the state after it
  unfoldable pub perform : PrivacyCall → PrivacyWorld → Option PrivacyError × PrivacyWorld
  perform (granted device_id body user) w =
      let (r, t) = grant_consent uuid device_id body user w in (error_of r, t)
  perform (revoked device_id consent_id user) w =
      let (r, t) = revoke_consent uuid device_id consent_id user w in (error_of r, t)

  unfoldable pub perform_all :
      List PrivacyCall → PrivacyWorld → List (Option PrivacyError) × PrivacyWorld
  perform_all [] w = ([], w)
  perform_all (c ∷ cs) w = let (e, t) = perform c w in let (es, u) = perform_all cs t in (e ∷ es, u)

-- What a property of the table needs to hold on along all calls.
pub record Stays (P : List DeviceConsent → Type 0) : Type 0 where
  pub granted_too : (t u : List DeviceConsent) → Granting t u → P t → P u
  pub revoked_too : (k : String) (t u : List DeviceConsent) → Revoking k t u → P t → P u

record Answered (P : List DeviceConsent → Type 0) (e : Option PrivacyError) (t : PrivacyWorld)
    : Type 0 where
  holds : P t.consents
  one_row : ¬ (e ≡ some several_rows)

module _ (P : List DeviceConsent → Type 0) where
  answered :
      {A : Type 0} (R : List DeviceConsent → Type 0) (t : List DeviceConsent)
      (r : Outcome PrivacyError A × PrivacyWorld)
      → Ends R t r
      → ((u : List DeviceConsent) → R u → P u)
      → P t
      → Answered P (error_of r.0) r.1
  answered R t (ok a, u) h k p = record { holds = k u.consents h.at; one_row = λ q. absurd cc }
  answered R t (raised e, u) h k p = record {
    holds = subst P (sym h.at.0) p;
    one_row = λ q. h.at.1 cc;
  }

  perform-Answered :
      (uuid : ℕ → String) (law : Stays P) (c : PrivacyCall) (w : PrivacyWorld)
      → IsSound w.consents
      → P w.consents
      → Answered P (perform uuid c w).0 (perform uuid c w).1
  unfolding perform
  perform-Answered uuid law (granted device_id body user) w s p =
      answered (Granting w.consents) w.consents _ (grant-Ends uuid device_id user w body s)
        (λ u g. law.granted_too w.consents u g p) p
  perform-Answered uuid law (revoked device_id consent_id user) w s p =
      answered (Revoking consent_id w.consents) w.consents _
        (revoke-Ends uuid device_id user w consent_id)
        (λ u g. law.revoked_too consent_id w.consents u g p) p

IsSound-Stays : Stays IsSound
IsSound-Stays = record { granted_too = IsSound-grant; revoked_too = IsSound-revoke }

module _ (uuid : ℕ → String) where
  -- From a table in which every target has at most one active consent to a device at a level, every
  -- consent is to a level from 1 to 3 and the identifiers differ, every run of grants and
  -- revocations leads to such a table, and no call of it fails because its query has found several
  -- rows.
  pub consents_stay_single :
      (cs : List PrivacyCall) (w : PrivacyWorld)
      → IsSound w.consents
      → IsSound (perform_all uuid cs w).1.consents
        × All (λ e. ¬ (e ≡ some several_rows)) (perform_all uuid cs w).0
  unfolding perform_all
  consents_stay_single [] w s = (s, tt)
  consents_stay_single (c ∷ cs) w s =
      let a = perform-Answered IsSound uuid IsSound-Stays c w s s in
      let rest = consents_stay_single cs (perform uuid c w).1 a.holds in
      (rest.0, (a.one_row, rest.1))

  pub run_stays :
      (P : List DeviceConsent → Type 0) (law : Stays P) (cs : List PrivacyCall) (w : PrivacyWorld)
      → IsSound w.consents
      → P w.consents
      → P (perform_all uuid cs w).1.consents
  unfolding perform_all
  run_stays P law [] w s p = p
  run_stays P law (c ∷ cs) w s p =
      let sound = perform-Answered IsSound uuid IsSound-Stays c w s s in
      let next = perform-Answered P uuid law c w s p in
      run_stays P law cs (perform uuid c w).1 sound.holds next.holds
