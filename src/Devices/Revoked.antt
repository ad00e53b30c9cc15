-- ===== src/Devices/Revoked.antt =====
-- A revoked consent of api/privacy.py, and the calls after it.
use nexora_platform.Prelude.{
  ap, map, ◌==◌, ◌∙◌, ℕ, ◌≤◌, ◌≡◌, refl, sym, subst, String, Bool, true, false, some, List, [], ◌∷◌,
  ◌++◌, keep, any, count, All, arith, Bool-cases, inl, inr,
}
use nexora_platform.Prelude.Action.{Outcome, ok, raised, ◌>>=◌}
use nexora_platform.Prelude.Table.{find, update, All-update, All-append_one}
use nexora_platform.Devices.{Device}
use nexora_platform.Devices.Caller.{DeviceCaller}
use nexora_platform.Devices.Privacy.{
  DeviceConsent, consent_key, PrivacyError, PrivacyWorld, ConsentResponse, set_revoked,
  revoke_consent,
}
use text.Mathlib.TextEquality.{eq_iff}
use nexora_platform.Devices.Consents.{IsSound, IsSound-revoke, Revoking, has_id}
use nexora_platform.Devices.Grants.{after_owner, Ends, revoke-Ends}
use nexora_platform.Devices.Sharing.{PrivacyCall, perform_all, Stays, run_stays}
use nexora_platform.Devices.Privacy.{
  PrivacySummary, get_privacy, summary_of, is_shared, consent_response,
}

InactiveAs : String → DeviceConsent → Type 0
InactiveAs k c = has_id k c ≡ true → c.is_active ≡ false

-- The consent `k` is there, and it is active in no row.
record IsRevoked (k : String) (t : List DeviceConsent) : Type 0 where
  present : any (has_id k) t ≡ true
  inactive : All (InactiveAs k) t

inactive_absent :
    (k : String) (t : List DeviceConsent) → count (has_id k) t ≤ 0 → All (InactiveAs k) t
unfolding InactiveAs
inactive_absent k [] h = tt
inactive_absent k (c ∷ t) h =
    (λ e. absurd (ground (arith, h, e)), inactive_absent k t (ground (arith, h)))

update-inactive :
    (k : String) (now : ℕ) (t : List DeviceConsent)
    → count (has_id k) t ≤ 1
    → All (InactiveAs k) (update consent_key k (set_revoked now) t)
unfolding update set_revoked InactiveAs
update-inactive k now [] h = tt
update-inactive k now (c ∷ t) h = elim (Bool-cases (c.id == k)) [
  | inl e ↦ rw e ((λ _. refl), inactive_absent k t (ground (arith, h, e)))
  | inr e ↦ rw e ((λ f. absurd cc), update-inactive k now t (ground (arith, h, e)))
]

any-update :
    (j k : String) (now : ℕ) (t : List DeviceConsent)
    → any (has_id j) (update consent_key k (set_revoked now) t) ≡ any (has_id j) t
unfolding update set_revoked
any-update j k now [] = refl
any-update j k now (c ∷ t) = ground (arith, any-update j k now t)

any-find :
    (k : String) (t : List DeviceConsent) (c : DeviceConsent)
    → find consent_key k t ≡ some c
    → any (has_id k) t ≡ true
unfolding find
any-find k [] c h = absurd cc
any-find k (x ∷ t) c h = ground (arith, h, any-find k t c)

any-append_one :
    (p : DeviceConsent → Bool) (t : List DeviceConsent) (c : DeviceConsent)
    → any p t ≡ true
    → any p (t ++ c ∷ []) ≡ true
any-append_one p [] c h = absurd cc
any-append_one p (x ∷ t) c h = ground (arith, h, any-append_one p t c)

Revoking-IsRevoked :
    (k : String) (t u : List DeviceConsent) → Revoking k t u → IsSound t → IsRevoked k u
Revoking-IsRevoked k t u g s =
    let changed : IsRevoked k (update consent_key k (set_revoked g.now) t) = record {
      present = any-update k k g.now t ∙ any-find k t g.before g.there;
      inactive = update-inactive k g.now t (s.distinct k);
    } in
    subst (IsRevoked k) (sym g.rows) changed

IsRevoked-Stays : (k : String) → Stays (IsRevoked k)
unfolding set_revoked InactiveAs
IsRevoked-Stays k = record {
  granted_too = λ t u g r.
      let c = g.consent in
      let grown : IsRevoked k (t ++ c ∷ []) = record {
        present = any-append_one (has_id k) t c r.present;
        inactive = All-append_one consent_key (InactiveAs k) c t r.inactive (λ e.
            let same : c.id ≡ k = ground (arith, eq_iff c.id k) in
            let none_there = subst (λ x. any (has_id x) t ≡ false) same g.new_id in
            let there = r.present in absurd cc);
      } in
      subst (IsRevoked k) (sym g.rows) grown;
  revoked_too = λ j t u g r.
      let changed : IsRevoked k (update consent_key j (set_revoked g.now) t) = record {
        present = any-update k j g.now t ∙ r.present;
        inactive =
            All-update consent_key (InactiveAs k) j (set_revoked g.now) t g.there (λ e. refl)
              r.inactive;
      } in
      subst (IsRevoked k) (sym g.rows) changed;
}

abbrev pub IsNot : String → ConsentResponse → Type 0
IsNot k r = ¬ (r.consent_id ≡ k)

unlisted :
    (k device_id : String) (t : List DeviceConsent)
    → All (InactiveAs k) t
    → All (IsNot k) (map (consent_response device_id) (keep (is_shared device_id) t))
unfolding InactiveAs
unlisted k device_id [] a = tt
unlisted k device_id (c ∷ t) a = elim (Bool-cases (is_shared device_id c)) [
  | inl e ↦ rw e (
    (λ f.
        let same : (c.id == k) ≡ true = ground (arith, eq_iff c.id k) in
        let off = a.0 same in absurd (ground (arith, off, e))),
    unlisted k device_id t a.1,
  )
  | inr e ↦ rw e (unlisted k device_id t a.1)
]

-- What a summary lists.
record Lists (device_id : String) (w : PrivacyWorld)
    (r : Outcome PrivacyError PrivacySummary × PrivacyWorld) : Type 0 where
  at :
      (v : PrivacySummary)
      → r.0 ≡ ok v
      → v.active_consents ≡ map (consent_response device_id) (keep (is_shared device_id) w.consents)

summary-Lists :
    (device_id : String) (d : Device) (w : PrivacyWorld)
    → Lists device_id w (ok (summary_of device_id d (keep (is_shared device_id) w.consents)), w)
summary-Lists device_id d w = record {
  at = λ v e.
      let same : summary_of device_id d (keep (is_shared device_id) w.consents) ≡ v = cc in
      sym (ap (λ x. x.active_consents) same);
}

get_privacy-Lists :
    (device_id : String) (user : DeviceCaller) (w : PrivacyWorld)
    → Lists device_id w (get_privacy device_id user w)
unfolding get_privacy ◌>>=◌
get_privacy-Lists device_id user w =
    let Q = Lists device_id w in
    after_owner Q device_id user w _ (record { at = λ v e. absurd cc })
      (record { at = λ v e. absurd cc }) (λ d. summary-Lists device_id d w)

ends_ok :
    (P : List DeviceConsent → Type 0) (t : List DeviceConsent)
    (r : Outcome PrivacyError (Unit {0}) × PrivacyWorld)
    → Ends P t r
    → r.0 ≡ ok tt
    → P r.1.consents
ends_ok P t (ok a, u) h e = h.at
ends_ok P t (raised x, u) h e = absurd cc

module _ (uuid : ℕ → String) (device_id k : String) (user : DeviceCaller) (w : PrivacyWorld) where
  -- In a sound table of consents, once a consent has been revoked, no summary of its device ever
  -- lists it again, whoever asks and whatever grants and revocations come between.
  pub revoked_for_good :
      (cs : List PrivacyCall) (reader : DeviceCaller) (v : PrivacySummary)
      → IsSound w.consents
      → (revoke_consent uuid device_id k user w).0 ≡ ok tt
      → (get_privacy device_id reader
          (perform_all uuid cs (revoke_consent uuid device_id k user w).1).1).0
        ≡ ok v
      → All (IsNot k) v.active_consents
  revoked_for_good cs reader v s done shown =
      let t = (revoke_consent uuid device_id k user w).1 in
      let step =
        ends_ok (Revoking k w.consents) w.consents _ (revoke-Ends uuid device_id user w k) done in
      let sound = IsSound-revoke k w.consents t.consents step s in
      let gone = Revoking-IsRevoked k w.consents t.consents step s in
      let last = (perform_all uuid cs t).1 in
      let stays = run_stays uuid (IsRevoked k) (IsRevoked-Stays k) cs t sound gone in
      let listed = (get_privacy-Lists device_id reader last).at v shown in
      subst (All (IsNot k)) (sym listed) (unlisted k device_id last.consents stays.inactive)
