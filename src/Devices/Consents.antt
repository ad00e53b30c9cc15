-- ===== src/Devices/Consents.antt =====
-- The table of consents of api/privacy.py, and what an insertion and a revocation keep of it.
use nexora_platform.Prelude.{
  ℕ, ◌≤◌, ◌≡◌, refl, sym, subst, String, Bool, true, false, none, some, List, [], ◌∷◌, ◌++◌, keep,
  any, count, count-append, All, arith, Bool-cases, length, ◌==◌, inl, inr,
}
use nexora_platform.Prelude.Action.{ok, raised}
use nexora_platform.Prelude.Table.{find, update, All-find, All-update, All-append_one, count-update}
use nexora_platform.Devices.Privacy.{
  DeviceConsent, consent_key, several_rows, is_same_grant, scalar_one_or_none, is_delegable,
  set_revoked,
}
use text.Mathlib.TextEquality.{eq_iff}

abbrev pub DelegableLevel : DeviceConsent → Type 0
DelegableLevel c = is_delegable c.level ≡ true

abbrev pub has_id : String → DeviceConsent → Bool
has_id k c = c.id == k

-- A target has at most one active consent to a device at a level, only the levels 1 to 3 are
-- shared, and the identifiers differ.
pub record IsSound (t : List DeviceConsent) : Type 0 where
  pub single : (d g ty : String) (l : ℕ) → count (is_same_grant d g ty l) t ≤ 1
  pub distinct : (k : String) → count (has_id k) t ≤ 1
  pub delegable : All DelegableLevel t

count-keep_nil : (p : DeviceConsent → Bool) (t : List DeviceConsent) → keep p t ≡ [] → count p t ≡ 0
count-keep_nil p [] h = refl
count-keep_nil p (c ∷ t) h = elim (Bool-cases (p c)) [
  | inl e ↦ absurd (ground (arith, h, e))
  | inr e ↦ rw e (count-keep_nil p t (rw e at h))
]

pub count_none :
    (p : DeviceConsent → Bool) (t : List DeviceConsent) → any p t ≡ false → count p t ≡ 0
count_none p [] h = refl
count_none p (c ∷ t) h = ground (arith, h, count_none p t)

pub no_rows : {A : Type 0} (rows : List A) → scalar_one_or_none rows ≡ ok none → rows ≡ []
no_rows [] h = refl
no_rows (a ∷ []) h = absurd cc
no_rows (a ∷ b ∷ l) h = absurd cc

pub at_most_one :
    {A : Type 0} (rows : List A)
    → length rows ≤ 1
    → ¬ (scalar_one_or_none rows ≡ raised several_rows)
at_most_one [] h e = absurd cc
at_most_one (a ∷ []) h e = absurd cc
at_most_one (a ∷ b ∷ l) h e = absurd (omega (arith, h))

pub length-keep :
    (p : DeviceConsent → Bool) (t : List DeviceConsent) → length (keep p t) ≡ count p t
length-keep p [] = refl
length-keep p (c ∷ t) = ground (arith, length-keep p t)

same_target :
    (d g ty : String) (l : ℕ) (c : DeviceConsent) (t : List DeviceConsent)
    → is_same_grant d g ty l c ≡ true
    → count (is_same_grant d g ty l) t
      ≡ count (is_same_grant c.device_id c.granted_to c.granted_to_type c.level) t
unfolding is_same_grant
same_target d g ty l c t h =
    let hd : c.device_id ≡ d = ground (arith, eq_iff c.device_id d) in
    let hg : c.granted_to ≡ g = ground (arith, eq_iff c.granted_to g) in
    let ht : c.granted_to_type ≡ ty = ground (arith, eq_iff c.granted_to_type ty) in
    let hl : c.level ≡ l = ground arith in rw (hd, hg, ht, hl) refl

-- What a grant does to the table.
pub record Granting (t u : List DeviceConsent) : Type 0 where
  pub consent : DeviceConsent
  pub new_id : any (has_id consent.id) t ≡ false
  pub no_other :
      keep
        (is_same_grant consent.device_id consent.granted_to consent.granted_to_type consent.level)
        t
      ≡ []
  pub delegable : is_delegable consent.level ≡ true
  pub rows : u ≡ t ++ consent ∷ []

-- What a revocation of the consent `k` does to the table.
pub record Revoking (k : String) (t u : List DeviceConsent) : Type 0 where
  pub now : ℕ
  pub before : DeviceConsent
  pub there : find consent_key k t ≡ some before
  pub rows : u ≡ update consent_key k (set_revoked now) t

-- one row more, of another kind or as the first of its kind
count-one_more :
    (p : DeviceConsent → Bool) (c : DeviceConsent) (t : List DeviceConsent)
    → (p c ≡ true → count p t ≡ 0)
    → count p t ≤ 1
    → count p (t ++ c ∷ []) ≤ 1
count-one_more p c t h s = ground (arith, count-append p t (c ∷ []), h, s)

pub IsSound-grant : (t u : List DeviceConsent) → Granting t u → IsSound t → IsSound u
IsSound-grant t u g s =
    let c = g.consent in
    let grown : IsSound (t ++ c ∷ []) = record {
      single = λ d to ty l.
          count-one_more (is_same_grant d to ty l) c t
            (λ e. rw (same_target d to ty l c t e) (count-keep_nil _ t g.no_other))
            (s.single d to ty l);
      distinct = λ k.
          count-one_more (has_id k) c t
            (λ e.
              let same : c.id ≡ k = ground (arith, eq_iff c.id k) in
              subst (λ x. count (has_id x) t ≡ 0) same (count_none _ t g.new_id))
            (s.distinct k);
      delegable = All-append_one consent_key DelegableLevel c t s.delegable g.delegable;
    } in
    subst IsSound (sym g.rows) grown

pub IsSound-revoke :
    (k : String) (t u : List DeviceConsent) → Revoking k t u → IsSound t → IsSound u
unfolding set_revoked is_same_grant
IsSound-revoke k t u g s =
    let f = set_revoked g.now in
    let changed : IsSound (update consent_key k f t) = record {
      single = λ d to ty l. omega (
        arith,
        s.single d to ty l,
        count-update consent_key (is_same_grant d to ty l) k f t g.there
            (λ h. absurd (ground (arith, h))),
      );
      distinct = λ j.
          omega (arith, s.distinct j, count-update consent_key (has_id j) k f t g.there (λ h. h));
      delegable =
          All-update consent_key DelegableLevel k f t g.there
            (All-find consent_key DelegableLevel k t s.delegable g.there) s.delegable;
    } in
    subst IsSound (sym g.rows) changed
