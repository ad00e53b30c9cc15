-- ===== src/Execution/Drift/Score.antt =====
-- What the drift of a device says about the table of executions.
use nexora_platform.Prelude.{
  ℕ, ◌+◌, ◌≤◌, ◌<◌, ◌≡◌, refl, ◌↔◌, String, Bool, true, false, ◌&&◌, ◌||◌, List, [], ◌∷◌, keep, any,
  count, count-append, length, All, arith, Bool-cases, inl, inr,
}
use nexora_platform.Execution.Model.{Execution}
use nexora_platform.Execution.Drift.{
  Expected, Issue, insert_newest, newest_first, is_success, installs, plugin_issues, device_issues,
  summarize_device, is_missing, is_stale, is_latest_failed, device_drift,
}

any-insert :
    (p : Execution → Bool) (e : Execution) (l : List Execution)
    → any p (insert_newest e l) ≡ (p e || any p l)
unfolding insert_newest
any-insert p e [] = refl
any-insert p e (x ∷ l) = ground (arith, any-insert p e l)

any-newest_first : (p : Execution → Bool) (l : List Execution) → any p (newest_first l) ≡ any p l
unfolding newest_first
any-newest_first p [] = refl
any-newest_first p (e ∷ l) = ground (arith, any-newest_first p l, any-insert p e (newest_first l))

any-keep :
    (p q : Execution → Bool) (t : List Execution) → any p (keep q t) ≡ any (λ e. q e && p e) t
any-keep p q [] = refl
any-keep p q (e ∷ t) = ground (arith, any-keep p q t)

-- the plugin has been installed on the device
abbrev pub has_install : List Execution → String → Expected → Bool
has_install t d e = any (λ x. installs d e.plugin_id x && is_success x) t

plugin_issues-missing :
    (now : ℕ) (expected : List Expected) (t : List Execution) (d p : String)
    → (any (λ x. installs d p x && is_success x) t ≡ true
        → count is_missing (plugin_issues now expected t d p) ≡ 0)
      × (any (λ x. installs d p x && is_success x) t ≡ false
          → count is_missing (plugin_issues now expected t d p) ≡ 1)
unfolding plugin_issues
plugin_issues-missing now expected t d p =
    rw
      (
        ← any-keep is_success (installs d p) t,
        ← any-newest_first is_success (keep (installs d p) t),
      )
      ((λ h. ground (arith, h)), (λ h. ground (arith, h)))

missing_iff :
    (now : ℕ) (expected : List Expected) (t : List Execution) (d : String) (es : List Expected)
    → count is_missing (device_issues now expected t d es) ≡ 0
      ↔ All (λ e. has_install t d e ≡ true) es
unfolding device_issues
missing_iff now expected t d [] = ((λ h. tt), (λ h. refl))
missing_iff now expected t d (e ∷ es) =
    rw
      (count-append is_missing (plugin_issues now expected t d e.plugin_id)
        (device_issues now expected t d es))
      (elim (Bool-cases (has_install t d e)) [
        | inl here ↦ (
          (λ h. (here, (missing_iff now expected t d es).0 (omega (arith, h)))),
          (λ h. omega (
            arith,
            (missing_iff now expected t d es).1 h.1,
            (plugin_issues-missing now expected t d e.plugin_id).0 here,
          )),
        )
        | inr gone ↦ (
          (λ h.
              absurd
                (omega (arith, h, (plugin_issues-missing now expected t d e.plugin_id).1 gone))),
          (λ h. absurd (ground (arith, h.0, gone))),
        )
      ])

failed_is_missing :
    (now : ℕ) (expected : List Expected) (t : List Execution) (d : String) (es : List Expected)
    → count is_latest_failed (device_issues now expected t d es)
      ≤ count is_missing (device_issues now expected t d es)
unfolding device_issues plugin_issues
failed_is_missing now expected t d [] = omega arith
failed_is_missing now expected t d (e ∷ es) =
    rw
      (
        count-append is_missing (plugin_issues now expected t d e.plugin_id)
            (device_issues now expected t d es),
        count-append is_latest_failed (plugin_issues now expected t d e.plugin_id)
            (device_issues now expected t d es),
      )
      (ground (arith, failed_is_missing now expected t d es))

counted :
    (l : List Issue) → count is_missing l + count is_stale l + count is_latest_failed l ≡ length l
counted [] = refl
counted (i ∷ l) = ground (arith, counted l)

-- A device has drifted exactly if there is an issue; its score is at most 100; nothing is missing
-- exactly if every expected plugin has a succeeded installation on the device in the table; and a
-- failed latest installation is counted only where an installation is missing.
pub device_drift_lem :
    (now : ℕ) (expected : List Expected) (t : List Execution) (d : String)
    → let r = device_drift now expected t d in
      (r.has_drift ≡ true ↔ 0 < length r.issues)
      × (r.drift_score ≤ 100)
      × (r.missing_installs ≡ 0 ↔ All (λ e. has_install t d e ≡ true) expected)
      × (r.failed_latest_installs ≤ r.missing_installs)
unfolding device_drift summarize_device
device_drift_lem now expected t d =
    let l : List Issue = device_issues now expected t d expected in
    (
      (λ h. ground (arith, h, counted l), λ h. ground (arith, h, counted l)),
      omega arith,
      missing_iff now expected t d expected,
      failed_is_missing now expected t d expected,
    )
