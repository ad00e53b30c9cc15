-- ===== src/Samples/Consents.antt =====
-- The theorems on consents, applied.
use nexora_platform.Prelude.{
  ◌≡◌, refl, true, false, none, some, List, [], ◌∷◌, All, count-le-length,
}
use nexora_platform.Prelude.Action.{ok, is_raised, ◌>>=◌}
use nexora_platform.Samples.{unary, returned, returned-ok}
use nexora_platform.Samples.Agents.{lamp}
use nexora_platform.Devices.Caller.{DeviceCaller}
use nexora_platform.Devices.Privacy.{
  DeviceConsent, several_rows, PrivacyWorld, ConsentGrantRequest, is_same_grant, revoke_consent,
  grant_consent, get_privacy, consent_exists,
}
use nexora_platform.Devices.Consents.{IsSound, has_id}
use nexora_platform.Devices.Sharing.{
  PrivacyCall, granted, revoked, perform, perform_all, consents_stay_single,
}
use nexora_platform.Devices.Revoked.{IsNot, revoked_for_good}

abbrev pub ann : DeviceCaller
ann = record { user_id = "ann"; tenant_id = "t1"; roles = []; is_operator = false }

abbrev shared : DeviceConsent
shared = record {
  id = "c";
  device_id = "d";
  granted_by = "ann";
  granted_to = "bob";
  granted_to_type = "user";
  level = 2;
  granted_at = 3;
  revoked_at = none;
  is_active = true;
}

abbrev home : PrivacyWorld
home = record {
  devices = lamp ∷ [];
  consents = shared ∷ [];
  events = [];
  clock = 5;
  uuids_drawn = 1;
}

abbrev to_bob : ConsentGrantRequest
to_bob = record { granted_to = "bob"; granted_to_type = "user"; level = 2 }

home-IsSound : IsSound home.consents
home-IsSound = record {
  single = λ d g ty l. count-le-length (is_same_grant d g ty l) home.consents;
  distinct = λ k. count-le-length (has_id k) home.consents;
  delegable = (refl, tt);
}

abbrev calls : List PrivacyCall
calls = granted "d" to_bob ann ∷ revoked "d" "c" ann ∷ granted "d" to_bob ann ∷ []

consents_stay_single_example :
    IsSound (perform_all unary calls home).1.consents
    × All (λ e. ¬ (e ≡ some several_rows)) (perform_all unary calls home).0
consents_stay_single_example = consents_stay_single unary calls home home-IsSound

abbrev after_all : PrivacyWorld
after_all =
    (perform_all unary (granted "d" to_bob ann ∷ []) (revoke_consent unary "d" "c" ann home).1).1

is_revoked : (revoke_consent unary "d" "c" ann home).0 ≡ ok tt
unfolding revoke_consent ◌>>=◌
is_revoked = refl

is_answered : is_raised (get_privacy "d" ann after_all).0 ≡ false
unfolding get_privacy revoke_consent grant_consent perform perform_all ◌>>=◌
is_answered = refl

revoked_for_good_example :
    All (IsNot "c") (returned (get_privacy "d" ann after_all).0 is_answered).active_consents
revoked_for_good_example =
    revoked_for_good unary "d" "c" ann home (granted "d" to_bob ann ∷ []) ann
      (returned (get_privacy "d" ann after_all).0 is_answered) home-IsSound is_revoked
      (returned-ok (get_privacy "d" ann after_all).0 is_answered)

-- the second grant goes through once the first consent has been revoked
is_shared_again : (perform_all unary calls home).0 ≡ some consent_exists ∷ none ∷ none ∷ []
unfolding revoke_consent grant_consent perform perform_all ◌>>=◌
is_shared_again = refl
