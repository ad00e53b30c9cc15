-- ===== src/Devices/Caller.antt =====
-- services/device-service/src/device_service/core/auth.py: who calls the device service.
use nexora_platform.Prelude.{
  String, Bool, false, not, ◌&&◌, ◌||◌, Option, none, some, List, [], ◌∷◌, ◌==◌, if◌then◌else◌,
}
use nexora_platform.Prelude.Text.{
  Field, missing, null, given, truthy, text_or, member, append, strip_prefix, strip_slashes,
}
use nexora_platform.Auth.{AuthSettings, Claims}

pub record DeviceCaller : Type 0 where
  pub user_id : String
  pub tenant_id : String
  pub roles : List String
  pub is_operator : Bool

-- Who a request comes from: a caller, or an answer of 401, 403 or (where an exception escapes) 500.
pub data Resolved : Type 0 where
  resolved : DeviceCaller → Resolved
  not_authenticated operator_required escaped : Resolved

abbrev dev_caller : DeviceCaller
dev_caller = record { user_id = "dev-user"; tenant_id = "dev"; roles = []; is_operator = false }

-- `groups[0].lstrip("/") if groups else "global"`
abbrev tenant_of_groups : Field (List String) → String
tenant_of_groups (given (g ∷ gs)) = strip_slashes g
tenant_of_groups _ = "global"

-- `raw.get("realm_access", {}).get("roles", [])`: a null at either place raises, at the second
-- where the roles are searched
abbrev roles_of_claims : Field (Field (List String)) → Option (List String)
roles_of_claims missing = some []
roles_of_claims null = none
roles_of_claims (given missing) = some []
roles_of_claims (given null) = none
roles_of_claims (given (given rs)) = some rs

unfoldable pub caller_of_claims : AuthSettings → (sub : String) → Claims → Option DeviceCaller
caller_of_claims cfg sub raw = elim (roles_of_claims raw.realm_access) [
  | none ↦ none
  | some rs ↦ some (record {
    user_id = sub;
    tenant_id = tenant_of_groups raw.groups;
    roles = rs;
    is_operator =
        member cfg.operator_role rs
        || (member cfg.platform_admin_role rs || member cfg.tenant_admin_role rs);
  })
]

-- `verify` is the token verifier: none where it raises, else the subject and the claims.
abbrev caller_of_token :
    AuthSettings → (verify : String → Option (String × Claims)) → (token : String) → Resolved
caller_of_token cfg verify token = elim (verify token) [
  | none ↦ not_authenticated
  | some claims ↦ elim (caller_of_claims cfg claims.0 claims.1) [
    | none ↦ escaped
    | some user ↦ resolved user
  ]
]

unfoldable pub get_current_user :
    AuthSettings
    → (verify : String → Option (String × Claims)) → (authorization : Option String) → Resolved
unfolding caller_of_claims
get_current_user cfg verify authorization =
    let header = text_or authorization "" in
    if not cfg.auth_enabled
    then resolved dev_caller
    else if not (truthy authorization)
    then not_authenticated
    else if cfg.auth_dev_bypass_enabled && (header == append "Bearer " cfg.auth_dev_token)
    then resolved dev_caller
    else elim (strip_prefix "Bearer " header) [
      | none ↦ not_authenticated
      | some token ↦ caller_of_token cfg verify token
    ]

unfoldable pub require_operator : DeviceCaller → Resolved
require_operator user = if user.is_operator then resolved user else operator_required
