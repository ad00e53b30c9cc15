-- ===== src/Auth.antt =====
-- libraries/common/src/common/auth/context.py and internal_auth.py: who makes a request, and which
-- requests the middleware lets through.
pub mod Admission
use nexora_platform.Prelude.{
  ℕ, String, Bool, true, false, not, ◌&&◌, ◌||◌, Option, none, some, List, [], ◌∷◌, ◌==◌,
  if◌then◌else◌, map,
}
use nexora_platform.Prelude.Int.{ℤ, pos, lt_ℤ, eq_ℤ}
use nexora_platform.Prelude.Text.{
  Field, missing, null, given, truthy, member, strip_prefix, strip_slashes, split, strip, append,
}

pub record AuthSettings : Type 0 where
  pub auth_enabled : Bool
  pub auth_dev_bypass_enabled : Bool
  pub auth_dev_token : String
  pub platform_admin_role : String
  pub tenant_admin_role : String
  pub operator_role : String
  pub viewer_role : String

pub record CurrentUser : Type 0 where
  pub user_id : String
  pub tenant_id : String
  pub roles : List String

abbrev pub has_role : CurrentUser → String → Bool
has_role user role = member role user.roles

unfoldable pub is_platform_admin : AuthSettings → CurrentUser → Bool
is_platform_admin cfg user = has_role user cfg.platform_admin_role

unfoldable pub can_write : AuthSettings → CurrentUser → Bool
unfolding is_platform_admin
can_write cfg user =
    is_platform_admin cfg user
    || (has_role user cfg.tenant_admin_role || has_role user cfg.operator_role)

-- The claims of a token, as the verifier of the OpenID provider returns them.
pub record Claims : Type 0 where
  pub sub : Field String
  pub groups : Field (List String)
  pub realm_access : Field (Field (List String))

-- `str(raw.get("sub", ""))`
abbrev subject : Field String → String
subject missing = ""
subject null = "None"
subject (given s) = s

-- `groups[0].lstrip("/") if groups else "global"`
abbrev first_group : Field (List String) → String
first_group (given (g ∷ gs)) = strip_slashes g
first_group _ = "global"

-- `raw.get("realm_access", {}).get("roles") or []`, which raises where realm_access is null
abbrev realm_roles : Field (Field (List String)) → Option (List String)
realm_roles missing = some []
realm_roles null = none
realm_roles (given (given rs)) = some rs
realm_roles (given _) = some []

unfoldable pub user_from_claims : Claims → Option CurrentUser
user_from_claims raw = elim (realm_roles raw.realm_access) [
  | none ↦ none
  | some rs ↦
      some (record { user_id = subject raw.sub; tenant_id = first_group raw.groups; roles = rs })
]

abbrev pub dev_user : AuthSettings → CurrentUser
dev_user cfg = record {
  user_id = "dev-user";
  tenant_id = "dev";
  roles =
      cfg.platform_admin_role ∷ cfg.tenant_admin_role ∷ cfg.operator_role ∷ cfg.viewer_role ∷ [];
}

abbrev pub internal_user : AuthSettings → CurrentUser
internal_user cfg = record {
  user_id = "internal-service";
  tenant_id = "system";
  roles = cfg.platform_admin_role ∷ cfg.operator_role ∷ [];
}

-- `bool(value) and secrets.compare_digest(value, key)`
abbrev pub is_same_key : Option String → String → Bool
is_same_key none key = false
is_same_key (some v) key = not (v == "") && (v == key)

unfoldable pub authenticate_internal_key :
    AuthSettings
    → (internal_service_key : String) → (x_internal_key : Option String) → Option CurrentUser
authenticate_internal_key cfg key x =
    if not (key == "") && is_same_key x key then some (internal_user cfg) else none

-- What becomes of a request: it goes on to the handler, without a user or with one, or it is
-- answered with 401, 403 or (where an exception escapes) 500.
pub data Answer : Type 0 where
  passed_public : Answer
  passed : (user : CurrentUser) → (is_operator : Bool) → Answer
  unauthorized forbidden crashed : Answer

pub data Identity : Type 0 where
  identified : CurrentUser → Identity
  rejected escaped : Identity

-- `verify` is the token verifier: none where it raises.
abbrev pub identity_of_token : (verify : String → Option Claims) → String → Identity
identity_of_token verify token = elim (verify token) [
  | none ↦ rejected
  | some raw ↦ elim (user_from_claims raw) [ none ↦ escaped | some user ↦ identified user ]
]

unfoldable pub authenticate_header :
    AuthSettings → (verify : String → Option Claims) → (authorization : Option String) → Identity
authenticate_header cfg verify authorization =
    if not cfg.auth_enabled then identified (dev_user cfg) else elim authorization [
      | none ↦ rejected
      | some header ↦ elim (strip_prefix "Bearer " header) [
        | none ↦ rejected
        | some token ↦
            if cfg.auth_dev_bypass_enabled && (token == cfg.auth_dev_token)
            then identified (dev_user cfg)
            else identity_of_token verify token
      ]
    ]

pub record HttpRequest : Type 0 where
  pub path : String
  pub method : String
  pub x_internal_key : Option String
  pub authorization : Option String

abbrev pub public_paths : List String
public_paths = "/health" ∷ "/ready" ∷ "/metrics" ∷ []

abbrev pub readonly_methods : List String
readonly_methods = "GET" ∷ "HEAD" ∷ "OPTIONS" ∷ []

unfoldable pub identify :
    AuthSettings
    → (internal_service_key : String) → (verify : String → Option Claims) → HttpRequest
    → Identity
unfolding authenticate_internal_key authenticate_header
identify cfg key verify req = elim (authenticate_internal_key cfg key req.x_internal_key) [
  | some user ↦ identified user
  | none ↦ authenticate_header cfg verify req.authorization
]

-- the last check of the middleware, on the user that it found
unfoldable pub admit : AuthSettings → (method : String) → Identity → Answer
admit cfg method rejected = unauthorized
admit cfg method escaped = crashed
admit cfg method (identified user) =
    if cfg.auth_enabled && (not (member method readonly_methods) && not (can_write cfg user))
    then forbidden
    else passed user (is_platform_admin cfg user || has_role user cfg.operator_role)

unfoldable pub middleware :
    AuthSettings
    → (internal_service_key : String) → (verify : String → Option Claims) → HttpRequest
    → Answer
unfolding identify admit
middleware cfg key verify req =
    if member req.path public_paths
    then passed_public
    else admit cfg req.method (identify cfg key verify req)

-- `_is_valid_internal_key`, where the module's key is `key`
unfoldable pub is_valid_internal_key : (key : String) → Option String → Bool
is_valid_internal_key key x = if key == "" then true else is_same_key x key

-- What the check of a bootstrap token answers, or the ValueError of an expiry that is no number.
pub data TokenCheck : Type 0 where
  valid invalid value_error : TokenCheck

-- Whether a token that matches an entry is in time, from the expiry's value.
abbrev in_time : (now : ℤ) → ℤ → Bool
in_time now expiry = eq_ℤ expiry (pos 0) || lt_ℤ now expiry

-- The loop over the entries, split at their colons. `int` is the conversion of a text.
unfoldable pub match_entries :
    (int : String → Option ℤ) → (now : ℤ) → (token : String) → List (List String) → TokenCheck
match_entries int now token [] = invalid
match_entries int now token (parts ∷ entries) =
    let later = match_entries int now token entries in
    elim parts [
      | token_id ∷ secret ∷ expiry ∷ more ↦ elim (int expiry) [
        | none ↦ value_error
        | some t ↦
            if (token == append (append token_id ":") secret) && in_time now t then valid else later
      ]
      | token_id ∷ secret ∷ [] ↦
          if token == append (append token_id ":") secret then valid else later
      | _ ↦ later
    ]

-- `raw` is AGENT_BOOTSTRAP_TOKENS
unfoldable pub is_valid_bootstrap_token :
    (int : String → Option ℤ) → (now : ℤ) → (key raw : String) → Option String → TokenCheck
unfolding match_entries
is_valid_bootstrap_token int now key raw token =
    if raw == "" then (if key == "" then valid else invalid) else elim token [
      | none ↦ invalid
      | some t ↦
          if t == ""
          then invalid
          else match_entries int now t (map (λ e. split b':' (strip e)) (split b',' raw))
    ]

unfoldable pub require_internal_or_bootstrap :
    (int : String → Option ℤ)
    → (now : ℤ) → (key raw : String) → (x_internal_key x_bootstrap_token : Option String)
    → TokenCheck
unfolding is_valid_internal_key is_valid_bootstrap_token
require_internal_or_bootstrap int now key raw x t =
    if is_valid_internal_key key x then valid else is_valid_bootstrap_token int now key raw t
