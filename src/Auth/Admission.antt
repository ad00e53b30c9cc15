-- ===== src/Auth/Admission.antt =====
-- Which requests the middleware lets through, and what vouches for their users.
use nexora_platform.Prelude.{
  ◌≡◌, subst, sym, inl, inr, String, Bool, true, false, ◌&&◌, ◌||◌, Option, some, arith, ◌==◌,
  Bool-cases, Option-cases, eq_iff,
}
use nexora_platform.Prelude.Text.{member, strip_prefix}
use nexora_platform.Auth.{
  AuthSettings, CurrentUser, Claims, HttpRequest, passed, Identity, identified, rejected, escaped,
  has_role, is_platform_admin, can_write, user_from_claims, dev_user, internal_user,
  authenticate_internal_key, authenticate_header, identity_of_token, identify, admit, middleware,
  public_paths, readonly_methods,
}

-- What stands behind the user of a request.
pub data Vouched (cfg : AuthSettings) (key : String) (verify : String → Option Claims)
    (req : HttpRequest) : CurrentUser → Type 0 where
  by_key :
      (key == "") ≡ false
      → req.x_internal_key ≡ some key
      → Vouched cfg key verify req (internal_user cfg)
  by_no_auth : cfg.auth_enabled ≡ false → Vouched cfg key verify req (dev_user cfg)
  by_dev_token :
      cfg.auth_dev_bypass_enabled ≡ true
      → (header : String) → req.authorization ≡ some header
      → strip_prefix "Bearer " header ≡ some cfg.auth_dev_token
      → Vouched cfg key verify req (dev_user cfg)
  by_token :
      (header token : String) (raw : Claims) (user : CurrentUser)
      → req.authorization ≡ some header
      → strip_prefix "Bearer " header ≡ some token
      → verify token ≡ some raw
      → user_from_claims raw ≡ some user
      → Vouched cfg key verify req user

module _ (cfg : AuthSettings) (key : String) (verify : String → Option Claims)
    (req : HttpRequest) where
  key-Vouched :
      (user : CurrentUser)
      → authenticate_internal_key cfg key req.x_internal_key ≡ some user
      → Vouched cfg key verify req user
  unfolding authenticate_internal_key
  key-Vouched user h = elim (Option-cases req.x_internal_key) [
    | inl e ↦ absurd (ground (arith, e, h))
    | inr (x, e) ↦
        let given_key : x ≡ key = ground (arith, e, h, eq_iff x key) in
        let configured : (key == "") ≡ false = ground (arith, e, h) in
        let who : internal_user cfg ≡ user = ground (arith, e, h) in
        subst (Vouched cfg key verify req) who (by_key configured cc)
  ]

  token-Vouched :
      (header token : String) (user : CurrentUser)
      → req.authorization ≡ some header
      → strip_prefix "Bearer " header ≡ some token
      → identity_of_token verify token ≡ identified user
      → Vouched cfg key verify req user
  token-Vouched header token user a b h = elim (Option-cases (verify token)) [
    | inl e ↦ absurd (ground (arith, e, h))
    | inr (raw, e) ↦ elim (Option-cases (user_from_claims raw)) [
      | inl f ↦ absurd (ground (arith, e, f, h))
      | inr (u, f) ↦
          let who : u ≡ user = ground (arith, e, f, h) in
          by_token header token raw user a b e (subst (λ v. user_from_claims raw ≡ some v) who f)
    ]
  ]

  header-Vouched :
      (user : CurrentUser)
      → authenticate_header cfg verify req.authorization ≡ identified user
      → Vouched cfg key verify req user
  unfolding authenticate_header
  header-Vouched user h = elim (Bool-cases cfg.auth_enabled) [
    | inl on ↦ elim (Option-cases req.authorization) [
      | inl e ↦ absurd (ground (arith, on, e, h))
      | inr (header, e) ↦ elim (Option-cases (strip_prefix "Bearer " header)) [
        | inl p ↦ absurd (ground (arith, on, e, p, h))
        | inr (token, p) ↦
            elim (Bool-cases (cfg.auth_dev_bypass_enabled && (token == cfg.auth_dev_token))) [
              | inl dev ↦
                  let same : token ≡ cfg.auth_dev_token =
                    ground (arith, dev, eq_iff token cfg.auth_dev_token) in
                  let who : dev_user cfg ≡ user = ground (arith, on, e, p, dev, h) in
                  subst (Vouched cfg key verify req) who
                    (by_dev_token (ground (arith, dev)) header e cc)
              | inr other ↦ token-Vouched header token user e p (ground (arith, on, e, p, other, h))
            ]
      ]
    ]
    | inr off ↦
        let who : dev_user cfg ≡ user = ground (arith, off, h) in
        subst (Vouched cfg key verify req) who (by_no_auth off)
  ]

  identity-Vouched :
      (user : CurrentUser)
      → identify cfg key verify req ≡ identified user
      → Vouched cfg key verify req user
  unfolding identify
  identity-Vouched user h =
      elim (Option-cases (authenticate_internal_key cfg key req.x_internal_key)) [
        | inl e ↦ header-Vouched user (rw (e, identify) at h)
        | inr (u, e) ↦
            let who : u ≡ user = ground (arith, e, h) in
            key-Vouched user
              (subst (λ v. authenticate_internal_key cfg key req.x_internal_key ≡ some v) who e)
      ]

  admit-passed :
      (i : Identity) (method : String) (user : CurrentUser) (is_operator : Bool)
      → admit cfg method i ≡ passed user is_operator
      → (i ≡ identified user)
        × (cfg.auth_enabled ≡ true
            → member method readonly_methods ≡ false
            → can_write cfg user ≡ true)
        × (is_operator ≡ (is_platform_admin cfg user || has_role user cfg.operator_role))
  unfolding admit
  admit-passed rejected method user op h = absurd cc
  admit-passed escaped method user op h = absurd cc
  admit-passed (identified u) method user op h =
      let who : u ≡ user = ground (arith, h) in
      (
        cc,
        (λ on writes. rw (sym who) (ground (arith, h, on, writes))),
        rw (sym who) (ground (arith, h)),
      )

  -- A request that the middleware hands on with a user carries what vouches for that user: the
  -- internal key where one is set, the development token where the bypass is on, a token that the
  -- verifier takes and whose claims name the user, or nothing where authentication is off. Where it
  -- is on and the method may change something, the user has a role that may write. The request is
  -- marked as an operator's exactly for platform admins and operators.
  pub middleware_vouches :
      (user : CurrentUser) (is_operator : Bool)
      → middleware cfg key verify req ≡ passed user is_operator
      → Vouched cfg key verify req user
        × (cfg.auth_enabled ≡ true
            → member req.method readonly_methods ≡ false
            → can_write cfg user ≡ true)
        × (is_operator ≡ (is_platform_admin cfg user || has_role user cfg.operator_role))
  unfolding middleware
  middleware_vouches user op h = elim (Bool-cases (member req.path public_paths)) [
    | inl e ↦ absurd (ground (arith, e, h))
    | inr e ↦
        let (who, writes, operates) =
          admit-passed (identify cfg key verify req) req.method user op (rw e at h) in
        (identity-Vouched user who, writes, operates)
  ]
