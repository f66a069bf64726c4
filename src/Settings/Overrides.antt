-- ===== src/Settings/Overrides.antt =====
-- internal/config/config.go: what the variables of the environment make of the settings.
use gslb.Prelude.{
  ℤ, pos, ltb_ℤ, leb_ℤ, String, Bool, true, false, ◌≡◌, ◌≢◌, ◌⊎◌, ◌↔◌, ap, str_eq, eq_iff, inl, inr,
  Bool-cases, arith,
}
use gslb.Result.{GoError, Result, Result-cases, ok, err}
use gslb.Settings.{
  Settings, OidcConfig, JwtConfig, Platform, override, override_flag, override_number,
  apply_env_overrides,
}

-- What a variable of the environment makes of a text.
abbrev pub TextFrom : String → String → String → Type 0
TextFrom v old new = ((v ≡ "") × (new ≡ old)) ⊎ ((v ≢ "") × (new ≡ v))

-- What it makes of a flag.
abbrev pub FlagFrom : String → Bool → Bool → Type 0
FlagFrom v old new =
    ((v ≡ "") × (new ≡ old))
    ⊎ (((v ≡ "true") ⊎ (v ≡ "1")) × (new ≡ true))
    ⊎ ((v ≢ "") × (v ≢ "true") × (v ≢ "1") × (new ≡ false))

-- What it makes of a number: one that parses and is positive replaces the old one.
abbrev pub NumberFrom : (String → Result ℤ) → String → ℤ → ℤ → Type 0
NumberFrom parse v old new =
    ((v ≢ "") × (parse v ≡ ok new) × (ltb_ℤ (pos 0) new ≡ true))
    ⊎ (((v ≡ "")
          ⊎ (((n : ℤ) × (parse v ≡ ok n) × (leb_ℤ n (pos 0) ≡ true))
              ⊎ ((e : GoError) × (parse v ≡ err e))))
        × (new ≡ old))

-- The settings of OIDC under the environment.
abbrev pub OidcFrom : Platform → OidcConfig → OidcConfig → Type 0
OidcFrom os old new =
    FlagFrom (os.getenv "GSLB_OIDC_ENABLED") old.enabled new.enabled
    × TextFrom (os.getenv "GSLB_OIDC_ISSUER") old.issuer new.issuer
    × TextFrom (os.getenv "GSLB_OIDC_CLIENT_ID") old.client_id new.client_id
    × TextFrom (os.getenv "GSLB_OIDC_CLIENT_SECRET") old.client_secret new.client_secret
    × TextFrom (os.getenv "GSLB_OIDC_REDIRECT_URL") old.redirect_url new.redirect_url
    × (new.scopes ≡ old.scopes)
    × TextFrom (os.getenv "GSLB_OIDC_ROLES_CLAIM") old.roles_claim new.roles_claim
    × TextFrom (os.getenv "GSLB_OIDC_DEFAULT_ROLE") old.default_role new.default_role

-- Those of the session token.
abbrev pub JwtFrom : Platform → JwtConfig → JwtConfig → Type 0
JwtFrom os old new =
    TextFrom (os.getenv "GSLB_JWT_SECRET") old.secret new.secret
    × NumberFrom os.parse_duration (os.getenv "GSLB_JWT_EXPIRY") old.expiry new.expiry
    × TextFrom (os.getenv "GSLB_JWT_COOKIE_NAME") old.cookie_name new.cookie_name
    × FlagFrom (os.getenv "GSLB_JWT_COOKIE_SECURE") old.cookie_secure new.cookie_secure
    × (new.cookie_http_only ≡ old.cookie_http_only)
    × (new.cookie_same_site ≡ old.cookie_same_site)

-- The settings under the environment.
abbrev pub Overridden : Platform → Settings → Settings → Type 0
Overridden os old new =
    TextFrom (os.getenv "GSLB_DATABASE_PATH") old.database_path new.database_path
    × TextFrom (os.getenv "GSLB_LISTEN_ADDR") old.listen_addr new.listen_addr
    × NumberFrom os.scan_int (os.getenv "GSLB_HEALTH_CHECK_WORKERS") old.health_check_workers
        new.health_check_workers
    × NumberFrom os.parse_duration (os.getenv "GSLB_RECONCILE_INTERVAL") old.reconcile_interval
        new.reconcile_interval
    × NumberFrom os.scan_int (os.getenv "GSLB_AUDIT_LOG_RETENTION_DAYS")
        old.audit_log_retention_days new.audit_log_retention_days
    × TextFrom (os.getenv "GSLB_ENCRYPTION_KEY") old.encryption_key new.encryption_key
    × OidcFrom os old.oidc new.oidc
    × JwtFrom os old.jwt new.jwt

override-TextFrom : (v old new : String) → TextFrom v old new ↔ (new ≡ override v old)
override-TextFrom v old new = ground (arith, eq_iff v "")

override_flag-FlagFrom :
    (v : String) (old new : Bool) → FlagFrom v old new ↔ (new ≡ override_flag v old)
override_flag-FlagFrom v old new =
    ground (arith, eq_iff v "", eq_iff v "true", eq_iff v "1", eq_iff "" "true", eq_iff "" "1")

override_number-NumberFrom :
    (parse : String → Result ℤ) (v : String) (old new : ℤ)
    → NumberFrom parse v old new ↔ (new ≡ override_number parse v old)
override_number-NumberFrom parse v old new = elim (Result-cases (parse v)) [
  | inl (n, parsed) ↦ elim (Bool-cases (ltb_ℤ (pos 0) n)) [
    | inl positive ↦ (
      λ from. ground (arith, from, parsed, positive, eq_iff v ""),
      λ same. elim (Bool-cases (str_eq v "")) [
        | inl unset ↦ inr (inl ((eq_iff v "").0 unset), ground (arith, same, unset))
        | inr set ↦ inl (ground (arith, same, set, parsed, positive, eq_iff v ""))
      ],
    )
    | inr small ↦ (
      λ from. ground (arith, from, parsed, small, eq_iff v ""),
      λ same.
          inr (inr (inl (n, parsed, ground (arith, small))), ground (arith, same, parsed, small)),
    )
  ]
  | inr (e, broken) ↦ ground (arith, broken, eq_iff v "")
]

module _ (os : Platform) (name : String) where
  text_variable :
      (old new : String) → TextFrom (os.getenv name) old new ↔ (new ≡ override (os.getenv name) old)
  text_variable = override-TextFrom (os.getenv name)

  flag_variable :
      (old new : Bool)
      → FlagFrom (os.getenv name) old new ↔ (new ≡ override_flag (os.getenv name) old)
  flag_variable = override_flag-FlagFrom (os.getenv name)

  int_variable :
      (old new : ℤ)
      → NumberFrom os.scan_int (os.getenv name) old new
        ↔ (new ≡ override_number os.scan_int (os.getenv name) old)
  int_variable = override_number-NumberFrom os.scan_int (os.getenv name)

  duration_variable :
      (old new : ℤ)
      → NumberFrom os.parse_duration (os.getenv name) old new
        ↔ (new ≡ override_number os.parse_duration (os.getenv name) old)
  duration_variable = override_number-NumberFrom os.parse_duration (os.getenv name)

oidc-OidcFrom :
    (os : Platform) (cfg : Settings) (new : OidcConfig)
    → OidcFrom os cfg.oidc new ↔ (new ≡ (apply_env_overrides os cfg).oidc)
unfolding apply_env_overrides
oidc-OidcFrom os cfg new = (
  λ (f0, f1, f2, f3, f4, f5, f6, f7).
      let e0 = (flag_variable os "GSLB_OIDC_ENABLED" cfg.oidc.enabled new.enabled).0 f0 in
      let e1 = (text_variable os "GSLB_OIDC_ISSUER" cfg.oidc.issuer new.issuer).0 f1 in
      let e2 = (text_variable os "GSLB_OIDC_CLIENT_ID" cfg.oidc.client_id new.client_id).0 f2 in
      let e3 =
        (text_variable os "GSLB_OIDC_CLIENT_SECRET" cfg.oidc.client_secret new.client_secret).0
          f3 in
      let e4 =
        (text_variable os "GSLB_OIDC_REDIRECT_URL" cfg.oidc.redirect_url new.redirect_url).0 f4 in
      let e6 =
        (text_variable os "GSLB_OIDC_ROLES_CLAIM" cfg.oidc.roles_claim new.roles_claim).0 f6 in
      let e7 =
        (text_variable os "GSLB_OIDC_DEFAULT_ROLE" cfg.oidc.default_role new.default_role).0 f7 in
      cc,
  λ same. (
    (flag_variable os "GSLB_OIDC_ENABLED" cfg.oidc.enabled new.enabled).1
        (ap (λ (c : OidcConfig). c.enabled) same),
    (text_variable os "GSLB_OIDC_ISSUER" cfg.oidc.issuer new.issuer).1
        (ap (λ (c : OidcConfig). c.issuer) same),
    (text_variable os "GSLB_OIDC_CLIENT_ID" cfg.oidc.client_id new.client_id).1
        (ap (λ (c : OidcConfig). c.client_id) same),
    (text_variable os "GSLB_OIDC_CLIENT_SECRET" cfg.oidc.client_secret new.client_secret).1
        (ap (λ (c : OidcConfig). c.client_secret) same),
    (text_variable os "GSLB_OIDC_REDIRECT_URL" cfg.oidc.redirect_url new.redirect_url).1
        (ap (λ (c : OidcConfig). c.redirect_url) same),
    ap (λ (c : OidcConfig). c.scopes) same,
    (text_variable os "GSLB_OIDC_ROLES_CLAIM" cfg.oidc.roles_claim new.roles_claim).1
        (ap (λ (c : OidcConfig). c.roles_claim) same),
    (text_variable os "GSLB_OIDC_DEFAULT_ROLE" cfg.oidc.default_role new.default_role).1
        (ap (λ (c : OidcConfig). c.default_role) same),
  ),
)

jwt-JwtFrom :
    (os : Platform) (cfg : Settings) (new : JwtConfig)
    → JwtFrom os cfg.jwt new ↔ (new ≡ (apply_env_overrides os cfg).jwt)
unfolding apply_env_overrides
jwt-JwtFrom os cfg new = (
  λ (f0, f1, f2, f3, f4, f5).
      let e0 = (text_variable os "GSLB_JWT_SECRET" cfg.jwt.secret new.secret).0 f0 in
      let e1 = (duration_variable os "GSLB_JWT_EXPIRY" cfg.jwt.expiry new.expiry).0 f1 in
      let e2 = (text_variable os "GSLB_JWT_COOKIE_NAME" cfg.jwt.cookie_name new.cookie_name).0 f2 in
      let e3 =
        (flag_variable os "GSLB_JWT_COOKIE_SECURE" cfg.jwt.cookie_secure new.cookie_secure).0 f3 in
      cc,
  λ same. (
    (text_variable os "GSLB_JWT_SECRET" cfg.jwt.secret new.secret).1
        (ap (λ (c : JwtConfig). c.secret) same),
    (duration_variable os "GSLB_JWT_EXPIRY" cfg.jwt.expiry new.expiry).1
        (ap (λ (c : JwtConfig). c.expiry) same),
    (text_variable os "GSLB_JWT_COOKIE_NAME" cfg.jwt.cookie_name new.cookie_name).1
        (ap (λ (c : JwtConfig). c.cookie_name) same),
    (flag_variable os "GSLB_JWT_COOKIE_SECURE" cfg.jwt.cookie_secure new.cookie_secure).1
        (ap (λ (c : JwtConfig). c.cookie_secure) same),
    ap (λ (c : JwtConfig). c.cookie_http_only) same,
    ap (λ (c : JwtConfig). c.cookie_same_site) same,
  ),
)

pub apply_env_overrides-Overridden :
    (os : Platform) (cfg new : Settings)
    → Overridden os cfg new ↔ (new ≡ apply_env_overrides os cfg)
unfolding apply_env_overrides
apply_env_overrides-Overridden os cfg new = (
  λ (f0, f1, f2, f3, f4, f5, oidc_from, jwt_from).
      let e0 = (text_variable os "GSLB_DATABASE_PATH" cfg.database_path new.database_path).0 f0 in
      let e1 = (text_variable os "GSLB_LISTEN_ADDR" cfg.listen_addr new.listen_addr).0 f1 in
      let e2 =
        (int_variable os "GSLB_HEALTH_CHECK_WORKERS" cfg.health_check_workers
            new.health_check_workers).0
          f2 in
      let e3 =
        (duration_variable os "GSLB_RECONCILE_INTERVAL" cfg.reconcile_interval
            new.reconcile_interval).0
          f3 in
      let e4 =
        (int_variable os "GSLB_AUDIT_LOG_RETENTION_DAYS" cfg.audit_log_retention_days
            new.audit_log_retention_days).0
          f4 in
      let e5 =
        (text_variable os "GSLB_ENCRYPTION_KEY" cfg.encryption_key new.encryption_key).0 f5 in
      let of_oidc = (oidc-OidcFrom os cfg new.oidc).0 oidc_from in
      let of_jwt = (jwt-JwtFrom os cfg new.jwt).0 jwt_from in cc,
  λ same. (
    (text_variable os "GSLB_DATABASE_PATH" cfg.database_path new.database_path).1
        (ap (λ (c : Settings). c.database_path) same),
    (text_variable os "GSLB_LISTEN_ADDR" cfg.listen_addr new.listen_addr).1
        (ap (λ (c : Settings). c.listen_addr) same),
    (int_variable os "GSLB_HEALTH_CHECK_WORKERS" cfg.health_check_workers
          new.health_check_workers).1
        (ap (λ (c : Settings). c.health_check_workers) same),
    (duration_variable os "GSLB_RECONCILE_INTERVAL" cfg.reconcile_interval new.reconcile_interval).1
        (ap (λ (c : Settings). c.reconcile_interval) same),
    (int_variable os "GSLB_AUDIT_LOG_RETENTION_DAYS" cfg.audit_log_retention_days
          new.audit_log_retention_days).1
        (ap (λ (c : Settings). c.audit_log_retention_days) same),
    (text_variable os "GSLB_ENCRYPTION_KEY" cfg.encryption_key new.encryption_key).1
        (ap (λ (c : Settings). c.encryption_key) same),
    (oidc-OidcFrom os cfg new.oidc).1 (ap (λ (c : Settings). c.oidc) same),
    (jwt-JwtFrom os cfg new.jwt).1 (ap (λ (c : Settings). c.jwt) same),
  ),
)
