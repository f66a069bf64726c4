-- ===== src/Auth/Tokens.antt =====
-- internal/auth/oidc.go: the OIDC exchange and the session JWT. The OAuth2, OIDC and JWT libraries, the
-- random source, base64 and SHA-256 are the parameter `AuthLib`; `jti` is what `uuid.New` gives. Times are
-- nanoseconds, those of the claims are seconds.
pub mod Accepted
use gslb.Prelude.{
  ℕ, zero, suc, ◌+◌, ◌-◌, ◌*◌, ◌/◌, ℤ, pos, negsuc, String, Bool, Option, none, some, List, [], ◌∷◌,
  map, str_eq, if◌then◌else◌,
}
use gslb.Prelude.Dict.{Dict, lookup}
use gslb.Types.{User, Role, Session, SessionRecord}
use gslb.Result.{GoError, message, wrapped, Result, ok, err, Exec, context, ◌>>=◌}
use gslb.Settings.{OidcConfig, JwtConfig}
use gslb.Store.{SessionStore}

-- A value of a JSON object, as far as the code looks: of an array each element, where it is a text.
pub data Claim : Type 0 where
  text : String → Claim
  texts : List (Option String) → Claim
  number : ℕ → Claim
  other : Claim

abbrev pub Claims : Type 0
Claims = Dict Claim

pub record AuthLib : Type 1 where
  pub Token : Type 0
  pub IdToken : Type 0
  -- `oauth2.Config.Exchange` with the code and the verifier.
  pub exchange : String → String → Result Token
  -- `token.Extra("id_token").(string)`
  pub extra_id_token : Token → Option String
  -- `IDTokenVerifier.Verify`
  pub verify : String → Result IdToken
  pub nonce : IdToken → String
  pub claims : IdToken → Result Claims
  -- `jwt.NewWithClaims` and `SignedString` with the secret.
  pub signed_string : String → Claims → Result String
  -- `jwt.Parse` at a time, with the secret and the key function, and the test of `Valid`.
  pub parse : ℕ → String → String → Result Claims
  -- `rand.Read` of so many bytes.
  pub random : ℕ → Result (List ℕ)
  pub url_encoding : List ℕ → String
  pub raw_url_encoding : List ℕ → String
  pub sha256 : String → List ℕ
  -- `AuthCodeURL` with the state, the nonce and the challenge.
  pub auth_code_url : String → String → String → String

abbrev pub text_of : Option Claim → String
text_of (some (text s)) = s
text_of _ = ""

abbrev pub all_texts : List (Option String) → List String
all_texts [] = []
all_texts (none ∷ rest) = all_texts rest
all_texts (some s ∷ rest) = s ∷ all_texts rest

abbrev pub texts_of : Option Claim → List String
texts_of (some (texts values)) = all_texts values
texts_of _ = []

abbrev second : ℕ
second = 1000000000

-- `now.Add(expiry)`, where zero stands for 24 hours.
abbrev pub expiry_of : ℕ → ℤ → ℕ
expiry_of now (pos zero) = now + 86400 * second
expiry_of now (pos (suc n)) = now + suc n
expiry_of now (negsuc n) = now - (n + 1)

abbrev pub session_claims : String → User → ℕ → ℕ → Claims
session_claims jti user now expires_at =
    ("jti", text jti)
    ∷ ("sub", text user.id)
    ∷ ("email", text user.email)
    ∷ ("name", text user.name)
    ∷ ("roles", texts (map (λ r. some r.name) user.roles))
    ∷ ("iat", number (now / second))
    ∷ ("exp", number (expires_at / second))
    ∷ []

-- What ParseSession makes of claims that are valid; the conversion of "exp" panics where it is missing or no
-- number.
pub data Parsed : Type 0 where
  parsed : Result Session → Parsed
  panic : Parsed

abbrev session_of : Claims → ℕ → Session
session_of claims exp = record {
  jti = text_of (lookup "jti" claims);
  user_id = text_of (lookup "sub" claims);
  email = text_of (lookup "email" claims);
  roles = texts_of (lookup "roles" claims);
  expires_at = exp * second;
}

abbrev pub read_session : Claims → Parsed
read_session claims =
    if str_eq (text_of (lookup "sub" claims)) ""
    then parsed (err (message "missing sub claim"))
    else elim (lookup "exp" claims) [
      | none ↦ panic
      | some exp ↦ elim exp [
        | number n ↦ parsed (ok (session_of claims n))
        | text s ↦ panic
        | texts values ↦ panic
        | other ↦ panic
      ]
    ]

module _ (lib : AuthLib) where
  open lib use {Token, IdToken}

  unfoldable pub generate_state_nonce : Result String
  generate_state_nonce = elim (lib.random 32) [
    | ok bytes ↦ ok (lib.url_encoding bytes)
    | err e ↦ err (wrapped "generating random bytes" e)
  ]

  unfoldable pub generate_pkce_verifier : Result String
  generate_pkce_verifier = elim (lib.random 32) [
    | ok bytes ↦ ok (lib.raw_url_encoding bytes)
    | err e ↦ err (wrapped "generating PKCE verifier" e)
  ]

  unfoldable pub pkce_challenge : String → String
  pkce_challenge verifier = lib.raw_url_encoding (lib.sha256 verifier)

  unfoldable pub verify_id_token : Token → String → Result IdToken
  verify_id_token token nonce = elim (lib.extra_id_token token) [
    | none ↦ err (message "no id_token in token response")
    | some raw ↦ elim (lib.verify raw) [
      | err e ↦ err (wrapped "id_token verification failed" e)
      | ok id_token ↦
          if str_eq (lib.nonce id_token) nonce then ok id_token else err (message "nonce mismatch")
    ]
  ]

  -- The user with the subject, the email and the name of the claims, and the names of the roles.
  unfoldable pub extract_user_info : OidcConfig → IdToken → Result (User × List String)
  extract_user_info oidc token = elim (lib.claims token) [
    | err e ↦ err (wrapped "parse claims" e)
    | ok claims ↦
        if str_eq (text_of (lookup "sub" claims)) ""
        then err (message "missing sub claim")
        else ok (
          record {
            id = "";
            subject = text_of (lookup "sub" claims);
            email = text_of (lookup "email" claims);
            name = text_of (lookup "name" claims);
            last_login_at = 0;
            is_active = Bool.false;
            roles = [];
          },
          texts_of (lookup oidc.roles_claim claims),
        )
  ]

  unfoldable pub create_session :
      {W : Type 0} → SessionStore W → JwtConfig → String → ℕ → User → Exec W String
  create_session sessions jwt jti now user =
      let expires_at = expiry_of now jwt.expiry in
      context "persisting session record" (
        sessions.create_session_record (record {
          jti = jti;
          user_id = user.id;
          created_at = now;
          expires_at = expires_at;
          revoked_at = none;
        }))
      >>= λ done w. (lib.signed_string jwt.secret (session_claims jti user now expires_at), w)

  unfoldable pub parse_session : JwtConfig → ℕ → String → Parsed
  parse_session jwt now token = elim (lib.parse now jwt.secret token) [
    | err e ↦ parsed (err e)
    | ok claims ↦ read_session claims
  ]
