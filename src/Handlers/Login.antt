-- ===== src/Handlers/Login.antt =====
-- internal/handlers/auth.go: Login and Callback. gin's `SetCookie` and `Redirect` are values of the reply;
-- a query that is missing reads as the empty text.
pub mod Verified
use gslb.Prelude.{
  ℕ, zero, suc, ◌/◌, ℤ, pos, negsuc, String, Bool, true, false, not, Option, none, some, List, [],
  ◌∷◌, str_eq, if◌then◌else◌,
}
use gslb.Types.{User}
use gslb.Result.{GoError, error_text, Result, ok, err, Exec}
use gslb.Settings.{OidcConfig, JwtConfig}
use gslb.Store.{UserStore, SessionStore}
use gslb.Auth.Oidc.{sync_user}
use gslb.Auth.Tokens.{
  AuthLib, generate_state_nonce, generate_pkce_verifier, pkce_challenge, verify_id_token,
  extract_user_info, create_session,
}
use gslb.Handlers.Api.{Handlers, Caller, log_audit}

pub data SameSite : Type 0 where
  strict lax unrestricted : SameSite

unfoldable pub same_site_from_string : String → SameSite
same_site_from_string s =
    if str_eq s "Strict"
    then SameSite.strict
    else if str_eq s "None"
    then SameSite.unrestricted
    else SameSite.lax

-- A cookie of the path "/"; one with a negative age is deleted.
pub record Cookie : Type 0 where
  pub name : String
  pub value : String
  pub max_age : ℤ
  pub secure : Bool
  pub http_only : Bool
  pub same_site : SameSite

-- The cookies are in the order of the calls; `location` is that of a redirect.
pub record AuthReply : Type 0 where
  pub status : ℕ
  pub error : String
  pub cookies : List Cookie
  pub location : String

abbrev pub refuse : ℕ → String → AuthReply
refuse status error = record { status = status; error = error; cookies = []; location = "" }

-- What the service of the logins holds.
pub record AuthService (W : Type 0) : Type 1 where
  pub lib : AuthLib
  pub oidc : OidcConfig
  pub jwt : JwtConfig
  pub users : UserStore W
  pub sessions : SessionStore W

abbrev flow_cookie : JwtConfig → String → String → ℤ → Cookie
flow_cookie jwt name value max_age = record {
  name = name;
  value = value;
  max_age = max_age;
  secure = jwt.cookie_secure;
  http_only = true;
  same_site = same_site_from_string jwt.cookie_same_site;
}

-- The cookie and query values of a callback.
pub record CallbackRequest : Type 0 where
  pub state_cookie : Option String
  pub nonce_cookie : Option String
  pub pkce_cookie : Option String
  pub state : String
  pub code : String

-- `Login`, given what the three generators return.
unfoldable pub login :
    AuthLib → JwtConfig → Result String → Result String → Result String → AuthReply
login lib jwt (err e) nonce verifier = refuse 500 "failed to generate state"
login lib jwt (ok state) (err e) verifier = refuse 500 "failed to generate nonce"
login lib jwt (ok state) (ok nonce) (err e) = refuse 500 "failed to generate PKCE verifier"
login lib jwt (ok state) (ok nonce) (ok verifier) = record {
  status = 302;
  error = "";
  cookies =
      flow_cookie jwt "oidc_state" state (pos 600)
      ∷ flow_cookie jwt "oidc_nonce" nonce (pos 600)
      ∷ flow_cookie jwt "oidc_pkce" verifier (pos 600)
      ∷ [];
  location = lib.auth_code_url state nonce (pkce_challenge lib verifier);
}

-- `int(jwtCfg.Expiry.Seconds())`, which cuts off towards zero; zero stands for a day.
abbrev pub whole_seconds : ℤ → ℤ
whole_seconds (pos n) = pos (n / 1000000000)
whole_seconds (negsuc n) = elim (suc n / 1000000000) [ zero ↦ pos 0 | suc k ↦ negsuc k ]

abbrev pub max_age_of : ℤ → ℤ
max_age_of expiry = elim (whole_seconds expiry) [
  | pos n ↦ elim n [ zero ↦ pos 86400 | suc k ↦ pos (suc k) ]
  | negsuc n ↦ negsuc n
]

unfoldable pub session_cookies : JwtConfig → String → List Cookie
session_cookies jwt token =
    record {
      name = jwt.cookie_name;
      value = token;
      max_age = max_age_of jwt.expiry;
      secure = jwt.cookie_secure;
      http_only = jwt.cookie_http_only;
      same_site = same_site_from_string jwt.cookie_same_site;
    }
    ∷ flow_cookie jwt "oidc_state" "" (negsuc 0)
    ∷ flow_cookie jwt "oidc_nonce" "" (negsuc 0)
    ∷ flow_cookie jwt "oidc_pkce" "" (negsuc 0)
    ∷ []

module _ {W : Type 0} (h : Handlers W) (svc : AuthService W) where
  -- `if err != nil { ...; return }`
  abbrev pub or_refuse :
      {A : Type 0} → (GoError → AuthReply) → Result A × W → (A → W → AuthReply × W) → AuthReply × W
  or_refuse on_error (ok a, w) next = next a w
  or_refuse on_error (err e, w) next = (on_error e, w)

  -- The user is known: the session, the cookies and the entry of the audit log.
  unfoldable pub start_session : Caller → String → ℕ → User → W → AuthReply × W
  start_session caller jti now user w =
      or_refuse (λ e. refuse 500 "failed to create session")
        (create_session svc.lib svc.sessions svc.jwt jti now user w)
        (λ token w'. (
          record {
            status = 302;
            error = "";
            cookies = session_cookies svc.jwt token;
            location = "/";
          },
          log_audit h "auth:login" "user" user.id user.email "" "" caller w',
        ))

  -- The tokens of the provider, and the user that they name.
  unfoldable pub exchange_code : Caller → String → ℕ → String → String → String → W → AuthReply × W
  exchange_code caller jti now code verifier nonce w =
      or_refuse (λ e. refuse 401 "failed to exchange token") (svc.lib.exchange code verifier, w)
        (λ token. λ w1.
          or_refuse (λ e. refuse 401 "failed to verify ID token")
            (verify_id_token svc.lib token nonce, w1)
            (λ id_token. λ w2.
              or_refuse (λ e. refuse 500 "failed to extract user info")
                (extract_user_info svc.lib svc.oidc id_token, w2)
                (λ info. λ w3.
                  or_refuse (λ e. refuse 403 (error_text e))
                    (sync_user svc.users now svc.oidc.default_role info.0 info.1 w3)
                    (λ user. start_session caller jti now user))))

  -- `Callback`
  unfoldable pub callback : Caller → String → ℕ → CallbackRequest → W → AuthReply × W
  callback caller jti now req w = elim req.state_cookie [
    | none ↦ (refuse 400 "invalid state parameter", w)
    | some state ↦
        if not (str_eq state req.state)
        then (refuse 400 "invalid state parameter", w)
        else elim req.nonce_cookie [
          | none ↦ (refuse 400 "missing nonce cookie", w)
          | some nonce ↦ elim req.pkce_cookie [
            | none ↦ (refuse 400 "missing PKCE verifier cookie", w)
            | some verifier ↦
                if str_eq req.code ""
                then (refuse 400 "authorization code not provided", w)
                else exchange_code caller jti now req.code verifier nonce w
          ]
        ]
  ]
