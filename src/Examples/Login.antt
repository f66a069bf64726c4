-- ===== src/Examples/Login.antt =====
-- internal/auth/oidc.go and internal/handlers/auth.go: a login. The JWT library signs the claims of one
-- session; the provider knows one code, which stands for a token with the nonce "nonce".
use gslb.Prelude.{
  ℕ, ◌*◌, ltb, leb, sym, pos, String, Bool, true, false, ◌&&◌, ◌≡◌, refl, ◌⊎◌, Option, none, some,
  List, [], ◌∷◌, str_eq, eq_iff, ◌==◌, if◌then◌else◌, arith,
}
use gslb.Prelude.Dict.{lookup}
use gslb.Types.{User}
use gslb.Result.{GoError, ok, err, message}
use gslb.Settings.{JwtConfig}
use gslb.Store.{UserStore, SessionStore}
use gslb.Store.Sql.{statement, calm}
use gslb.Store.Sessions.{session_store, create_session_record, find_session}
use gslb.Auth.Oidc.{sync_user, validate_session}
use gslb.Auth.Tokens.{
  AuthLib, Claim, Claims, text, texts, number, other, parsed, session_claims, create_session,
  parse_session, verify_id_token, extract_user_info,
}
use gslb.Auth.Tokens.Accepted.{session_for, all_kept, parse_session-create_session}
use gslb.Handlers.Login.{
  AuthService, CallbackRequest, session_cookies, start_session, exchange_code, callback,
}
use gslb.Handlers.Login.Verified.{IsVerified, callback-IsVerified}
use gslb.Handlers.Site.{Site, site_handlers}
use gslb.Examples.Sessions.{database}
use gslb.Examples.Server.{server, site, caller}

same_texts : List (Option String) → List (Option String) → Bool
same_texts [] [] = true
same_texts (some s ∷ rest) (some t ∷ others) = str_eq s t && same_texts rest others
same_texts (none ∷ rest) (none ∷ others) = same_texts rest others
same_texts _ _ = false

same_claim : Claim → Claim → Bool
unfolding same_texts
same_claim (text s) (text t) = str_eq s t
same_claim (texts values) (texts others) = same_texts values others
same_claim (number n) (number m) = n == m
same_claim other other = true
same_claim _ _ = false

same_claims : Claims → Claims → Bool
unfolding same_claim
same_claims [] [] = true
same_claims ((j, v) ∷ rest) ((k, w) ∷ others) =
    str_eq j k && same_claim v w && same_claims rest others
same_claims _ _ = false

same_texts-eq :
    (values others : List (Option String)) → same_texts values others ≡ true → values ≡ others
unfolding same_texts
same_texts-eq [] [] h = refl
same_texts-eq [] (t ∷ others) h = cc
same_texts-eq (some s ∷ rest) (some t ∷ others) h =
    ground (arith, h, eq_iff s t, same_texts-eq rest others)
same_texts-eq (none ∷ rest) (none ∷ others) h = ground (arith, same_texts-eq rest others h)
same_texts-eq (some s ∷ rest) (none ∷ others) h = cc
same_texts-eq (none ∷ rest) (some t ∷ others) h = cc
same_texts-eq (s ∷ rest) [] h = ground (arith, h)

same_claim-eq : (v w : Claim) → same_claim v w ≡ true → v ≡ w
unfolding same_claim
same_claim-eq (text s) (text t) h = ground (arith, h, eq_iff s t)
same_claim-eq (texts values) (texts others) h = ground (arith, same_texts-eq values others h)
same_claim-eq (number n) (number m) h = ground (arith, h)
same_claim-eq other other h = refl
same_claim-eq v w h = cc

same_claims-eq : (claims others : Claims) → same_claims claims others ≡ true → claims ≡ others
unfolding same_claims
same_claims-eq [] [] h = refl
same_claims-eq ((j, v) ∷ rest) ((k, w) ∷ others) h =
    let key : j ≡ k = (eq_iff j k).0 (ground (arith, h)) in
    let value : v ≡ w = same_claim-eq v w (ground (arith, h)) in
    let more : rest ≡ others = same_claims-eq rest others (ground (arith, h)) in cc
same_claims-eq c d h = cc

abbrev dora : User
dora = record {
  id = "u3";
  subject = "dora";
  email = "dora@example.com";
  name = "Dora";
  last_login_at = 0;
  is_active = true;
  roles = record { id = "r1"; name = "operator" } ∷ [];
}

abbrev jwt : JwtConfig
jwt = record {
  secret = "secret";
  expiry = pos 7200000000000;
  cookie_name = "session";
  cookie_secure = true;
  cookie_http_only = true;
  cookie_same_site = "Strict";
}

abbrev known_claims : Claims
known_claims = session_claims "s3" dora 5000000000 7205000000000

abbrev expired : GoError
expired = message "token is expired"

abbrev lib : AuthLib
lib = record {
  Token = String;
  IdToken = String;
  exchange = λ code verifier.
      if str_eq code "code" && str_eq verifier "verifier"
      then ok "token"
      else err (message "invalid_grant");
  extra_id_token = λ token. some token;
  verify = λ raw. ok raw;
  nonce = λ token. "nonce";
  claims = λ token. ok (("sub", text "dora") ∷ []);
  signed_string = λ secret claims.
      if same_claims claims known_claims
      then ok "signed"
      else err (message "not the session of the example");
  parse = λ later secret token.
      if str_eq token "signed"
      then (if ltb later 7205000000000 then ok known_claims else err expired)
      else err (message "token is malformed");
  random = λ n. ok [];
  url_encoding = λ bytes. "";
  raw_url_encoding = λ bytes. "";
  sha256 = λ s. [];
  auth_code_url = λ state nonce challenge. "https://provider.example.com";
}

known_exp : (n : ℕ) → lookup "exp" known_claims ≡ some (number n) → n ≡ 7205
unfolding lookup
known_exp n h = ground (arith, h)

parse-signed :
    (later n : ℕ) (secret : String) (claims : Claims) (token : String)
    → all_kept claims ≡ true
    → leb 1 n ≡ true
    → lookup "exp" claims ≡ some (number n)
    → lookup "nbf" claims ≡ none
    → lib.signed_string secret claims ≡ ok token
    → lib.parse later secret token ≡ (if ltb later (n * 1000000000) then ok claims else err expired)
parse-signed later n secret claims token kept begun exp nbf signed =
    let same : claims ≡ known_claims =
      same_claims-eq claims known_claims (ground (arith, signed)) in
    let at : n ≡ 7205 = known_exp n (rw (sym same) exp) in
    let name : token ≡ "signed" = ground (arith, signed, eq_iff token "signed") in
    rw at (rw same (rw name refl))

parse_session-create_session_example :
    (parse_session lib jwt 7204999999999 "signed"
      ≡ parsed (ok (session_for jwt "s3" 5000000000 dora)))
    × ((validate_session (session_store 7204999999999) (session_for jwt "s3" 5000000000 dora) (
          calm
            (create_session lib (session_store 5000000000) jwt "s3" 5000000000 dora database).1)).0
        ≡ ok tt)
unfolding create_session create_session_record statement find_session same_claims same_claim
    same_texts
parse_session-create_session_example =
    parse_session-create_session lib expired parse-signed jwt "s3" 5000000000 7204999999999 dora
      "signed" database refl refl refl refl refl

abbrev users : UserStore Site
users = record {
  create_user = λ u w. (ok u, w);
  get_user_by_id = λ id w. (ok dora, w);
  get_user_by_subject = λ subject w. (ok dora, w);
  update_user = λ u w. (ok tt, w);
  assign_role = λ u r by w. (ok tt, w);
  remove_role = λ u r w. (ok tt, w);
  get_user_roles = λ u w. (ok [], w);
  get_role_by_name = λ name w. (ok (record { id = "r1"; name = "operator" }), w);
}

abbrev sessions : SessionStore Site
sessions = record {
  create_session_record = λ s w. (ok tt, w);
  get_session_record = λ jti w. (err (message "refused"), w);
  revoke_session = λ jti w. (ok tt, w);
  revoke_user_sessions = λ id w. (ok tt, w);
  cleanup_expired_sessions = λ w. (ok 0, w);
}

abbrev service : AuthService Site
service = record {
  lib = lib;
  oidc = record {
    enabled = true;
    issuer = "";
    client_id = "";
    client_secret = "";
    redirect_url = "";
    scopes = [];
    roles_claim = "roles";
    default_role = "viewer";
  };
  jwt = jwt;
  users = users;
  sessions = sessions;
}

abbrev answer : CallbackRequest
answer = record {
  state_cookie = some "state";
  nonce_cookie = some "nonce";
  pkce_cookie = some "verifier";
  state = "state";
  code = "code";
}

signed_in :
    (callback (site_handlers server) service (caller "") "s3" 5000000000 answer site).0.cookies
    ≡ session_cookies jwt "signed"
unfolding callback exchange_code verify_id_token extract_user_info sync_user start_session
    create_session same_claims same_claim same_texts lookup
signed_in = refl

callback-IsVerified_example :
    ((callback (site_handlers server) service (caller "") "s3" 5000000000 answer site).0.cookies
      ≡ [])
    ⊎ ((nonce verifier : String) × (answer.state_cookie ≡ some answer.state)
        × (answer.nonce_cookie ≡ some nonce)
        × (answer.pkce_cookie ≡ some verifier)
        × IsVerified
            (site_handlers server)
            service
            "s3"
            5000000000
            answer.code
            verifier
            nonce
            site
            (callback (site_handlers server) service (caller "") "s3" 5000000000 answer site).0)
callback-IsVerified_example =
    callback-IsVerified (site_handlers server) service (caller "") "s3" 5000000000 answer site
