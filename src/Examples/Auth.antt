-- ===== src/Examples/Auth.antt =====
-- internal/auth: a request with a session, and logins.
use gslb.Prelude.{true, false, none, [], ◌∷◌, ◌≡◌, refl}
use gslb.Auth.Middleware.{abort, should_skip_auth, get_token, middleware}
use gslb.Store.Sql.{statement}
use gslb.Store.Sessions.{count_where, session_store, revoke_session}
use gslb.Store.Sessions.Revocation.{clean_up, perform_all, revoked_denied}
use gslb.Examples.Sessions.{alice, database, parse, visit}

skip_login : should_skip_auth "/api/v1/auth/login" ≡ true
unfolding should_skip_auth
skip_login = refl

skip_page : should_skip_auth "/docs/index.html" ≡ true
unfolding should_skip_auth
skip_page = refl

guard_api : should_skip_auth "/api/v1/configs" ≡ false
unfolding should_skip_auth
guard_api = refl

revoked_denied_example :
    (middleware parse
      (session_store 9)
      visit
      none
      (perform_all (clean_up 8 ∷ []) (revoke_session 7 "s1" database).1)).0
    ≡ abort 401 "session revoked"
unfolding revoke_session statement get_token count_where
revoked_denied_example =
    revoked_denied parse 7 9 alice (clean_up 8 ∷ []) visit none database refl refl (tt, tt)
      guard_api refl refl
