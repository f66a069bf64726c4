-- ===== src/Handlers/Logout.antt =====
-- internal/handlers/auth.go: the handler of the logout. The
-- URL library is the parameter `link`: the end-session URL and the origin to the URL of the reply,
-- and `none` where there is no such URL or it does not parse.
pub mod Served
use gslb.Prelude.{String, false, Option, none, some, str_eq, if◌then◌else◌, ◌≡◌, refl, arith}
use gslb.Types.{Session}
use gslb.Store.{SessionStore}
use gslb.Auth.Middleware.{Context, session_from_context}

-- The reply has status 200 and clears the cookie with this name.
pub record LogoutReply : Type 0 where
  pub cleared_cookie : String
  pub logout_url : Option String

revoke_session_of : {W : Type 0} → SessionStore W → Option Session → W → W
revoke_session_of s none w = w
revoke_session_of s (some session) w =
    if str_eq session.jti "" then w else (s.revoke_session session.jti w).1

-- `Logout`; an error of the revocation is dropped.
unfoldable pub logout :
    {W : Type 0}
    → SessionStore W
    → (String → String → Option String)
    → String
    → String
    → String
    → Context
    → W
    → LogoutReply × W
unfolding revoke_session_of session_from_context
logout s link cookie_name end_session_url origin ctx w = (
  record {
    cleared_cookie = cookie_name;
    logout_url = if str_eq end_session_url "" then none else link end_session_url origin;
  },
  revoke_session_of s (session_from_context ctx) w,
)
