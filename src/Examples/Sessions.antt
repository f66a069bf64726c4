-- ===== src/Examples/Sessions.antt =====
-- A database with one session, and a request with its token.
use gslb.Prelude.{String, none, some, [], ◌∷◌, str_eq, if◌then◌else◌}
use gslb.Types.{Session, SessionRecord}
use gslb.Result.{Result, ok, err, message}
use gslb.Store.Sessions.{Sessions}
use gslb.Auth.Middleware.{Request}

abbrev pub alice : Session
alice = record {
  jti = "s1";
  user_id = "u1";
  email = "alice@example.com";
  roles = "viewer" ∷ "operator" ∷ [];
  expires_at = 100;
}

abbrev pub stored : SessionRecord
stored = record { jti = "s1"; user_id = "u1"; created_at = 1; expires_at = 100; revoked_at = none }

abbrev pub database : Sessions
database = record { rows = stored ∷ []; faults = [] }

-- A cookie of that text is the only token that parses.
abbrev pub parse : String → Result Session
parse token = if str_eq token "token" then ok alice else err (message "invalid token claims")

abbrev pub visit : Request
visit = record { path = "/api/v1/configs"; cookie = some "token"; authorization = ""; id = "c" }
