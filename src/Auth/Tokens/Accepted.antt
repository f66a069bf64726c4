-- ===== src/Auth/Tokens/Accepted.antt =====
-- internal/auth/oidc.go: the token of a new session, read again.
use gslb.Prelude.{
  ℕ, ◌*◌, ◌/◌, String, Bool, true, false, ◌&&◌, leb, ltb, if◌then◌else◌, ◌≡◌, refl, ap, Option,
  some, none, List, [], ◌∷◌, map, str_eq, eq_iff, arith,
}
use gslb.Prelude.Dict.{lookup}
use gslb.Types.{User, Role, Session}
use gslb.Result.{GoError, ok, err}
use gslb.Settings.{JwtConfig}
use gslb.Store.Sql.{statement, calm}
use gslb.Store.Sessions.{
  Sessions, session_store, create_session_record, get_session_record, find_session,
}
use gslb.Auth.Oidc.{validate_session}
use gslb.Auth.Tokens.{
  AuthLib, Claim, Claims, text, texts, number, other, parsed, all_texts, expiry_of, session_claims,
  create_session, parse_session,
}

all_texts-map :
    (roles : List Role) → all_texts (map (λ r. some r.name) roles) ≡ map (λ r. r.name) roles
all_texts-map [] = refl
all_texts-map (r ∷ rest) = ap (λ names. r.name ∷ names) (all_texts-map rest)

-- The session of a user that starts now.
abbrev pub session_for : JwtConfig → String → ℕ → User → Session
session_for jwt jti now user = record {
  jti = jti;
  user_id = user.id;
  email = user.email;
  roles = map (λ r. r.name) user.roles;
  expires_at = expiry_of now jwt.expiry / 1000000000 * 1000000000;
}

-- Values that are the same after they are written as JSON and read again: a number is read as a float64.
abbrev pub all_given : List (Option String) → Bool
all_given [] = true
all_given (none ∷ rest) = false
all_given (some s ∷ rest) = all_given rest

abbrev pub is_kept : Claim → Bool
is_kept (text s) = true
is_kept (texts values) = all_given values
is_kept (number n) = ltb n 9007199254740992
is_kept other = false

abbrev pub all_kept : Claims → Bool
all_kept [] = true
all_kept ((key, value) ∷ rest) = is_kept value && all_kept rest

all_given-map : (roles : List Role) → all_given (map (λ r. some r.name) roles) ≡ true
all_given-map [] = refl
all_given-map (r ∷ rest) = all_given-map rest

-- The end of a session in seconds, as the claim "exp" has it.
abbrev pub end_of : JwtConfig → ℕ → ℕ
end_of jwt now = expiry_of now jwt.expiry / 1000000000

module _ (lib : AuthLib) (expired : GoError)
    -- From a token that the library signed it reads the claims that were signed, before the time of their
    -- "exp", and fails from then on. Without options it checks no other time than that of "nbf".
    (parse-signed : (later n : ℕ) (secret : String) (claims : Claims) (token : String)
      → all_kept claims ≡ true
      → leb 1 n ≡ true
      → lookup "exp" claims ≡ some (number n)
      → lookup "nbf" claims ≡ none
      → lib.signed_string secret claims ≡ ok token
      → lib.parse later secret token
        ≡ (if ltb later (n * 1000000000) then ok claims else err expired)) where
  parse_session-signed :
      (jwt : JwtConfig) (jti : String) (now later : ℕ) (user : User) (token : String)
      → str_eq user.id "" ≡ false
      → leb 1 (end_of jwt now) ≡ true
      → ltb (end_of jwt now) 9007199254740992 ≡ true
      → ltb (now / 1000000000) 9007199254740992 ≡ true
      → lib.signed_string jwt.secret (session_claims jti user now (expiry_of now jwt.expiry))
        ≡ ok token
      → parse_session lib jwt later token ≡ (
          if ltb later (end_of jwt now * 1000000000)
          then parsed (ok (session_for jwt jti now user))
          else parsed (err expired))
  unfolding parse_session lookup
  parse_session-signed jwt jti now later user token id begun small early signed =
      let claims : Claims = session_claims jti user now (expiry_of now jwt.expiry) in
      let kept : all_kept claims ≡ true = ground (arith, small, early, all_given-map user.roles) in
      ground (
        arith,
        parse-signed later (end_of jwt now) jwt.secret claims token kept begun refl refl signed,
        id,
        all_texts-map user.roles,
      )

  -- The token that CreateSession returns, at any time: until the end of the session, in whole seconds,
  -- ParseSession reads from it the session of the user, with the id, the email and the names of the roles
  -- of the user, and this end; from the end on it returns the error of an expired token. And
  -- ValidateSession accepts the session at any time, as long as the database refuses no query. The user
  -- has an id, and the start and the end of the session are numbers of seconds below 2 ^ 53, the end
  -- not 0.
  pub parse_session-create_session :
      (jwt : JwtConfig) (jti : String) (now later : ℕ) (user : User) (token : String)
      (db : Sessions)
      → str_eq user.id "" ≡ false
      → leb 1 (end_of jwt now) ≡ true
      → ltb (end_of jwt now) 9007199254740992 ≡ true
      → ltb (now / 1000000000) 9007199254740992 ≡ true
      → (create_session lib (session_store now) jwt jti now user db).0 ≡ ok token
      → (parse_session lib jwt later token ≡ (
          if ltb later (end_of jwt now * 1000000000)
          then parsed (ok (session_for jwt jti now user))
          else parsed (err expired)))
        × ((validate_session
              (session_store later)
              (session_for jwt jti now user)
              (calm (create_session lib (session_store now) jwt jti now user db).1)).0
            ≡ ok tt)
  unfolding create_session create_session_record get_session_record validate_session statement
      find_session
  parse_session-create_session jwt jti now later user token db id begun small early made = (
    parse_session-signed jwt jti now later user token id begun small early (ground (arith, made)),
    ground (arith, made, eq_iff jti jti),
  )
