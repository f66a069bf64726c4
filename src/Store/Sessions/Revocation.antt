-- ===== src/Store/Sessions/Revocation.antt =====
-- internal/store/session.go and internal/auth: a revoked session is of no use.
use gslb.Prelude.{
  ℕ, String, Bool, true, false, not, ◌≡◌, ◌≢◌, refl, inl, inr, Option-cases, none, some, List, [],
  ◌∷◌, All, length, ◌==◌, filter_by, str_eq, arith, if◌then◌else◌,
}
use gslb.Types.{Session, SessionRecord}
use gslb.Result.{Result, GoError, ok, err, not_found, Result-cases}
use gslb.Auth.Oidc.{validate_session}
use gslb.Auth.Middleware.{Request, Context, abort, should_skip_auth, get_token, middleware}
use gslb.Store.Sql.{statement, statement_keeps}
use gslb.Store.Sessions.{
  Sessions, insert_session, count_where, find_session, revoke_where, has_jti, has_user, has_expired,
  create_session_record, get_session_record, revoke_session, revoke_user_sessions,
  cleanup_expired_sessions, session_store,
}

-- No session with this id is active: every row with it is revoked.
abbrev pub is_dead : String → List SessionRecord → Bool
is_dead jti [] = true
is_dead jti (r ∷ rest) =
    if str_eq r.jti jti
    then elim r.revoked_at [ none ↦ false | some t ↦ is_dead jti rest ]
    else is_dead jti rest

pub data Operation : Type 0 where
  create : SessionRecord → Operation
  get : String → Operation
  revoke : ℕ → String → Operation
  revoke_user : ℕ → String → Operation
  clean_up : ℕ → Operation

unfoldable pub perform : Operation → Sessions → Sessions
perform (create sess) db = (create_session_record sess db).1
perform (get jti) db = (get_session_record jti db).1
perform (revoke now jti) db = (revoke_session now jti db).1
perform (revoke_user now user_id) db = (revoke_user_sessions now user_id db).1
perform (clean_up now) db = (cleanup_expired_sessions now db).1

unfoldable pub perform_all : List Operation → Sessions → Sessions
perform_all [] db = db
perform_all (op ∷ rest) db = perform_all rest (perform op db)

-- The operation creates no session with this id.
abbrev pub SparesId : String → Operation → Type 0
SparesId jti (create sess) = str_eq sess.jti jti ≡ false
SparesId jti _ = Unit

is_dead-revoke_where :
    (jti : String) (now : ℕ) (rows : List SessionRecord)
    → is_dead jti (revoke_where (has_jti jti) now rows) ≡ true
unfolding revoke_where
is_dead-revoke_where jti now [] = refl
is_dead-revoke_where jti now (r ∷ rest) = ground (arith, is_dead-revoke_where jti now rest)

is_dead-revoke_any :
    (jti : String) (p : SessionRecord → Bool) (now : ℕ) (rows : List SessionRecord)
    → is_dead jti rows ≡ true
    → is_dead jti (revoke_where p now rows) ≡ true
unfolding revoke_where
is_dead-revoke_any jti p now [] h = refl
is_dead-revoke_any jti p now (r ∷ rest) h = ground (arith, h, is_dead-revoke_any jti p now rest)

is_dead-filter_by :
    (jti : String) (p : SessionRecord → Bool) (rows : List SessionRecord)
    → is_dead jti rows ≡ true
    → is_dead jti (filter_by p rows) ≡ true
unfolding filter_by
is_dead-filter_by jti p [] h = refl
is_dead-filter_by jti p (r ∷ rest) h = ground (arith, h, is_dead-filter_by jti p rest)

is_dead-find_session :
    (jti : String) (rows : List SessionRecord) (r : SessionRecord)
    → is_dead jti rows ≡ true
    → find_session jti rows ≡ some r
    → r.revoked_at ≢ none
unfolding find_session
is_dead-find_session jti [] r h e n = ground (arith, e)
is_dead-find_session jti (q ∷ rest) r h e n =
    ground (arith, h, e, n, is_dead-find_session jti rest r)

insert_session_keeps :
    (jti : String) (sess : SessionRecord) (rows : List SessionRecord)
    → str_eq sess.jti jti ≡ false
    → is_dead jti rows ≡ true
    → is_dead jti (insert_session sess rows).1 ≡ true
insert_session_keeps jti sess rows s h = ground (arith, s, h)

perform-is_dead :
    (jti : String) (op : Operation) (db : Sessions)
    → SparesId jti op
    → is_dead jti db.rows ≡ true
    → is_dead jti (perform op db).rows ≡ true
unfolding perform create_session_record get_session_record revoke_session revoke_user_sessions
    cleanup_expired_sessions
perform-is_dead jti (create sess) db s h =
    statement_keeps (is_dead jti) "insert session" (insert_session sess) db h
      (insert_session_keeps jti sess db.rows s h)
perform-is_dead jti (get id) db s h =
    statement_keeps (is_dead jti) "query session"
      (λ rows. (elim (find_session id rows) [ none ↦ err not_found | some r ↦ ok r ], rows)) db h h
perform-is_dead jti (revoke now id) db s h =
    statement_keeps (is_dead jti) "revoke session"
      (λ rows. (
        if count_where (has_jti id) rows == 0 then err not_found else ok tt,
        revoke_where (has_jti id) now rows,
      ))
      db h (is_dead-revoke_any jti (has_jti id) now db.rows h)
perform-is_dead jti (revoke_user now id) db s h =
    statement_keeps (is_dead jti) "revoke user sessions"
      (λ rows. (ok tt, revoke_where (has_user id) now rows)) db h
      (is_dead-revoke_any jti (has_user id) now db.rows h)
perform-is_dead jti (clean_up now) db s h =
    statement_keeps (is_dead jti) "cleanup sessions"
      (λ rows. (
        ok (length (filter_by (has_expired now) rows)),
        filter_by (λ r. not (has_expired now r)) rows,
      ))
      db h (is_dead-filter_by jti (λ r. not (has_expired now r)) db.rows h)

perform_all-is_dead :
    (jti : String) (ops : List Operation) (db : Sessions)
    → All (SparesId jti) ops
    → is_dead jti db.rows ≡ true
    → is_dead jti (perform_all ops db).rows ≡ true
unfolding perform_all
perform_all-is_dead jti [] db s h = h
perform_all-is_dead jti (op ∷ rest) db s h =
    perform_all-is_dead jti rest (perform op db) s.1 (perform-is_dead jti op db s.0 h)

revoke_session-is_dead :
    (now : ℕ) (jti : String) (db : Sessions)
    → (revoke_session now jti db).0 ≡ ok tt
    → is_dead jti (revoke_session now jti db).1.rows ≡ true
unfolding revoke_session statement
revoke_session-is_dead now jti db h = ground (arith, h, is_dead-revoke_where jti now db.rows)

dead_denied :
    (later : ℕ) (session : Session) (db : Sessions)
    → str_eq session.jti "" ≡ false
    → is_dead session.jti db.rows ≡ true
    → (e : GoError) × ((validate_session (session_store later) session db).0 ≡ err e)
unfolding validate_session get_session_record statement
dead_denied later session db n h =
    elim (Result-cases (validate_session (session_store later) session db).0) [
      | inr denied ↦ denied
      | inl (d, v) ↦ elim (Option-cases (find_session session.jti db.rows)) [
        | inl absent ↦ absurd (ground (arith, n, v, absent))
        | inr (r, found) ↦ elim (Option-cases r.revoked_at) [
          | inl active ↦ absurd (is_dead-find_session session.jti db.rows r h found active)
          | inr (t, revoked) ↦ absurd (ground (arith, n, v, found, revoked))
        ]
      ]
    ]

-- Once a session is revoked, its token is refused for good: after a revocation that succeeded and
-- any later operations on the sessions that create none with the same id, a request with the token
-- to a path that needs a session ends with 401.
pub revoked_denied :
    (parse : String → Result Session) (now later : ℕ) (session : Session) (ops : List Operation)
    (req : Request) (ctx : Context) (db : Sessions)
    → str_eq session.jti "" ≡ false
    → (revoke_session now session.jti db).0 ≡ ok tt
    → All (SparesId session.jti) ops
    → should_skip_auth req.path ≡ false
    → str_eq (get_token req) "" ≡ false
    → parse (get_token req) ≡ ok session
    → (middleware parse
        (session_store later)
        req
        ctx
        (perform_all ops (revoke_session now session.jti db).1)).0
      ≡ abort 401 "session revoked"
unfolding middleware
revoked_denied parse now later session ops req ctx db id done spared guarded token parsed =
    let denied =
      dead_denied later session (perform_all ops (revoke_session now session.jti db).1) id (
        perform_all-is_dead session.jti ops (revoke_session now session.jti db).1 spared
          (revoke_session-is_dead now session.jti db done)) in
    ground (arith, guarded, token, parsed, denied.1)
