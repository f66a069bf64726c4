-- ===== src/Store/Sessions.antt =====
-- internal/store/session.go: the sessions in the table `sessions`, whose key is `jti`. `now` is what
-- `time.Now` returns.
pub mod Revocation
use gslb.Prelude.{
  ℕ, ◌+◌, String, Bool, true, false, ◌&&◌, not, Option, none, some, List, [], ◌∷◌, length,
  filter_by, ltb, ◌==◌, str_eq, if◌then◌else◌,
}
use gslb.Types.{SessionRecord}
use gslb.Result.{GoError, not_found, message, wrapped, Result, ok, err, Exec}
use gslb.Store.{SessionStore, Done}
use gslb.Store.Sql.{Database, statement}

abbrev pub Sessions : Type 0
Sessions = Database (List SessionRecord)

-- The row with a key.
unfoldable pub find_session : String → List SessionRecord → Option SessionRecord
find_session jti [] = none
find_session jti (r ∷ rest) = if str_eq r.jti jti then some r else find_session jti rest

abbrev pub insert_session : SessionRecord → List SessionRecord → Result Done × List SessionRecord
insert_session sess rows = elim (find_session sess.jti rows) [
  | some r ↦
      (err (wrapped "insert session" (message "UNIQUE constraint failed: sessions.jti")), rows)
  | none ↦ (ok tt, record sess { revoked_at = none } ∷ rows)
]

abbrev is_active : SessionRecord → Bool
is_active r = elim r.revoked_at [ none ↦ true | some t ↦ false ]

-- `UPDATE sessions SET revoked_at = ? WHERE ... AND revoked_at IS NULL`
unfoldable pub revoke_where : (SessionRecord → Bool) → ℕ → List SessionRecord → List SessionRecord
revoke_where p now [] = []
revoke_where p now (r ∷ rest) =
    (if p r && is_active r then record r { revoked_at = some now } else r) ∷ revoke_where p now rest

-- The number of the rows that such an update changes.
unfoldable pub count_where : (SessionRecord → Bool) → List SessionRecord → ℕ
count_where p [] = 0
count_where p (r ∷ rest) = (if p r && is_active r then 1 else 0) + count_where p rest

abbrev pub has_jti : String → SessionRecord → Bool
has_jti jti r = str_eq r.jti jti

abbrev pub has_user : String → SessionRecord → Bool
has_user user_id r = str_eq r.user_id user_id

abbrev pub has_expired : ℕ → SessionRecord → Bool
has_expired now r = ltb r.expires_at now

unfoldable pub create_session_record : SessionRecord → Exec Sessions Done
unfolding statement
create_session_record sess = statement "insert session" (insert_session sess)

unfoldable pub get_session_record : String → Exec Sessions SessionRecord
get_session_record jti =
    statement "query session"
      (λ rows. (elim (find_session jti rows) [ none ↦ err not_found | some r ↦ ok r ], rows))

unfoldable pub revoke_session : ℕ → String → Exec Sessions Done
revoke_session now jti = statement "revoke session" (λ rows. (
  if count_where (has_jti jti) rows == 0 then err not_found else ok tt,
  revoke_where (has_jti jti) now rows,
))

unfoldable pub revoke_user_sessions : ℕ → String → Exec Sessions Done
revoke_user_sessions now user_id =
    statement "revoke user sessions" (λ rows. (ok tt, revoke_where (has_user user_id) now rows))

unfoldable pub cleanup_expired_sessions : ℕ → Exec Sessions ℕ
cleanup_expired_sessions now = statement "cleanup sessions" (λ rows.
    (ok (length (filter_by (has_expired now) rows)), filter_by (λ r. not (has_expired now r)) rows))

-- The store that the middleware uses.
abbrev pub session_store : ℕ → SessionStore Sessions
session_store now = record {
  create_session_record = create_session_record;
  get_session_record = get_session_record;
  revoke_session = revoke_session now;
  revoke_user_sessions = revoke_user_sessions now;
  cleanup_expired_sessions = cleanup_expired_sessions now;
}
