-- ===== src/Auth/Oidc.antt =====
-- internal/auth/oidc.go: the check of a session against the database, and what a login does to the
-- user and the roles. A parsed session and the claims of the provider are given: Auth/Tokens has what
-- reads them.
pub mod Sync
use gslb.Prelude.{
  ℕ, String, Bool, true, false, ◌||◌, not, Option, none, some, List, [], ◌∷◌, str_eq, if◌then◌else◌,
}
use gslb.Prelude.Dict.{Dict, lookup, insert}
use gslb.Types.{Session, SessionRecord, User, Role}
use gslb.Result.{
  GoError, message, wrapped, is_not_found, Result, ok, err, Exec, context, pure, ◌>>=◌,
}
use gslb.Store.{SessionStore, UserStore, Done}

abbrev pub check_record : Result SessionRecord → Result Done
check_record (err e) =
    if is_not_found e then err (message "session not found") else err (wrapped "checking session" e)
check_record (ok record_) = elim record_.revoked_at [
  | none ↦ ok tt
  | some t ↦ err (message "session revoked")
]

-- `ValidateSession`; a session with no id is allowed.
unfoldable pub validate_session : {W : Type 0} → SessionStore W → Session → Exec W Done
validate_session s session w =
    let found = s.get_session_record session.jti w in
    if str_eq session.jti "" then (ok tt, w) else (check_record found.0, found.1)

abbrev pub has_role : String → List String → Bool
has_role name [] = false
has_role name (r ∷ rest) = str_eq r name || has_role name rest

-- `currentByName`
unfoldable pub ids_by_name : List Role → Dict String → Dict String
ids_by_name [] m = m
ids_by_name (r ∷ rest) m = ids_by_name rest (insert r.name r.id m)

-- A `*types.User` that `GetUserBySubject` found, and nil where the record is missing.
abbrev pub existing_user : Result User → Result (Option User)
existing_user (ok u) = ok (some u)
existing_user (err e) = if is_not_found e then ok none else err (wrapped "lookup user" e)

module _ {W : Type 0} (s : UserStore W) where
  add_role : String → Result Role → W → W
  add_role user_id (ok role) w = (s.assign_role user_id role.id "oidc" w).1
  add_role user_id (err e) w = w

  -- The loop that adds the missing roles; an error of a step is dropped.
  unfoldable pub add_missing : String → Dict String → List String → W → W
  unfolding add_role
  add_missing user_id current [] w = w
  add_missing user_id current (name ∷ rest) w =
      let found = s.get_role_by_name name w in
      add_missing user_id current rest
        (elim (lookup name current) [ some id ↦ w | none ↦ add_role user_id found.0 found.1 ])

  -- The loop that removes the roles that are not desired.
  unfoldable pub remove_stale : String → List String → Dict String → W → W
  remove_stale user_id desired [] w = w
  remove_stale user_id desired ((name, id) ∷ rest) w =
      remove_stale user_id desired rest
        (if has_role name desired then w else (s.remove_role user_id id w).1)

  unfoldable pub sync_roles : String → List String → Exec W Done
  sync_roles user_id names w =
      let current = context "get user roles" (s.get_user_roles user_id) w in
      elim current.0 [
        | err e ↦ (err e, current.1)
        | ok roles ↦
            let by_name = ids_by_name roles [] in
            (
              ok tt,
              remove_stale user_id names by_name (add_missing user_id by_name names current.1),
            )
      ]

  -- The roles are left alone where the provider names none.
  sync_if_any : String → List String → Exec W Done
  unfolding sync_roles
  sync_if_any user_id [] w = (ok tt, w)
  sync_if_any user_id (name ∷ rest) w = sync_roles user_id (name ∷ rest) w

  update_existing : ℕ → User → User → List String → Exec W User
  unfolding sync_if_any
  update_existing now existing oidc_user names w =
      if existing.is_active
      then ((context "update user" (
              s.update_user (record existing {
                email = oidc_user.email;
                name = oidc_user.name;
                last_login_at = now;
              }))
            >>= λ _. sync_if_any existing.id names >>= λ _. s.get_user_by_id existing.id)
          w)
      else (err (message "authentication failed"), w)

  -- A first login. `create_user` returns the user with the id that it gave.
  create_new : ℕ → String → User → List String → Exec W User
  unfolding sync_if_any
  create_new now default_role oidc_user names =
      context "create user"
        (s.create_user (record oidc_user { last_login_at = now; is_active = true }))
      >>= λ created. context "get default role" (s.get_role_by_name default_role) >>= λ role.
          context "assign default role" (s.assign_role created.id role.id "system") >>= λ _.
          sync_if_any created.id names >>= λ _. s.get_user_by_id created.id

  -- `SyncUser`
  unfoldable pub sync_user : ℕ → String → User → List String → Exec W User
  unfolding update_existing create_new
  sync_user now default_role oidc_user names w =
      let found = s.get_user_by_subject oidc_user.subject w in
      elim (existing_user found.0) [
        | err e ↦ (err e, found.1)
        | ok u ↦ elim u [
          | some existing ↦ update_existing now existing oidc_user names found.1
          | none ↦ create_new now default_role oidc_user names found.1
        ]
      ]
