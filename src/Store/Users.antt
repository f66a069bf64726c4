-- ===== src/Store/Users.antt =====
-- internal/store/user.go: the table of the users, beside the tables of their roles. A user is returned
-- with the roles that a second query finds; the rows hold none. `new_id` is what `uuid.New` gives; who
-- assigned a role and when, and when a user was created, are left out. The driver's refusals are those
-- of Store/Tables.
pub mod Unique
pub mod Sync
pub mod Synced
use gslb.Prelude.{
  String, Bool, true, false, ◌&&◌, not, none, some, List, [], ◌∷◌, str_eq, if◌then◌else◌,
}
use gslb.Types.{User, Role}
use gslb.Result.{not_found, Result, ok, err, Exec, ◌>>=◌}
use gslb.Store.{UserStore, Done}
use gslb.Store.Sql.{Database, Ran, refused, done, statement, attempt, in_context}
use gslb.Store.Rows.{find_by, exists_by, update_by, has_key}
use gslb.Store.Tables.{Driver}
use gslb.Store.Configs.{or_new_id}
use gslb.Store.Access
use gslb.Store.Access.{RoleTables, insert_pair, insert_role}

pub record Accounts : Type 0 where
  pub users : List User
  pub tables : RoleTables

-- A statement on the tables of the roles.
abbrev pub at_tables : {A : Type 0} → Exec (Database RoleTables) A → Exec (Database Accounts) A
at_tables m db =
    let ran = m (record { rows = db.rows.tables; faults = db.faults }) in
    (ran.0, record { rows = record db.rows { tables = ran.1.rows }; faults = ran.1.faults })

-- users: id PRIMARY KEY, subject UNIQUE.
unfoldable pub insert_user_row : Driver → User → Accounts → Ran Accounts User
insert_user_row driver u t =
    if exists_by (has_key User.id u.id) t.users
    then refused (driver.unique_failed "users.id")
    else if exists_by (has_key User.subject u.subject) t.users
    then refused (driver.unique_failed "users.subject")
    else done (ok u) (record t { users = record u { roles = [] } ∷ t.users })

abbrev pub set_user : User → User → User
set_user u old = record old { email = u.email; name = u.name; last_login_at = u.last_login_at }

unfoldable pub update_user_row : User → Accounts → Ran Accounts Done
update_user_row u t =
    if exists_by (has_key User.id u.id) t.users
    then done (ok tt) (record t { users = update_by (has_key User.id u.id) (set_user u) t.users })
    else done (err not_found) t

-- `INSERT OR IGNORE INTO user_roles`; the foreign keys are not among what it ignores.
unfoldable pub assign_role_row : Driver → String → String → Accounts → Ran Accounts Done
assign_role_row driver user_id role_id t =
    if exists_by (has_key User.id user_id) t.users
      && exists_by (has_key Role.id role_id) t.tables.roles
    then done (ok tt) (record t {
      tables = record t.tables { user_roles = insert_pair user_id role_id t.tables.user_roles };
    })
    else refused driver.foreign_key_failed

module _ (driver : Driver) where
  unfoldable pub create_user : String → User → Exec (Database Accounts) User
  create_user new_id u =
      attempt (in_context "insert user")
        (insert_user_row driver (record u { id = or_new_id u.id new_id }))

  unfoldable pub assign_role : String → String → String → Exec (Database Accounts) Done
  assign_role user_id role_id assigned_by =
      attempt (in_context "assign role") (assign_role_row driver user_id role_id)

unfoldable pub update_user : User → Exec (Database Accounts) Done
update_user u = attempt (in_context "update user") (update_user_row u)

unfoldable pub get_user_roles : String → Exec (Database Accounts) (List Role)
get_user_roles user_id = at_tables (Access.get_user_roles user_id)

-- A row with the roles of the user.
with_roles : User → Exec (Database Accounts) User
with_roles u = get_user_roles u.id >>= λ roles db. (ok (record u { roles = roles }), db)

unfoldable pub get_user_by_id : String → Exec (Database Accounts) User
unfolding with_roles
get_user_by_id id =
    statement "query user by id" (λ t.
      (elim (find_by (has_key User.id id) t.users) [ none ↦ err not_found | some u ↦ ok u ], t))
    >>= with_roles

unfoldable pub get_user_by_subject : String → Exec (Database Accounts) User
unfolding with_roles
get_user_by_subject subject =
    statement "query user by subject" (λ t. (
      elim (find_by (has_key User.subject subject) t.users) [
        | none ↦ err not_found
        | some u ↦ ok u
      ],
      t,
    ))
    >>= with_roles

-- The loop of `ListUsers`, a query for each row.
unfoldable pub all_with_roles : List User → Exec (Database Accounts) (List User)
unfolding with_roles
all_with_roles [] db = (ok [], db)
all_with_roles (u ∷ rest) db =
    (with_roles u >>= λ v. all_with_roles rest >>= λ others db'. (ok (v ∷ others), db')) db

-- Rows are kept newest first, which is `ORDER BY created_at DESC`.
unfoldable pub list_users : Exec (Database Accounts) (List User)
list_users = statement "query users" (λ t. (ok t.users, t)) >>= all_with_roles

unfoldable pub remove_role : String → String → Exec (Database Accounts) Done
remove_role user_id role_id = at_tables (Access.remove_role user_id role_id)

unfoldable pub get_role_by_name : String → Exec (Database Accounts) Role
get_role_by_name name = at_tables (Access.get_role_by_name name)

unfoldable pub get_role_by_id : String → Exec (Database Accounts) Role
get_role_by_id id = statement "query role by id" (λ t. (
  elim (find_by (has_key Role.id id) t.tables.roles) [ none ↦ err not_found | some r ↦ ok r ],
  t,
))

-- `ORDER BY name`
unfoldable pub sort_roles : List Role → List Role
sort_roles [] = []
sort_roles (r ∷ rest) = insert_role r (sort_roles rest)

unfoldable pub list_roles : Exec (Database Accounts) (List Role)
list_roles = statement "query roles" (λ t. (ok (sort_roles t.tables.roles), t))

abbrev pub user_store : Driver → String → UserStore (Database Accounts)
user_store driver new_id = record {
  create_user = create_user driver new_id;
  get_user_by_id = get_user_by_id;
  get_user_by_subject = get_user_by_subject;
  update_user = update_user;
  assign_role = assign_role driver;
  remove_role = remove_role;
  get_user_roles = get_user_roles;
  get_role_by_name = get_role_by_name;
}
