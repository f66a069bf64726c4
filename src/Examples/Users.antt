-- ===== src/Examples/Users.antt =====
-- internal/store/user.go: the roles of a user who logs in again.
use gslb.Prelude.{leb, String, none, str_eq, ◌&&◌, ◌||◌, ◌⊎◌, true, false, ◌≡◌, refl, [], ◌∷◌}
use gslb.Types.{User, Role}
use gslb.Result.{Result, ok}
use gslb.Store.Rows.{exists_by, find_by, has_key, is_distinct}
use gslb.Store.Sql.{attempt, statement}
use gslb.Store.Access
use gslb.Store.Access.{
  has_pair, find_role, insert_pair, delete_pair, joined_roles, insert_role, Pairs,
}
use gslb.Store.Users.{user_store, create_user, insert_user_row, get_user_by_subject, get_user_roles}
use gslb.Store.Users.Sync.{calm_accounts}
use gslb.Store.Users.Synced.{sync_roles-exact}
use gslb.Auth.Oidc.{sync_roles}
use gslb.Handlers.Users.{AssignRoleRequest, Office, administration, assign_user_role}
use gslb.Handlers.Users.Granted.{access, assign_user_role-grants}
use gslb.Examples.Server.{driver, caller}

abbrev carol : User
carol = record {
  id = "u1";
  subject = "carol";
  email = "";
  name = "";
  last_login_at = 0;
  is_active = true;
  roles = [];
}

abbrev operator : Role
operator = record { id = "r1"; name = "operator" }

abbrev admin : Role
admin = record { id = "r2"; name = "admin" }

abbrev pairs : Pairs
pairs = ("u1", "r1") ∷ ("u2", "r1") ∷ []

-- Another login of a user with the same subject is refused, as the column is UNIQUE.
second_account :
    (create_user driver "u9"
      (record carol { id = "" })
      (calm_accounts (carol ∷ []) [] [] [])).1.rows.users
    ≡ carol ∷ []
unfolding create_user insert_user_row attempt exists_by
second_account = refl

found_with_roles :
    (get_user_by_subject "carol" (calm_accounts (carol ∷ []) (operator ∷ admin ∷ []) [] pairs)).0
    ≡ ok (record carol { roles = operator ∷ [] })
unfolding get_user_by_subject get_user_roles Access.get_user_roles statement joined_roles
    insert_role find_by
found_with_roles = refl

-- The provider names "admin" only: the role "operator" is taken away.
sync_roles-exact_example :
    ((sync_roles
        (user_store driver "u9")
        "u1"
        ("admin" ∷ [])
        (calm_accounts (carol ∷ []) (operator ∷ admin ∷ []) [] pairs)).0
      ≡ ok tt)
    × (has_pair "u1" "r1"
          (sync_roles
            (user_store driver "u9")
            "u1"
            ("admin" ∷ [])
            (calm_accounts (carol ∷ []) (operator ∷ admin ∷ []) [] pairs)).1.rows.tables.user_roles
        ≡ false)
unfolding exists_by is_distinct find_role
sync_roles-exact_example =
    sync_roles-exact driver "u9" (carol ∷ []) (operator ∷ admin ∷ []) [] pairs "u1" "u1"
      ("admin" ∷ []) operator refl refl refl refl

-- Carol becomes an admin, and reaches the config of the admins.
abbrev office : Office
office = record {
  accounts = calm_accounts (carol ∷ []) (operator ∷ admin ∷ []) (("c", "r2") ∷ []) pairs;
  logs = record { rows = []; faults = [] };
}

abbrev body : Result AssignRoleRequest
body = ok (record { role_id = "r2" })

assign_user_role-grants_example :
    let reply = assign_user_role (administration driver "u9" "l1" 50) (caller "u1") body office in
    ((role_id : String) × (body ≡ ok (record { role_id = role_id }))
      × (reply.0.status ≡ 200)
      × (exists_by (has_key User.id "u1") office.accounts.rows.users ≡ true)
      × (exists_by (has_key Role.id role_id) office.accounts.rows.tables.roles ≡ true)
      × (access "u1" "c" reply.1.accounts.rows ≡ (
          str_eq "u1" "u1" && has_pair "c" role_id office.accounts.rows.tables.config_roles
          || access "u1" "c" office.accounts.rows)))
    ⊎ ((leb 400 reply.0.status ≡ true)
        × (reply.0.body ≡ none)
        × (reply.1.accounts.rows ≡ office.accounts.rows)
        × (reply.1.logs ≡ office.logs))
assign_user_role-grants_example =
    assign_user_role-grants driver "u9" "l1" 50 (caller "u1") body "u1" "c" office
