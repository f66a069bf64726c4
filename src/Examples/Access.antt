-- ===== src/Examples/Access.antt =====
-- internal/store/user.go: one user with one role, and one config that the role can reach.
use gslb.Prelude.{true, ◌≡◌, refl, ◌↔◌, [], ◌∷◌, Any}
use gslb.Result.{ok}
use gslb.Store.Sql.{Database, statement}
use gslb.Store.Access.{
  RoleTables, count_users, count_access, joined_roles, insert_role, can_access, get_user_roles,
}
use gslb.Store.Access.Granted.{Gives, can_access_iff}

abbrev pub tables : Database RoleTables
tables = record {
  rows = record {
    roles = record { id = "r1"; name = "operator" } ∷ record { id = "r2"; name = "admin" } ∷ [];
    user_roles = ("u1", "r1") ∷ ("u1", "r2") ∷ [];
    config_roles = ("c", "r1") ∷ ("d", "r3") ∷ [];
  };
  faults = [];
}

roles_sorted :
    (get_user_roles "u1" tables).0
    ≡ ok (record { id = "r2"; name = "admin" } ∷ record { id = "r1"; name = "operator" } ∷ [])
unfolding get_user_roles statement joined_roles insert_role
roles_sorted = refl

can_access_iff_example :
    (true ≡ true) ↔ Any (Gives "u1" "c" tables.rows.user_roles) tables.rows.config_roles
unfolding can_access statement count_access count_users
can_access_iff_example = can_access_iff "u1" "c" tables true refl
