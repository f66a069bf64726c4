-- ===== src/Store/Access/Granted.antt =====
-- internal/store/user.go: who has access to a config.
use gslb.Prelude.{
  String, Bool, true, ◌&&◌, ◌||◌, not, ◌≡◌, refl, ◌↔◌, List, [], ◌∷◌, Any, ltb, str_eq, eq_iff,
  arith,
}
use gslb.Result.{ok}
use gslb.Store.Sql.{Database, statement}
use gslb.Store.Access.{
  Pairs, RoleTables, has_pair, insert_pair, delete_pair, count_users, count_access, has_text,
  distinct_configs, assign_role, remove_role, can_access, list_configs_for_user,
}

-- A row that gives the config a role which the user has.
abbrev pub Gives : String → String → Pairs → String × String → Type 0
Gives user_id config_id user_roles row =
    (row.0 ≡ config_id) × (has_pair user_id row.1 user_roles ≡ true)

pub count_users-has_pair :
    (user_id role_id : String) (l : Pairs)
    → ltb 0 (count_users user_id role_id l) ≡ has_pair user_id role_id l
unfolding count_users
count_users-has_pair user_id role_id [] = refl
count_users-has_pair user_id role_id ((u, r) ∷ rest) =
    ground (arith, count_users-has_pair user_id role_id rest)

count_access-Gives :
    (user_id config_id : String) (user_roles l : Pairs)
    → (ltb 0 (count_access user_id config_id user_roles l) ≡ true)
      ↔ Any (Gives user_id config_id user_roles) l
unfolding count_access
count_access-Gives user_id config_id user_roles [] = (λ h. cc, λ h. elim h [ ])
count_access-Gives user_id config_id user_roles ((c, r) ∷ rest) = ground (
  arith,
  count_access-Gives user_id config_id user_roles rest,
  count_users-has_pair user_id r user_roles,
  eq_iff c config_id,
)

distinct_configs-Gives :
    (user_id config_id : String) (user_roles l : Pairs)
    → (has_text config_id (distinct_configs user_id user_roles l) ≡ true)
      ↔ Any (Gives user_id config_id user_roles) l
unfolding distinct_configs
distinct_configs-Gives user_id config_id user_roles [] = (λ h. cc, λ h. elim h [ ])
distinct_configs-Gives user_id config_id user_roles ((c, r) ∷ rest) =
    ground (arith, distinct_configs-Gives user_id config_id user_roles rest, eq_iff c config_id)

-- Where the database answers, a user has access to a config exactly when some role of the config is
-- one of the user's.
pub can_access_iff :
    (user_id config_id : String) (db : Database RoleTables) (answer : Bool)
    → (can_access user_id config_id db).0 ≡ ok answer
    → (answer ≡ true) ↔ Any (Gives user_id config_id db.rows.user_roles) db.rows.config_roles
unfolding can_access statement
can_access_iff user_id config_id db answer h =
    ground (arith, h, count_access-Gives user_id config_id db.rows.user_roles db.rows.config_roles)

-- Where the database answers, the listing of a user's configs has exactly those to which the user
-- has access.
list_configs_for_user_iff :
    (user_id config_id : String) (db : Database RoleTables) (ids : List String)
    → (list_configs_for_user user_id db).0 ≡ ok ids
    → (has_text config_id ids ≡ true)
      ↔ Any (Gives user_id config_id db.rows.user_roles) db.rows.config_roles
unfolding list_configs_for_user statement
list_configs_for_user_iff user_id config_id db ids h =
    ground
      (arith, h, distinct_configs-Gives user_id config_id db.rows.user_roles db.rows.config_roles)

pub has_pair-insert_pair :
    (a b c d : String) (l : Pairs)
    → has_pair c d (insert_pair a b l) ≡ (str_eq a c && str_eq b d || has_pair c d l)
unfolding insert_pair
has_pair-insert_pair a b c d l = ground (arith, eq_iff a c, eq_iff b d)

pub has_pair-delete_pair :
    (a b c d : String) (l : Pairs)
    → has_pair c d (delete_pair a b l) ≡ (not (str_eq a c && str_eq b d) && has_pair c d l)
unfolding delete_pair
has_pair-delete_pair a b c d [] = ground arith
has_pair-delete_pair a b c d ((x, y) ∷ rest) = ground (
  arith,
  has_pair-delete_pair a b c d rest,
  eq_iff x a,
  eq_iff y b,
  eq_iff x c,
  eq_iff y d,
  eq_iff a c,
  eq_iff b d,
)

-- An assignment that succeeds gives the user the role, also where the user has it already, and a
-- removal that succeeds takes it away; every other role of every user stays.
pub has_pair-assign_role :
    (user_id role_id other_user other_role : String) (db : Database RoleTables)
    → (assign_role user_id role_id db).0 ≡ ok tt
    → (remove_role user_id role_id db).0 ≡ ok tt
    → (has_pair other_user other_role (assign_role user_id role_id db).1.rows.user_roles ≡ (
        str_eq user_id other_user && str_eq role_id other_role
        || has_pair other_user other_role db.rows.user_roles))
      × (has_pair other_user other_role (remove_role user_id role_id db).1.rows.user_roles ≡ (
          not (str_eq user_id other_user && str_eq role_id other_role)
          && has_pair other_user other_role db.rows.user_roles))
unfolding assign_role remove_role statement
has_pair-assign_role user_id role_id other_user other_role db assigned removed = (
  ground (
    arith,
    assigned,
    has_pair-insert_pair user_id role_id other_user other_role db.rows.user_roles,
  ),
  ground (
    arith,
    removed,
    has_pair-delete_pair user_id role_id other_user other_role db.rows.user_roles,
  ),
)
