-- ===== src/Store/Access.antt =====
-- internal/store/user.go: the roles, the roles of the users and of the configs, and the access that
-- they give. A row of a join table is a pair: a user or a config, and a role; who assigned it and
-- when, and the description of a role, are left out.
pub mod Granted
pub mod Members
use gslb.Prelude.{
  ℕ, ◌+◌, String, Bool, true, false, ◌&&◌, ◌||◌, not, Option, none, some, List, [], ◌∷◌, ltb,
  str_eq, filter_by, if◌then◌else◌,
}
use gslb.Types.{Role}
use gslb.Result.{not_found, ok, err, Exec}
use gslb.Store.{ConfigRoleStore, Done}
use gslb.Store.Sql.{Database, statement}
use gslb.Dns.Ips.{text_le}

abbrev pub Pairs : Type 0
Pairs = List (String × String)

pub record RoleTables : Type 0 where
  pub roles : List Role
  pub user_roles : Pairs
  pub config_roles : Pairs

abbrev pub has_pair : String → String → Pairs → Bool
has_pair a b [] = false
has_pair a b ((x, y) ∷ rest) = str_eq x a && str_eq y b || has_pair a b rest

-- `INSERT OR IGNORE`
unfoldable pub insert_pair : String → String → Pairs → Pairs
insert_pair a b pairs = if has_pair a b pairs then pairs else (a, b) ∷ pairs

-- `DELETE`
unfoldable pub delete_pair : String → String → Pairs → Pairs
delete_pair a b [] = []
delete_pair a b ((x, y) ∷ rest) =
    let others = delete_pair a b rest in
    if str_eq x a && str_eq y b then others else (x, y) ∷ others

-- `ORDER BY name`
unfoldable pub insert_role : Role → List Role → List Role
insert_role r [] = r ∷ []
insert_role r (q ∷ rest) = if text_le r.name q.name then r ∷ q ∷ rest else q ∷ insert_role r rest

-- The roles joined with the pairs of an owner.
unfoldable pub joined_roles : String → Pairs → List Role → List Role
unfolding insert_role
joined_roles owner pairs [] = []
joined_roles owner pairs (r ∷ rest) =
    let others = joined_roles owner pairs rest in
    if has_pair owner r.id pairs then insert_role r others else others

unfoldable pub find_role : String → List Role → Option Role
find_role name [] = none
find_role name (r ∷ rest) = if str_eq r.name name then some r else find_role name rest

-- The rows of `user_roles` that join one row of `config_roles`.
unfoldable pub count_users : String → String → Pairs → ℕ
count_users user_id role_id [] = 0
count_users user_id role_id ((u, r) ∷ rest) =
    (if str_eq u user_id && str_eq r role_id then 1 else 0) + count_users user_id role_id rest

-- `SELECT COUNT(*)` of `CanAccess`
unfoldable pub count_access : String → String → Pairs → Pairs → ℕ
unfolding count_users
count_access user_id config_id user_roles [] = 0
count_access user_id config_id user_roles ((c, r) ∷ rest) =
    (if str_eq c config_id then count_users user_id r user_roles else 0)
    + count_access user_id config_id user_roles rest

abbrev pub has_text : String → List String → Bool
has_text a [] = false
has_text a (b ∷ rest) = str_eq b a || has_text a rest

-- `SELECT DISTINCT` of `ListConfigsForUser`
unfoldable pub distinct_configs : String → Pairs → Pairs → List String
distinct_configs user_id user_roles [] = []
distinct_configs user_id user_roles ((c, r) ∷ rest) =
    let others = distinct_configs user_id user_roles rest in
    if has_pair user_id r user_roles && not (has_text c others) then c ∷ others else others

-- The configs of the pairs with a role.
unfoldable pub owners_of : String → Pairs → List String
owners_of role_id [] = []
owners_of role_id ((c, r) ∷ rest) =
    let others = owners_of role_id rest in if str_eq r role_id then c ∷ others else others

unfoldable pub assign_role : String → String → Exec (Database RoleTables) Done
assign_role user_id role_id =
    statement "assign role"
      (λ t. (ok tt, record t { user_roles = insert_pair user_id role_id t.user_roles }))

unfoldable pub remove_role : String → String → Exec (Database RoleTables) Done
remove_role user_id role_id =
    statement "remove role"
      (λ t. (ok tt, record t { user_roles = delete_pair user_id role_id t.user_roles }))

unfoldable pub get_user_roles : String → Exec (Database RoleTables) (List Role)
get_user_roles user_id =
    statement "query user roles" (λ t. (ok (joined_roles user_id t.user_roles t.roles), t))

unfoldable pub get_role_by_name : String → Exec (Database RoleTables) Role
get_role_by_name name =
    statement "query role by name"
      (λ t. (elim (find_role name t.roles) [ none ↦ err not_found | some r ↦ ok r ], t))

unfoldable pub assign_config_role : String → String → Exec (Database RoleTables) Done
assign_config_role config_id role_id =
    statement "assign config role"
      (λ t. (ok tt, record t { config_roles = insert_pair config_id role_id t.config_roles }))

unfoldable pub remove_config_role : String → String → Exec (Database RoleTables) Done
remove_config_role config_id role_id =
    statement "remove config role"
      (λ t. (ok tt, record t { config_roles = delete_pair config_id role_id t.config_roles }))

unfoldable pub get_config_roles : String → Exec (Database RoleTables) (List Role)
get_config_roles config_id =
    statement "query config roles" (λ t. (ok (joined_roles config_id t.config_roles t.roles), t))

unfoldable pub get_configs_for_role : String → Exec (Database RoleTables) (List String)
get_configs_for_role role_id =
    statement "query configs for role" (λ t. (ok (owners_of role_id t.config_roles), t))

unfoldable pub can_access : String → String → Exec (Database RoleTables) Bool
can_access user_id config_id =
    statement "check access"
      (λ t. (ok (ltb 0 (count_access user_id config_id t.user_roles t.config_roles)), t))

unfoldable pub list_configs_for_user : String → Exec (Database RoleTables) (List String)
list_configs_for_user user_id =
    statement "query configs for user"
      (λ t. (ok (distinct_configs user_id t.user_roles t.config_roles), t))

-- The store that the middlewares ask.
abbrev pub access_store : ConfigRoleStore (Database RoleTables)
access_store = record {
  assign_config_role = assign_config_role;
  remove_config_role = remove_config_role;
  get_config_roles = get_config_roles;
  can_access = can_access;
  list_configs_for_user = list_configs_for_user;
}
