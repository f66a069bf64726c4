-- ===== src/Store/Access/Members.antt =====
-- internal/store/user.go: a user who has no role.
use gslb.Prelude.{String, Bool, true, false, ◌||◌, ◌≡◌, refl, [], ◌∷◌, str_eq, arith}
use gslb.Result.{ok}
use gslb.Store.Sql.{Database, statement}
use gslb.Store.Access.{Pairs, RoleTables, count_users, count_access, can_access}

-- Some row of the table of the users' roles has this user.
abbrev pub is_member : String → Pairs → Bool
is_member user_id [] = false
is_member user_id ((u, r) ∷ rest) = str_eq u user_id || is_member user_id rest

count_users-none :
    (user_id role_id : String) (l : Pairs)
    → is_member user_id l ≡ false
    → count_users user_id role_id l ≡ 0
unfolding count_users
count_users-none user_id role_id [] h = refl
count_users-none user_id role_id ((u, r) ∷ rest) h =
    ground (arith, h, count_users-none user_id role_id rest)

count_access-none :
    (user_id config_id : String) (user_roles l : Pairs)
    → is_member user_id user_roles ≡ false
    → count_access user_id config_id user_roles l ≡ 0
unfolding count_access
count_access-none user_id config_id user_roles [] h = refl
count_access-none user_id config_id user_roles ((c, r) ∷ rest) h = ground (
  arith,
  count_access-none user_id config_id user_roles rest h,
  count_users-none user_id r user_roles h,
)

-- A user without a role has no access.
pub can_access-none :
    (user_id config_id : String) (db : Database RoleTables)
    → is_member user_id db.rows.user_roles ≡ false
    → (can_access user_id config_id db).0 ≡ ok true
    → ⊥
unfolding can_access statement
can_access-none user_id config_id db nobody granted = ground (
  arith,
  granted,
  count_access-none user_id config_id db.rows.user_roles db.rows.config_roles nobody,
)
