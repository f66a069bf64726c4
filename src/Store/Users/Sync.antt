-- ===== src/Store/Users/Sync.antt =====
-- internal/auth/oidc.go, syncRoles, over the tables of internal/store/user.go: the roles of a user after a
-- login.
use gslb.Prelude.{
  String, Bool, true, false, ◌&&◌, ◌||◌, not, ◌≡◌, refl, inl, inr, Option-cases, none, some, List,
  [], ◌∷◌, str_eq, if◌then◌else◌, arith,
}
use gslb.Prelude.Dict.{Dict, lookup}
use gslb.Types.{User, Role}
use gslb.Store.Sql.{Database, statement, attempt}
use gslb.Store.Rows.{exists_by, has_key}
use gslb.Store.Tables.{Driver}
use gslb.Store.Access
use gslb.Store.Access.{Pairs, has_pair, insert_pair, delete_pair, joined_roles, find_role}
use gslb.Store.Access.Granted.{has_pair-insert_pair, has_pair-delete_pair}
use gslb.Store.Users.{
  Accounts, user_store, assign_role, assign_role_row, remove_role, get_role_by_name,
}
use gslb.Store.Users.Unique.{find_role-present}
use gslb.Auth.Oidc.{has_role, add_missing, remove_stale}

-- The pairs after the loop that adds roles, and after the one that removes roles.
unfoldable pub added : String → Dict String → List String → List Role → Pairs → Pairs
added user_id current [] roles pairs = pairs
added user_id current (name ∷ rest) roles pairs =
    added user_id current rest roles (elim (lookup name current) [
      | some id ↦ pairs
      | none ↦ elim (find_role name roles) [
        | none ↦ pairs
        | some r ↦ insert_pair user_id r.id pairs
      ]
    ])

unfoldable pub removed : String → List String → Dict String → Pairs → Pairs
removed user_id desired [] pairs = pairs
removed user_id desired ((name, id) ∷ rest) pairs =
    removed user_id desired rest
      (if has_role name desired then pairs else delete_pair user_id id pairs)

-- The role is added, and the role is removed.
unfoldable pub adds : String → Dict String → List String → List Role → Bool
adds role_id current [] roles = false
adds role_id current (name ∷ rest) roles =
    (elim (lookup name current) [
      | some id ↦ false
      | none ↦ elim (find_role name roles) [ none ↦ false | some r ↦ str_eq r.id role_id ]
    ])
    || adds role_id current rest roles

abbrev pub is_stale : String → List String → String × String → Bool
is_stale role_id desired (name, id) = not (has_role name desired) && str_eq id role_id

pub has_pair-added :
    (user_id other role_id : String) (current : Dict String) (names : List String)
    (roles : List Role) (pairs : Pairs)
    → has_pair other role_id (added user_id current names roles pairs)
      ≡ (str_eq user_id other && adds role_id current names roles || has_pair other role_id pairs)
unfolding added adds
has_pair-added user_id other role_id current [] roles pairs = ground arith
has_pair-added user_id other role_id current (name ∷ rest) roles pairs =
    elim (Option-cases (lookup name current)) [
      | inr (id, known) ↦
          ground (arith, known, has_pair-added user_id other role_id current rest roles pairs)
      | inl new ↦ elim (Option-cases (find_role name roles)) [
        | inl unknown ↦
            ground
              (arith, new, unknown, has_pair-added user_id other role_id current rest roles pairs)
        | inr (r, found) ↦ ground (
          arith,
          new,
          found,
          has_pair-added user_id other role_id current rest roles (insert_pair user_id r.id pairs),
          has_pair-insert_pair user_id r.id other role_id pairs,
        )
      ]
    ]

pub has_pair-removed :
    (user_id other role_id : String) (desired : List String) (current : Dict String) (pairs : Pairs)
    → has_pair other role_id (removed user_id desired current pairs) ≡ (
        not (str_eq user_id other && exists_by (is_stale role_id desired) current)
        && has_pair other role_id pairs)
unfolding removed exists_by
has_pair-removed user_id other role_id desired [] pairs = ground arith
has_pair-removed user_id other role_id desired ((name, id) ∷ rest) pairs = ground (
  arith,
  has_pair-removed user_id other role_id desired rest pairs,
  has_pair-removed user_id other role_id desired rest (delete_pair user_id id pairs),
  has_pair-delete_pair user_id id other role_id pairs,
)

-- A database that refuses nothing.
abbrev pub calm_accounts : List User → List Role → Pairs → Pairs → Database Accounts
calm_accounts users roles config_roles user_roles = record {
  rows = record {
    users = users;
    tables = record { roles = roles; user_roles = user_roles; config_roles = config_roles };
  };
  faults = [];
}

module _ (driver : Driver) (new_id : String) (users : List User) (roles : List Role)
    (others : Pairs) where
  abbrev at : Pairs → Database Accounts
  at pairs = calm_accounts users roles others pairs

  pub add_missing-added :
      (user_id : String) (current : Dict String) (names : List String) (pairs : Pairs)
      → exists_by (has_key User.id user_id) users ≡ true
      → add_missing (user_store driver new_id) user_id current names (at pairs)
        ≡ at (added user_id current names roles pairs)
  unfolding add_missing added assign_role assign_role_row get_role_by_name Access.get_role_by_name
      statement attempt
  add_missing-added user_id current [] pairs e = refl
  add_missing-added user_id current (name ∷ rest) pairs e =
      elim (Option-cases (find_role name roles)) [
        | inl unknown ↦ ground (arith, unknown, add_missing-added user_id current rest pairs e)
        | inr (r, found) ↦ ground (
          arith,
          e,
          found,
          find_role-present name roles r found,
          add_missing-added user_id current rest pairs e,
          add_missing-added user_id current rest (insert_pair user_id r.id pairs) e,
        )
      ]

  pub remove_stale-removed :
      (user_id : String) (desired : List String) (current : Dict String) (pairs : Pairs)
      → remove_stale (user_store driver new_id) user_id desired current (at pairs)
        ≡ at (removed user_id desired current pairs)
  unfolding remove_stale removed remove_role Access.remove_role statement
  remove_stale-removed user_id desired [] pairs = refl
  remove_stale-removed user_id desired ((name, id) ∷ rest) pairs = ground (
    arith,
    remove_stale-removed user_id desired rest pairs,
    remove_stale-removed user_id desired rest (delete_pair user_id id pairs),
  )
