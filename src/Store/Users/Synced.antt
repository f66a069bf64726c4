-- ===== src/Store/Users/Synced.antt =====
-- internal/auth/oidc.go, syncRoles, over the tables of internal/store/user.go: after it the user has the
-- roles that the provider names.
use gslb.Prelude.{
  String, Bool, true, false, ◌&&◌, not, ◌≡◌, refl, ◌∙◌, inl, inr, Bool-cases, Option-cases, none,
  some, List, [], ◌∷◌, str_eq, eq_iff, if◌then◌else◌, arith,
}
use gslb.Prelude.Dict.{Dict, lookup}
use gslb.Types.{User, Role}
use gslb.Result.{ok}
use gslb.Store.Sql.{statement}
use gslb.Store.Rows.{exists_by, has_key, is_distinct}
use gslb.Store.Tables.{Driver}
use gslb.Store.Access
use gslb.Store.Access.{Pairs, has_pair, joined_roles, find_role}
use gslb.Store.Users.{user_store, get_user_roles}
use gslb.Store.Users.Unique.{
  find_role-present, exists_by-name, exists_by-id, exists_by-joined_roles, exists_by-ids_by_name,
  lookup-ids_by_name, exists_by-lookup,
}
use gslb.Store.Users.Sync.{
  added, adds, is_stale, has_pair-added, has_pair-removed, calm_accounts, add_missing-added,
  remove_stale-removed,
}
use gslb.Auth.Oidc.{ids_by_name, has_role, sync_roles}

no_entry : (p : String × String → Bool) → exists_by p [] ≡ false
unfolding exists_by
no_entry p = refl

-- A role of the table, whose ids and names are unique, and the roles of a user.
module _ (roles : List Role) (ids : is_distinct Role.id roles ≡ true)
    (names_ : is_distinct Role.name roles ≡ true) (r : Role)
    (found : find_role r.name roles ≡ some r) (user_id : String) (pairs : Pairs) where
  abbrev current : Dict String
  current = ids_by_name (joined_roles user_id pairs roles) []

  joined-name :
      (p : Role → Bool)
      → ((q : Role) → str_eq q.name r.name ≡ false → p q ≡ false)
      → exists_by p (joined_roles user_id pairs roles) ≡ (has_pair user_id r.id pairs && p r)
  joined-name p t =
      exists_by-joined_roles p user_id pairs roles
      ∙ exists_by-name r (λ q. has_pair user_id q.id pairs && p q) r.name roles found names_
          (λ q n. ground (arith, t q n))

  joined-id :
      (p : Role → Bool)
      → ((q : Role) → str_eq q.id r.id ≡ false → p q ≡ false)
      → exists_by p (joined_roles user_id pairs roles) ≡ (has_pair user_id r.id pairs && p r)
  joined-id p t =
      exists_by-joined_roles p user_id pairs roles
      ∙ exists_by-id r (λ q. has_pair user_id q.id pairs && p q) r.name roles found ids
          (λ q n. ground (arith, t q n))

  one_id :
      exists_by
        (λ q. str_eq q.name r.name && not (str_eq q.id r.id))
        (joined_roles user_id pairs roles)
      ≡ false
  one_id = ground (
    arith,
    eq_iff r.id r.id,
    joined-name (λ q. str_eq q.name r.name && not (str_eq q.id r.id)) (λ q n. ground (arith, n)),
  )

  lookup-current : lookup r.name current ≡ (if has_pair user_id r.id pairs then some r.id else none)
  unfolding lookup
  lookup-current = ground (
    arith,
    eq_iff r.name r.name,
    joined-name (has_key Role.name r.name) (λ q n. n),
    lookup-ids_by_name r.name r.id (joined_roles user_id pairs roles) [] one_id,
  )

  same_id :
      (name : String) (q : Role)
      → find_role name roles ≡ some q
      → str_eq q.id r.id ≡ str_eq name r.name
  same_id name q h = ground (
    arith,
    eq_iff q.name name,
    eq_iff r.name name,
    eq_iff name r.name,
    eq_iff r.id r.id,
    find_role-present name roles q h,
    exists_by-name q (λ x. str_eq x.name name && str_eq x.id r.id) name roles h names_
        (λ x n. ground (arith, n)),
    exists_by-id r (λ x. str_eq x.name name && str_eq x.id r.id) r.name roles found ids
        (λ x n. ground (arith, n)),
  )

  adds-current :
      (names : List String)
      → adds r.id current names roles ≡ (not (has_pair user_id r.id pairs) && has_role r.name names)
  unfolding adds
  adds-current [] = ground arith
  adds-current (name ∷ rest) = elim (Bool-cases (str_eq name r.name)) [
    | inl same ↦
        let n : name ≡ r.name = (eq_iff name r.name).0 same in
        let l : lookup name current ≡ (if has_pair user_id r.id pairs then some r.id else none) =
          rw n lookup-current in
        let f : find_role name roles ≡ some r = rw n found in
        ground (arith, same, l, f, eq_iff r.id r.id, adds-current rest)
    | inr other ↦ elim (Option-cases (find_role name roles)) [
      | inl unknown ↦ ground (arith, other, unknown, adds-current rest)
      | inr (q, h) ↦ ground (arith, other, h, same_id name q h, adds-current rest)
    ]
  ]

  stale-current :
      (desired : List String)
      → exists_by (is_stale r.id desired) current
        ≡ (has_pair user_id r.id pairs && not (has_role r.name desired))
  stale-current desired =
      elim (Bool-cases (has_pair user_id r.id pairs && not (has_role r.name desired))) [
        | inl stale ↦ rw stale (
            exists_by-lookup (is_stale r.id desired) r.name r.id current
              (ground (arith, stale, lookup-current)) (ground (arith, stale, eq_iff r.id r.id)))
        | inr kept ↦ rw kept (
            exists_by-ids_by_name (is_stale r.id desired) (joined_roles user_id pairs roles) []
              (no_entry (is_stale r.id desired))
              (ground (
                arith,
                kept,
                joined-id (λ q. not (has_role q.name desired) && str_eq q.id r.id)
                    (λ q n. ground (arith, n)),
              )))
      ]

-- syncRoles of a user who exists, where the ids and the names of the roles are unique and the database
-- refuses nothing: it returns no error, and of the roles in the table the user has afterwards exactly
-- those that the provider names, whichever the user had before; every other user has the same roles as
-- before.
pub sync_roles-exact :
    (driver : Driver) (new_id : String) (users : List User) (roles : List Role)
    (others pairs : Pairs) (user_id other : String) (names : List String) (r : Role)
    → exists_by (has_key User.id user_id) users ≡ true
    → is_distinct Role.id roles ≡ true
    → is_distinct Role.name roles ≡ true
    → find_role r.name roles ≡ some r
    → ((sync_roles
          (user_store driver new_id)
          user_id
          names
          (calm_accounts users roles others pairs)).0
        ≡ ok tt)
      × (has_pair other r.id
            (sync_roles
              (user_store driver new_id)
              user_id
              names
              (calm_accounts users roles others pairs)).1.rows.tables.user_roles
          ≡ (if str_eq user_id other then has_role r.name names else has_pair other r.id pairs))
unfolding sync_roles get_user_roles Access.get_user_roles statement
sync_roles-exact driver new_id users roles others pairs user_id other names r e ids names_ found =
    let current : Dict String = ids_by_name (joined_roles user_id pairs roles) [] in
    let more : Pairs = added user_id current names roles pairs in
    ground (
      arith,
      add_missing-added driver new_id users roles others user_id current names pairs e,
      remove_stale-removed driver new_id users roles others user_id names current more,
      has_pair-removed user_id other r.id names current more,
      has_pair-added user_id other r.id current names roles pairs,
      adds-current roles ids names_ r found user_id pairs names,
      stale-current roles ids names_ r found user_id pairs names,
      eq_iff user_id other,
    )
