-- ===== src/Handlers/Configs/Roles.antt =====
-- internal/handlers/config_roles.go, UpdateConfigRoles: the roles that may access a config afterwards.
use gslb.Prelude.{
  String, Bool, false, ◌&&◌, ◌||◌, not, ◌≡◌, refl, none, some, List, [], ◌∷◌, Option-cases, inl,
  inr, str_eq, eq_iff, if◌then◌else◌, arith,
}
use gslb.Types.{Config, Role}
use gslb.Result.{ok}
use gslb.Store.Sql.{statement}
use gslb.Store.Rows.{exists_by, has_key}
use gslb.Store.Access.{
  Pairs, RoleTables, has_pair, insert_pair, delete_pair, insert_role, joined_roles, find_role,
  get_role_by_name, assign_config_role, remove_config_role, get_config_roles,
}
use gslb.Store.Access.Granted.{has_pair-insert_pair, has_pair-delete_pair}
use gslb.Store.Configs.{get_config}
use gslb.Handlers.Api.{Caller, Handlers}
use gslb.Handlers.Configs.{remove_all, assign_all, update_config_roles}
use gslb.Handlers.Site.{Server, Site, site_handlers}

-- The pairs of a config less those with the roles of a list.
unfoldable without : String → List Role → Pairs → Pairs
without config_id [] pairs = pairs
without config_id (r ∷ rest) pairs = without config_id rest (delete_pair config_id r.id pairs)

has_pair-without :
    (config_id other role_id : String) (roles : List Role) (pairs : Pairs)
    → has_pair other role_id (without config_id roles pairs) ≡ (
        not (str_eq config_id other && exists_by (has_key Role.id role_id) roles)
        && has_pair other role_id pairs)
unfolding without exists_by
has_pair-without config_id other role_id [] pairs = ground arith
has_pair-without config_id other role_id (r ∷ rest) pairs = ground (
  arith,
  has_pair-without config_id other role_id rest (delete_pair config_id r.id pairs),
  has_pair-delete_pair config_id r.id other role_id pairs,
)

-- And with the roles that have the names, as far as there are such roles.
unfoldable with_named : String → List String → List Role → Pairs → Pairs
with_named config_id [] roles pairs = pairs
with_named config_id (name ∷ rest) roles pairs = elim (find_role name roles) [
  | none ↦ with_named config_id rest roles pairs
  | some r ↦ with_named config_id rest roles (insert_pair config_id r.id pairs)
]

-- One of the names is that of the role.
abbrev pub is_named : String → List String → List Role → Bool
is_named role_id [] roles = false
is_named role_id (name ∷ rest) roles =
    (elim (find_role name roles) [ none ↦ false | some r ↦ str_eq r.id role_id ])
    || is_named role_id rest roles

has_pair-with_named :
    (config_id other role_id : String) (names : List String) (roles : List Role) (pairs : Pairs)
    → has_pair other role_id (with_named config_id names roles pairs)
      ≡ (str_eq config_id other && is_named role_id names roles || has_pair other role_id pairs)
unfolding with_named
has_pair-with_named config_id other role_id [] roles pairs = ground arith
has_pair-with_named config_id other role_id (name ∷ rest) roles pairs =
    elim (Option-cases (find_role name roles)) [
      | inl unknown ↦
          ground (arith, unknown, has_pair-with_named config_id other role_id rest roles pairs)
      | inr (r, known) ↦ ground (
        arith,
        known,
        has_pair-with_named config_id other role_id rest roles (insert_pair config_id r.id pairs),
        has_pair-insert_pair config_id r.id other role_id pairs,
      )
    ]

exists_by-insert_role :
    (p : Role → Bool) (r : Role) (roles : List Role)
    → exists_by p (insert_role r roles) ≡ (p r || exists_by p roles)
unfolding exists_by insert_role
exists_by-insert_role p r [] = refl
exists_by-insert_role p r (q ∷ rest) = ground (arith, exists_by-insert_role p r rest)

-- The roles that a join finds are the roles of the table with a pair.
exists_by-joined_roles :
    (owner role_id : String) (pairs : Pairs) (roles : List Role)
    → exists_by (has_key Role.id role_id) (joined_roles owner pairs roles)
      ≡ (exists_by (has_key Role.id role_id) roles && has_pair owner role_id pairs)
unfolding exists_by joined_roles
exists_by-joined_roles owner role_id pairs [] = refl
exists_by-joined_roles owner role_id pairs (r ∷ rest) = ground (
  arith,
  exists_by-joined_roles owner role_id pairs rest,
  exists_by-insert_role (has_key Role.id role_id) r (joined_roles owner pairs rest),
  eq_iff r.id role_id,
)

module _ (server : Server) where
  abbrev h : Handlers Site
  h = site_handlers server

  -- The site with these role tables, which refuse nothing.
  abbrev at : Site → RoleTables → Site
  at w t = record w { roles = record { rows = t; faults = [] } }

  remove_all-without :
      (config_id : String) (roles : List Role) (w : Site) (t : RoleTables)
      → remove_all h config_id roles (at w t)
        ≡ (ok tt, at w (record t { config_roles = without config_id roles t.config_roles }))
  unfolding remove_all without remove_config_role statement
  remove_all-without config_id [] w t = refl
  remove_all-without config_id (r ∷ rest) w t =
      remove_all-without config_id rest w
        (record t { config_roles = delete_pair config_id r.id t.config_roles })

  assign_all-with_named :
      (config_id : String) (names : List String) (w : Site) (t : RoleTables)
      → assign_all h config_id names (at w t) ≡ (
        ok tt,
        at w (record t { config_roles = with_named config_id names t.roles t.config_roles }),
      )
  unfolding assign_all with_named get_role_by_name assign_config_role statement
  assign_all-with_named config_id [] w t = refl
  assign_all-with_named config_id (name ∷ rest) w t = elim (Option-cases (find_role name t.roles)) [
    | inl unknown ↦ ground (arith, unknown, assign_all-with_named config_id rest w t)
    | inr (r, known) ↦ ground (
      arith,
      known,
      assign_all-with_named config_id rest w
          (record t { config_roles = insert_pair config_id r.id t.config_roles }),
    )
  ]

  -- A request to replace the roles of a config that exists, when the role tables refuse nothing: it is
  -- answered with success, and afterwards exactly those roles may access the config that have one of
  -- the names, unknown names apart. A pair whose role is not in the table of the roles stays. The
  -- pairs of every other config are as before.
  pub update_config_roles-replaces :
      (caller : Caller) (names : List String) (cfg : Config) (other role_id : String) (w : Site)
      (t : RoleTables)
      → str_eq caller.id "" ≡ false
      → (get_config caller.id w.db).0 ≡ ok cfg
      → ((update_config_roles h caller (ok names) (at w t)).0.status ≡ 200)
        × (has_pair other role_id
              (update_config_roles h caller (ok names) (at w t)).1.roles.rows.config_roles
            ≡ (if str_eq caller.id other
                then is_named role_id names t.roles
                  || has_pair other role_id t.config_roles
                    && not (exists_by (has_key Role.id role_id) t.roles)
                else has_pair other role_id t.config_roles))
  unfolding update_config_roles get_config_roles statement
  update_config_roles-replaces caller names cfg other role_id w t named found =
      let existing : List Role = joined_roles caller.id t.config_roles t.roles in
      let v : Site = record w { db = (get_config caller.id w.db).1 } in
      let kept : Pairs = without caller.id existing t.config_roles in
      ground (
        arith,
        named,
        found,
        remove_all-without caller.id existing v t,
        assign_all-with_named caller.id names v (record t { config_roles = kept }),
        has_pair-with_named caller.id other role_id names t.roles kept,
        has_pair-without caller.id other role_id existing t.config_roles,
        exists_by-joined_roles caller.id role_id t.config_roles t.roles,
        eq_iff caller.id other,
      )
