-- ===== src/Store/Users/Unique.antt =====
-- internal/store/user.go: the roles that a query finds, where the ids and the names of the roles are
-- unique, and the map from names to ids that syncRoles of internal/auth/oidc.go builds.
use gslb.Prelude.{
  String, Bool, true, false, ◌&&◌, ◌||◌, not, ◌≡◌, refl, sym, ap, inl, inr, Bool-cases, some, List,
  [], ◌∷◌, str_eq, eq_iff, if◌then◌else◌, arith,
}
use gslb.Prelude.Dict.{Dict, lookup, insert, lookup-insert}
use gslb.Types.{Role}
use gslb.Store.Rows.{exists_by, has_key, is_distinct}
use gslb.Store.Access.{Pairs, has_pair, insert_role, joined_roles, find_role}
use gslb.Auth.Oidc.{ids_by_name}

exists_by-imp :
    {A : Type 0} (p q : A → Bool) (rows : List A)
    → ((r : A) → q r ≡ false → p r ≡ false)
    → exists_by q rows ≡ false
    → exists_by p rows ≡ false
unfolding exists_by
exists_by-imp p q [] h e = refl
exists_by-imp p q (r ∷ rest) h e = ground (arith, h r, e, exists_by-imp p q rest h)

pub find_role-present :
    (name : String) (roles : List Role) (r : Role)
    → find_role name roles ≡ some r
    → (r.name ≡ name) × (exists_by (has_key Role.id r.id) roles ≡ true)
unfolding find_role exists_by
find_role-present name [] r h = cc
find_role-present name (q ∷ rest) r h =
    ground (arith, h, eq_iff q.name name, eq_iff q.id r.id, find_role-present name rest r)

module _ (r : Role) (p : Role → Bool) where
  -- Of the roles with unique names only one passes a test that asks for its name.
  pub exists_by-name :
      (name : String) (roles : List Role)
      → find_role name roles ≡ some r
      → is_distinct Role.name roles ≡ true
      → ((q : Role) → str_eq q.name name ≡ false → p q ≡ false)
      → exists_by p roles ≡ p r
  unfolding find_role exists_by is_distinct
  exists_by-name name [] h d t = cc
  exists_by-name name (q ∷ rest) h d t = elim (Bool-cases (str_eq q.name name)) [
    | inl here ↦
        let same : q ≡ r = ground (arith, h, here) in
        let n : q.name ≡ name = (eq_iff q.name name).0 here in
        let alone : exists_by (has_key Role.name q.name) rest ≡ false = ground (arith, d) in
        ground (
          arith,
          ap p same,
          exists_by-imp p (has_key Role.name q.name) rest (λ x f. t x (rw (sym n) f)) alone,
        )
    | inr other ↦ ground (arith, h, d, other, t q, exists_by-name name rest)
  ]

  -- So it is with the ids.
  pub exists_by-id :
      (name : String) (roles : List Role)
      → find_role name roles ≡ some r
      → is_distinct Role.id roles ≡ true
      → ((q : Role) → str_eq q.id r.id ≡ false → p q ≡ false)
      → exists_by p roles ≡ p r
  unfolding find_role exists_by is_distinct
  exists_by-id name [] h d t = cc
  exists_by-id name (q ∷ rest) h d t = elim (Bool-cases (str_eq q.name name)) [
    | inl here ↦
        let same : q ≡ r = ground (arith, h, here) in
        let alone : exists_by (has_key Role.id q.id) rest ≡ false = ground (arith, d) in
        ground (
          arith,
          ap p same,
          exists_by-imp p (has_key Role.id q.id) rest (λ x f. t x (rw (sym (ap Role.id same)) f))
              alone,
        )
    | inr other ↦
        let there : find_role name rest ≡ some r = ground (arith, h, other) in
        ground (
          arith,
          d,
          t q,
          eq_iff q.id r.id,
          find_role-present name rest r there,
          exists_by-id name rest there,
        )
  ]

exists_by-insert_role :
    (p : Role → Bool) (r : Role) (roles : List Role)
    → exists_by p (insert_role r roles) ≡ (p r || exists_by p roles)
unfolding exists_by insert_role
exists_by-insert_role p r [] = refl
exists_by-insert_role p r (q ∷ rest) = ground (arith, exists_by-insert_role p r rest)

-- The roles that a join finds are those of the table with a pair.
pub exists_by-joined_roles :
    (p : Role → Bool) (owner : String) (pairs : Pairs) (roles : List Role)
    → exists_by p (joined_roles owner pairs roles)
      ≡ exists_by (λ r. has_pair owner r.id pairs && p r) roles
unfolding exists_by joined_roles
exists_by-joined_roles p owner pairs [] = refl
exists_by-joined_roles p owner pairs (r ∷ rest) = ground (
  arith,
  exists_by-joined_roles p owner pairs rest,
  exists_by-insert_role p r (joined_roles owner pairs rest),
)

exists_by-insert :
    (p : String × String → Bool) (k v : String) (m : Dict String)
    → exists_by p m ≡ false
    → p (k, v) ≡ false
    → exists_by p (insert k v m) ≡ false
unfolding exists_by insert
exists_by-insert p k v [] h e = ground (arith, e)
exists_by-insert p k v ((j, w) ∷ rest) h e = ground (arith, h, e, exists_by-insert p k v rest)

-- An entry of the map comes from a role.
pub exists_by-ids_by_name :
    (p : String × String → Bool) (roles : List Role) (m : Dict String)
    → exists_by p m ≡ false
    → exists_by (λ r. p (r.name, r.id)) roles ≡ false
    → exists_by p (ids_by_name roles m) ≡ false
unfolding exists_by ids_by_name
exists_by-ids_by_name p [] m h e = h
exists_by-ids_by_name p (r ∷ rest) m h e =
    exists_by-ids_by_name p rest (insert r.name r.id m)
      (exists_by-insert p r.name r.id m h (ground (arith, e))) (ground (arith, e))

-- A name whose roles have all the same id.
pub lookup-ids_by_name :
    (name id : String) (roles : List Role) (m : Dict String)
    → exists_by (λ r. str_eq r.name name && not (str_eq r.id id)) roles ≡ false
    → lookup name (ids_by_name roles m)
      ≡ (if exists_by (has_key Role.name name) roles then some id else lookup name m)
unfolding exists_by ids_by_name
lookup-ids_by_name name id [] m h = refl
lookup-ids_by_name name id (r ∷ rest) m h = ground (
  arith,
  h,
  eq_iff r.id id,
  lookup-insert r.name name r.id m,
  lookup-ids_by_name name id rest (insert r.name r.id m),
)

pub exists_by-lookup :
    (p : String × String → Bool) (name id : String) (m : Dict String)
    → lookup name m ≡ some id
    → p (name, id) ≡ true
    → exists_by p m ≡ true
unfolding exists_by lookup
exists_by-lookup p name id [] h e = cc
exists_by-lookup p name id ((n, i) ∷ rest) h e =
    ground (arith, h, e, eq_iff n name, exists_by-lookup p name id rest)
