-- ===== src/Store/Calls/Reads.antt =====
-- internal/store/config.go, backend.go, health.go: what the queries give after the calls that write.
use gslb.Prelude.{
  String, Bool, ◌&&◌, ◌≡◌, refl, Option, none, some, List, [], ◌∷◌, str_eq, eq_iff, if◌then◌else◌,
  Option-cases, inl, inr, ap, arith,
}
use gslb.Prelude.Dict.{Dict, lookup, lookup-insert}
use gslb.Types.{Config, Backend, HealthState}
use gslb.Result.{Result, ok, err}
use gslb.Store.Sql.{Database, done, statement, attempt_ran, in_context, foreign_key_or, calm}
use gslb.Store.Rows.{exists_by, update_by, has_key, find_by}
use gslb.Store.Rows.Reads.{find_by-true}
use gslb.Store.Tables.{
  Driver, Tables, insert_config_row, update_config_row, set_config, upsert_state_row, set_state,
}
use gslb.Store.Configs.{create_config, update_config, get_config, or_new_id}
use gslb.Store.Checks.{
  update_health_state, get_health_state, get_health_states, joined_states, is_backend_of,
}

-- The entry of a backend in a map that a query returned, and the row that a query found.
abbrev state_in : String → Result (Dict HealthState) → Option HealthState
state_in backend_id (ok states) = lookup backend_id states
state_in backend_id (err e) = none

abbrev found : Result HealthState → Option HealthState
found (ok st) = some st
found (err e) = none

abbrev is_backend_with : String → String → Backend → Bool
is_backend_with id config_id b = str_eq b.id id && str_eq b.config_id config_id

by_id :
    (config_id : String) (st : HealthState) (id : String) (backends : List Backend)
    → st.backend_id ≡ id
    → exists_by (is_backend_of config_id st) backends
      ≡ exists_by (is_backend_with id config_id) backends
by_id config_id st id backends h =
    ap (λ k. exists_by (λ b. str_eq b.id k && str_eq b.config_id config_id) backends) h

-- Whether a row is joined is a matter of its backend's id.
is_backend_of-same_id :
    (config_id : String) (st other : HealthState) (backends : List Backend)
    → st.backend_id ≡ other.backend_id
    → exists_by (is_backend_of config_id st) backends
      ≡ exists_by (is_backend_of config_id other) backends
is_backend_of-same_id config_id st other backends h =
    ap (λ k. exists_by (λ b. str_eq b.id k && str_eq b.config_id config_id) backends) h

-- The state of a backend in the map, by the row that the backend's own query finds.
lookup-joined_states :
    (backend_id config_id : String) (backends : List Backend) (states : List HealthState)
    → lookup backend_id (joined_states config_id backends states)
      ≡ elim (find_by (has_key HealthState.backend_id backend_id) states) [
        | none ↦ none
        | some st ↦ if exists_by (is_backend_of config_id st) backends then some st else none
      ]
unfolding lookup joined_states find_by
lookup-joined_states backend_id config_id backends [] = refl
lookup-joined_states backend_id config_id backends (st ∷ rest) =
    elim (Option-cases (find_by (has_key HealthState.backend_id backend_id) rest)) [
      | inl absent ↦ ground (
        arith,
        absent,
        lookup-insert st.backend_id backend_id st (joined_states config_id backends rest),
        lookup-joined_states backend_id config_id backends rest,
      )
      | inr (q, found) ↦ ground (
        arith,
        found,
        eq_iff st.backend_id backend_id,
        eq_iff q.backend_id backend_id,
        find_by-true (has_key HealthState.backend_id backend_id) rest q found,
        is_backend_of-same_id config_id st q backends,
        lookup-insert st.backend_id backend_id st (joined_states config_id backends rest),
        lookup-joined_states backend_id config_id backends rest,
      )
    ]

-- The rows after a state was written over one of them, and after it was written or inserted.
find_by-set_state :
    (st : HealthState) (k : String) (rows : List HealthState)
    → find_by
        (has_key HealthState.backend_id k)
        (update_by (has_key HealthState.backend_id st.backend_id) (set_state st) rows)
      ≡ (if str_eq st.backend_id k && exists_by (has_key HealthState.backend_id st.backend_id) rows
          then some st
          else find_by (has_key HealthState.backend_id k) rows)
unfolding find_by update_by exists_by
find_by-set_state st k [] = ground arith
find_by-set_state st k (r ∷ rest) = ground (
  arith,
  eq_iff r.backend_id st.backend_id,
  eq_iff r.backend_id k,
  eq_iff st.backend_id k,
  same,
  find_by-set_state st k rest,
)
  where
    same : r.backend_id ≡ st.backend_id → set_state st r ≡ st
    same e = ap (λ b. record st { backend_id = b }) e

find_by-upsert :
    (driver : Driver) (st : HealthState) (k : String) (t u : Tables)
    → upsert_state_row driver st t ≡ done (ok tt) u
    → (u.backends ≡ t.backends)
      × (find_by (has_key HealthState.backend_id k) u.states ≡ (
          if str_eq st.backend_id k
          then some st
          else find_by (has_key HealthState.backend_id k) t.states))
unfolding upsert_state_row find_by
find_by-upsert driver st k t u h = ground (arith, h, find_by-set_state st k t.states)

-- The map that GetHealthStates returns has, for each id of a backend of the config, what GetHealthState
-- returns for that id, and no entry for every other id, as long as the database refuses no query.
get_health_states-eq-get_health_state :
    (backend_id config_id : String) (db : Database Tables)
    → state_in backend_id (get_health_states config_id (calm db)).0 ≡ (
        if exists_by (is_backend_with backend_id config_id) db.rows.backends
        then found (get_health_state backend_id (calm db)).0
        else none)
unfolding statement get_health_state get_health_states
get_health_states-eq-get_health_state backend_id config_id db =
    elim (Option-cases (find_by (has_key HealthState.backend_id backend_id) db.rows.states)) [
      | inl absent ↦
          ground (
            arith,
            absent,
            lookup-joined_states backend_id config_id db.rows.backends db.rows.states,
          )
      | inr (st, present) ↦ ground (
        arith,
        present,
        lookup-joined_states backend_id config_id db.rows.backends db.rows.states,
        eq_iff st.backend_id backend_id,
        find_by-true (has_key HealthState.backend_id backend_id) db.rows.states st present,
        by_id config_id st backend_id db.rows.backends,
      )
    ]

-- After UpdateHealthState has returned without an error, GetHealthState of the backend returns the state
-- that was written, and of every other backend what it returned before, as long as the database
-- refuses no query.
pub get_health_state-update_health_state :
    (driver : Driver) (st : HealthState) (backend_id : String) (db : Database Tables)
    → (update_health_state driver st db).0 ≡ ok tt
    → (get_health_state backend_id (calm (update_health_state driver st db).1)).0 ≡ (
        if str_eq st.backend_id backend_id
        then ok st
        else (get_health_state backend_id (calm db)).0)
unfolding statement update_health_state get_health_state
get_health_state-update_health_state driver st backend_id db h = ground (
  arith,
  find_by-upsert driver st backend_id db.rows (update_health_state driver st db).1.rows
      (attempt_ran (foreign_key_or "update health state") (upsert_state_row driver st) db tt h),
)

-- After CreateConfig has returned a config, the table has it first, GetConfig of its id returns it, and
-- GetConfig of every other id returns what it returned before. The stored one has no reconcile error.
pub get_config-create_config :
    (driver : Driver) (new_id other : String) (cfg c : Config) (db : Database Tables)
    → (create_config driver new_id cfg db).0 ≡ ok c
    → ((create_config driver new_id cfg db).1.rows.configs
        ≡ record c { last_reconcile_error = "" } ∷ db.rows.configs)
      × ((get_config other (calm (create_config driver new_id cfg db).1)).0 ≡ (
          if str_eq c.id other
          then ok (record c { last_reconcile_error = "" })
          else (get_config other (calm db)).0))
unfolding statement create_config get_config insert_config_row find_by
get_config-create_config driver new_id other cfg c db h = ground (
  arith,
  h,
  attempt_ran (foreign_key_or "insert config")
      (insert_config_row driver (record cfg { id = or_new_id cfg.id new_id })) db c h,
)

pub find_by-set_config :
    (cfg : Config) (other : String) (rows : List Config)
    → find_by (has_key Config.id other) (update_by (has_key Config.id cfg.id) (set_config cfg) rows)
      ≡ (if str_eq cfg.id other
          then elim (find_by (has_key Config.id other) rows) [
            | none ↦ none
            | some old ↦ some (set_config cfg old)
          ]
          else find_by (has_key Config.id other) rows)
unfolding find_by update_by
find_by-set_config cfg other [] = ground arith
find_by-set_config cfg other (r ∷ rest) = ground (
  arith,
  eq_iff r.id cfg.id,
  eq_iff r.id other,
  eq_iff cfg.id other,
  find_by-set_config cfg other rest,
)

-- After UpdateConfig has returned without an error, GetConfig of the id returns the config as written,
-- less the reconcile error, which stays; of every other id it returns what it returned before.
pub get_config-update_config :
    (driver : Driver) (other : String) (cfg : Config) (db : Database Tables)
    → (update_config driver cfg db).0 ≡ ok tt
    → (get_config other (calm (update_config driver cfg db).1)).0 ≡ (
        if str_eq cfg.id other
        then elim (get_config other (calm db)).0 [
          | ok old ↦ ok (set_config cfg old)
          | err e ↦ err e
        ]
        else (get_config other (calm db)).0)
unfolding statement update_config get_config update_config_row
get_config-update_config driver other cfg db h =
    elim (Option-cases (find_by (has_key Config.id other) db.rows.configs)) [
      | inl absent ↦ ground (arith, absent, find_by-set_config cfg other db.rows.configs, ran)
      | inr (old, present) ↦
          ground (arith, present, find_by-set_config cfg other db.rows.configs, ran)
    ]
  where
    ran : update_config_row driver cfg db.rows ≡ done (ok tt) (update_config driver cfg db).1.rows
    ran = attempt_ran (in_context "update config") (update_config_row driver cfg) db tt h
