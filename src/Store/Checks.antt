-- ===== src/Store/Checks.antt =====
-- internal/store/health.go: the tables `health_checks` and `health_states`.
use gslb.Prelude.{String, Bool, ◌&&◌, none, some, List, [], ◌∷◌, str_eq, if◌then◌else◌}
use gslb.Prelude.Dict.{Dict, insert}
use gslb.Types.{Backend, HealthCheck, HealthState}
use gslb.Result.{not_found, ok, err, Exec}
use gslb.Store.{HealthStore, Done}
use gslb.Store.Configs.{or_new_id}
use gslb.Store.Sql.{Database, statement, attempt, in_context, foreign_key_or}
use gslb.Store.Rows.{find_by, exists_by, has_key}
use gslb.Store.Tables.{
  Driver, Tables, insert_check_row, update_check_row, delete_check_row, upsert_state_row,
}

module _ (driver : Driver) where
  unfoldable pub create_health_check : String → HealthCheck → Exec (Database Tables) HealthCheck
  create_health_check new_id hc =
      attempt (foreign_key_or "insert health check")
        (insert_check_row driver (record hc { id = or_new_id hc.id new_id }))

  unfoldable pub update_health_state : HealthState → Exec (Database Tables) Done
  update_health_state st =
      attempt (foreign_key_or "update health state") (upsert_state_row driver st)

unfoldable pub get_health_check : String → Exec (Database Tables) HealthCheck
get_health_check config_id = statement "query health check" (λ t. (
  elim (find_by (has_key HealthCheck.config_id config_id) t.checks) [
    | none ↦ err not_found
    | some hc ↦ ok hc
  ],
  t,
))

unfoldable pub update_health_check : HealthCheck → Exec (Database Tables) Done
update_health_check hc = attempt (foreign_key_or "update health check") (update_check_row hc)

unfoldable pub delete_health_check : String → Exec (Database Tables) Done
delete_health_check config_id =
    attempt (in_context "delete health check") (delete_check_row config_id)

unfoldable pub get_health_state : String → Exec (Database Tables) HealthState
get_health_state backend_id = statement "query health state" (λ t. (
  elim (find_by (has_key HealthState.backend_id backend_id) t.states) [
    | none ↦ err not_found
    | some st ↦ ok st
  ],
  t,
))

-- `JOIN backends b ON b.id = hs.backend_id WHERE b.config_id = ?`
abbrev pub is_backend_of : String → HealthState → Backend → Bool
is_backend_of config_id st b = str_eq b.id st.backend_id && str_eq b.config_id config_id

-- The joined rows, each written into the map under its backend's id.
unfoldable pub joined_states : String → List Backend → List HealthState → Dict HealthState
joined_states config_id backends [] = []
joined_states config_id backends (st ∷ rest) =
    let states = joined_states config_id backends rest in
    if exists_by (is_backend_of config_id st) backends
    then insert st.backend_id st states
    else states

unfoldable pub get_health_states : String → Exec (Database Tables) (Dict HealthState)
get_health_states config_id =
    statement "query health states" (λ t. (ok (joined_states config_id t.backends t.states), t))

abbrev pub health_store : Driver → String → HealthStore (Database Tables)
health_store driver new_id = record {
  create_health_check = create_health_check driver new_id;
  get_health_check = get_health_check;
  update_health_check = update_health_check;
  delete_health_check = delete_health_check;
  update_health_state = update_health_state driver;
  get_health_state = get_health_state;
  get_health_states = get_health_states;
}
