-- ===== src/Store/Configs.antt =====
-- internal/store/config.go: the table `configs`. `new_id` is what `uuid.New` gives. That
-- `RowsAffected` reports no error is the driver's. A config that the store creates is given back
-- with its id.
use gslb.Prelude.{String, none, some, List, str_eq, if◌then◌else◌}
use gslb.Types.{Config}
use gslb.Result.{message, not_found, ok, err, Exec}
use gslb.Store.{ConfigStore, Done}
use gslb.Store.Sql.{Database, statement, attempt, in_context, foreign_key_or}
use gslb.Store.Rows.{find_by, has_key}
use gslb.Store.Tables.{
  Driver, Tables, insert_config_row, update_config_row, delete_config_row, set_error_row,
}

-- `if x.ID == "" { x.ID = uuid.New().String() }`
abbrev pub or_new_id : String → String → String
or_new_id id new_id = if str_eq id "" then new_id else id

module _ (driver : Driver) where
  unfoldable pub create_config : String → Config → Exec (Database Tables) Config
  create_config new_id cfg =
      attempt (foreign_key_or "insert config")
        (insert_config_row driver (record cfg { id = or_new_id cfg.id new_id }))

  unfoldable pub update_config : Config → Exec (Database Tables) Done
  update_config cfg = attempt (in_context "update config") (update_config_row driver cfg)

unfoldable pub get_config : String → Exec (Database Tables) Config
get_config id = statement "query config" (λ t.
    (elim (find_by (has_key Config.id id) t.configs) [ none ↦ err not_found | some c ↦ ok c ], t))

unfoldable pub delete_config : String → Exec (Database Tables) Done
delete_config id = attempt (in_context "delete config") (delete_config_row id)

unfoldable pub list_configs : Exec (Database Tables) (List Config)
list_configs = statement "query configs" (λ t. (ok t.configs, t))

-- The error of the driver is returned as it is.
unfoldable pub set_config_reconcile_error : String → String → Exec (Database Tables) Done
set_config_reconcile_error id text = attempt message (set_error_row id text)

abbrev pub config_store : Driver → String → ConfigStore (Database Tables)
config_store driver new_id = record {
  create_config = create_config driver new_id;
  get_config = get_config;
  update_config = update_config driver;
  delete_config = delete_config;
  list_configs = list_configs;
  set_config_reconcile_error = set_config_reconcile_error;
}
