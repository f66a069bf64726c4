-- ===== src/Store/Backends.antt =====
-- internal/store/backend.go: the table `backends`.
use gslb.Prelude.{String, none, some, List, filter_by}
use gslb.Types.{Backend}
use gslb.Result.{not_found, ok, err, Exec}
use gslb.Store.{BackendStore, Done}
use gslb.Store.Configs.{or_new_id}
use gslb.Store.Sql.{Database, statement, attempt, in_context, foreign_key_or}
use gslb.Store.Rows.{find_by, has_key}
use gslb.Store.Tables.{Driver, Tables, insert_backend_row, update_backend_row, delete_backend_row}

module _ (driver : Driver) where
  unfoldable pub create_backend : String → Backend → Exec (Database Tables) Backend
  create_backend new_id b =
      attempt (foreign_key_or "insert backend")
        (insert_backend_row driver (record b { id = or_new_id b.id new_id }))

  unfoldable pub update_backend : Backend → Exec (Database Tables) Done
  update_backend b = attempt (foreign_key_or "update backend") (update_backend_row driver b)

unfoldable pub get_backend : String → Exec (Database Tables) Backend
get_backend id = statement "query backend" (λ t.
    (elim (find_by (has_key Backend.id id) t.backends) [ none ↦ err not_found | some b ↦ ok b ], t))

unfoldable pub delete_backend : String → Exec (Database Tables) Done
delete_backend id = attempt (in_context "delete backend") (delete_backend_row id)

unfoldable pub list_backends : String → Exec (Database Tables) (List Backend)
list_backends config_id =
    statement "query backends"
      (λ t. (ok (filter_by (has_key Backend.config_id config_id) t.backends), t))

abbrev pub backend_store : Driver → String → BackendStore (Database Tables)
backend_store driver new_id = record {
  create_backend = create_backend driver new_id;
  get_backend = get_backend;
  update_backend = update_backend driver;
  delete_backend = delete_backend;
  list_backends = list_backends;
}
