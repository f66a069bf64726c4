-- ===== src/Handlers/Backends/Moves.antt =====
-- internal/handlers/backend.go, UpdateBackend: a backend that a request moves to another config.
use gslb.Prelude.{
  ℤ, pos, negsuc, String, true, false, ◌≡◌, refl, none, some, [], ◌∷◌, str_eq, eq_iff, eq_refl,
  eqb_ℤ, arith,
}
use gslb.Types.{AuditLog, Backend, Config}
use gslb.Result.{ok}
use gslb.Store.Sql.{statement, attempt}
use gslb.Store.Rows.{find_by, exists_by, has_key}
use gslb.Store.Rows.Reads.{find_by-update_by, find_by-true, find_by-present}
use gslb.Store.Tables.{update_backend_row, set_backend}
use gslb.Store.Backends
use gslb.Store.Audit.{create_audit_log, insert_log}
use gslb.Handlers.Api.{Caller, Handlers, audit_entry, format_port, format_bool}
use gslb.Handlers.Backends.{UpdateBackendRequest, apply_update, backend_changes, update_backend}
use gslb.Handlers.Site.{Server, Site, site_handlers}

-- A request with nothing but a config.
abbrev pub move_to : String → UpdateBackendRequest
move_to target = record { config_id = target; ip = ""; port = none; weight = pos 0; enabled = none }

eqb_ℤ-refl : (n : ℤ) → eqb_ℤ n n ≡ true
eqb_ℤ-refl (pos n) = ground arith
eqb_ℤ-refl (negsuc n) = ground arith

moved :
    (target : String) (b : Backend)
    → str_eq target "" ≡ false
    → apply_update (move_to target) b ≡ record b { config_id = target }
unfolding apply_update
moved target b h = ground (arith, h)

-- The comparison for the audit log takes no notice of the config.
unchanged :
    (target : String) (b : Backend) → backend_changes b (record b { config_id = target }) ≡ []
unfolding backend_changes
unchanged target b = ground (
  arith,
  eq_refl b.ip,
  eq_refl (format_port b.port),
  eq_refl (format_bool b.enabled),
  eqb_ℤ-refl b.weight,
)

module _ (server : Server) where
  abbrev h : Handlers Site
  h = site_handlers server

  -- Whoever the caller is: a request to update a backend that has only the id of an existing config
  -- moves the backend there, as long as the database refuses nothing. It is answered with success, the
  -- config that is reconciled is the new one and not the old one, and the audit log has one entry more,
  -- whose details are "{}", as for a request that changes nothing. The id of that entry is new.
  pub update_backend-moves :
      (caller : Caller) (target : String) (b : Backend) (w : Site)
      → str_eq caller.id "" ≡ false
      → str_eq target "" ≡ false
      → w.db.faults ≡ []
      → w.logs.faults ≡ []
      → exists_by (has_key AuditLog.id server.log_id) w.logs.rows ≡ false
      → find_by (has_key Backend.id caller.id) w.db.rows.backends ≡ some b
      → exists_by (has_key Config.id target) w.db.rows.configs ≡ true
      → ((update_backend h caller (ok (move_to target)) w).0.status ≡ 200)
        × (find_by
              (has_key Backend.id caller.id)
              (update_backend h caller (ok (move_to target)) w).1.db.rows.backends
            ≡ some (record b { config_id = target }))
        × ((update_backend h caller (ok (move_to target)) w).1.started ≡ target ∷ w.started)
        × ((update_backend h caller (ok (move_to target)) w).1.logs.rows
            ≡ record (audit_entry "backend:update" "backend" caller.id b.ip target "{}" caller) {
              id = server.log_id;
              created_at = server.now;
            }
              ∷ w.logs.rows)
  unfolding create_audit_log insert_log update_backend Backends.get_backend Backends.update_backend
      statement attempt update_backend_row
  update_backend-moves caller target b w named given calm quiet fresh found exists =
      let id : str_eq b.id caller.id ≡ true =
        find_by-true (has_key Backend.id caller.id) w.db.rows.backends b found in
      ground (
        arith,
        named,
        calm,
        quiet,
        fresh,
        found,
        exists,
        id,
        eq_iff b.id caller.id,
        moved target b given,
        unchanged target b,
        find_by-update_by (has_key Backend.id caller.id)
            (set_backend (record b { config_id = target })) w.db.rows.backends (λ r. refl),
        find_by-present (has_key Backend.id caller.id) w.db.rows.backends b found,
      )
