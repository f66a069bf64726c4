-- ===== src/Handlers/Backends.antt =====
-- internal/handlers/backend.go: the backends. A request to update one has only the fields to change:
-- an empty text, a weight of 0 and a missing port or flag stand for no change.
pub mod Moves
use gslb.Prelude.{
  String, Bool, Option, none, some, List, [], ◌∷◌, ◌++◌, ℤ, pos, eqb_ℤ, str_eq, if◌then◌else◌,
}
use gslb.Types.{Backend}
use gslb.Result.{Result, ok, err, Exec}
use gslb.Store.{Done}
use gslb.Handlers.Api.{
  Handlers, Caller, Response, Serve, ChangeEntry, entry, changed, build_details, itoa, format_port,
  format_bool, send_success, send_no_content, send_validation_error, or_store_error, bind_json,
  log_audit, trigger_reconcile,
}

pub record CreateBackendRequest : Type 0 where
  pub ip : String
  pub port : Option ℤ
  pub weight : ℤ
  pub enabled : Bool

pub record UpdateBackendRequest : Type 0 where
  pub config_id : String
  pub ip : String
  pub port : Option ℤ
  pub weight : ℤ
  pub enabled : Option Bool

abbrev pub backend_of : String → CreateBackendRequest → Backend
backend_of config_id req = record {
  id = "";
  config_id = config_id;
  ip = req.ip;
  port = req.port;
  weight = req.weight;
  enabled = req.enabled;
}

abbrev created_changes : Backend → List ChangeEntry
created_changes b =
    entry "ip" "" b.ip
    ∷ entry "port" "" (format_port b.port)
    ∷ entry "weight" "" (itoa b.weight)
    ∷ entry "enabled" "" (format_bool b.enabled)
    ∷ []

abbrev deleted_changes : Backend → List ChangeEntry
deleted_changes b =
    entry "ip" b.ip ""
    ∷ entry "port" (format_port b.port) ""
    ∷ entry "weight" (itoa b.weight) ""
    ∷ entry "enabled" (format_bool b.enabled) ""
    ∷ []

-- What UpdateBackend compares of the old backend and the new one: not the config.
unfoldable pub backend_changes : Backend → Backend → List ChangeEntry
backend_changes old b =
    changed (str_eq old.ip b.ip) "ip" old.ip b.ip
    ++ changed (str_eq (format_port old.port) (format_port b.port)) "port" (format_port old.port)
        (format_port b.port)
    ++ changed (eqb_ℤ old.weight b.weight) "weight" (itoa old.weight) (itoa b.weight)
    ++ changed (str_eq (format_bool old.enabled) (format_bool b.enabled)) "enabled"
        (format_bool old.enabled) (format_bool b.enabled)

unfoldable pub apply_update : UpdateBackendRequest → Backend → Backend
apply_update req b = record {
  id = b.id;
  config_id = if str_eq req.config_id "" then b.config_id else req.config_id;
  ip = if str_eq req.ip "" then b.ip else req.ip;
  port = elim req.port [ none ↦ b.port | some p ↦ some p ];
  weight = if eqb_ℤ req.weight (pos 0) then b.weight else req.weight;
  enabled = elim req.enabled [ none ↦ b.enabled | some flag ↦ flag ];
}

module _ {W : Type 0} (h : Handlers W) where
  unfoldable pub add_backend : Caller → Result CreateBackendRequest → Serve W Backend
  add_backend caller body w =
      if str_eq caller.id ""
      then (send_validation_error "config id is required", w)
      else or_store_error (h.store.configs.get_config caller.id)
          (λ cfg. bind_json body (λ req.
            or_store_error (h.store.backends.create_backend (backend_of caller.id req)) (λ b w. (
              send_success b,
              trigger_reconcile h caller.id (
                  log_audit h "backend:create" "backend" b.id b.ip caller.id
                    (build_details h.marshal (created_changes b)) caller w),
            ))))
          w

  unfoldable pub get_backend : Caller → Serve W Backend
  get_backend caller w =
      if str_eq caller.id ""
      then (send_validation_error "backend id is required", w)
      else or_store_error (h.store.backends.get_backend caller.id) (λ b w. (send_success b, w)) w

  unfoldable pub update_backend : Caller → Result UpdateBackendRequest → Serve W Backend
  update_backend caller body w =
      if str_eq caller.id ""
      then (send_validation_error "backend id is required", w)
      else bind_json body
          (λ req. or_store_error (h.store.backends.get_backend caller.id) (λ existing.
            or_store_error (h.store.backends.update_backend (apply_update req existing)) (λ done w.
              let b = apply_update req existing in
              (
                send_success b,
                trigger_reconcile h b.config_id (
                    log_audit h "backend:update" "backend" b.id b.ip b.config_id
                      (build_details h.marshal (backend_changes existing b)) caller w),
              ))))
          w

  unfoldable pub delete_backend : Caller → Serve W Done
  delete_backend caller w =
      if str_eq caller.id ""
      then (send_validation_error "backend id is required", w)
      else or_store_error (h.store.backends.get_backend caller.id)
          (λ b. or_store_error (h.store.backends.delete_backend caller.id) (λ done w. (
            send_no_content,
            trigger_reconcile h b.config_id (
                log_audit h "backend:delete" "backend" caller.id b.ip b.config_id
                  (build_details h.marshal (deleted_changes b)) caller w),
          )))
          w

  unfoldable pub list_backends : Caller → Serve W (List Backend)
  list_backends caller w =
      if str_eq caller.id ""
      then (send_validation_error "config id is required", w)
      else or_store_error (h.store.configs.get_config caller.id)
          (λ cfg.
            or_store_error (h.store.backends.list_backends caller.id)
              (λ backends w. (send_success backends, w)))
          w
