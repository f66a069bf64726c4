-- ===== src/Handlers/AuditLogs.antt =====
-- internal/handlers/audit.go: the handlers of the audit log. A query is a map; `parse_time` is `time.Parse` of
-- an RFC 3339 text, with `none` for an error.
pub mod Pages
use gslb.Prelude.{
  ℕ, ℤ, pos, leb_ℤ, ltb_ℤ, atoi, String, Bool, ◌||◌, Option, none, some, List, str_eq,
  if◌then◌else◌,
}
use gslb.Prelude.Dict.{Dict, lookup}
use gslb.Types.{AuditLog}
use gslb.Result.{Exec}
use gslb.Store.Audit
use gslb.Store.Audit.{Logs, AuditLogFilter}
use gslb.Handlers.Api.{Serve, send_success, send_validation_error, or_store_error}

-- The part of the interface of the store that these handlers call.
pub record AuditLogStore (W : Type 0) : Type 0 where
  pub list_audit_logs : AuditLogFilter → ℤ → ℤ → Exec W (List AuditLog)
  pub get_audit_log : String → Exec W AuditLog
  pub get_audit_logs_for_entity : String → String → ℤ → Exec W (List AuditLog)
  pub count_audit_logs : AuditLogFilter → Exec W ℕ

-- gin's `Query` and `DefaultQuery`
abbrev pub default_query : String → String → Dict String → String
default_query key default query = elim (lookup key query) [ none ↦ default | some v ↦ v ]

-- `strconv.Atoi`, and the limit of the handler for an error and for a number that is not positive.
abbrev pub limit_or : ℤ → String → ℤ
limit_or default value = elim (atoi value) [
  | none ↦ default
  | some n ↦ if leb_ℤ n (pos 0) then default else n
]

abbrev pub offset_of : String → ℤ
offset_of value = elim (atoi value) [ none ↦ pos 0 | some n ↦ if ltb_ℤ n (pos 0) then pos 0 else n ]

module _ (parse_time : String → Option ℕ) where
  abbrev time_of : String → Dict String → Option ℕ
  time_of key query =
      let value = default_query key "" query in
      let time = parse_time value in if str_eq value "" then none else time

  -- An empty text is no condition.
  unfoldable pub filter_of : Dict String → AuditLogFilter
  filter_of query = record {
    user_id = default_query "user_id" "" query;
    entity_type = default_query "entity_type" "" query;
    action = default_query "action" "" query;
    since = time_of "from" query;
    until = time_of "to" query;
  }

module _ {W : Type 0} (store : AuditLogStore W) (parse_time : String → Option ℕ) where
  unfoldable pub list_audit_logs : Dict String → Serve W (List AuditLog)
  list_audit_logs query =
      or_store_error
        (store.list_audit_logs (filter_of parse_time query)
          (limit_or (pos 100) (default_query "limit" "100" query))
          (offset_of (default_query "offset" "0" query)))
        (λ logs w. (send_success logs, w))

  unfoldable pub get_audit_log : String → Serve W AuditLog
  get_audit_log id w =
      if str_eq id ""
      then (send_validation_error "audit log id is required", w)
      else or_store_error (store.get_audit_log id) (λ log w'. (send_success log, w')) w

  unfoldable pub get_audit_logs_for_entity : String → String → Dict String → Serve W (List AuditLog)
  get_audit_logs_for_entity entity_type entity_id query w =
      if str_eq entity_type "" || str_eq entity_id ""
      then (send_validation_error "entity type and id are required", w)
      else or_store_error
          (store.get_audit_logs_for_entity entity_type entity_id
            (limit_or (pos 50) (default_query "limit" "50" query)))
          (λ logs w'. (send_success logs, w')) w

  unfoldable pub get_audit_log_count : Dict String → Serve W ℕ
  get_audit_log_count query =
      or_store_error (store.count_audit_logs (filter_of parse_time query))
        (λ count w. (send_success count, w))

abbrev pub audit_log_store : AuditLogStore Logs
audit_log_store = record {
  list_audit_logs = Audit.list_audit_logs;
  get_audit_log = Audit.get_audit_log;
  get_audit_logs_for_entity = Audit.get_audit_logs_for_entity;
  count_audit_logs = Audit.count_audit_logs;
}
