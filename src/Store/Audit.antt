-- ===== src/Store/Audit.antt =====
-- internal/store/audit.go: the table `audit_logs`, newest first. `now` is what `time.Now` returns, and
-- `new_id` what `uuid.New` gives. An entry is only ever added, and dropped when it is old.
pub mod Pages
use gslb.Prelude.{
  ℕ, ◌-◌, ℤ, pos, to_ℕ, leb_ℤ, ltb_ℤ, String, Bool, true, ◌&&◌, ◌||◌, not, Option, none, some, List,
  [], ◌∷◌, length, take, drop, filter_by, ltb, leb, str_eq, if◌then◌else◌,
}
use gslb.Types.{AuditLog}
use gslb.Result.{not_found, Result, ok, err, Exec}
use gslb.Store.{Done}
use gslb.Store.Configs.{or_new_id}
use gslb.Store.Sql.{Database, Ran, refused, done, statement, attempt, in_context}
use gslb.Store.Rows.{find_by, exists_by, has_key}
use gslb.Store.Tables.{Driver}

abbrev pub Logs : Type 0
Logs = Database (List AuditLog)

pub record AuditLogFilter : Type 0 where
  pub user_id : String
  pub entity_type : String
  pub action : String
  pub since : Option ℕ
  pub until : Option ℕ

abbrev is_from : Option ℕ → ℕ → Bool
is_from none t = true
is_from (some bound) t = leb bound t

abbrev is_to : Option ℕ → ℕ → Bool
is_to none t = true
is_to (some bound) t = leb t bound

-- The conditions that the filter adds to the `WHERE`.
unfoldable pub matches : AuditLogFilter → AuditLog → Bool
matches filter log =
    (str_eq filter.user_id "" || str_eq log.user_id filter.user_id)
    && (str_eq filter.entity_type "" || str_eq log.entity_type filter.entity_type)
    && (str_eq filter.action "" || str_eq log.action filter.action)
    && is_from filter.since log.created_at
    && is_to filter.until log.created_at

-- `if limit <= 0 { limit = ... }; if limit > ... { limit = ... }`
abbrev pub clamp_limit : ℕ → ℕ → ℤ → ℕ
clamp_limit default most limit =
    if leb_ℤ limit (pos 0) then default else if ltb_ℤ (pos most) limit then most else to_ℕ limit

unfoldable pub insert_log : Driver → AuditLog → List AuditLog → Ran (List AuditLog) Done
insert_log driver log logs =
    if exists_by (has_key AuditLog.id log.id) logs
    then refused (driver.unique_failed "audit_logs.id")
    else done (ok tt) (log ∷ logs)

unfoldable pub create_audit_log : Driver → String → ℕ → AuditLog → Exec Logs Done
create_audit_log driver new_id now log =
    attempt (in_context "insert audit log")
      (insert_log driver (record log { id = or_new_id log.id new_id; created_at = now }))

-- `LIMIT ? OFFSET ?`; SQLite takes an offset below 0 as 0.
unfoldable pub list_audit_logs : AuditLogFilter → ℤ → ℤ → Exec Logs (List AuditLog)
list_audit_logs filter limit offset = statement "query audit logs" (λ logs. (
  ok (take (clamp_limit 100 1000 limit) (drop (to_ℕ offset) (filter_by (matches filter) logs))),
  logs,
))

unfoldable pub get_audit_log : String → Exec Logs AuditLog
get_audit_log id = statement "query audit log" (λ logs. (
  elim (find_by (has_key AuditLog.id id) logs) [ none ↦ err not_found | some log ↦ ok log ],
  logs,
))

abbrev pub is_for_entity : String → String → AuditLog → Bool
is_for_entity entity_type entity_id log =
    str_eq log.entity_type entity_type && str_eq log.entity_id entity_id

unfoldable pub get_audit_logs_for_entity : String → String → ℤ → Exec Logs (List AuditLog)
get_audit_logs_for_entity entity_type entity_id limit =
    statement "query audit logs for entity" (λ logs. (
      ok (take (clamp_limit 50 500 limit) (filter_by (is_for_entity entity_type entity_id) logs)),
      logs,
    ))

abbrev pub is_before : ℕ → AuditLog → Bool
is_before cutoff log = ltb log.created_at cutoff

unfoldable pub delete_old_audit_logs : ℕ → ℕ → Exec Logs ℕ
delete_old_audit_logs now older_than = statement "delete old audit logs" (λ logs. (
  ok (length (filter_by (is_before (now - older_than)) logs)),
  filter_by (λ log. not (is_before (now - older_than) log)) logs,
))

unfoldable pub count_audit_logs : AuditLogFilter → Exec Logs ℕ
count_audit_logs filter =
    statement "count audit logs" (λ logs. (ok (length (filter_by (matches filter) logs)), logs))
