-- ===== src/Examples/Audit.antt =====
-- internal/handlers/audit.go: a client that reads a small audit log.
use gslb.Prelude.{
  ℕ, String, ◌≡◌, refl, arith, some, none, Option, [], ◌∷◌, length, filter_by, str_eq,
  if◌then◌else◌,
}
use gslb.Prelude.Dict.{Dict, lookup}
use gslb.Types.{AuditLog}
use gslb.Store.Sql.{statement}
use gslb.Store.Audit
use gslb.Store.Audit.{Logs, matches}
use gslb.Handlers.AuditLogs.{filter_of, get_audit_log_count}
use gslb.Handlers.AuditLogs.Pages.{served_pages, served_pages-all}

abbrev log : String → ℕ → AuditLog
log id time = record {
  id = id;
  action = "config:update";
  entity_type = "config";
  entity_id = "c";
  entity_name = "app";
  config_id = "c";
  details = "{}";
  user_id = "u1";
  ip_address = "127.0.0.1";
  user_agent = "curl";
  created_at = time;
}

abbrev logs : Logs
logs = record { rows = log "3" 30 ∷ log "2" 20 ∷ log "1" 10 ∷ []; faults = [] }

-- The one time that parses.
abbrev parse_time : String → Option ℕ
parse_time value = if str_eq value "1970-01-01T00:00:20Z" then some 20 else none

abbrev since_twenty : Dict String
since_twenty = ("user_id", "u1") ∷ ("from", "1970-01-01T00:00:20Z") ∷ []

served_pages-all_example :
    (served_pages parse_time since_twenty 1 2 0 logs
      ≡ filter_by (matches (filter_of parse_time since_twenty)) logs.rows)
    × (length (served_pages parse_time since_twenty 1 2 0 logs) ≡ 2)
unfolding get_audit_log_count Audit.count_audit_logs statement matches filter_by filter_of lookup
served_pages-all_example =
    served_pages-all parse_time since_twenty 0 2 logs (omega arith) (omega arith) refl
