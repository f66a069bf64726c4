-- ===== src/Handlers/Site/Audited.antt =====
-- internal/handlers: a request that is answered with success leaves one entry in the audit log, and
-- starts a reconciliation when it changed a backend.
use gslb.Prelude.{
  ℕ, String, false, ◌≡◌, refl, List, [], ◌∷◌, leb, inl, inr, str_eq, if◌then◌else◌, arith,
}
use gslb.Types.{AuditLog, Config}
use gslb.Result.{Result, ok, err, Result-cases}
use gslb.Auth.Middleware.{user_id_of}
use gslb.Store.Sql.{attempt}
use gslb.Store.Rows.{exists_by, has_key}
use gslb.Store.Configs.{create_config}
use gslb.Store.Access.{get_role_by_name, assign_config_role}
use gslb.Store.Audit.{create_audit_log, insert_log}
use gslb.Handlers.Api.{Caller, Handlers, handle_store_error}
use gslb.Handlers.Configs
use gslb.Handlers.Backends
use gslb.Handlers.Checks
use gslb.Handlers.Checks.{save_check}
use gslb.Handlers.Providers
use gslb.Handlers.Providers.{save_provider}
use gslb.Handlers.Site.{Server, Site, Command, serve, site_handlers}

abbrev pub entity_of : Command → String
entity_of (Command.create_config body) = "config"
entity_of (Command.update_config body) = "config"
entity_of Command.delete_config = "config"
entity_of (Command.add_backend body) = "backend"
entity_of (Command.update_backend body) = "backend"
entity_of Command.delete_backend = "backend"
entity_of (Command.configure_health_check body) = "health_check"
entity_of Command.delete_health_check = "health_check"
entity_of (Command.configure_dns_provider body) = "dns_provider"
entity_of Command.delete_dns_provider = "dns_provider"

-- The newest entry of a log that is not empty.
abbrev empty_log : AuditLog
empty_log = record {
  id = "";
  action = "";
  entity_type = "";
  entity_id = "";
  entity_name = "";
  config_id = "";
  details = "";
  user_id = "";
  ip_address = "";
  user_agent = "";
  created_at = 0;
}

abbrev newest : List AuditLog → AuditLog
newest [] = empty_log
newest (e ∷ rest) = e

-- From one state to the next the log has one entry more, of this entity, user and time, and for a
-- backend the reconciliation of its config was started.
abbrev pub IsAudited : String → String → ℕ → Site → Site → Type 0
IsAudited entity user_id now w v =
    (v.logs.rows ≡ newest v.logs.rows ∷ w.logs.rows)
    × ((newest v.logs.rows).entity_type ≡ entity)
    × ((newest v.logs.rows).user_id ≡ user_id)
    × ((newest v.logs.rows).created_at ≡ now)
    × (v.started ≡ (
        if str_eq entity "backend" then (newest v.logs.rows).config_id ∷ w.started else w.started))

module _ (server : Server) where
  abbrev h : Handlers Site
  h = site_handlers server

  -- The assignment of roles changes nothing but the roles.
  assign_known-frame :
      (config_id : String) (names : List String) (w : Site)
      → ((Configs.assign_known h config_id names w).logs ≡ w.logs)
        × ((Configs.assign_known h config_id names w).started ≡ w.started)
  unfolding Configs.assign_known
  assign_known-frame config_id [] w = (refl, refl)
  assign_known-frame config_id (name ∷ rest) w =
      let found = get_role_by_name name w.roles in
      elim (Result-cases found.0) [
        | inr (e, unknown) ↦
            ground
              (arith, unknown, assign_known-frame config_id rest (record w { roles = found.1 }))
        | inl (role, known) ↦ ground (
          arith,
          known,
          assign_known-frame config_id rest
              (record w { roles = (assign_config_role config_id role.id found.1).1 }),
        )
      ]

  create_config-IsAudited :
      (caller : Caller) (body : Result Configs.CreateConfigRequest) (w : Site)
      → w.logs.faults ≡ []
      → exists_by (has_key AuditLog.id server.log_id) w.logs.rows ≡ false
      → leb 400 (serve h caller (Command.create_config body) w).0 ≡ false
      → IsAudited "config"
          (user_id_of caller.context)
          server.now
          w
          (serve h caller (Command.create_config body) w).1
  unfolding serve Configs.create_config create_audit_log attempt insert_log handle_store_error
  create_config-IsAudited caller (err bad) w calm fresh e = ground (arith, e)
  create_config-IsAudited caller (ok req) w calm fresh e =
      let asked : Config = Configs.config_of req in
      let created = create_config server.driver server.new_id asked w.db in
      elim (Result-cases created.0) [
        | inr (bad, failed) ↦ ground (arith, e, failed)
        | inl (cfg, made) ↦ ground (
          arith,
          e,
          calm,
          fresh,
          made,
          assign_known-frame cfg.id (Configs.roles_to_assign h req caller)
              (record w { db = created.1 }),
        )
      ]

  update_config-IsAudited :
      (caller : Caller) (body : Result Configs.UpdateConfigRequest) (w : Site)
      → w.logs.faults ≡ []
      → exists_by (has_key AuditLog.id server.log_id) w.logs.rows ≡ false
      → leb 400 (serve h caller (Command.update_config body) w).0 ≡ false
      → IsAudited "config"
          (user_id_of caller.context)
          server.now
          w
          (serve h caller (Command.update_config body) w).1
  unfolding serve Configs.update_config create_audit_log attempt insert_log handle_store_error
  update_config-IsAudited caller (err bad) w calm fresh e = ground (arith, e)
  update_config-IsAudited caller (ok req) w calm fresh e = ground (arith, e, calm, fresh)

  delete_config-IsAudited :
      (caller : Caller) (w : Site)
      → w.logs.faults ≡ []
      → exists_by (has_key AuditLog.id server.log_id) w.logs.rows ≡ false
      → leb 400 (serve h caller Command.delete_config w).0 ≡ false
      → IsAudited "config"
          (user_id_of caller.context)
          server.now
          w
          (serve h caller Command.delete_config w).1
  unfolding serve Configs.delete_config create_audit_log attempt insert_log handle_store_error
  delete_config-IsAudited caller w calm fresh e = ground (arith, e, calm, fresh)

  add_backend-IsAudited :
      (caller : Caller) (body : Result Backends.CreateBackendRequest) (w : Site)
      → w.logs.faults ≡ []
      → exists_by (has_key AuditLog.id server.log_id) w.logs.rows ≡ false
      → leb 400 (serve h caller (Command.add_backend body) w).0 ≡ false
      → IsAudited "backend"
          (user_id_of caller.context)
          server.now
          w
          (serve h caller (Command.add_backend body) w).1
  unfolding serve Backends.add_backend create_audit_log attempt insert_log handle_store_error
  add_backend-IsAudited caller (err bad) w calm fresh e = ground (arith, e)
  add_backend-IsAudited caller (ok req) w calm fresh e = ground (arith, e, calm, fresh)

  update_backend-IsAudited :
      (caller : Caller) (body : Result Backends.UpdateBackendRequest) (w : Site)
      → w.logs.faults ≡ []
      → exists_by (has_key AuditLog.id server.log_id) w.logs.rows ≡ false
      → leb 400 (serve h caller (Command.update_backend body) w).0 ≡ false
      → IsAudited "backend"
          (user_id_of caller.context)
          server.now
          w
          (serve h caller (Command.update_backend body) w).1
  unfolding serve Backends.update_backend create_audit_log attempt insert_log handle_store_error
  update_backend-IsAudited caller (err bad) w calm fresh e = ground (arith, e)
  update_backend-IsAudited caller (ok req) w calm fresh e = ground (arith, e, calm, fresh)

  delete_backend-IsAudited :
      (caller : Caller) (w : Site)
      → w.logs.faults ≡ []
      → exists_by (has_key AuditLog.id server.log_id) w.logs.rows ≡ false
      → leb 400 (serve h caller Command.delete_backend w).0 ≡ false
      → IsAudited "backend"
          (user_id_of caller.context)
          server.now
          w
          (serve h caller Command.delete_backend w).1
  unfolding serve Backends.delete_backend create_audit_log attempt insert_log handle_store_error
  delete_backend-IsAudited caller w calm fresh e = ground (arith, e, calm, fresh)

  configure_health_check-IsAudited :
      (caller : Caller) (body : Result Checks.ConfigureHealthCheckRequest) (w : Site)
      → w.logs.faults ≡ []
      → exists_by (has_key AuditLog.id server.log_id) w.logs.rows ≡ false
      → leb 400 (serve h caller (Command.configure_health_check body) w).0 ≡ false
      → IsAudited "health_check"
          (user_id_of caller.context)
          server.now
          w
          (serve h caller (Command.configure_health_check body) w).1
  unfolding serve Checks.configure_health_check save_check create_audit_log attempt insert_log
      handle_store_error
  configure_health_check-IsAudited caller (err bad) w calm fresh e = ground (arith, e)
  configure_health_check-IsAudited caller (ok req) w calm fresh e = ground (arith, e, calm, fresh)

  delete_health_check-IsAudited :
      (caller : Caller) (w : Site)
      → w.logs.faults ≡ []
      → exists_by (has_key AuditLog.id server.log_id) w.logs.rows ≡ false
      → leb 400 (serve h caller Command.delete_health_check w).0 ≡ false
      → IsAudited "health_check"
          (user_id_of caller.context)
          server.now
          w
          (serve h caller Command.delete_health_check w).1
  unfolding serve Checks.delete_health_check create_audit_log attempt insert_log handle_store_error
  delete_health_check-IsAudited caller w calm fresh e = ground (arith, e, calm, fresh)

  configure_dns_provider-IsAudited :
      (caller : Caller) (body : Result Providers.ConfigureDnsProviderRequest) (w : Site)
      → w.logs.faults ≡ []
      → exists_by (has_key AuditLog.id server.log_id) w.logs.rows ≡ false
      → leb 400 (serve h caller (Command.configure_dns_provider body) w).0 ≡ false
      → IsAudited "dns_provider"
          (user_id_of caller.context)
          server.now
          w
          (serve h caller (Command.configure_dns_provider body) w).1
  unfolding serve Providers.configure_dns_provider save_provider create_audit_log attempt insert_log
      handle_store_error
  configure_dns_provider-IsAudited caller (err bad) w calm fresh e = ground (arith, e)
  configure_dns_provider-IsAudited caller (ok req) w calm fresh e = ground (arith, e, calm, fresh)

  delete_dns_provider-IsAudited :
      (caller : Caller) (w : Site)
      → w.logs.faults ≡ []
      → exists_by (has_key AuditLog.id server.log_id) w.logs.rows ≡ false
      → leb 400 (serve h caller Command.delete_dns_provider w).0 ≡ false
      → IsAudited "dns_provider"
          (user_id_of caller.context)
          server.now
          w
          (serve h caller Command.delete_dns_provider w).1
  unfolding serve Providers.delete_dns_provider create_audit_log attempt insert_log
      handle_store_error
  delete_dns_provider-IsAudited caller w calm fresh e = ground (arith, e, calm, fresh)

  -- Whatever the request of serve-frame: when the status of the response is below 400, the audit log has
  -- exactly one entry more, for the kind of record that the request is about, with the id of the
  -- session's user and the time; and a reconciliation was started exactly when the request was about
  -- a backend, for the config that the entry names. The conditions are that the database takes the
  -- entry, and that its new id is not in use.
  pub serve-IsAudited :
      (caller : Caller) (command : Command) (w : Site)
      → w.logs.faults ≡ []
      → exists_by (has_key AuditLog.id server.log_id) w.logs.rows ≡ false
      → leb 400 (serve h caller command w).0 ≡ false
      → IsAudited
          (entity_of command)
          (user_id_of caller.context)
          server.now
          w
          (serve h caller command w).1
  serve-IsAudited caller (Command.create_config body) w calm fresh e =
      create_config-IsAudited caller body w calm fresh e
  serve-IsAudited caller (Command.update_config body) w calm fresh e =
      update_config-IsAudited caller body w calm fresh e
  serve-IsAudited caller Command.delete_config w calm fresh e =
      delete_config-IsAudited caller w calm fresh e
  serve-IsAudited caller (Command.add_backend body) w calm fresh e =
      add_backend-IsAudited caller body w calm fresh e
  serve-IsAudited caller (Command.update_backend body) w calm fresh e =
      update_backend-IsAudited caller body w calm fresh e
  serve-IsAudited caller Command.delete_backend w calm fresh e =
      delete_backend-IsAudited caller w calm fresh e
  serve-IsAudited caller (Command.configure_health_check body) w calm fresh e =
      configure_health_check-IsAudited caller body w calm fresh e
  serve-IsAudited caller Command.delete_health_check w calm fresh e =
      delete_health_check-IsAudited caller w calm fresh e
  serve-IsAudited caller (Command.configure_dns_provider body) w calm fresh e =
      configure_dns_provider-IsAudited caller body w calm fresh e
  serve-IsAudited caller Command.delete_dns_provider w calm fresh e =
      delete_dns_provider-IsAudited caller w calm fresh e
