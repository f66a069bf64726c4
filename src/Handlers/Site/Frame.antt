-- ===== src/Handlers/Site/Frame.antt =====
-- internal/handlers: a request that is answered with an error changed nothing.
use gslb.Prelude.{true, ◌≡◌, refl, leb, inl, inr, arith}
use gslb.Result.{Result, ok, err, Result-cases}
use gslb.Store.Configs.{get_config}
use gslb.Store.Backends.{get_backend}
use gslb.Store.Checks.{get_health_check}
use gslb.Store.Providers.{get_dns_provider}
use gslb.Store.Calls.Atomic.{
  create_config-atomic, update_config-atomic, delete_config-atomic, create_backend-atomic,
  update_backend-atomic, delete_backend-atomic, create_health_check-atomic,
  update_health_check-atomic, delete_health_check-atomic, create_dns_provider-atomic,
  update_dns_provider-atomic, delete_dns_provider-atomic, get_config-reads, get_backend-reads,
  get_health_check-reads, get_dns_provider-reads,
}
use gslb.Handlers.Api.{Caller, Handlers}
use gslb.Handlers.Configs
use gslb.Handlers.Backends
use gslb.Handlers.Backends.{apply_update}
use gslb.Handlers.Checks
use gslb.Handlers.Checks.{save_check}
use gslb.Handlers.Providers
use gslb.Handlers.Providers.{save_provider}
use gslb.Handlers.Site.{Server, Site, Command, serve, site_handlers}

-- The tables, the roles, the audit log and the started reconciliations are the same.
abbrev pub IsSame : Site → Site → Type 0
IsSame v w =
    (v.db.rows ≡ w.db.rows)
    × (v.roles.rows ≡ w.roles.rows)
    × (v.logs.rows ≡ w.logs.rows)
    × (v.started ≡ w.started)

module _ (server : Server) where
  abbrev h : Handlers Site
  h = site_handlers server

  delete_config-frame :
      (caller : Caller) (w : Site)
      → leb 400 (serve h caller Command.delete_config w).0 ≡ true
      → IsSame (serve h caller Command.delete_config w).1 w
  unfolding serve Configs.delete_config
  delete_config-frame caller w e = ground (
    arith,
    e,
    get_config-reads caller.id w.db,
    delete_config-atomic caller.id (get_config caller.id w.db).1,
  )

  create_config-frame :
      (caller : Caller) (body : Result Configs.CreateConfigRequest) (w : Site)
      → leb 400 (serve h caller (Command.create_config body) w).0 ≡ true
      → IsSame (serve h caller (Command.create_config body) w).1 w
  unfolding serve Configs.create_config
  create_config-frame caller (err bad) w e = (refl, refl, refl, refl)
  create_config-frame caller (ok req) w e =
      ground
        (arith, e, create_config-atomic server.driver server.new_id (Configs.config_of req) w.db)

  update_config-frame :
      (caller : Caller) (body : Result Configs.UpdateConfigRequest) (w : Site)
      → leb 400 (serve h caller (Command.update_config body) w).0 ≡ true
      → IsSame (serve h caller (Command.update_config body) w).1 w
  unfolding serve Configs.update_config
  update_config-frame caller (err bad) w e = ground (arith, e)
  update_config-frame caller (ok req) w e = ground (
    arith,
    e,
    get_config-reads caller.id w.db,
    update_config-atomic server.driver (Configs.updated_config h caller.id req)
        (get_config caller.id w.db).1,
  )

  add_backend-frame :
      (caller : Caller) (body : Result Backends.CreateBackendRequest) (w : Site)
      → leb 400 (serve h caller (Command.add_backend body) w).0 ≡ true
      → IsSame (serve h caller (Command.add_backend body) w).1 w
  unfolding serve Backends.add_backend
  add_backend-frame caller (err bad) w e = ground (arith, e, get_config-reads caller.id w.db)
  add_backend-frame caller (ok req) w e = ground (
    arith,
    e,
    get_config-reads caller.id w.db,
    create_backend-atomic server.driver server.new_id (Backends.backend_of caller.id req)
        (get_config caller.id w.db).1,
  )

  update_backend-frame :
      (caller : Caller) (body : Result Backends.UpdateBackendRequest) (w : Site)
      → leb 400 (serve h caller (Command.update_backend body) w).0 ≡ true
      → IsSame (serve h caller (Command.update_backend body) w).1 w
  unfolding serve Backends.update_backend
  update_backend-frame caller (err bad) w e = ground (arith, e)
  update_backend-frame caller (ok req) w e = elim (Result-cases (get_backend caller.id w.db).0) [
    | inr (bad, failed) ↦ ground (arith, e, failed, get_backend-reads caller.id w.db)
    | inl (b, found) ↦ ground (
      arith,
      e,
      found,
      get_backend-reads caller.id w.db,
      update_backend-atomic server.driver (apply_update req b) (get_backend caller.id w.db).1,
    )
  ]

  delete_backend-frame :
      (caller : Caller) (w : Site)
      → leb 400 (serve h caller Command.delete_backend w).0 ≡ true
      → IsSame (serve h caller Command.delete_backend w).1 w
  unfolding serve Backends.delete_backend
  delete_backend-frame caller w e = ground (
    arith,
    e,
    get_backend-reads caller.id w.db,
    delete_backend-atomic caller.id (get_backend caller.id w.db).1,
  )

  delete_health_check-frame :
      (caller : Caller) (w : Site)
      → leb 400 (serve h caller Command.delete_health_check w).0 ≡ true
      → IsSame (serve h caller Command.delete_health_check w).1 w
  unfolding serve Checks.delete_health_check
  delete_health_check-frame caller w e = ground (
    arith,
    e,
    get_config-reads caller.id w.db,
    get_health_check-reads caller.id (get_config caller.id w.db).1,
    delete_health_check-atomic caller.id
        (get_health_check caller.id (get_config caller.id w.db).1).1,
  )

  delete_dns_provider-frame :
      (caller : Caller) (w : Site)
      → leb 400 (serve h caller Command.delete_dns_provider w).0 ≡ true
      → IsSame (serve h caller Command.delete_dns_provider w).1 w
  unfolding serve Providers.delete_dns_provider
  delete_dns_provider-frame caller w e = ground (
    arith,
    e,
    get_config-reads caller.id w.db,
    get_dns_provider-reads server.lib server.enc caller.id (get_config caller.id w.db).1,
    delete_dns_provider-atomic caller.id
        (get_dns_provider server.lib server.enc caller.id (get_config caller.id w.db).1).1,
  )

  configure_health_check-frame :
      (caller : Caller) (body : Result Checks.ConfigureHealthCheckRequest) (w : Site)
      → leb 400 (serve h caller (Command.configure_health_check body) w).0 ≡ true
      → IsSame (serve h caller (Command.configure_health_check body) w).1 w
  unfolding serve Checks.configure_health_check save_check
  configure_health_check-frame caller (err bad) w e =
      ground (arith, e, get_config-reads caller.id w.db)
  configure_health_check-frame caller (ok req) w e =
      elim (Result-cases (get_health_check caller.id (get_config caller.id w.db).1).0) [
        | inr (bad, failed) ↦ ground (
          arith,
          e,
          failed,
          get_config-reads caller.id w.db,
          get_health_check-reads caller.id (get_config caller.id w.db).1,
          create_health_check-atomic server.driver server.new_id (Checks.check_of "" caller.id req)
              (get_health_check caller.id (get_config caller.id w.db).1).1,
        )
        | inl (old, found) ↦ ground (
          arith,
          e,
          found,
          get_config-reads caller.id w.db,
          get_health_check-reads caller.id (get_config caller.id w.db).1,
          update_health_check-atomic (Checks.check_of old.id caller.id req)
              (get_health_check caller.id (get_config caller.id w.db).1).1,
        )
      ]

  configure_dns_provider-frame :
      (caller : Caller) (body : Result Providers.ConfigureDnsProviderRequest) (w : Site)
      → leb 400 (serve h caller (Command.configure_dns_provider body) w).0 ≡ true
      → IsSame (serve h caller (Command.configure_dns_provider body) w).1 w
  unfolding serve Providers.configure_dns_provider save_provider
  configure_dns_provider-frame caller (err bad) w e =
      ground (arith, e, get_config-reads caller.id w.db)
  configure_dns_provider-frame caller (ok req) w e =
      elim (Result-cases
        (get_dns_provider server.lib server.enc caller.id (get_config caller.id w.db).1).0) [
          | inr (bad, failed) ↦ ground (
            arith,
            e,
            failed,
            get_config-reads caller.id w.db,
            get_dns_provider-reads server.lib server.enc caller.id (get_config caller.id w.db).1,
            create_dns_provider-atomic server.lib server.enc server.random server.driver
                server.new_id (Providers.provider_of "" caller.id req)
                (get_dns_provider server.lib server.enc caller.id (get_config caller.id w.db).1).1,
          )
          | inl (old, found) ↦ ground (
            arith,
            e,
            found,
            get_config-reads caller.id w.db,
            get_dns_provider-reads server.lib server.enc caller.id (get_config caller.id w.db).1,
            update_dns_provider-atomic server.lib server.enc server.random
                (Providers.provider_of old.id caller.id req)
                (get_dns_provider server.lib server.enc caller.id (get_config caller.id w.db).1).1,
          )
        ]

  -- Whatever the request, to create, update or delete a config, a backend, a health check or a provider:
  -- when the status of the response is 400 or more, the tables, the roles, the audit log and the
  -- started reconciliations are as before. So it is wherever the error comes from: the body, the
  -- missing record, a constraint, the encryption or a refusal of the database.
  pub serve-frame :
      (caller : Caller) (command : Command) (w : Site)
      → leb 400 (serve h caller command w).0 ≡ true
      → IsSame (serve h caller command w).1 w
  serve-frame caller (Command.create_config body) w e = create_config-frame caller body w e
  serve-frame caller (Command.update_config body) w e = update_config-frame caller body w e
  serve-frame caller Command.delete_config w e = delete_config-frame caller w e
  serve-frame caller (Command.add_backend body) w e = add_backend-frame caller body w e
  serve-frame caller (Command.update_backend body) w e = update_backend-frame caller body w e
  serve-frame caller Command.delete_backend w e = delete_backend-frame caller w e
  serve-frame caller (Command.configure_health_check body) w e =
      configure_health_check-frame caller body w e
  serve-frame caller Command.delete_health_check w e = delete_health_check-frame caller w e
  serve-frame caller (Command.configure_dns_provider body) w e =
      configure_dns_provider-frame caller body w e
  serve-frame caller Command.delete_dns_provider w e = delete_dns_provider-frame caller w e
