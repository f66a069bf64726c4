-- ===== src/Handlers/Site.antt =====
-- The handlers of internal/handlers over the SQL database of internal/store: `NewWithOIDC` of a store
-- that `New` made. The tables of the configs, of the roles and of the audit log are one database; the
-- model keeps them apart, each with its own refusals to come.
pub mod Frame
pub mod Audited
use gslb.Prelude.{ℕ, String, Bool, Option, some, List, ◌∷◌}
use gslb.Types.{AuditLog}
use gslb.Result.{Result, Exec}
use gslb.Crypto.{CryptoLib, Encryptor}
use gslb.Store.{Store, Done}
use gslb.Store.Sql.{Database}
use gslb.Store.Tables.{Driver, Tables}
use gslb.Store.Access.{RoleTables, access_store, get_role_by_name}
use gslb.Store.Audit.{Logs, create_audit_log}
use gslb.Store.Calls.{sql_store}
use gslb.Handlers.Api.{Handlers, Caller, ChangeEntry, Response}
use gslb.Handlers.Configs
use gslb.Handlers.Configs.{CreateConfigRequest, UpdateConfigRequest}
use gslb.Handlers.Backends
use gslb.Handlers.Backends.{CreateBackendRequest, UpdateBackendRequest}
use gslb.Handlers.Checks
use gslb.Handlers.Checks.{ConfigureHealthCheckRequest}
use gslb.Handlers.Providers
use gslb.Handlers.Providers.{ConfigureDnsProviderRequest}

-- `started` are the configs for which a reconciliation was started, the last first.
pub record Site : Type 0 where
  pub db : Database Tables
  pub roles : Database RoleTables
  pub logs : Logs
  pub started : List String

module _ {A : Type 0} where
  abbrev pub at_db : Exec (Database Tables) A → Exec Site A
  at_db m w = ((m w.db).0, record w { db = (m w.db).1 })

  abbrev pub at_roles : Exec (Database RoleTables) A → Exec Site A
  at_roles m w = ((m w.roles).0, record w { roles = (m w.roles).1 })

  abbrev pub at_logs : Exec Logs A → Exec Site A
  at_logs m w = ((m w.logs).0, record w { logs = (m w.logs).1 })

abbrev pub store_at_db : Store (Database Tables) → Store Site
store_at_db s = record {
  configs = record {
    create_config = λ cfg. at_db (s.configs.create_config cfg);
    get_config = λ id. at_db (s.configs.get_config id);
    update_config = λ cfg. at_db (s.configs.update_config cfg);
    delete_config = λ id. at_db (s.configs.delete_config id);
    list_configs = at_db (s.configs.list_configs);
    set_config_reconcile_error = λ id text. at_db (s.configs.set_config_reconcile_error id text);
  };
  backends = record {
    create_backend = λ b. at_db (s.backends.create_backend b);
    get_backend = λ id. at_db (s.backends.get_backend id);
    update_backend = λ b. at_db (s.backends.update_backend b);
    delete_backend = λ id. at_db (s.backends.delete_backend id);
    list_backends = λ id. at_db (s.backends.list_backends id);
  };
  health = record {
    create_health_check = λ hc. at_db (s.health.create_health_check hc);
    get_health_check = λ id. at_db (s.health.get_health_check id);
    update_health_check = λ hc. at_db (s.health.update_health_check hc);
    delete_health_check = λ id. at_db (s.health.delete_health_check id);
    update_health_state = λ st. at_db (s.health.update_health_state st);
    get_health_state = λ id. at_db (s.health.get_health_state id);
    get_health_states = λ id. at_db (s.health.get_health_states id);
  };
  history = record {
    upsert_health_history_bucket = λ b. at_db (s.history.upsert_health_history_bucket b);
    get_health_history = λ id since. at_db (s.history.get_health_history id since);
    delete_old_health_history = λ age. at_db (s.history.delete_old_health_history age);
  };
  providers = record {
    create_dns_provider = λ p. at_db (s.providers.create_dns_provider p);
    get_dns_provider = λ id. at_db (s.providers.get_dns_provider id);
    update_dns_provider = λ p. at_db (s.providers.update_dns_provider p);
    delete_dns_provider = λ id. at_db (s.providers.delete_dns_provider id);
  };
}

-- What a running server is made of: the libraries, the encryptor, the driver, what the next request
-- draws (a new id for a record, one for the audit log, and the time), and whether OIDC is enabled.
pub record Server : Type 1 where
  pub lib : CryptoLib
  pub enc : Option Encryptor
  pub random : ℕ → Result (List ℕ)
  pub driver : Driver
  pub new_id : String
  pub log_id : String
  pub now : ℕ
  pub oidc_enabled : Bool
  pub marshal : List ChangeEntry → Result String

abbrev pub site_handlers : Server → Handlers Site
site_handlers server = record {
  store =
      store_at_db
        (sql_store server.lib server.enc server.random server.driver server.new_id server.now);
  config_roles = record {
    assign_config_role =
        λ config_id role_id. at_roles (access_store.assign_config_role config_id role_id);
    remove_config_role =
        λ config_id role_id. at_roles (access_store.remove_config_role config_id role_id);
    get_config_roles = λ config_id. at_roles (access_store.get_config_roles config_id);
    can_access = λ user_id config_id. at_roles (access_store.can_access user_id config_id);
    list_configs_for_user = λ user_id. at_roles (access_store.list_configs_for_user user_id);
  };
  get_role_by_name = λ name. at_roles (get_role_by_name name);
  create_audit_log = λ log. at_logs (create_audit_log server.driver server.log_id server.now log);
  oidc_enabled = server.oidc_enabled;
  start_reconcile = some (λ config_id w. record w { started = config_id ∷ w.started });
  marshal = server.marshal;
}

-- A request that changes something, less that for the roles of a config: the body as gin binds it.
pub data Command : Type 0 where
  create_config : Result CreateConfigRequest → Command
  update_config : Result UpdateConfigRequest → Command
  delete_config : Command
  add_backend : Result CreateBackendRequest → Command
  update_backend : Result UpdateBackendRequest → Command
  delete_backend : Command
  configure_health_check : Result ConfigureHealthCheckRequest → Command
  delete_health_check : Command
  configure_dns_provider : Result ConfigureDnsProviderRequest → Command
  delete_dns_provider : Command

abbrev with_status : {A W : Type 0} → Response A × W → ℕ × W
with_status (r, w) = (r.status, w)

-- The status of the response, and the state after the request.
unfoldable pub serve : {W : Type 0} → Handlers W → Caller → Command → W → ℕ × W
serve h caller (create_config body) w = with_status (Configs.create_config h caller body w)
serve h caller (update_config body) w = with_status (Configs.update_config h caller body w)
serve h caller delete_config w = with_status (Configs.delete_config h caller w)
serve h caller (add_backend body) w = with_status (Backends.add_backend h caller body w)
serve h caller (update_backend body) w = with_status (Backends.update_backend h caller body w)
serve h caller delete_backend w = with_status (Backends.delete_backend h caller w)
serve h caller (configure_health_check body) w =
    with_status (Checks.configure_health_check h caller body w)
serve h caller delete_health_check w = with_status (Checks.delete_health_check h caller w)
serve h caller (configure_dns_provider body) w =
    with_status (Providers.configure_dns_provider h caller body w)
serve h caller delete_dns_provider w = with_status (Providers.delete_dns_provider h caller w)
