-- ===== src/Handlers/Providers/Stuck.antt =====
-- internal/handlers/dns.go: a provider whose stored credentials cannot be decrypted.
use gslb.Prelude.{false, ◌≡◌, some, [], str_eq, inl, inr, arith}
use gslb.Types.{Config, DnsProviderConfig}
use gslb.Result.{GoError, Result-cases, ok, err}
use gslb.Crypto.{encrypt, decrypt}
use gslb.Store.Sql.{statement, attempt}
use gslb.Store.Rows.{find_by, has_key}
use gslb.Store.Rows.Reads.{find_by-present}
use gslb.Store.Tables.{insert_provider_row}
use gslb.Store.Configs
use gslb.Store.Configs.{or_new_id}
use gslb.Store.Providers
use gslb.Handlers.Api.{Caller, Handlers, handle_store_error}
use gslb.Handlers.Providers.{
  ConfigureDnsProviderRequest, configure_dns_provider, delete_dns_provider, save_provider,
}
use gslb.Handlers.Site.{Server, Site, site_handlers}

module _ (server : Server) where
  abbrev h : Handlers Site
  h = site_handlers server

  -- A config with a provider whose credentials Decrypt refuses, for instance because the encryption key is
  -- another one than before: every request to configure the provider anew, and the request to delete it,
  -- are answered with status 500 and leave the provider as it is, even where the database refuses
  -- nothing.
  pub dns_provider-stuck :
      (caller : Caller) (req : ConfigureDnsProviderRequest) (cfg : Config) (old : DnsProviderConfig)
      (bad : GoError) (w : Site)
      → str_eq caller.id "" ≡ false
      → w.db.faults ≡ []
      → find_by (has_key Config.id caller.id) w.db.rows.configs ≡ some cfg
      → find_by (has_key DnsProviderConfig.config_id caller.id) w.db.rows.providers ≡ some old
      → decrypt server.lib server.enc old.config_json ≡ err bad
      → ((configure_dns_provider h caller (ok req) w).0.status ≡ 500)
        × ((configure_dns_provider h caller (ok req) w).1.db.rows.providers ≡ w.db.rows.providers)
        × ((delete_dns_provider h caller w).0.status ≡ 500)
        × ((delete_dns_provider h caller w).1.db.rows.providers ≡ w.db.rows.providers)
  unfolding configure_dns_provider delete_dns_provider save_provider Configs.get_config
      Providers.get_dns_provider Providers.create_dns_provider statement attempt insert_provider_row
      handle_store_error
  dns_provider-stuck caller req cfg old bad w named calm known found failed =
      elim (Result-cases (encrypt server.lib server.enc server.random req.config_json)) [
        | inr (e, refused) ↦ ground (arith, named, calm, known, found, failed, refused)
        | inl (enc_json, encrypted) ↦ ground (
          arith,
          named,
          calm,
          known,
          found,
          failed,
          encrypted,
          find_by-present (has_key DnsProviderConfig.config_id caller.id) w.db.rows.providers old
              found,
        )
      ]
