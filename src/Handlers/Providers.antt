-- ===== src/Handlers/Providers.antt =====
-- internal/handlers/dns.go: the DNS provider of a config. The credentials are never written into the
-- audit log.
pub mod Stuck
use gslb.Prelude.{String, Bool, Option, none, some, List, [], ◌∷◌, ◌++◌, str_eq, if◌then◌else◌}
use gslb.Types.{DnsProviderConfig}
use gslb.Result.{Result, ok, err, Exec}
use gslb.Store.{Done}
use gslb.Handlers.Api.{
  Handlers, Caller, Response, Serve, ChangeEntry, entry, changed, build_details, send_success,
  send_no_content, send_validation_error, or_store_error, bind_json, log_audit,
}

pub record ConfigureDnsProviderRequest : Type 0 where
  pub provider_type : String
  pub config_json : String

abbrev pub provider_of : String → String → ConfigureDnsProviderRequest → DnsProviderConfig
provider_of id config_id req = record {
  id = id;
  config_id = config_id;
  provider_type = req.provider_type;
  config_json = req.config_json;
}

unfoldable pub provider_changes : DnsProviderConfig → DnsProviderConfig → List ChangeEntry
provider_changes old p =
    changed (str_eq old.provider_type p.provider_type) "provider_type" old.provider_type
      p.provider_type
    ++ changed (str_eq old.config_json p.config_json) "credentials" "[redacted]" "[updated]"

abbrev created_changes : DnsProviderConfig → List ChangeEntry
created_changes p =
    entry "provider_type" "" p.provider_type ∷ entry "credentials" "" "[configured]" ∷ []

abbrev deleted_changes : DnsProviderConfig → List ChangeEntry
deleted_changes p =
    entry "provider_type" p.provider_type "" ∷ entry "credentials" "[redacted]" "" ∷ []

module _ {W : Type 0} (h : Handlers W) where
  -- As for the health check, every error of the query counts as that there is no provider.
  unfoldable pub save_provider :
      Caller → ConfigureDnsProviderRequest → Result DnsProviderConfig → Serve W DnsProviderConfig
  save_provider caller req (ok existing) w =
      let p = provider_of existing.id caller.id req in
      or_store_error (h.store.providers.update_dns_provider p)
        (λ done w. (
          send_success p,
          log_audit h "dns_provider:update" "dns_provider" p.id p.provider_type caller.id
              (build_details h.marshal (provider_changes existing p)) caller w,
        ))
        w
  save_provider caller req (err e) w =
      or_store_error (h.store.providers.create_dns_provider (provider_of "" caller.id req))
        (λ p w. (
          send_success p,
          log_audit h "dns_provider:create" "dns_provider" p.id p.provider_type caller.id
              (build_details h.marshal (created_changes p)) caller w,
        ))
        w

  unfoldable pub configure_dns_provider :
      Caller → Result ConfigureDnsProviderRequest → Serve W DnsProviderConfig
  configure_dns_provider caller body w =
      if str_eq caller.id ""
      then (send_validation_error "config id is required", w)
      else or_store_error (h.store.configs.get_config caller.id)
          (λ cfg. bind_json body (λ req w.
            let existing = h.store.providers.get_dns_provider caller.id w in
            save_provider caller req existing.0 existing.1))
          w

  unfoldable pub get_dns_provider : Caller → Serve W DnsProviderConfig
  get_dns_provider caller w =
      if str_eq caller.id ""
      then (send_validation_error "config id is required", w)
      else or_store_error (h.store.configs.get_config caller.id)
          (λ cfg.
            or_store_error (h.store.providers.get_dns_provider caller.id)
              (λ p w. (send_success p, w)))
          w

  unfoldable pub delete_dns_provider : Caller → Serve W Done
  delete_dns_provider caller w =
      if str_eq caller.id ""
      then (send_validation_error "config id is required", w)
      else or_store_error (h.store.configs.get_config caller.id)
          (λ cfg. or_store_error (h.store.providers.get_dns_provider caller.id) (λ p.
            or_store_error (h.store.providers.delete_dns_provider caller.id) (λ done w. (
              send_no_content,
              log_audit h "dns_provider:delete" "dns_provider" p.id p.provider_type caller.id
                  (build_details h.marshal (deleted_changes p)) caller w,
            ))))
          w
