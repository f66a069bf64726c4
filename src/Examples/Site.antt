-- ===== src/Examples/Site.antt =====
-- internal/handlers: requests to the small server.
use gslb.Prelude.{ℕ, ℤ, ◌==◌, ◌&&◌, true, ◌≡◌, refl, some, [], ◌∷◌, pos}
use gslb.Types.{HealthHistoryBucket, Backend, round_robin}
use gslb.Result.{ok, message}
use gslb.Crypto.{decrypt, decrypt_raw, trim_prefix}
use gslb.Store.Sql.{attempt, statement, calm}
use gslb.Store.History.{is_since}
use gslb.Handlers.History.{FloatLib, BackendHistoryResponse, since_requested, get_backend_history}
use gslb.Handlers.History.Ranges.{is_ordered, get_backend_history-exact}
use gslb.Store.Rows.{exists_by, find_by, has_key}
use gslb.Store.Tables.{update_config_row, delete_backend_row}
use gslb.Store.Configs.{get_config}
use gslb.Store.Access.{has_pair, find_role}
use gslb.Handlers.Api.{audit_entry, handle_store_error}
use gslb.Handlers.Configs.{UpdateConfigRequest, update_config, update_config_roles}
use gslb.Handlers.Configs.Roles.{update_config_roles-replaces}
use gslb.Handlers.Backends.{delete_backend, update_backend}
use gslb.Handlers.Backends.Moves.{move_to, update_backend-moves}
use gslb.Handlers.Providers.{
  ConfigureDnsProviderRequest, configure_dns_provider, delete_dns_provider,
}
use gslb.Handlers.Providers.Stuck.{dns_provider-stuck}
use gslb.Handlers.Site.{Site, Command, serve, site_handlers}
use gslb.Handlers.Site.Frame.{IsSame, serve-frame}
use gslb.Handlers.Site.Audited.{IsAudited, serve-IsAudited}
use gslb.Store.Configs
use gslb.Store.Backends
use gslb.Examples.World.{app, first_backend}
use gslb.Examples.Server.{server, site, caller, old_provider}

-- The DNS name of another config: a UNIQUE constraint refuses the update.
abbrev taken : UpdateConfigRequest
taken = record {
  name = "app";
  dns_name = "other.example.com";
  dns_ttl = pos 60;
  lb_method = round_robin;
}

serve-frame_example :
    IsSame
      (serve (site_handlers server) (caller "c") (Command.update_config (ok taken)) site).1
      site
unfolding serve update_config Configs.get_config Configs.update_config statement attempt
    update_config_row find_by exists_by handle_store_error
serve-frame_example = serve-frame server (caller "c") (Command.update_config (ok taken)) site refl

serve-IsAudited_example :
    IsAudited "backend" "u1" 50 site
      (serve (site_handlers server) (caller "b1") Command.delete_backend site).1
unfolding serve delete_backend Backends.get_backend Backends.delete_backend statement attempt
    delete_backend_row find_by exists_by
serve-IsAudited_example =
    serve-IsAudited server (caller "b1") Command.delete_backend site refl refl refl

update_backend-moves_example :
    ((update_backend (site_handlers server) (caller "b1") (ok (move_to "d")) site).0.status ≡ 200)
    × (find_by
          (has_key Backend.id "b1")
          (update_backend
            (site_handlers server)
            (caller "b1")
            (ok (move_to "d"))
            site).1.db.rows.backends
        ≡ some (record first_backend { config_id = "d" }))
    × ((update_backend (site_handlers server) (caller "b1") (ok (move_to "d")) site).1.started
        ≡ "d" ∷ [])
    × ((update_backend (site_handlers server) (caller "b1") (ok (move_to "d")) site).1.logs.rows
        ≡ record (audit_entry "backend:update" "backend" "b1" first_backend.ip "d" "{}"
            (caller "b1")) { id = "l1"; created_at = 50 }
          ∷ [])
unfolding find_by exists_by
update_backend-moves_example =
    update_backend-moves server (caller "b1") "d" first_backend site refl refl refl refl refl refl
      refl

abbrev request : ConfigureDnsProviderRequest
request = record { provider_type = "cloudflare"; config_json = "tok" }

dns_provider-stuck_example :
    ((configure_dns_provider (site_handlers server) (caller "c") (ok request) site).0.status ≡ 500)
    × ((configure_dns_provider
          (site_handlers server)
          (caller "c")
          (ok request)
          site).1.db.rows.providers
        ≡ old_provider ∷ [])
    × ((delete_dns_provider (site_handlers server) (caller "c") site).0.status ≡ 500)
    × ((delete_dns_provider (site_handlers server) (caller "c") site).1.db.rows.providers
        ≡ old_provider ∷ [])
unfolding find_by decrypt decrypt_raw trim_prefix
dns_provider-stuck_example =
    dns_provider-stuck server (caller "c") request app old_provider (message "ciphertext too short")
      site refl refl refl refl refl

update_config_roles-replaces_example :
    ((update_config_roles
        (site_handlers server)
        (caller "c")
        (ok ("admin" ∷ "ghost" ∷ []))
        site).0.status
      ≡ 200)
    × (has_pair "c" "r2"
          (update_config_roles
            (site_handlers server)
            (caller "c")
            (ok ("admin" ∷ "ghost" ∷ []))
            site).1.roles.rows.config_roles
        ≡ true)
unfolding find_role get_config statement find_by
update_config_roles-replaces_example =
    update_config_roles-replaces server (caller "c") ("admin" ∷ "ghost" ∷ []) app "c" "r2" site
      site.roles.rows refl refl

-- A stand-in for the arithmetic of float64.
abbrev floats : FloatLib
floats = record { Float = ℤ; from_int = λ n. n; quotient = λ a b. a; product = λ a b. b }

abbrev bucket : ℕ → HealthHistoryBucket
bucket start = record {
  backend_id = "b1";
  bucket_start = start;
  success_count = pos 3;
  failure_count = pos 1;
  selected = pos 1;
}

-- An old bucket, and two of the last three hours.
abbrev recorded : Site
recorded = record site {
  db = record site.db {
    rows = record site.db.rows {
      history = bucket 8000000000000000 ∷ bucket 1 ∷ bucket 7999999999999999 ∷ [];
    };
  };
}

get_backend_history-exact_example :
    let reply =
      (get_backend_history floats
        (site_handlers server)
        8000000000000001
        (caller "b1")
        "3h"
        (record recorded { db = calm recorded.db })).0 in
    (answer : BackendHistoryResponse ℤ) × (reply.status ≡ 200)
    × (reply.body ≡ some answer)
    × (is_ordered answer.buckets ≡ true)
    × (exists_by (λ row. row.bucket_start == 1) answer.buckets
        ≡ exists_by
            (λ row.
              is_since "b1" (since_requested "3h" 8000000000000001) row && row.bucket_start == 1)
            recorded.db.rows.history)
unfolding exists_by
get_backend_history-exact_example =
    get_backend_history-exact floats server 8000000000000001 (caller "b1") "3h" recorded
      (λ row. row.bucket_start == 1) refl refl
