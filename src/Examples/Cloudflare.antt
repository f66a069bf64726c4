-- ===== src/Examples/Cloudflare.antt =====
-- internal/dns/cloudflare.go: a client over a list of records that has the wanted one.
use gslb.Prelude.{String, pos, true, List, [], ◌∷◌, ◌≡◌, refl}
use gslb.Prelude.Dict.{lookup, insert}
use gslb.Result.{ok, err, message}
use gslb.Dns.Provider.{UpsertRequest, validate_upsert_request}
use gslb.Dns.Cloudflare.{
  DnsRecord, CloudflareApi, CloudflareProvider, index_by_ip, delete_unwanted, upsert_record,
}
use gslb.Examples.World.{World}

abbrev wanted : DnsRecord
wanted = record { id = "r1"; content = "10.0.0.1"; ttl = pos 60 }

-- The calls are logged; every record has gone when its deletion comes.
abbrev client : CloudflareApi World
client = record {
  list_dns_records = λ zone name w. (ok (wanted ∷ []), "list" ∷ w);
  delete_dns_record = λ zone id w. (err (message "404"), "delete" ∷ w);
  update_dns_record = λ zone id name ip ttl w. (ok tt, "update" ∷ w);
  create_dns_record = λ zone name ip ttl w. (ok tt, "create" ∷ w);
  is_not_found_error = λ e. true;
}

abbrev cloudflare : CloudflareProvider World
cloudflare = record { client = client; zone_id = "z" }

abbrev request_of : List String → UpsertRequest
request_of ips = record { zone_id = ""; name = "a.example.com"; ttl = pos 60; records = ips }

-- Another address: the old record is deleted first, and the error of that ends the upsert.
upsert_other :
    (upsert_record cloudflare (request_of ("10.0.0.2" ∷ [])) []).1 ≡ "delete" ∷ "list" ∷ []
unfolding upsert_record validate_upsert_request index_by_ip lookup insert delete_unwanted
upsert_other = refl
