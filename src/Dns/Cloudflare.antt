-- ===== src/Dns/Cloudflare.antt =====
-- internal/dns/cloudflare.go. The client library is the record `CloudflareApi`. A Go map is iterated
-- in an order that the language leaves open; here it is that of the first listing of each address.
pub mod Calls
use Prim.Native.String.{◌++◌}
use gslb.Prelude.{
  ℤ, String, Bool, true, false, Option, none, some, List, [], ◌∷◌, ◌||◌, str_eq, eqb_ℤ,
  if◌then◌else◌,
}
use gslb.Prelude.Dict.{Dict, lookup, insert}
use gslb.Result.{GoError, message, Result, ok, err, Exec, context, pure, ◌>>=◌}
use gslb.Store.{Done}
use gslb.Dns.Provider.{
  UpsertRequest, DeleteRequest, DnsProvider, validate_upsert_request, validate_delete_request,
}

-- `cloudflare.DNSRecord`, as far as the code reads it.
pub record DnsRecord : Type 0 where
  pub id : String
  pub content : String
  pub ttl : ℤ

-- The calls of the client: the zone, then the name and the type "A", or the id of a record.
pub record CloudflareApi (W : Type 0) : Type 0 where
  pub list_dns_records : String → String → Exec W (List DnsRecord)
  pub delete_dns_record : String → String → Exec W Done
  pub update_dns_record : String → String → String → String → ℤ → Exec W Done
  pub create_dns_record : String → String → String → ℤ → Exec W Done
  pub is_not_found_error : GoError → Bool

pub record CloudflareProvider (W : Type 0) : Type 0 where
  pub client : CloudflareApi W
  pub zone_id : String

-- `existingByIP`
unfoldable pub index_by_ip : List DnsRecord → Dict DnsRecord → Dict DnsRecord
index_by_ip [] m = m
index_by_ip (r ∷ rest) m = index_by_ip rest (insert r.content r m)

abbrev pub is_desired : String → List String → Bool
is_desired ip [] = false
is_desired ip (d ∷ rest) = str_eq d ip || is_desired ip rest

module _ {W : Type 0} (api : CloudflareApi W) (zone_id name : String) (ttl : ℤ) where
  -- The loop that deletes the records that are not desired.
  unfoldable pub delete_unwanted : List String → Dict DnsRecord → Exec W Done
  delete_unwanted desired [] w = (ok tt, w)
  delete_unwanted desired ((ip, rec) ∷ rest) w =
      let deleted =
        context ("failed to delete DNS record " ++ ip) (api.delete_dns_record zone_id rec.id) w in
      let kept = delete_unwanted desired rest w in
      let later = delete_unwanted desired rest deleted.1 in
      if is_desired ip desired
      then kept
      else elim deleted.0 [ ok _ ↦ later | err e ↦ (err e, deleted.1) ]

  -- One address of the second loop: a record with another TTL is updated, a missing one is created.
  ensure_record : Option DnsRecord → String → Exec W Done
  ensure_record (some rec) ip w =
      if eqb_ℤ rec.ttl ttl
      then (ok tt, w)
      else context ("failed to update DNS record " ++ ip)
          (api.update_dns_record zone_id rec.id name ip ttl) w
  ensure_record none ip w =
      context ("failed to create DNS record " ++ ip) (api.create_dns_record zone_id name ip ttl) w

  unfoldable pub ensure_records : Dict DnsRecord → List String → Exec W Done
  unfolding ensure_record
  ensure_records existing [] w = (ok tt, w)
  ensure_records existing (ip ∷ rest) w =
      let ensured = ensure_record (lookup ip existing) ip w in
      let later = ensure_records existing rest ensured.1 in
      elim ensured.0 [ ok _ ↦ later | err e ↦ (err e, ensured.1) ]

module _ {W : Type 0} (api : CloudflareApi W) (zone_id : String) where
  -- The loop of `DeleteRecord`: a record that is gone already is passed over.
  unfoldable pub delete_all : List DnsRecord → Exec W Done
  delete_all [] w = (ok tt, w)
  delete_all (rec ∷ rest) w =
      let deleted = api.delete_dns_record zone_id rec.id w in
      let later = delete_all rest deleted.1 in
      elim deleted.0 [
        | ok _ ↦ later
        | err e ↦
            if api.is_not_found_error e
            then later
            else context "failed to delete DNS record" (λ v. (err e, v)) deleted.1
      ]

abbrev pub zone_or_default : String → String → String
zone_or_default default zone_id = if str_eq zone_id "" then default else zone_id

module _ {W : Type 0} (p : CloudflareProvider W) where
  -- `UpsertRecord`
  unfoldable pub upsert_record : UpsertRequest → Exec W Done
  upsert_record req w =
      let zone_id = zone_or_default p.zone_id req.zone_id in
      elim (validate_upsert_request req) [
        | some e ↦ (err e, w)
        | none ↦
            (context "failed to list DNS records" (p.client.list_dns_records zone_id req.name)
                >>= λ existing.
                    delete_unwanted p.client zone_id req.name req.ttl req.records
                      (index_by_ip existing [])
                    >>= λ _.
                        ensure_records p.client zone_id req.name req.ttl (index_by_ip existing [])
                          req.records)
              w
      ]

  -- `DeleteRecord`; with no record there is nothing to delete.
  unfoldable pub delete_record : DeleteRequest → Exec W Done
  delete_record req w =
      let zone_id = zone_or_default p.zone_id req.zone_id in
      elim (validate_delete_request req) [
        | some e ↦ (err e, w)
        | none ↦
            (context "failed to list DNS records" (p.client.list_dns_records zone_id req.name)
                >>= λ records. delete_all p.client zone_id records)
              w
      ]

  abbrev pub cloudflare_provider : DnsProvider W
  cloudflare_provider = record {
    upsert_record = upsert_record;
    delete_record = delete_record;
    provider_name = "cloudflare";
  }
