-- ===== src/Dns/Cloudflare/Calls.antt =====
-- internal/dns/cloudflare.go: when no record is written, and when a deletion succeeds.
use gslb.Prelude.{
  ℤ, String, true, ◌≡◌, refl, inl, inr, Bool-cases, none, some, List, [], ◌∷◌, All, str_eq, eqb_ℤ,
  arith,
}
use gslb.Prelude.Dict.{Dict, lookup, insert}
use gslb.Result.{GoError, ok, err, Result-cases}
use gslb.Dns.Provider.{
  UpsertRequest, DeleteRequest, validate_upsert_request, validate_delete_request,
}
use gslb.Dns.Cloudflare.{
  DnsRecord, CloudflareApi, CloudflareProvider, index_by_ip, is_desired, delete_unwanted,
  ensure_records, delete_all, zone_or_default, upsert_record, delete_record,
}

abbrev pub AllDesired : List String → Dict DnsRecord → Type 0
AllDesired desired m = All (λ entry. is_desired entry.0 desired ≡ true) m

-- Each address has a record, with this TTL.
abbrev pub AllCurrent : ℤ → Dict DnsRecord → List String → Type 0
AllCurrent ttl m ips =
    All (λ ip. (rec : DnsRecord) × (lookup ip m ≡ some rec) × (eqb_ℤ rec.ttl ttl ≡ true)) ips

insert-AllDesired :
    (desired : List String) (ip : String) (rec : DnsRecord) (m : Dict DnsRecord)
    → is_desired ip desired ≡ true
    → AllDesired desired m
    → AllDesired desired (insert ip rec m)
unfolding insert
insert-AllDesired desired ip rec [] d h = (d, tt)
insert-AllDesired desired ip rec ((j, old) ∷ rest) d h = elim (Bool-cases (str_eq j ip)) [
  | inl e ↦ rw e (d, h.1)
  | inr n ↦ rw n (h.0, insert-AllDesired desired ip rec rest d h.1)
]

index_by_ip-AllDesired :
    (desired : List String) (records : List DnsRecord) (m : Dict DnsRecord)
    → All (λ rec. is_desired rec.content desired ≡ true) records
    → AllDesired desired m
    → AllDesired desired (index_by_ip records m)
unfolding index_by_ip
index_by_ip-AllDesired desired [] m h k = k
index_by_ip-AllDesired desired (rec ∷ rest) m h k =
    index_by_ip-AllDesired desired rest (insert rec.content rec m) h.1
      (insert-AllDesired desired rec.content rec m h.0 k)

module _ {W : Type 0} (api : CloudflareApi W) (zone_id name : String) (ttl : ℤ) where
  delete_unwanted_none :
      (desired : List String) (m : Dict DnsRecord) (w : W)
      → AllDesired desired m
      → delete_unwanted api zone_id name ttl desired m w ≡ (ok tt, w)
  unfolding delete_unwanted
  delete_unwanted_none desired [] w h = refl
  delete_unwanted_none desired ((ip, rec) ∷ rest) w h =
      ground (arith, h.0, delete_unwanted_none desired rest w h.1)

  ensure_records_current :
      (m : Dict DnsRecord) (ips : List String) (w : W)
      → AllCurrent ttl m ips
      → ensure_records api zone_id name ttl m ips w ≡ (ok tt, w)
  unfolding ensure_records
  ensure_records_current m [] w h = refl
  ensure_records_current m (ip ∷ rest) w h =
      ground (arith, h.0.1, h.0.2, ensure_records_current m rest w h.1)

-- Where every record that is there is wanted, and every wanted address is there with the TTL of the
-- request, a valid upsert succeeds and only lists: it deletes, creates and updates nothing.
upsert_record_settled :
    {W : Type 0} (p : CloudflareProvider W) (req : UpsertRequest) (existing : List DnsRecord)
    (w : W)
    → validate_upsert_request req ≡ none
    → (p.client.list_dns_records (zone_or_default p.zone_id req.zone_id) req.name w).0 ≡ ok existing
    → All (λ rec. is_desired rec.content req.records ≡ true) existing
    → AllCurrent req.ttl (index_by_ip existing []) req.records
    → upsert_record p req w
      ≡ (ok tt, (p.client.list_dns_records (zone_or_default p.zone_id req.zone_id) req.name w).1)
unfolding upsert_record
upsert_record_settled p req existing w valid listed wanted current =
    let zone_id = zone_or_default p.zone_id req.zone_id in
    let after = (p.client.list_dns_records zone_id req.name w).1 in
    ground (
      arith,
      valid,
      listed,
      delete_unwanted_none p.client zone_id req.name req.ttl req.records (index_by_ip existing [])
          after (index_by_ip-AllDesired req.records existing [] wanted tt),
      ensure_records_current p.client zone_id req.name req.ttl (index_by_ip existing []) req.records
          after current,
    )

delete_all_ok :
    {W : Type 0} (api : CloudflareApi W) (zone_id : String) (records : List DnsRecord) (w : W)
    → ((id : String) (v : W) (e : GoError)
        → (api.delete_dns_record zone_id id v).0 ≡ err e
        → api.is_not_found_error e ≡ true)
    → (delete_all api zone_id records w).0 ≡ ok tt
unfolding delete_all
delete_all_ok api zone_id [] w gone = refl
delete_all_ok api zone_id (rec ∷ rest) w gone =
    elim (Result-cases (api.delete_dns_record zone_id rec.id w).0) [
      | inl (d, e) ↦
          ground (
            arith,
            e,
            delete_all_ok api zone_id rest (api.delete_dns_record zone_id rec.id w).1 gone,
          )
      | inr (x, e) ↦ ground (
        arith,
        e,
        gone rec.id w x e,
        delete_all_ok api zone_id rest (api.delete_dns_record zone_id rec.id w).1 gone,
      )
    ]

-- A valid deletion succeeds where the listing does, also if the records, or some of them, have gone
-- in the meantime: where "not found" is the only error that a deletion in the zone can return.
pub delete_record_idempotent :
    {W : Type 0} (p : CloudflareProvider W) (req : DeleteRequest) (records : List DnsRecord) (w : W)
    → validate_delete_request req ≡ none
    → (p.client.list_dns_records (zone_or_default p.zone_id req.zone_id) req.name w).0 ≡ ok records
    → ((id : String) (v : W) (e : GoError)
        → (p.client.delete_dns_record (zone_or_default p.zone_id req.zone_id) id v).0 ≡ err e
        → p.client.is_not_found_error e ≡ true)
    → (delete_record p req w).0 ≡ ok tt
unfolding delete_record
delete_record_idempotent p req records w valid listed gone =
    let zone_id = zone_or_default p.zone_id req.zone_id in
    ground (
      arith,
      valid,
      listed,
      delete_all_ok p.client zone_id records (p.client.list_dns_records zone_id req.name w).1 gone,
    )
