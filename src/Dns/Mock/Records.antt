-- ===== src/Dns/Mock/Records.antt =====
-- internal/dns/mock.go: what the zone of the provider holds after its operations, and after the
-- reconciler has published to it.
use gslb.Prelude.{
  ℕ, pos, String, false, inl, inr, ◌≡◌, refl, Option, Option-cases, none, some, List, [], ◌∷◌,
  str_eq, eq_refl, leb_ℤ, arith, if◌then◌else◌,
}
use gslb.Prelude.Dict.{lookup, lookup-insert, lookup-delete}
use gslb.Types.{Config, Backend}
use gslb.Result.{ok}
use gslb.Dns.Provider.{UpsertRequest, DeleteRequest, has_empty}
use gslb.Dns.Ips.{addresses, sort_strings, insert_sorted, extract_ips}
use gslb.Dns.Reconciler.{push_records}
use gslb.Dns.Mock.{
  MockProvider, MockDnsRecord, record_key, zone_of, mock_upsert_error, updated_record,
  upsert_record, delete_record, get_record, mock_provider,
}

-- A valid upsert succeeds and writes the entry of its zone and name: the new addresses and TTL over
-- what was there, or a new record. Every entry under another key stays as it was.
pub get_record-upsert_record :
    (now : ℕ) (req : UpsertRequest) (p : MockProvider) (zone_id name : String)
    → mock_upsert_error req ≡ none
    → ((upsert_record now req p).0 ≡ ok tt)
      × (get_record zone_id name (upsert_record now req p).1 ≡ (
          if str_eq (record_key (zone_of p req.zone_id) req.name) (record_key zone_id name)
          then some (
              updated_record now
                (zone_of p req.zone_id)
                req
                (get_record (zone_of p req.zone_id) req.name p))
          else get_record zone_id name p))
unfolding upsert_record get_record
get_record-upsert_record now req p zone_id name valid = ground (
  arith,
  valid,
  lookup-insert (record_key (zone_of p req.zone_id) req.name) (record_key zone_id name)
      (updated_record now (zone_of p req.zone_id) req
        (lookup (record_key (zone_of p req.zone_id) req.name) p.records))
      p.records,
)

-- A deletion of a record that is there succeeds; that record is gone, and every entry under another
-- key stays as it was.
pub get_record-delete_record :
    (req : DeleteRequest) (p : MockProvider) (zone_id name : String) (existing : MockDnsRecord)
    → str_eq req.name "" ≡ false
    → get_record (zone_of p req.zone_id) req.name p ≡ some existing
    → ((delete_record req p).0 ≡ ok tt)
      × (get_record zone_id name (delete_record req p).1 ≡ (
          if str_eq (record_key (zone_of p req.zone_id) req.name) (record_key zone_id name)
          then none
          else get_record zone_id name p))
unfolding delete_record get_record
get_record-delete_record req p zone_id name existing named found = ground (
  arith,
  named,
  found,
  lookup-delete (record_key (zone_of p req.zone_id) req.name) (record_key zone_id name) p.records,
)

has_empty-insert_sorted :
    (a : String) (l : List String)
    → str_eq a "" ≡ false
    → has_empty l ≡ false
    → has_empty (insert_sorted a l) ≡ false
unfolding insert_sorted
has_empty-insert_sorted a [] n h = ground arith
has_empty-insert_sorted a (b ∷ rest) n h = ground (arith, has_empty-insert_sorted a rest n)

has_empty-extract_ips : (l : List Backend) → has_empty (extract_ips l) ≡ false
unfolding extract_ips addresses sort_strings
has_empty-extract_ips [] = refl
has_empty-extract_ips (b ∷ rest) = ground (
  arith,
  has_empty-extract_ips rest,
  has_empty-insert_sorted b.ip (sort_strings (addresses rest)),
)

-- The addresses that the zone holds for a name.
abbrev pub held : Option MockDnsRecord → List String
held none = []
held (some r) = r.records

push_records-held :
    (now : ℕ) (cfg : Config) (p : MockProvider) (ips : List String)
    → str_eq cfg.dns_name "" ≡ false
    → leb_ℤ cfg.dns_ttl (pos 0) ≡ false
    → has_empty ips ≡ false
    → held (get_record p.zone_id cfg.dns_name (push_records (mock_provider now p.name) cfg ips p).1)
      ≡ ips
unfolding push_records upsert_record delete_record get_record
push_records-held now cfg p [] named ttl full =
    elim (Option-cases (lookup (record_key p.zone_id cfg.dns_name) p.records)) [
      | inl absent ↦ ground (arith, absent, named)
      | inr (existing, found) ↦ ground (
        arith,
        found,
        named,
        lookup-delete (record_key p.zone_id cfg.dns_name) (record_key p.zone_id cfg.dns_name)
            p.records,
        eq_refl (record_key p.zone_id cfg.dns_name),
      )
    ]
push_records-held now cfg p (ip ∷ ips) named ttl full =
    let key = record_key p.zone_id cfg.dns_name in
    elim (Option-cases (lookup key p.records)) [
      | inl absent ↦ ground (
        arith,
        absent,
        named,
        ttl,
        full,
        eq_refl key,
        lookup-insert key key
            (updated_record now p.zone_id
              (record { zone_id = ""; name = cfg.dns_name; ttl = cfg.dns_ttl; records = ip ∷ ips })
              none)
            p.records,
      )
      | inr (existing, found) ↦ ground (
        arith,
        found,
        named,
        ttl,
        full,
        eq_refl key,
        lookup-insert key key
            (updated_record now p.zone_id
              (record { zone_id = ""; name = cfg.dns_name; ttl = cfg.dns_ttl; records = ip ∷ ips })
              (some existing))
            p.records,
      )
    ]

-- What the reconciler pushes for a config with a name and a positive TTL is what the zone holds
-- for that name afterwards, whatever it held before: the sorted addresses of the chosen backends,
-- and no record where there is none.
push_records-get_record :
    (now : ℕ) (cfg : Config) (p : MockProvider) (backends : List Backend)
    → str_eq cfg.dns_name "" ≡ false
    → leb_ℤ cfg.dns_ttl (pos 0) ≡ false
    → held (
        get_record p.zone_id cfg.dns_name
          (push_records (mock_provider now p.name) cfg (extract_ips backends) p).1)
      ≡ extract_ips backends
push_records-get_record now cfg p backends named ttl =
    push_records-held now cfg p (extract_ips backends) named ttl (has_empty-extract_ips backends)
