-- ===== src/Dns/Mock.antt =====
-- internal/dns/mock.go: the provider that keeps its records in memory. The mutex makes each
-- operation atomic; `now` is what `time.Now` returns.
pub mod Records
use Prim.Native.String.{◌++◌}
use gslb.Prelude.{
  ℕ, ℤ, pos, String, Option, none, some, List, [], ◌∷◌, map, length, str_eq, leb_ℤ, if◌then◌else◌,
}
use gslb.Prelude.Dict.{Dict, lookup, insert, delete}
use gslb.Result.{GoError, message, ok, err, Exec}
use gslb.Store.{Done}
use gslb.Dns.Provider.{UpsertRequest, DeleteRequest, DnsProvider, has_empty}

pub record MockDnsRecord : Type 0 where
  pub name : String
  pub zone_id : String
  pub type : String
  pub ttl : ℤ
  pub records : List String
  pub created_at : ℕ
  pub updated_at : ℕ

pub record MockProvider : Type 0 where
  pub records : Dict MockDnsRecord
  pub name : String
  pub zone_id : String

-- `NewMockProvider`; `parsed` is the name in the JSON configuration, and `none` where the
-- configuration is invalid.
unfoldable pub new_mock_provider : String → Option String → MockProvider
new_mock_provider config_json parsed =
    let configured =
      if str_eq config_json "" then "" else elim parsed [ none ↦ "mock" | some name ↦ name ] in
    record {
      records = [];
      name = if str_eq configured "" then "mock" else configured;
      zone_id = "mock-zone";
    }

unfoldable pub record_key : String → String → String
record_key zone_id name = zone_id ++ ("/" ++ name)

-- The zone of a request: the provider's where it names none.
abbrev pub zone_of : MockProvider → String → String
zone_of p zone_id = if str_eq zone_id "" then p.zone_id else zone_id

-- The first error of a request.
abbrev pub mock_upsert_error : UpsertRequest → Option GoError
mock_upsert_error req =
    if str_eq req.name ""
    then some (message "name is required")
    else if leb_ℤ req.ttl (pos 0)
    then some (message "ttl must be greater than 0")
    else if has_empty req.records
    then some (message "record cannot be empty")
    else none

-- The entry that an upsert writes over what is there.
abbrev pub updated_record : ℕ → String → UpsertRequest → Option MockDnsRecord → MockDnsRecord
updated_record now zone_id req (some existing) = record existing {
  records = req.records;
  ttl = req.ttl;
  updated_at = now;
}
updated_record now zone_id req none = record {
  name = req.name;
  zone_id = zone_id;
  type = "A";
  ttl = req.ttl;
  records = req.records;
  created_at = now;
  updated_at = now;
}

unfoldable pub upsert_record : ℕ → UpsertRequest → Exec MockProvider Done
upsert_record now req p =
    let key = record_key (zone_of p req.zone_id) req.name in
    let entry = updated_record now (zone_of p req.zone_id) req (lookup key p.records) in
    elim (mock_upsert_error req) [
      | some e ↦ (err e, p)
      | none ↦ (ok tt, record p { records = insert key entry p.records })
    ]

unfoldable pub delete_record : DeleteRequest → Exec MockProvider Done
delete_record req p =
    let key = record_key (zone_of p req.zone_id) req.name in
    if str_eq req.name ""
    then (err (message "name is required"), p)
    else elim (lookup key p.records) [
      | none ↦ (err (message ("record not found: " ++ req.name)), p)
      | some existing ↦ (ok tt, record p { records = delete key p.records })
    ]

unfoldable pub get_record : String → String → MockProvider → Option MockDnsRecord
get_record zone_id name p = lookup (record_key zone_id name) p.records

abbrev second : String × MockDnsRecord → MockDnsRecord
second (k, r) = r

unfoldable pub get_all_records : MockProvider → List MockDnsRecord
get_all_records p = map second p.records

unfoldable pub clear : MockProvider → MockProvider
clear p = record p { records = [] }

unfoldable pub record_count : MockProvider → ℕ
record_count p = length p.records

-- The provider that the registry's factory returns, over its own state.
abbrev pub mock_provider : ℕ → String → DnsProvider MockProvider
mock_provider now name = record {
  upsert_record = upsert_record now;
  delete_record = delete_record;
  provider_name = name;
}
