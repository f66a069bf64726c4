-- ===== src/Examples/Mock.antt =====
-- internal/dns/mock.go: the provider with one record.
use gslb.Prelude.{pos, none, [], ◌∷◌, ◌≡◌, refl}
use gslb.Prelude.Dict.{lookup, insert}
use gslb.Result.{ok}
use gslb.Dns.Provider.{UpsertRequest}
use gslb.Dns.Mock.{
  MockProvider, MockDnsRecord, new_mock_provider, record_key, upsert_record, record_count,
}

abbrev empty_zone : MockProvider
empty_zone = record { records = []; name = "mock"; zone_id = "mock-zone" }

abbrev upsert : UpsertRequest
upsert = record { zone_id = ""; name = "a.example.com"; ttl = pos 60; records = "10.0.0.1" ∷ [] }

abbrev entry : MockDnsRecord
entry = record {
  name = "a.example.com";
  zone_id = "mock-zone";
  type = "A";
  ttl = pos 60;
  records = "10.0.0.1" ∷ [];
  created_at = 5;
  updated_at = 5;
}

abbrev one_entry : MockProvider
one_entry = record {
  records = ("mock-zone/a.example.com", entry) ∷ [];
  name = "mock";
  zone_id = "mock-zone";
}

upsert_example : upsert_record 5 upsert empty_zone ≡ (ok tt, one_entry)
unfolding upsert_record lookup insert record_key
upsert_example = refl

count_example : record_count one_entry ≡ 1
unfolding record_count
count_example = refl

defaults_example : (new_mock_provider "{" none).name ≡ "mock"
unfolding new_mock_provider
defaults_example = refl
