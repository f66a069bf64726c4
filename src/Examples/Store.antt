-- ===== src/Examples/Store.antt =====
-- internal/store and internal/crypto: calls on the small database.
use gslb.Prelude.{
  ℕ, pos, String, true, ◌≡◌, refl, sym, ap, ◌⊎◌, some, none, Option, List, [], ◌∷◌, length,
  length-replicate,
}
use gslb.Types.{HealthHistoryBucket, DnsProviderConfig, unhealthy}
use gslb.Result.{ok, err, not_found}
use gslb.Crypto.{Aead, Encryptor, encrypt, decrypt, is_encrypted}
use gslb.Crypto.Roundtrip.{decrypt-encrypt}
use gslb.Store.Sql.{attempt, calm}
use gslb.Store.Rows.{exists_by, update_by, is_distinct, refers}
use gslb.Store.Tables.{
  is_sound, distinct_buckets, delete_config_row, insert_config_row, update_config_row,
  insert_provider_row, drop_config,
}
use gslb.Store.Configs.{get_config, create_config, update_config, delete_config}
use gslb.Store.Backends.{list_backends}
use gslb.Store.Checks.{get_health_check, get_health_states}
use gslb.Store.Providers.{get_dns_provider, create_dns_provider}
use gslb.Store.Calls.{Call, run_calls}
use gslb.Store.Calls.Sound.{run_calls-is_sound}
use gslb.Store.Calls.Deleted.{delete_config-clean}
use gslb.Store.Calls.ConfigMap.{Write, view, effects, perform_all, accepted, get_config-effects}
use gslb.Store.Calls.Provider.{get_dns_provider-create_dns_provider}
use gslb.Examples.World.{first_backend, state_of}
use gslb.Examples.Server.{lib, gcm, fill, encryptor, driver, db, decode-encode, other_app}

abbrev gcm_of : Option Encryptor → Aead
gcm_of none = gcm
gcm_of (some e) = e.gcm

opens :
    (e : Encryptor) (nonce bytes : List ℕ)
    → encryptor ≡ some e
    → length nonce ≡ e.gcm.nonce_size
    → e.gcm.open_sealed nonce (e.gcm.seal nonce bytes) ≡ ok bytes
opens e nonce bytes h n = rw same refl
  where
    same : e.gcm ≡ gcm
    same = ap gcm_of (sym h)

decodes : (bytes : List ℕ) → lib.decode_base64 (lib.encode_base64 bytes) ≡ ok bytes
decodes bytes = ap (λ b. ok b) (decode-encode bytes)

decrypt-encrypt_example :
    (value : String) × (encrypt lib encryptor (λ n. ok (fill n)) "tok" ≡ ok value)
    × (decrypt lib encryptor value ≡ ok "tok")
    × ((encryptor ≡ none) ⊎ (is_encrypted value ≡ true))
decrypt-encrypt_example =
    decrypt-encrypt lib encryptor fill "tok" decodes refl opens (λ n. length-replicate n 0)

abbrev bucket : HealthHistoryBucket
bucket = record {
  backend_id = "b2";
  bucket_start = 300;
  success_count = pos 1;
  failure_count = pos 0;
  selected = pos 0;
}

-- The deletion of a config, the move of a backend to it, which a foreign key refuses, a write,
-- and a bucket of the history that is written twice.
abbrev calls : List Call
calls =
    Call.delete_config "d"
    ∷ Call.update_backend (record first_backend { config_id = "d" })
    ∷ Call.update_health_state (state_of "b2" unhealthy)
    ∷ Call.upsert_health_history_bucket bucket
    ∷ Call.upsert_health_history_bucket bucket
    ∷ []

run_calls-is_sound_example :
    is_sound (run_calls lib encryptor (λ n. ok (fill n)) driver calls db).rows ≡ true
unfolding is_sound is_distinct refers exists_by distinct_buckets
run_calls-is_sound_example =
    run_calls-is_sound lib encryptor (λ n. ok (fill n)) driver calls db refl

delete_config-clean_example :
    ((get_config "c" (calm (delete_config "c" db).1)).0 ≡ err not_found)
    × ((list_backends "c" (calm (delete_config "c" db).1)).0 ≡ ok [])
    × ((get_health_check "c" (calm (delete_config "c" db).1)).0 ≡ err not_found)
    × ((get_dns_provider lib encryptor "c" (calm (delete_config "c" db).1)).0 ≡ err not_found)
    × ((get_health_states "c" (calm (delete_config "c" db).1)).0 ≡ ok [])
unfolding delete_config attempt delete_config_row exists_by
delete_config-clean_example = delete_config-clean lib encryptor "c" db refl

abbrev new_provider : DnsProviderConfig
new_provider = record { id = ""; config_id = "d"; provider_type = "mock"; config_json = "tok" }

get_dns_provider-create_dns_provider_example :
    (new_provider.config_json ≡ new_provider.config_json)
    × ((get_dns_provider lib encryptor "d" (
          calm
            (create_dns_provider lib encryptor (λ n. ok (fill n)) driver "p2" new_provider db).1)).0
        ≡ ok (record new_provider { id = "p2" }))
unfolding create_dns_provider encrypt attempt insert_provider_row exists_by
get_dns_provider-create_dns_provider_example =
    get_dns_provider-create_dns_provider lib encryptor fill driver "p2" new_provider
      (record new_provider { id = "p2" }) db decodes refl opens (λ n. length-replicate n 0) refl

-- The second call is refused for its name, which the first has taken.
abbrev writes : List Write
writes =
    Write.create "n1" (record other_app { id = ""; dns_name = "new.example.com" })
    ∷ Write.create "n2" (record other_app { id = ""; dns_name = "new.example.com" })
    ∷ Write.update (record other_app { name = "renamed" })
    ∷ Write.remove "c"
    ∷ []

three_accepted : length (accepted driver writes db) ≡ 3
unfolding create_config update_config delete_config attempt insert_config_row update_config_row
    delete_config_row exists_by update_by drop_config
three_accepted = refl

get_config-effects_example :
    (get_config "d" (calm (perform_all driver writes db))).0
    ≡ elim (effects (accepted driver writes db) (view db) "d") [
      | none ↦ err not_found
      | some c ↦ ok c
    ]
get_config-effects_example = get_config-effects driver writes db "d"
