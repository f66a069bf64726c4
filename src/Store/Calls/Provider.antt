-- ===== src/Store/Calls/Provider.antt =====
-- internal/store/dns_provider.go: the credentials of a provider through encryption and the table.
use gslb.Prelude.{
  ℕ, String, ◌≡◌, refl, Option, none, some, List, length, eq_refl, Option-cases, inl, inr, arith,
}
use gslb.Types.{DnsProviderConfig}
use gslb.Result.{Result, Result-cases, ok, err, not_found}
use gslb.Crypto.{CryptoLib, Encryptor, encrypt, decrypt}
use gslb.Crypto.Roundtrip.{decrypt-encrypt}
use gslb.Store.Sql.{Database, statement, calm, attempt, attempt_ran, foreign_key_or}
use gslb.Store.Rows.{has_key, find_by}
use gslb.Store.Tables.{Driver, Tables, insert_provider_row}
use gslb.Store.Providers.{get_dns_provider, decrypted, create_dns_provider}
use gslb.Store.Configs.{or_new_id}

module _ (lib : CryptoLib) (enc : Option Encryptor) where
  -- What a query that the database does not refuse gives.
  pub get_dns_provider-calm :
      (config_id : String) (db : Database Tables)
      → (get_dns_provider lib enc config_id (calm db)).0
        ≡ elim (find_by (has_key DnsProviderConfig.config_id config_id) db.rows.providers) [
          | none ↦ err not_found
          | some p ↦ decrypted lib enc p
        ]
  unfolding get_dns_provider statement
  get_dns_provider-calm config_id db =
      elim (Option-cases
        (find_by (has_key DnsProviderConfig.config_id config_id) db.rows.providers)) [
          | inl absent ↦ rw (statement, absent) refl
          | inr (p, found) ↦ rw (statement, found) refl
        ]

  decrypted_as :
      (value plaintext : String) (p : DnsProviderConfig)
      → decrypt lib enc value ≡ ok plaintext
      → decrypted lib enc (record p { config_json = value })
        ≡ ok (record p { config_json = plaintext })
  decrypted_as value plaintext p h = ground (arith, h)

module _ (lib : CryptoLib) (enc : Option Encryptor) (random : ℕ → Result (List ℕ)) where
  -- The row of a provider that was created.
  created_row :
      (driver : Driver) (new_id value : String) (p made : DnsProviderConfig) (db : Database Tables)
      → encrypt lib enc random p.config_json ≡ ok value
      → (create_dns_provider lib enc random driver new_id p db).0 ≡ ok made
      → (made.config_json ≡ p.config_json)
        × (find_by
              (has_key DnsProviderConfig.config_id p.config_id)
              (create_dns_provider lib enc random driver new_id p db).1.rows.providers
            ≡ some (record made { config_json = value }))
  unfolding create_dns_provider insert_provider_row find_by
  created_row driver new_id value p made db encrypted h =
      let row : DnsProviderConfig = record p { id = or_new_id p.id new_id; config_json = value } in
      elim (Result-cases
        (attempt (foreign_key_or "insert dns provider") (insert_provider_row driver row) db).0) [
          | inr (e, failed) ↦ ground (arith, encrypted, failed, h)
          | inl (r, inserted) ↦ ground (
            arith,
            encrypted,
            inserted,
            h,
            eq_refl p.config_id,
            attempt_ran (foreign_key_or "insert dns provider") (insert_provider_row driver row) db r
                inserted,
          )
        ]

-- After CreateDNSProvider has returned a provider, GetDNSProvider of its config returns the same, with
-- the credentials as they were given, whatever the encryptor, also the nil one. This is as long as the
-- database refuses no query, given what decrypt-encrypt asks of the ciphers.
pub get_dns_provider-create_dns_provider :
    (lib : CryptoLib) (enc : Option Encryptor) (fill : ℕ → List ℕ) (driver : Driver)
    (new_id : String) (p made : DnsProviderConfig) (db : Database Tables)
    → ((bytes : List ℕ) → lib.decode_base64 (lib.encode_base64 bytes) ≡ ok bytes)
    → lib.of_bytes (lib.to_bytes p.config_json) ≡ p.config_json
    → ((encryptor : Encryptor) (nonce bytes : List ℕ)
        → enc ≡ some encryptor
        → length nonce ≡ encryptor.gcm.nonce_size
        → encryptor.gcm.open_sealed nonce (encryptor.gcm.seal nonce bytes) ≡ ok bytes)
    → ((n : ℕ) → length (fill n) ≡ n)
    → (create_dns_provider lib enc (λ n. ok (fill n)) driver new_id p db).0 ≡ ok made
    → (made.config_json ≡ p.config_json)
      × ((get_dns_provider lib enc p.config_id
            (calm (create_dns_provider lib enc (λ n. ok (fill n)) driver new_id p db).1)).0
          ≡ ok made)
get_dns_provider-create_dns_provider lib enc fill driver new_id p made db base64 text opens fills
      h =
    let (value, encrypted, decrypts, prefixed) =
      decrypt-encrypt lib enc fill p.config_json base64 text opens fills in
    let (plain, stored) =
      created_row lib enc (λ n. ok (fill n)) driver new_id value p made db encrypted h in
    (
      plain,
      rw
          (
            get_dns_provider-calm lib enc p.config_id
                (create_dns_provider lib enc (λ n. ok (fill n)) driver new_id p db).1,
            stored,
            decrypted_as lib enc value p.config_json made decrypts,
            ← plain,
          )
          refl,
    )
