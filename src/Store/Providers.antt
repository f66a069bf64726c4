-- ===== src/Store/Providers.antt =====
-- internal/store/dns_provider.go: the table `dns_providers`, whose credentials are encrypted. The
-- column `config_json` of a row holds what Encrypt made; `random` is the random source.
use gslb.Prelude.{ℕ, String, Option, none, some, List}
use gslb.Types.{DnsProviderConfig}
use gslb.Result.{not_found, wrapped, Result, ok, err, Exec, ◌>>=◌}
use gslb.Crypto.{CryptoLib, Encryptor, encrypt, decrypt}
use gslb.Store.{DnsProviderStore, Done}
use gslb.Store.Configs.{or_new_id}
use gslb.Store.Sql.{Database, statement, attempt, in_context, foreign_key_or}
use gslb.Store.Rows.{find_by, has_key}
use gslb.Store.Tables.{
  Driver, Tables, insert_provider_row, update_provider_row, delete_provider_row,
}

module _ (lib : CryptoLib) (enc : Option Encryptor) where
  abbrev pub decrypted : DnsProviderConfig → Result DnsProviderConfig
  decrypted p = elim (decrypt lib enc p.config_json) [
    | err e ↦ err (wrapped "decrypting config_json" e)
    | ok plaintext ↦ ok (record p { config_json = plaintext })
  ]

  -- The decryption follows the query, and its error is not the query's.
  unfoldable pub get_dns_provider : String → Exec (Database Tables) DnsProviderConfig
  get_dns_provider config_id =
      statement "query dns provider" (λ t. (
        elim (find_by (has_key DnsProviderConfig.config_id config_id) t.providers) [
          | none ↦ err not_found
          | some p ↦ ok p
        ],
        t,
      ))
      >>= (λ p db. (decrypted p, db))

module _ (lib : CryptoLib) (enc : Option Encryptor) (random : ℕ → Result (List ℕ)) where
  -- The provider is given back with its id and the credentials in plain text.
  unfoldable pub create_dns_provider :
      Driver → String → DnsProviderConfig → Exec (Database Tables) DnsProviderConfig
  create_dns_provider driver new_id p db = elim (encrypt lib enc random p.config_json) [
    | err e ↦ (err (wrapped "encrypting config_json" e), db)
    | ok enc_json ↦
        let named : DnsProviderConfig = record p { id = or_new_id p.id new_id } in
        let created =
          attempt (foreign_key_or "insert dns provider")
            (insert_provider_row driver (record named { config_json = enc_json })) db in
        elim created.0 [ err e ↦ (err e, created.1) | ok row ↦ (ok named, created.1) ]
  ]

  unfoldable pub update_dns_provider : DnsProviderConfig → Exec (Database Tables) Done
  update_dns_provider p db = elim (encrypt lib enc random p.config_json) [
    | err e ↦ (err (wrapped "encrypting config_json" e), db)
    | ok enc_json ↦
        attempt (foreign_key_or "update dns provider")
          (update_provider_row (record p { config_json = enc_json })) db
  ]

unfoldable pub delete_dns_provider : String → Exec (Database Tables) Done
delete_dns_provider config_id =
    attempt (in_context "delete dns provider") (delete_provider_row config_id)

abbrev pub provider_store :
    CryptoLib
    → Option Encryptor
    → (ℕ → Result (List ℕ))
    → Driver
    → String
    → DnsProviderStore (Database Tables)
provider_store lib enc random driver new_id = record {
  create_dns_provider = create_dns_provider lib enc random driver new_id;
  get_dns_provider = get_dns_provider lib enc;
  update_dns_provider = update_dns_provider lib enc random;
  delete_dns_provider = delete_dns_provider;
}
