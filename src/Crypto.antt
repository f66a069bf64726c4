-- ===== src/Crypto.antt =====
-- internal/crypto/crypto.go: the encryption of the values that the database keeps. The nil
-- `Encryptor` is `none`. The ciphers, the random source and base64 are the Go library's: they are
-- fields of `CryptoLib` and `Aead`. Bytes are numbers.
pub mod Roundtrip
use text.Mathlib.Text.{starts_with}
use Prim.Native.String.{◌++◌, len, slice}
use mathlib.Core.List.{◌++◌ as append_bytes}
use gslb.Prelude.{
  ℕ, String, Bool, Option, none, some, List, length, take, drop, ltb, ◌==◌, if◌then◌else◌, decimal,
}
use gslb.Result.{message, wrapped, Result, ok, err}

-- cipher.AEAD, without additional data.
pub record Aead : Type 0 where
  pub nonce_size : ℕ
  pub seal : List ℕ → List ℕ → List ℕ
  pub open_sealed : List ℕ → List ℕ → Result (List ℕ)

-- `[]byte(s)`, `string(b)`, base64.StdEncoding, aes.NewCipher and cipher.NewGCM.
pub record CryptoLib : Type 1 where
  pub Block : Type 0
  pub to_bytes : String → List ℕ
  pub of_bytes : List ℕ → String
  pub encode_base64 : List ℕ → String
  pub decode_base64 : String → Result (List ℕ)
  pub new_cipher : List ℕ → Result Block
  pub new_gcm : Block → Result Aead

abbrev pub encrypted_prefix : String
encrypted_prefix = "enc:"

pub record Encryptor : Type 0 where
  pub gcm : Aead

-- `strings.TrimPrefix`
unfoldable pub trim_prefix : String → String → String
trim_prefix s prefix = if starts_with s prefix then slice s (len prefix) (len s) else s

module _ (lib : CryptoLib) where
  unfoldable pub new_encryptor : List ℕ → Result Encryptor
  new_encryptor key =
      if length key == 32
      then elim (lib.new_cipher key) [
        | err e ↦ err (wrapped "creating AES cipher" e)
        | ok block ↦ elim (lib.new_gcm block) [
          | err e ↦ err (wrapped "creating GCM" e)
          | ok gcm ↦ ok (record { gcm = gcm })
        ]
      ]
      else err (message ("encryption key must be exactly 32 bytes, got " ++ decimal (length key)))

  -- `random n` is what `rand.Read` gives for a slice of `n` bytes.
  unfoldable pub encrypt : Option Encryptor → (ℕ → Result (List ℕ)) → String → Result String
  encrypt none random plaintext = ok plaintext
  encrypt (some e) random plaintext = elim (random e.gcm.nonce_size) [
    | err failure ↦ err (wrapped "generating nonce" failure)
    | ok nonce ↦
        let ciphertext = append_bytes nonce (e.gcm.seal nonce (lib.to_bytes plaintext)) in
        ok (encrypted_prefix ++ lib.encode_base64 ciphertext)
  ]

  -- What follows the check of the prefix.
  unfoldable pub decrypt_raw : Aead → Result (List ℕ) → Result String
  decrypt_raw gcm (err e) = err (wrapped "decoding ciphertext" e)
  decrypt_raw gcm (ok raw) =
      if ltb (length raw) gcm.nonce_size
      then err (message "ciphertext too short")
      else elim (gcm.open_sealed (take gcm.nonce_size raw) (drop gcm.nonce_size raw)) [
        | err e ↦ err (wrapped "decrypting" e)
        | ok plaintext ↦ ok (lib.of_bytes plaintext)
      ]

  unfoldable pub decrypt : Option Encryptor → String → Result String
  decrypt none value = ok value
  decrypt (some e) value =
      if starts_with value encrypted_prefix
      then decrypt_raw e.gcm (lib.decode_base64 (trim_prefix value encrypted_prefix))
      else ok value

unfoldable pub is_encrypted : String → Bool
is_encrypted value = starts_with value encrypted_prefix
