-- ===== src/Crypto/Roundtrip.antt =====
-- internal/crypto/crypto.go: what Decrypt gives back of what Encrypt made.
use Prim.Native.String.{◌++◌}
use text.Mathlib.TextPositions.{starts_with-append, slice-append_right, len-append}
use mathlib.Core.List.{◌++◌ as append_bytes}
use gslb.Prelude.{
  ℕ, ◌+◌, String, true, false, ◌≡◌, refl, ◌⊎◌, inl, inr, Option, none, some, List, length, ltb,
  length-append, take-append, drop-append, arith,
}
use gslb.Result.{wrapped, ok, err}
use gslb.Crypto.{
  Aead, CryptoLib, Encryptor, encrypted_prefix, trim_prefix, encrypt, decrypt, decrypt_raw,
  is_encrypted,
}

trim_prefix-append : (prefix t : String) → trim_prefix (prefix ++ t) prefix ≡ t
unfolding trim_prefix
trim_prefix-append prefix t =
    rw (starts_with-append prefix t, len-append prefix t) (slice-append_right prefix t)

ltb-add : (m n : ℕ) → ltb (m + n) m ≡ false
ltb-add m n = ground arith

-- The parts of nonce and ciphertext that `Decrypt` cuts out.
decrypt_raw-append :
    (lib : CryptoLib) (gcm : Aead) (nonce sealed : List ℕ)
    → length nonce ≡ gcm.nonce_size
    → decrypt_raw lib gcm (ok (append_bytes nonce sealed)) ≡ elim (gcm.open_sealed nonce sealed) [
      | err e ↦ err (wrapped "decrypting" e)
      | ok plaintext ↦ ok (lib.of_bytes plaintext)
    ]
unfolding decrypt_raw
decrypt_raw-append lib gcm nonce sealed h =
    rw
      (
        ← h,
        length-append nonce sealed,
        ltb-add (length nonce) (length sealed),
        take-append nonce sealed,
        drop-append nonce sealed,
      )
      refl

-- Whatever the encryptor, also the nil one, Encrypt returns a value, and Decrypt of it returns the
-- plaintext, given that base64 decodes what it encodes, that the plaintext is the text of its bytes, that
-- the cipher opens what it sealed with the same nonce, and that the random source fills the nonce without an error.
-- With an encryptor, the value carries the prefix.
pub decrypt-encrypt :
    (lib : CryptoLib) (e : Option Encryptor) (fill : ℕ → List ℕ) (plaintext : String)
    → ((bytes : List ℕ) → lib.decode_base64 (lib.encode_base64 bytes) ≡ ok bytes)
    → lib.of_bytes (lib.to_bytes plaintext) ≡ plaintext
    → ((encryptor : Encryptor) (nonce bytes : List ℕ)
        → e ≡ some encryptor
        → length nonce ≡ encryptor.gcm.nonce_size
        → encryptor.gcm.open_sealed nonce (encryptor.gcm.seal nonce bytes) ≡ ok bytes)
    → ((n : ℕ) → length (fill n) ≡ n)
    → (value : String) × (encrypt lib e (λ n. ok (fill n)) plaintext ≡ ok value)
      × (decrypt lib e value ≡ ok plaintext)
      × ((e ≡ none) ⊎ (is_encrypted value ≡ true))
unfolding encrypt decrypt is_encrypted
decrypt-encrypt lib none fill p base64 text opens fills = (p, refl, refl, inl refl)
decrypt-encrypt lib (some e) fill p base64 text opens fills =
    let nonce : List ℕ = fill e.gcm.nonce_size in
    let sealed : List ℕ = e.gcm.seal nonce (lib.to_bytes p) in
    let encoded : String = lib.encode_base64 (append_bytes nonce sealed) in
    (
      encrypted_prefix ++ encoded,
      refl,
      rw
          (
            starts_with-append encrypted_prefix encoded,
            trim_prefix-append encrypted_prefix encoded,
            base64 (append_bytes nonce sealed),
            decrypt_raw-append lib e.gcm nonce sealed (fills e.gcm.nonce_size),
            opens e nonce (lib.to_bytes p) refl (fills e.gcm.nonce_size),
            text,
          )
          refl,
      inr (starts_with-append encrypted_prefix encoded),
    )
