-- ===== src/Keystore.antt =====
-- crates/apohara-sealchain-core/src/keystore.rs: the encrypted blob that keeps the private key
-- material at rest, and the fingerprints. The children model the directory that holds it.
pub mod Bounds
pub mod RoundTrip
pub mod Refusals
pub mod Framed
pub mod Dir
pub mod Store
pub mod Operations
pub mod Info
use Prim.Native.String.{◌++◌}
use apohara_sealchain.Prelude.Slices.{take, drop, slice, to_le_bytes, from_le_bytes}
use apohara_sealchain.Prelude.{
  ℕ, ◌+◌, ◌-◌, ◌^◌, ◌≡◌, ◌<◌, String, Bytes, Bool, true, false, ◌&&◌, not, length, List, [], ◌∷◌,
  Option, none, some, if◌then◌else◌, ltb, leb, bytes_eq, into_bytes, ◌==◌,
}
use apohara_sealchain.Prelude
use apohara_sealchain.Error.{
  SealError, key_error, decrypt, Result, ok, err, ◌>>=◌, ◌>>◌, ensure, map_err, ok_or,
}
use apohara_sealchain.Crypto.{Crypto}
use apohara_sealchain.Sealing.{Keys}

abbrev pub enc_magic : Bytes
enc_magic = 83 ∷ 67 ∷ 75 ∷ 49 ∷ []

-- SCRYPT_LOG_N, SCRYPT_R, SCRYPT_P and KEY_LEN
abbrev pub scrypt_log_n : ℕ
scrypt_log_n = 15

abbrev pub scrypt_r : ℕ
scrypt_r = 8

abbrev pub scrypt_p : ℕ
scrypt_p = 1

abbrev pub key_len : ℕ
key_len = 32

pub record EncHeader : Type 0 where
  pub kdf : String
  pub log_n : ℕ
  pub r : ℕ
  pub p : ℕ
  pub salt : String
  pub nonce : String

pub record Secret : Type 0 where
  pub ed25519_pkcs8_pem : String
  pub hmac_hex : String

-- The secret that the keystore encrypts.
abbrev pub secret_of : (c : Crypto) → String → Bytes → Secret
secret_of c pem hmac = record { ed25519_pkcs8_pem = pem; hmac_hex = c.encode hmac }

-- What the keystore calls of scrypt, chacha20poly1305, serde_json and pkcs8, and the standard
-- library's UTF-8 check. A failure of the AEAD's decryption has no text that is used.
pub record KeystoreCrates (c : Crypto) : Type 1 where
  pub Params : Type 0
  pub new_params : (log_n r p len : ℕ) → Result String Params
  -- fills a buffer of KEY_LEN bytes
  pub scrypt : (passphrase salt : Bytes) → Params → Result String Bytes
  pub Cipher : Type 0
  pub new_cipher : Bytes → Result String Cipher
  pub seal_with : Cipher → (nonce plaintext : Bytes) → Result String Bytes
  pub open_with : Cipher → (nonce ciphertext : Bytes) → Result String Bytes
  pub header_to_vec : EncHeader → Result String Bytes
  pub header_from_slice : Bytes → Result String EncHeader
  pub secret_to_vec : Secret → Result String Bytes
  pub secret_from_slice : Bytes → Result String Secret
  pub to_pkcs8_pem : c.SigningKey → Result String String
  pub from_pkcs8_pem : String → Result String c.SigningKey
  pub to_public_key_der : c.VerifyingKey → Result String Bytes
  pub from_utf8 : Bytes → Result String String

-- The header that encryption writes.
abbrev pub header_of : String → String → EncHeader
header_of salt nonce = record {
  kdf = "scrypt";
  log_n = scrypt_log_n;
  r = scrypt_r;
  p = scrypt_p;
  salt = salt;
  nonce = nonce;
}

-- `8.checked_add(header_len)` in a 64-bit `usize`, kept when it is within the blob
unfoldable pub header_end_of : ℕ → ℕ → Option ℕ
header_end_of header_len blob_len =
    if ltb (8 + header_len) (2 ^ 64) && leb (8 + header_len) blob_len
    then some (8 + header_len)
    else none

module _ (c : Crypto) (k : KeystoreCrates c) where
  -- Keys::from_parts, less the directory that the bundle remembers
  unfoldable pub from_parts : Bytes → c.SigningKey → Result SealError (Keys c)
  from_parts hmac ed25519 = do
    ed25519_public_pem ←
        map_err (λ x. key_error ("encode public pem: " ++ x))
          (c.to_public_key_pem (c.verifying_key ed25519))
    ok (record { hmac = hmac; ed25519 = ed25519; ed25519_public_pem = ed25519_public_pem })

  unfoldable pub fingerprint_from_spki_der : Bytes → String
  fingerprint_from_spki_der der = c.encode (c.digest der)

  unfoldable pub fingerprint_from_verifying : c.VerifyingKey → Result SealError String
  unfolding fingerprint_from_spki_der
  fingerprint_from_verifying key = do
    der ← map_err (λ x. key_error ("encode public der: " ++ x)) (k.to_public_key_der key)
    ok (fingerprint_from_spki_der der)

  unfoldable pub fingerprint_from_signing : c.SigningKey → Result SealError String
  unfolding fingerprint_from_verifying
  fingerprint_from_signing signing = fingerprint_from_verifying (c.verifying_key signing)

  unfoldable pub fingerprint_from_public_pem : String → Result SealError String
  unfolding fingerprint_from_verifying
  fingerprint_from_public_pem pem = do
    vk ← map_err (λ x. key_error ("parse public pem: " ++ x)) (c.from_public_key_pem pem)
    fingerprint_from_verifying vk

  unfoldable pub derive_key : String → Bytes → Result SealError Bytes
  derive_key passphrase salt = do
    params ←
        map_err (λ x. decrypt ("scrypt params: " ++ x))
          (k.new_params scrypt_log_n scrypt_r scrypt_p key_len)
    map_err (λ x. decrypt ("scrypt kdf: " ++ x)) (k.scrypt (into_bytes passphrase) salt params)

  -- `MAGIC || header_len(LE u32) || header_json || ciphertext`
  unfoldable pub blob_of : (header_json ciphertext : Bytes) → Bytes
  blob_of header_json ciphertext =
      Prelude.◌++◌ enc_magic
        (Prelude.◌++◌ (to_le_bytes (length header_json)) (Prelude.◌++◌ header_json ciphertext))

  -- The salt and the nonce are drawn from the operating system's generator.
  unfoldable pub encrypt_secret : Secret → String → (salt nonce : Bytes) → Result SealError Bytes
  unfolding derive_key blob_of
  encrypt_secret secret passphrase salt nonce = do
    key ← derive_key passphrase salt
    cipher ← map_err (λ x. decrypt ("aead key: " ++ x)) (k.new_cipher key)
    plaintext ← map_err (λ x. key_error ("serialize secret: " ++ x)) (k.secret_to_vec secret)
    ciphertext ← map_err (λ x. decrypt ("aead encrypt: " ++ x)) (k.seal_with cipher nonce plaintext)
    header_json ←
        map_err (λ x. key_error ("serialize header: " ++ x))
          (k.header_to_vec (header_of (c.encode salt) (c.encode nonce)))
    ok (blob_of header_json ciphertext)

  -- From the checks of the header's fields on.
  unfoldable pub open_secret : EncHeader → Bytes → String → Result SealError Secret
  open_secret header ciphertext passphrase = do
    ensure (header.kdf == "scrypt") (decrypt ("unknown kdf: " ++ header.kdf))
    params ←
        map_err (λ x. decrypt ("scrypt params: " ++ x))
          (k.new_params header.log_n header.r header.p key_len)
    salt ← map_err (λ x. decrypt ("decode salt: " ++ x)) (c.decode header.salt)
    nonce_bytes ← map_err (λ x. decrypt ("decode nonce: " ++ x)) (c.decode header.nonce)
    ensure (Prelude.nat_eq (length nonce_bytes) 24) (decrypt "bad nonce length")
    key ←
        map_err (λ x. decrypt ("scrypt kdf: " ++ x)) (k.scrypt (into_bytes passphrase) salt params)
    cipher ← map_err (λ x. decrypt ("aead key: " ++ x)) (k.new_cipher key)
    plaintext ←
        map_err (λ x. decrypt "wrong passphrase or corrupted keystore")
          (k.open_with cipher nonce_bytes ciphertext)
    map_err (λ x. decrypt ("parse decrypted secret: " ++ x)) (k.secret_from_slice plaintext)

  unfoldable pub decrypt_secret : Bytes → String → Result SealError Secret
  unfolding open_secret header_end_of
  decrypt_secret blob passphrase = do
    ensure (not (ltb (length blob) 8) && bytes_eq (take 4 blob) enc_magic)
        (decrypt "not a apohara-sealchain encrypted keystore (bad magic)")
    header_end ←
        ok_or (decrypt "truncated keystore header")
          (header_end_of (from_le_bytes (slice 4 8 blob)) (length blob))
    header ←
        map_err (λ x. decrypt ("parse header: " ++ x))
          (k.header_from_slice (slice 8 header_end blob))
    open_secret header (drop header_end blob) passphrase
