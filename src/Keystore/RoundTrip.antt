-- ===== src/Keystore/RoundTrip.antt =====
-- What is encrypted under a passphrase is read back under it.
use apohara_sealchain.Prelude.Slices.{
  take, drop, slice, to_le_bytes, from_le_bytes, take-append, drop-append,
}
use apohara_sealchain.Prelude.{
  ℕ, ◌+◌, ◌-◌, ◌^◌, ◌≡◌, ◌<◌, refl, ap, String, Bytes, ◌++◌, length, length-append, arith, some,
  true, false, ltb, bytes_eq, ◌∙◌, into_bytes,
}
use apohara_sealchain.Error.{ok}
use apohara_sealchain.Crypto.{Crypto, CryptoLaws}
use apohara_sealchain.Keystore.{
  KeystoreCrates, enc_magic, EncHeader, secret_of, header_of, header_end_of, scrypt_log_n, scrypt_r,
  scrypt_p, key_len, derive_key, blob_of, encrypt_secret, open_secret, decrypt_secret,
}
use apohara_sealchain.Keystore.Bounds.{to_le_bytes_lem, header_end_of_within}

-- The documented behaviour of the crates: the constant parameters are accepted, a derived key and an
-- AEAD key have 32 bytes, decryption inverts encryption, and serde and PKCS#8 invert their printing.
pub record KeystoreLaws (c : Crypto) (k : KeystoreCrates c) : Type 1 where
  pub params_valid :
      (params : k.Params) × (k.new_params scrypt_log_n scrypt_r scrypt_p key_len ≡ ok params)
  pub scrypt_total :
      (pass salt : Bytes) (params : k.Params)
      → (key : Bytes) × (k.scrypt pass salt params ≡ ok key) × (length key ≡ key_len)
  pub cipher_total :
      (key : Bytes) → length key ≡ key_len → (cipher : k.Cipher) × (k.new_cipher key ≡ ok cipher)
  pub open-seal :
      (cipher : k.Cipher) (nonce plaintext : Bytes)
      → length nonce ≡ 24
      → (b : Bytes) × (k.seal_with cipher nonce plaintext ≡ ok b)
        × (k.open_with cipher nonce b ≡ ok plaintext)
  -- the header of a 16-byte salt and a 24-byte nonce is short, and is read back
  pub header_reads :
      (salt nonce : Bytes)
      → length salt ≡ 16
      → length nonce ≡ 24
      → (b : Bytes) × (k.header_to_vec (header_of (c.encode salt) (c.encode nonce)) ≡ ok b)
        × (k.header_from_slice b ≡ ok (header_of (c.encode salt) (c.encode nonce)))
        × (length b < 2 ^ 32)
  pub secret_reads :
      (s : c.SigningKey) (pem : String) (hmac : Bytes)
      → k.to_pkcs8_pem s ≡ ok pem
      → (b : Bytes) × (k.secret_to_vec (secret_of c pem hmac) ≡ ok b)
        × (k.secret_from_slice b ≡ ok (secret_of c pem hmac))
  pub pkcs8_reads :
      (s : c.SigningKey)
      → (pem : String) × (k.to_pkcs8_pem s ≡ ok pem) × (k.from_pkcs8_pem pem ≡ ok s)
  pub public_pem_total : (v : c.VerifyingKey) → (pem : String) × (c.to_public_key_pem v ≡ ok pem)
  pub der_total : (v : c.VerifyingKey) → (der : Bytes) × (k.to_public_key_der v ≡ ok der)
  -- PEM is text
  pub private_utf8 :
      (s : c.SigningKey) (pem : String)
      → k.to_pkcs8_pem s ≡ ok pem
      → k.from_utf8 (into_bytes pem) ≡ ok pem
  pub public_utf8 :
      (v : c.VerifyingKey) (pem : String)
      → c.to_public_key_pem v ≡ ok pem
      → k.from_utf8 (into_bytes pem) ≡ ok pem

-- The parts of a blob are found again.
module _ (h ct : Bytes) where
  abbrev blob : Bytes
  blob = enc_magic ++ (to_le_bytes (length h) ++ (h ++ ct))

  length-blob : length blob ≡ 8 + length (h ++ ct)
  unfolding to_le_bytes
  length-blob = omega arith

  blob_magic : bytes_eq (take 4 blob) enc_magic ≡ true
  unfolding to_le_bytes bytes_eq
  blob_magic = refl

  blob_field : slice 4 8 blob ≡ to_le_bytes (length h)
  unfolding to_le_bytes
  blob_field = refl

  blob_body : drop 8 blob ≡ h ++ ct
  unfolding to_le_bytes
  blob_body = refl

  drop_header : (n : ℕ) → drop (8 + n) blob ≡ drop n (h ++ ct)
  unfolding to_le_bytes
  drop_header n = ground arith

-- The header that encryption writes opens what it sealed.
module _ (c : Crypto) (k : KeystoreCrates c) where
  pub decrypt_secret_parts :
      (b h ct : Bytes) (header : EncHeader) (passphrase : String)
      → ltb (length b) 8 ≡ false
      → bytes_eq (take 4 b) enc_magic ≡ true
      → from_le_bytes (slice 4 8 b) ≡ length h
      → header_end_of (length h) (length b) ≡ some (8 + length h)
      → slice 8 (8 + length h) b ≡ h
      → drop (8 + length h) b ≡ ct
      → k.header_from_slice h ≡ ok header
      → decrypt_secret c k b passphrase ≡ open_secret c k header ct passphrase
  unfolding decrypt_secret
  decrypt_secret_parts b h ct header passphrase e₁ e₂ e₃ e₄ e₅ e₆ e₇ =
      rw (e₁, e₂, e₃, e₄, e₅, e₆, e₇) refl

  pub decrypt_secret-blob_of :
      (h ct : Bytes) (header : EncHeader) (passphrase : String)
      → length h < 2 ^ 32
      → k.header_from_slice h ≡ ok header
      → decrypt_secret c k (blob_of c k h ct) passphrase ≡ open_secret c k header ct passphrase
  unfolding blob_of
  decrypt_secret-blob_of h ct header passphrase small reads =
      let size = length-blob h ct in
      let total = length-append {0} h ct in
      let width : 8 + length h - 8 ≡ length h = omega arith in
      decrypt_secret_parts (blob h ct) h ct header passphrase (ground (arith, size))
        (blob_magic h ct)
        (ap from_le_bytes (blob_field h ct) ∙ (to_le_bytes_lem (length h) small).2)
        (header_end_of_within (length h) (length (blob h ct)) small (omega (arith, size, total)))
        (rw width (ap (take (length h)) (blob_body h ct) ∙ take-append h ct))
        (drop_header h ct (length h) ∙ drop-append h ct) reads

module _ (c : Crypto) (k : KeystoreCrates c) (cl : CryptoLaws c) (kl : KeystoreLaws c k) where
  -- For the PEM of a signing key and any HMAC key, with a salt of 16 bytes and a nonce of 24, encrypting
  -- the secret succeeds, and decrypting the blob under the same passphrase gives the secret back.
  pub decrypt_secret-encrypt_secret :
      (s : c.SigningKey) (pem passphrase : String) (hmac salt nonce : Bytes)
      → k.to_pkcs8_pem s ≡ ok pem
      → length salt ≡ 16
      → length nonce ≡ 24
      → (blob : Bytes) × (encrypt_secret c k (secret_of c pem hmac) passphrase salt nonce ≡ ok blob)
        × (decrypt_secret c k blob passphrase ≡ ok (secret_of c pem hmac))
  unfolding encrypt_secret derive_key open_secret
  decrypt_secret-encrypt_secret s pem passphrase hmac salt nonce is_pem hs hn =
      let (params, e₁) = kl.params_valid in
      let (key, e₂, len) = kl.scrypt_total (into_bytes passphrase) salt params in
      let (cipher, e₃) = kl.cipher_total key len in
      let (plain, e₄, e₄') = kl.secret_reads s pem hmac is_pem in
      let (ct, e₅, e₅') = kl.open-seal cipher nonce plain hn in
      let (h, e₆, e₆', small) = kl.header_reads salt nonce hs hn in
      (
        blob_of c k h ct,
        rw (e₁, e₂, e₃, e₄, e₅, e₆) refl,
        decrypt_secret-blob_of c k h ct _ passphrase small e₆'
            ∙ rw (e₁, cl.decode-encode salt, cl.decode-encode nonce, hn, e₂, e₃, e₅', e₄') refl,
      )
