-- ===== src/Layers/Laws.antt =====
-- The hex helpers and the two signature layers invert their encoders.
use apohara_sealchain.Prelude.{
  ◌≡◌, ◌↔◌, ap, ◌∙◌, true, Option, String, Bytes, length, strip_prefix-append, arith,
}
use apohara_sealchain.Error.{ok}
use apohara_sealchain.Json.{unwrap_or}
use apohara_sealchain.Crypto.{Crypto, CryptoLaws}
use apohara_sealchain.Layers.{
  hex0x, decode_hex0x, hmac_sign, hmac_verify, ed25519_sign, ed25519_verify,
}

module _ (c : Crypto) (laws : CryptoLaws c) where
  pub decode_hex0x-hex0x : (b : Bytes) → decode_hex0x c (hex0x c b) ≡ ok b
  unfolding decode_hex0x hex0x
  decode_hex0x-hex0x b =
      let read = λ (o : Option String). c.decode (unwrap_or o (hex0x c b)) in
      ap read (strip_prefix-append "0x" (c.encode b)) ∙ laws.decode-encode b

  -- A tag is accepted exactly when it is the one that signing computes.
  pub hmac_verify_iff :
      (preimage sig key : Bytes)
      → (hmac_verify c preimage sig key ≡ true) ↔ (hmac_sign c preimage key ≡ ok sig)
  unfolding hmac_verify hmac_sign
  hmac_verify_iff preimage sig key =
      let (m, e) = laws.any_key key in
      let iff = laws.verify_slice_iff m preimage sig in
      rw e ((λ h. ap ok (iff.0 h)), λ h. iff.1 (cc h))

  pub ed25519_verify-sign :
      (preimage : Bytes) (k : c.SigningKey)
      → ed25519_verify c preimage (ed25519_sign c preimage k) (c.verifying_key k) ≡ true
  unfolding ed25519_verify ed25519_sign
  ed25519_verify-sign preimage k = rw (laws.length-sign k preimage) (laws.verify-sign k preimage)

pub ed25519_verify_iff :
    (c : Crypto) (preimage sig : Bytes) (v : c.VerifyingKey)
    → (ed25519_verify c preimage sig v ≡ true)
      ↔ ((length sig ≡ 64) × (c.verify_bytes v preimage sig ≡ true))
unfolding ed25519_verify
ed25519_verify_iff c preimage sig v = ground arith
