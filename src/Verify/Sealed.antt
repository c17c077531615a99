-- ===== src/Verify/Sealed.antt =====
-- Verifying what `seal_deterministic` made, also after its payload or its siblings were replaced.
use apohara_sealchain.Prelude.{
  ◌≡◌, refl, sym, ap, ◌∙◌, subst, Bytes, String, Option, none, some, bytes_eq, bytes_eq→eq,
  Bool-cases, inl, inr,
}
use apohara_sealchain.Error.{ok, key_error, map_err}
use apohara_sealchain.Json.{Value, object, get, get_field}
use apohara_sealchain.Crypto.{Crypto, CryptoLaws}
use apohara_sealchain.Schema.{
  HmacLayer, SealBlock, SealedRecord, seal_to_fields, seal_from_value, record_to_value, map_option,
}
use apohara_sealchain.Schema.RoundTrip.{
  IsWritable, parse_seal_fields-seal_to_fields, get_str-seal_to_fields,
}
use apohara_sealchain.Schema.Detect.{detect_schema-record_to_value}
use apohara_sealchain.Layers.{decode_hex0x, hmac_sign, verifying_key_from_pem, ed25519_sign}
use apohara_sealchain.Layers.Laws.{decode_hex0x-hex0x, hmac_verify_iff, ed25519_verify-sign}
use apohara_sealchain.Seal.{ed25519_layer, build_preimage, seal_deterministic}
use apohara_sealchain.Seal.Shape.{block_of, seal_deterministic-eq-ok}
use apohara_sealchain.Verify.{or_else, verify_block, verify}
use apohara_sealchain.Verify.Accepts.{SignedBy, verify_block_iff, verify_block_mismatch}
use apohara_sealchain.Verify.Raw.{Reads, verify_of_Reads}

-- The fields that the layers cover; the other fields of a block are siblings of the layers.
abbrev pub SameCovered : SealBlock → SealBlock → Type 0
SameCovered b s =
    (s.sealed_at ≡ b.sealed_at)
    × (s.preimage ≡ b.preimage)
    × (s.hmac ≡ b.hmac)
    × (s.ed25519 ≡ b.ed25519)

record_Reads :
    (r : SealedRecord)
    → IsWritable r.seal
    → Reads (record_to_value r) (object (seal_to_fields r.seal)) r.seal r.payload
unfolding record_to_value get get_field seal_from_value
record_Reads r h =
    (detect_schema-record_to_value r, refl, parse_seal_fields-seal_to_fields r.seal h, refl)

module _ (c : Crypto) where
  -- Verifying a written record is checking its block over its payload.
  pub verify-record_to_value :
      (r : SealedRecord) (key : Bytes) (pem : Option String)
      → IsWritable r.seal
      → verify c (record_to_value r) key pem
        ≡ verify_block c r.payload r.seal key (or_else pem r.seal.ed25519_public_key)
  verify-record_to_value r key pem h =
      verify_of_Reads c (record_to_value r) key pem _ r.seal r.payload (record_Reads r h)
      ∙ ap (λ k. verify_block c r.payload r.seal key (or_else pem k))
          (get_str-seal_to_fields r.seal)

  -- The key text at hand is that of the signing key.
  abbrev pub KeyText : Option c.SigningKey → Option String → Type 0
  KeyText none pem = Unit
  KeyText (some k) none = ⊥
  KeyText (some k) (some pem) = c.to_public_key_pem (c.verifying_key k) ≡ ok pem

  module _ (laws : CryptoLaws c) where
    pub SignedBy-of_KeyText :
        (p : Bytes) (ed : Option c.SigningKey) (pem : Option String)
        → KeyText ed pem
        → SignedBy c p (map_option (ed25519_layer c p) ed) pem
    unfolding ed25519_layer verifying_key_from_pem
    SignedBy-of_KeyText p none pem h = tt
    SignedBy-of_KeyText p (some k) none h = absurd h
    SignedBy-of_KeyText p (some k) (some pem) h = (
      c.verifying_key k,
      ed25519_sign c p k,
      ap (map_err key_error) (laws.pem_roundtrip (c.verifying_key k) pem h),
      decode_hex0x-hex0x c laws (ed25519_sign c p k),
      ed25519_verify-sign c laws p k,
    )

    -- A block with the covered fields of a made block accepts exactly the payloads whose canonical
    -- preimage is the sealed one.
    pub verify_covered :
        (payload : Value) (s : SealBlock) (p q tag key : Bytes) (ed : Option c.SigningKey)
        (sealed_at : String) (pem : Option String)
        → SameCovered (block_of c p tag ed sealed_at) s
        → hmac_sign c p key ≡ ok tag
        → build_preimage c payload sealed_at ≡ ok q
        → KeyText ed pem
        → verify_block c payload s key pem ≡ ok (bytes_eq q p)
    verify_covered payload s p q tag key ed sealed_at pem (time, pre, mac, sig) signed made text =
        let stored : decode_hex0x c s.preimage ≡ ok p =
          ap (decode_hex0x c) pre ∙ decode_hex0x-hex0x c laws p in
        let made' : build_preimage c payload s.sealed_at ≡ ok q =
          ap (build_preimage c payload) time ∙ made in
        elim (Bool-cases (bytes_eq q p)) [
          | inl same ↦ rw same (
              (verify_block_iff c payload s key pem).1 (
                p,
                tag,
                made' ∙ ap ok (bytes_eq→eq q p same),
                stored,
                ap (λ (h : HmacLayer). decode_hex0x c h.sig) mac ∙ decode_hex0x-hex0x c laws tag,
                (hmac_verify_iff c laws p tag key).1 signed,
                subst (λ l. SignedBy c p l pem) (sym sig) (SignedBy-of_KeyText p ed pem text),
              ))
          | inr differs ↦
              rw differs (verify_block_mismatch c payload s key pem q p made' stored differs)
        ]

    -- Take a record that `seal_deterministic` made. Replace its payload, and any field of its block
    -- that the layers do not cover (no opaque layer being the JSON null). Under the sealing key, and
    -- with the signer's public key given or embedded, verification then answers without error, and
    -- the answer is whether the two payloads have the same canonical preimage.
    pub verify_resealed :
        (payload other : Value) (key : Bytes) (ed : Option c.SigningKey) (sealed_at : String)
        (r : SealedRecord) (s : SealBlock) (p q : Bytes) (pem : Option String)
        → seal_deterministic c payload key ed sealed_at ≡ ok r
        → SameCovered r.seal s
        → IsWritable s
        → build_preimage c payload sealed_at ≡ ok p
        → build_preimage c other sealed_at ≡ ok q
        → KeyText ed (or_else pem s.ed25519_public_key)
        → verify c (record_to_value (record { payload = other; seal = s })) key pem
          ≡ ok (bytes_eq q p)
    verify_resealed payload other key ed sealed_at r s p q pem sealed same writable made made'
          text =
        let (p', tag, made'', signed, shape) =
          seal_deterministic-eq-ok c payload key ed sealed_at sealed in
        let e : p' ≡ p = cc in
        let same' : SameCovered (block_of c p' tag ed sealed_at) s =
          subst (λ (r : SealedRecord). SameCovered r.seal s) (sym shape) same in
        verify-record_to_value (record { payload = other; seal = s }) key pem writable
        ∙ verify_covered other s p' q tag key ed sealed_at (or_else pem s.ed25519_public_key) same'
            signed made' text
        ∙ ap (λ b. ok (bytes_eq q b)) e
