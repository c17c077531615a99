-- ===== src/Verify/Errors.antt =====
-- Tamper is an answer, not an error.
use apohara_sealchain.Prelude.{
  ◌≡◌, refl, ◌∙◌, Bytes, Bool, true, false, String, Option, none, some, bytes_eq, Bool-cases, inl,
  inr,
}
use apohara_sealchain.Error.{ok}
use apohara_sealchain.Json.{Value, get_str}
use apohara_sealchain.Crypto.{Crypto}
use apohara_sealchain.Schema.{Ed25519Layer, SealBlock}
use apohara_sealchain.Layers.{decode_hex0x, verifying_key_from_pem}
use apohara_sealchain.Seal.{build_preimage}
use apohara_sealchain.Verify.{
  or_else, hmac_matches, check_ed25519, ed25519_matches, compare_layers, verify_block, verify,
}
use apohara_sealchain.Verify.Raw.{Reads, verify_of_Reads}

module _ (c : Crypto) where
  -- A present Ed25519 layer comes with a public key that can be parsed.
  abbrev pub HasKey : Option Ed25519Layer → Option String → Type 0
  HasKey none pem = Unit
  HasKey (some layer) none = ⊥
  HasKey (some layer) (some pem) = (v : c.VerifyingKey) × (verifying_key_from_pem c pem ≡ ok v)

  check_answers :
      (p : Bytes) (layer : Option Ed25519Layer) (pem : Option String)
      → HasKey layer pem
      → (b : Bool) × (check_ed25519 c p layer pem ≡ ok b)
  unfolding check_ed25519
  check_answers p none pem h = (true, refl)
  check_answers p (some layer) none h = absurd h
  check_answers p (some layer) (some pem) (v, e) =
      (ed25519_matches c p v (decode_hex0x c layer.sig), rw e)

  compare_answers :
      (p q : Bytes) (s : SealBlock) (key : Bytes) (pem : Option String)
      → HasKey s.ed25519 pem
      → (b : Bool) × (compare_layers c p q s key pem ≡ ok b)
  unfolding compare_layers
  compare_answers p q s key pem h = elim (Bool-cases (bytes_eq p q)) [
    | inr e ↦ (false, rw e)
    | inl e ↦ elim (Bool-cases (hmac_matches c p key (decode_hex0x c s.hmac.sig))) [
      | inr f ↦ (false, rw e (rw f))
      | inl f ↦ let (b, g) = check_answers p s.ed25519 pem h in (b, rw e (rw f g))
    ]
  ]

  -- Once the structure reads, the payload canonicalizes, the stored preimage is hex and a present
  -- Ed25519 layer has a usable key, verification answers true or false: whatever the preimage and the
  -- signatures hold, malformed signature hex included, is not an error.
  pub verify_answers :
      (value : Value) (key : Bytes) (pem : Option String) (sv : Value) (s : SealBlock)
      (payload : Value) (p q : Bytes)
      → Reads value sv s payload
      → build_preimage c payload s.sealed_at ≡ ok p
      → decode_hex0x c s.preimage ≡ ok q
      → HasKey s.ed25519 (or_else pem (get_str sv "ed25519PublicKey"))
      → (b : Bool) × (verify c value key pem ≡ ok b)
  unfolding verify_block
  verify_answers value key pem sv s payload p q reads made stored h =
      let pem' = or_else pem (get_str sv "ed25519PublicKey") in
      let (b, e) = compare_answers p q s key pem' h in
      (b, verify_of_Reads c value key pem sv s payload reads ∙ rw made (rw stored e))
