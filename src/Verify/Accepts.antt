-- ===== src/Verify/Accepts.antt =====
-- When verification accepts, as a statement about the record's parts.
use Prim.Native.String.{◌++◌}
use apohara_sealchain.Prelude.{
  ◌≡◌, ◌↔◌, refl, ap, sym, ◌∙◌, String, Bytes, true, false, Option, none, some, bytes_eq,
  bytes_eq_iff, arith,
}
use apohara_sealchain.Error.{invalid_preimage, Result, ok, err, map_err, >>=-eq-ok, map_err-eq-ok}
use apohara_sealchain.Json.{Value}
use apohara_sealchain.Crypto.{Crypto}
use apohara_sealchain.Schema.{Ed25519Layer, SealBlock}
use apohara_sealchain.Layers.{decode_hex0x, hmac_verify, verifying_key_from_pem, ed25519_verify}
use apohara_sealchain.Seal.{build_preimage}
use apohara_sealchain.Verify.{
  hmac_matches, ed25519_matches, check_ed25519, compare_layers, verify_block,
}

module _ (c : Crypto) where
  -- The signature of a present Ed25519 layer is over `p`, under the key in hand.
  abbrev pub SignedBy : Bytes → Option Ed25519Layer → Option String → Type 0
  SignedBy p none pem = Unit
  SignedBy p (some layer) none = ⊥
  SignedBy p (some layer) (some pem) =
      (v : c.VerifyingKey) × (sig : Bytes) × (verifying_key_from_pem c pem ≡ ok v)
      × (decode_hex0x c layer.sig ≡ ok sig)
      × (ed25519_verify c p sig v ≡ true)

  abbrev pub Accepted : Value → SealBlock → Bytes → Option String → Type 0
  Accepted payload seal key pem =
      (p : Bytes) × (tag : Bytes) × (build_preimage c payload seal.sealed_at ≡ ok p)
      × (decode_hex0x c seal.preimage ≡ ok p)
      × (decode_hex0x c seal.hmac.sig ≡ ok tag)
      × (hmac_verify c p tag key ≡ true)
      × SignedBy p seal.ed25519 pem

  ed25519_matches_iff :
      (p : Bytes) (v : c.VerifyingKey) (r : Result String Bytes)
      → (ed25519_matches c p v r ≡ true)
        ↔ ((sig : Bytes) × (r ≡ ok sig) × (ed25519_verify c p sig v ≡ true))
  unfolding ed25519_matches
  ed25519_matches_iff p v (ok sig) =
      ((λ h. (sig, refl, h)), λ (s, e, h). let same : sig ≡ s = cc in rw same h)
  ed25519_matches_iff p v (err e) = ((λ h. cc), λ (s, e', h). cc)

  hmac_matches_iff :
      (p key : Bytes) (r : Result String Bytes)
      → (hmac_matches c p key r ≡ true)
        ↔ ((tag : Bytes) × (r ≡ ok tag) × (hmac_verify c p tag key ≡ true))
  unfolding hmac_matches
  hmac_matches_iff p key (ok tag) =
      ((λ h. (tag, refl, h)), λ (t, e, h). let same : tag ≡ t = cc in rw same h)
  hmac_matches_iff p key (err e) = ((λ h. cc), λ (t, e', h). cc)

  check_ed25519_iff :
      (p : Bytes) (layer : Option Ed25519Layer) (pem : Option String)
      → (check_ed25519 c p layer pem ≡ ok true) ↔ SignedBy p layer pem
  unfolding check_ed25519
  check_ed25519_iff p none pem = ((λ h. tt), λ h. refl)
  check_ed25519_iff p (some layer) none = ((λ h. cc), λ h. absurd h)
  check_ed25519_iff p (some layer) (some pem) = (
    λ h.
        let (v, parsed, h') = >>=-eq-ok (verifying_key_from_pem c pem) _ h in
        let (sig, read, good) = (ed25519_matches_iff p v (decode_hex0x c layer.sig)).0 (cc h') in
        (v, sig, parsed, read, good),
    λ (v, sig, parsed, read, good).
        rw parsed
          (ap ok ((ed25519_matches_iff p v (decode_hex0x c layer.sig)).1 (sig, read, good))),
  )

  compare_layers_iff :
      (p q : Bytes) (seal : SealBlock) (key : Bytes) (pem : Option String)
      → (compare_layers c p q seal key pem ≡ ok true) ↔ (
          (p ≡ q)
          × (hmac_matches c p key (decode_hex0x c seal.hmac.sig) ≡ true)
          × (check_ed25519 c p seal.ed25519 pem ≡ ok true))
  unfolding compare_layers
  compare_layers_iff p q seal key pem = ground (arith, bytes_eq_iff p q)

  compare_layers_mismatch :
      (p q : Bytes) (seal : SealBlock) (key : Bytes) (pem : Option String)
      → bytes_eq p q ≡ false
      → compare_layers c p q seal key pem ≡ ok false
  unfolding compare_layers
  compare_layers_mismatch p q seal key pem h = ground arith

  -- A recomputed preimage that differs from the stored one is a mismatch, whatever the layers hold.
  pub verify_block_mismatch :
      (payload : Value) (seal : SealBlock) (key : Bytes) (pem : Option String) (p q : Bytes)
      → build_preimage c payload seal.sealed_at ≡ ok p
      → decode_hex0x c seal.preimage ≡ ok q
      → bytes_eq p q ≡ false
      → verify_block c payload seal key pem ≡ ok false
  unfolding verify_block
  verify_block_mismatch payload seal key pem p q made stored differs =
      rw made (rw stored (compare_layers_mismatch p q seal key pem differs))

  module _ (payload : Value) (seal : SealBlock) (key : Bytes) (pem : Option String) where
    -- The part of `verify` behind the schema gate accepts exactly when the stored preimage is the
    -- canonical one, the HMAC tag verifies over it, and a present Ed25519 signature does too.
    pub verify_block_iff :
        (verify_block c payload seal key pem ≡ ok true) ↔ Accepted payload seal key pem
    unfolding verify_block
    verify_block_iff = (
      λ h.
          let (p, made, h') = >>=-eq-ok (build_preimage c payload seal.sealed_at) _ h in
          let (q, read, h'') =
            >>=-eq-ok
              (map_err (λ e. invalid_preimage ("preimage: " ++ e)) (decode_hex0x c seal.preimage))
              (λ q. compare_layers c p q seal key pem) h' in
          let (same, tagged, signed) = (compare_layers_iff p q seal key pem).0 h'' in
          let (tag, sig, good) = (hmac_matches_iff p key (decode_hex0x c seal.hmac.sig)).0 tagged in
          (
            p,
            tag,
            made,
            map_err-eq-ok _ (decode_hex0x c seal.preimage) read ∙ ap ok (sym same),
            sig,
            good,
            (check_ed25519_iff p seal.ed25519 pem).0 signed,
          ),
      λ (p, tag, made, stored, read, tagged, signed). rw made (
          rw stored (
            (compare_layers_iff p p seal key pem).1 (
              refl,
              (hmac_matches_iff p key (decode_hex0x c seal.hmac.sig)).1 (tag, read, tagged),
              (check_ed25519_iff p seal.ed25519 pem).1 signed,
            ))),
    )
