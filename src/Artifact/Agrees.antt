-- ===== src/Artifact/Agrees.antt =====
-- The per-layer results of an artifact agree with `verify` on the same record.
use apohara_sealchain.Prelude.{
  ◌≡◌, ◌↔◌, refl, ap, sym, ◌∙◌, subst, String, Bytes, Bool, true, false, ◌&&◌, all, List, [], ◌∷◌,
  Option, none, some, bytes_eq, bytes_eq_iff, bytes_eq_refl, arith,
}
use apohara_sealchain.Error.{
  SealError, invalid_preimage, Result, ok, err, ok_or, to_option, >>=-eq-ok, ok_or-eq-ok,
}
use apohara_sealchain.Json.{Value}
use apohara_sealchain.Crypto.{Crypto}
use apohara_sealchain.Schema.{Ed25519Layer, SealBlock}
use apohara_sealchain.LayerResult.{LayerResult, layer}
use apohara_sealchain.Layers.{hmac_verify, verifying_key_from_pem, ed25519_verify}
use apohara_sealchain.Seal.{build_preimage}
use apohara_sealchain.Verify.{verify_block}
use apohara_sealchain.Verify.Accepts.{SignedBy, verify_block_iff}
use apohara_sealchain.Artifact.{
  decode_hex, ed25519_ok, ed25519_reason, hmac_layer, ed25519_results, crypto_layers,
}

-- Every result in the list is a pass.
abbrev pub all_ok : List LayerResult → Bool
all_ok xs = all (λ (x : LayerResult). x.ok) xs

to_option-eq-some : {E A : Type 0} (r : Result E A) {a : A} → to_option r ≡ some a → r ≡ ok a
to_option-eq-some (ok a) h = cc
to_option-eq-some (err e) h = cc

both : (a b : Bool) → a && b ≡ true → (a ≡ true) × (b ≡ true)
both a b h = (ground arith, ground arith)

abbrev verdict : Result SealError (List LayerResult) → Bool
verdict (ok xs) = all_ok xs
verdict (err e) = false

same_verdict :
    (ys : List LayerResult) {xs : List LayerResult}
    → Path (Result SealError (List LayerResult)) (ok ys) (ok xs)
    → all_ok ys ≡ all_ok xs
same_verdict ys h = ap verdict h

module _ (c : Crypto) where
  -- What a passing HMAC result says when the key is at hand.
  hmac_layer_iff :
      (same : Bool) (key p : Bytes) (sig : Option Bytes)
      → ((hmac_layer c same (some key) sig p).ok ≡ true)
        ↔ ((same ≡ true) × (tag : Bytes) × (sig ≡ some tag) × (hmac_verify c p tag key ≡ true))
  unfolding hmac_layer
  hmac_layer_iff false key p sig = ((λ h. cc), λ (h, t, e, v). cc)
  hmac_layer_iff true key p none = ((λ h. cc), λ (h, tag, e, v). cc)
  hmac_layer_iff true key p (some tag) =
      ((λ h. (refl, tag, refl, h)), λ (s, tag', e, v). let e' : tag ≡ tag' = cc in rw e' v)

  ed25519_ok_iff :
      (sig : Option Bytes) (p : Bytes) (key : c.VerifyingKey)
      → (ed25519_ok c true sig p key ≡ true)
        ↔ ((s : Bytes) × (sig ≡ some s) × (ed25519_verify c p s key ≡ true))
  unfolding ed25519_ok
  ed25519_ok_iff none p key = ((λ h. cc), λ (s, e, v). cc)
  ed25519_ok_iff (some t) p key = ((λ h. (t, refl, h)), λ (s, e, v). let e' : t ≡ s = cc in rw e' v)

  ed25519_results_sound :
      (p : Bytes) (o : Option Ed25519Layer) (pem : Option String) (xs : List LayerResult)
      → ed25519_results c true p o pem ≡ ok xs
      → all_ok xs ≡ true
      → SignedBy c p o pem
  unfolding ed25519_results
  ed25519_results_sound p none pem xs h good = tt
  ed25519_results_sound p (some l) none xs h good = cc
  ed25519_results_sound p (some l) (some pem) xs h good =
      let (key, read, h₁) = >>=-eq-ok (verifying_key_from_pem c pem) _ h in
      let one : all_ok (
            layer "ed25519" (ed25519_ok c true (decode_hex c l.sig) p key)
              (ed25519_reason c (ed25519_ok c true (decode_hex c l.sig) p key) true)
            ∷ [])
          ≡ true =
        same_verdict _ h₁ ∙ good in
      let (sig, found, valid) = (ed25519_ok_iff (decode_hex c l.sig) p key).0 (both _ true one).0 in
      (key, sig, read, to_option-eq-some _ found, valid)

  ed25519_results_complete :
      (p : Bytes) (o : Option Ed25519Layer) (pem : Option String)
      → SignedBy c p o pem
      → (xs : List LayerResult) × (ed25519_results c true p o pem ≡ ok xs) × (all_ok xs ≡ true)
  unfolding ed25519_results
  ed25519_results_complete p none pem h = ([], refl, refl)
  ed25519_results_complete p (some l) none h = absurd h
  ed25519_results_complete p (some l) (some pem) (key, sig, read, decoded, good) =
      let passed =
        (ed25519_ok_iff (decode_hex c l.sig) p key).1 (sig, ap to_option decoded, good) in
      (
        layer "ed25519" (ed25519_ok c true (decode_hex c l.sig) p key)
              (ed25519_reason c (ed25519_ok c true (decode_hex c l.sig) p key) true)
            ∷ [],
        rw read,
        rw passed,
      )

  -- With the HMAC key at hand, the crypto results of an artifact are all passes exactly when `verify`
  -- accepts the record's payload and block under that key and the embedded public key.
  pub crypto_layers_iff :
      (payload : Value) (seal : SealBlock) (key : Bytes)
      → ((xs : List LayerResult) × (crypto_layers c payload seal (some key) ≡ ok xs)
          × (all_ok xs ≡ true))
        ↔ (verify_block c payload seal key seal.ed25519_public_key ≡ ok true)
  unfolding crypto_layers
  crypto_layers_iff payload seal key = (
    λ (xs, h, good).
        let (q, stored, h₁) =
          >>=-eq-ok (ok_or (invalid_preimage seal.preimage) (decode_hex c seal.preimage)) _ h in
        let (p, made, h₂) = >>=-eq-ok (build_preimage c payload seal.sealed_at) _ h₁ in
        let (rest, signed, h₃) =
          >>=-eq-ok (ed25519_results c (bytes_eq p q) p seal.ed25519 seal.ed25519_public_key) _
            h₂ in
        let (mac, others) =
          both (hmac_layer c (bytes_eq p q) (some key) (decode_hex c seal.hmac.sig) p).ok
            (all_ok rest) (same_verdict _ h₃ ∙ good) in
        let (same, tag, found, valid) =
          (hmac_layer_iff (bytes_eq p q) key p (decode_hex c seal.hmac.sig)).0 mac in
        (verify_block_iff c payload seal key seal.ed25519_public_key).1 (
          p,
          tag,
          made,
          to_option-eq-some _ (ok_or-eq-ok _ (decode_hex c seal.preimage) stored)
              ∙ ap ok (sym ((bytes_eq_iff p q).0 same)),
          to_option-eq-some _ found,
          valid,
          ed25519_results_sound p seal.ed25519 seal.ed25519_public_key rest
              (subst (λ b. ed25519_results c b p seal.ed25519 seal.ed25519_public_key ≡ ok rest)
                same signed)
              others,
        ),
    λ h.
        let (p, tag, made, stored, read, valid, signed) =
          (verify_block_iff c payload seal key seal.ed25519_public_key).0 h in
        let (rest, results, others) =
          ed25519_results_complete p seal.ed25519 seal.ed25519_public_key signed in
        let mac =
          (hmac_layer_iff true key p (decode_hex c seal.hmac.sig)).1
            (refl, tag, ap to_option read, valid) in
        (
          hmac_layer c true (some key) (decode_hex c seal.hmac.sig) p ∷ rest,
          rw stored (rw made (rw (bytes_eq_refl p) (rw results))),
          rw mac others,
        ),
  )
