-- ===== src/Artifact/Content.antt =====
-- Which results a change of the file, or of the payload, can reach.
use apohara_sealchain.Prelude.{
  ◌≡◌, refl, ap, sym, ◌∙◌, subst, String, Bytes, false, List, [], ◌∷◌, Option, none, some, ◌==◌,
  bytes_eq, All,
}
use apohara_sealchain.Error.{
  SealError, invalid_preimage, missing_public_key, Result, ok, err, ◌>>=◌, ok_or, to_option,
  >>=-eq-ok,
}
use apohara_sealchain.Json.{Value, get_str}
use apohara_sealchain.Crypto.{Crypto}
use apohara_sealchain.Schema.{Ed25519Layer, SealBlock, SealedRecord}
use apohara_sealchain.LayerResult.{LayerResult, layer}
use apohara_sealchain.Layers.{decode_hex0x, verifying_key_from_pem}
use apohara_sealchain.Seal.{build_preimage}
use apohara_sealchain.Index.{is_true}
use apohara_sealchain.Artifact.{
  Crates, sha256_hex, decode_hex, content_result, hmac_layer, ed25519_results, crypto_layers,
  c2pa_results, ed25519_reason, layer_results, verify_artifact_bytes,
}

layer_results_sidecar :
    (e : Crates) (b₁ b₂ : Bytes) (r : SealedRecord) (key : Option Bytes)
    → is_true r.seal.c2pa_embedded ≡ false
    → layer_results e b₁ r key ≡ layer_results e b₂ r key
unfolding layer_results c2pa_results
layer_results_sidecar e b₁ b₂ r key sidecar = rw sidecar refl

pub verify_artifact_held :
    (e : Crates) (b : Bytes) (r : SealedRecord) (key : Option Bytes) (hash : String)
    → get_str r.payload "artifactSha256" ≡ some hash
    → verify_artifact_bytes e b r key ≡ (
        layer_results e b r key >>= λ rest.
        ok (content_result (sha256_hex e.crypto b == hash) ∷ rest))
unfolding verify_artifact_bytes
verify_artifact_held e b r key hash held = rw held refl

-- Against a receipt without an embedded C2PA manifest, the content of the file decides the content
-- result and no other: if verification completes for one file, it completes for any other one with
-- the same layer results, and each content result says whether the file's hash is the recorded one.
pub verify_artifact_content :
    (e : Crates) (b₁ b₂ : Bytes) (r : SealedRecord) (key : Option Bytes) (hash : String)
    (xs : List LayerResult)
    → is_true r.seal.c2pa_embedded ≡ false
    → get_str r.payload "artifactSha256" ≡ some hash
    → verify_artifact_bytes e b₁ r key ≡ ok xs
    → (rest : List LayerResult) × ((content_result (sha256_hex e.crypto b₁ == hash) ∷ rest) ≡ xs)
      × (verify_artifact_bytes e b₂ r key
          ≡ ok (content_result (sha256_hex e.crypto b₂ == hash) ∷ rest))
verify_artifact_content e b₁ b₂ r key hash xs sidecar held h =
    let (rest, made, h₁) =
      >>=-eq-ok (layer_results e b₁ r key) _
        (sym (verify_artifact_held e b₁ r key hash held) ∙ h) in
    (
      rest,
      cc,
      verify_artifact_held e b₂ r key hash held
          ∙ ap (λ m. m >>= λ rest. ok (content_result (sha256_hex e.crypto b₂ == hash) ∷ rest))
              (sym (layer_results_sidecar e b₁ b₂ r key sidecar) ∙ made),
    )

abbrev FailIn : Result SealError (List LayerResult) → Type 0
FailIn (ok xs) = All (λ (x : LayerResult). x.ok ≡ false) xs
FailIn (err e) = Unit

AllFail_of_ok :
    (ys : List LayerResult) {xs : List LayerResult}
    → All (λ (x : LayerResult). x.ok ≡ false) ys
    → Path (Result SealError (List LayerResult)) (ok ys) (ok xs)
    → All (λ (x : LayerResult). x.ok ≡ false) xs
AllFail_of_ok ys fails same = subst FailIn same fails

module _ (c : Crypto) where
  hmac_layer_fails :
      (key sig : Option Bytes) (p : Bytes) → (hmac_layer c false key sig p).ok ≡ false
  unfolding hmac_layer
  hmac_layer_fails key sig p = refl

  ed25519_results_fail :
      (p : Bytes) (o : Option Ed25519Layer) (pem : Option String) (xs : List LayerResult)
      → ed25519_results c false p o pem ≡ ok xs
      → All (λ (x : LayerResult). x.ok ≡ false) xs
  unfolding ed25519_results
  ed25519_results_fail p none pem xs h = AllFail_of_ok [] tt h
  ed25519_results_fail p (some l) pem xs h =
      let (text, held, h₁) = >>=-eq-ok (ok_or missing_public_key pem) _ h in
      let (key, read, h₂) = >>=-eq-ok (verifying_key_from_pem c text) _ h₁ in
      AllFail_of_ok (layer "ed25519" false (ed25519_reason c false false) ∷ []) (refl, tt) h₂

  -- When the payload's canonical preimage is not the stored one, crypto verification that completes
  -- fails every layer: the HMAC's, with or without a key at hand, and a present Ed25519 layer's.
  pub crypto_layers_tampered :
      (payload : Value) (seal : SealBlock) (key : Option Bytes) (p q : Bytes)
      (xs : List LayerResult)
      → build_preimage c payload seal.sealed_at ≡ ok p
      → decode_hex0x c seal.preimage ≡ ok q
      → bytes_eq p q ≡ false
      → crypto_layers c payload seal key ≡ ok xs
      → All (λ (x : LayerResult). x.ok ≡ false) xs
  unfolding crypto_layers
  crypto_layers_tampered payload seal key p q xs made stored differs h =
      let (q', e₁, h₁) =
        >>=-eq-ok (ok_or (invalid_preimage seal.preimage) (decode_hex c seal.preimage)) _ h in
      let (p', e₂, h₂) = >>=-eq-ok (build_preimage c payload seal.sealed_at) _ h₁ in
      let (rest, e₃, h₃) =
        >>=-eq-ok (ed25519_results c (bytes_eq p' q') p' seal.ed25519 seal.ed25519_public_key) _
          h₂ in
      let read : ok_or (invalid_preimage seal.preimage) (to_option (decode_hex0x c seal.preimage))
          ≡ ok q =
        rw stored refl in
      let same_p : p ≡ p' = cc in
      let same_q : q ≡ q' = cc in
      let unequal : bytes_eq p' q' ≡ false =
        ap (bytes_eq p') (sym same_q) ∙ ap (λ x. bytes_eq x q) (sym same_p) ∙ differs in
      AllFail_of_ok (hmac_layer c (bytes_eq p' q') key (decode_hex c seal.hmac.sig) p' ∷ rest)
        (
          ap (λ b. (hmac_layer c b key (decode_hex c seal.hmac.sig) p').ok) unequal
              ∙ hmac_layer_fails key (decode_hex c seal.hmac.sig) p',
          ed25519_results_fail p' seal.ed25519 seal.ed25519_public_key rest (
              subst (λ b. ed25519_results c b p' seal.ed25519 seal.ed25519_public_key ≡ ok rest)
                unequal e₃),
        )
        h₃
