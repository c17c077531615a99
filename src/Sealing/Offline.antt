-- ===== src/Sealing/Offline.antt =====
-- A file sealed offline verifies against its own receipt.
use apohara_sealchain.Prelude.{
  ◌≡◌, refl, ap, ◌∙◌, subst, String, Bytes, Bool, true, false, List, [], ◌∷◌, ◌++◌ as ◌append◌,
  Option, none, some, ◌==◌, eq_refl, bytes_eq_refl, all-append,
}
use apohara_sealchain.Error.{ok, ◌>>=◌, >>=-eq-ok}
use apohara_sealchain.Json.{Value, get, get_field, get_str, as_str, unwrap_or}
use apohara_sealchain.Crypto.{CryptoLaws}
use apohara_sealchain.Schema.{SealedRecord}
use apohara_sealchain.LayerResult.{LayerResult}
use apohara_sealchain.Layers.{hmac_sign}
use apohara_sealchain.Layers.Laws.{decode_hex0x-hex0x}
use apohara_sealchain.Layers.C2pa.{payload_hash_hex, emit_sidecar}
use apohara_sealchain.Layers.C2pa.Binding.{MediaLaws, verify_sidecar-emit_sidecar}
use apohara_sealchain.Seal.{build_preimage}
use apohara_sealchain.Verify.Sealed.{verify_covered}
use apohara_sealchain.Artifact.{
  Crates, sha256_hex, content_result, crypto_layers, c2pa_result, c2pa_layer, c2pa_results,
  layer_results, verify_artifact_bytes,
}
use apohara_sealchain.Artifact.Agrees.{all_ok, crypto_layers_iff}
use apohara_sealchain.Artifact.Content.{verify_artifact_held}
use apohara_sealchain.Sealing.{Keys, Environment, payload_of, seal_bytes}
use apohara_sealchain.Sealing.Shape.{
  offline, file_payload, SidecarOf, sealed_block, seal_bytes-offline,
}

all_passed :
    (xs ys : List LayerResult)
    → all_ok xs ≡ true
    → all_ok ys ≡ true
    → all_ok (content_result true ∷ (xs append (ys append []))) ≡ true
unfolding content_result
all_passed xs ys good fine =
    let f = λ (x : LayerResult). x.ok in
    all-append f xs (ys append []) ∙ rw good (all-append f ys [] ∙ rw fine refl)

module _ (e : Crates) (env : Environment e.crypto) (keys : Keys e.crypto) where
  sealed_crypto :
      (laws : CryptoLaws e.crypto) (payload : Value) (p tag : Bytes) (time : String)
      (sidecar : Option String)
      → e.crypto.to_public_key_pem (e.crypto.verifying_key keys.ed25519)
        ≡ ok keys.ed25519_public_pem
      → build_preimage e.crypto payload time ≡ ok p
      → hmac_sign e.crypto p keys.hmac ≡ ok tag
      → (xs : List LayerResult) × (crypto_layers e.crypto payload
            ((sealed_block e env keys) p tag time sidecar)
            (some keys.hmac)
          ≡ ok xs)
        × (all_ok xs ≡ true)
  sealed_crypto laws payload p tag time sidecar text made signed =
      (crypto_layers_iff e.crypto payload ((sealed_block e env keys) p tag time sidecar)
          keys.hmac).1
        (verify_covered e.crypto laws payload ((sealed_block e env keys) p tag time sidecar) p p tag
            keys.hmac (some keys.ed25519) time (some keys.ed25519_public_pem)
            (refl, refl, refl, refl) signed made text
          ∙ ap ok (bytes_eq_refl p))

  sealed_c2pa :
      (laws : CryptoLaws e.crypto) (media_laws : MediaLaws e.crypto e.media) (ai : Bool)
      (payload : Value) (b p tag : Bytes) (time : String) (sidecar : Option String)
      → (SidecarOf e env keys) payload ai sidecar
      → (xs : List LayerResult) × (c2pa_results e b payload
            ((sealed_block e env keys) p tag time sidecar)
            false
          ≡ ok xs)
        × (all_ok xs ≡ true)
  unfolding c2pa_results c2pa_layer c2pa_result emit_sidecar
  sealed_c2pa laws media_laws ai payload b p tag time none h = ([], refl, refl)
  sealed_c2pa laws media_laws ai payload b p tag time (some text) (jumbf, same, emitted) =
      let (hash, hashed, rest) = >>=-eq-ok (payload_hash_hex e.crypto payload) _ emitted in
      let passes =
        verify_sidecar-emit_sidecar e.crypto e.media media_laws payload keys.ed25519 ai jumbf hash
          emitted hashed in
      let read = decode_hex0x-hex0x e.crypto laws jumbf in
      (c2pa_result true ∷ [], rw same (rw read (rw hashed (rw passes))), refl)

  sealed_layers :
      (b : Bytes) (payload : Value) (p tag : Bytes) (time : String) (sidecar : Option String)
      (xs ys : List LayerResult)
      → crypto_layers e.crypto payload
          ((sealed_block e env keys) p tag time sidecar)
          (some keys.hmac)
        ≡ ok xs
      → c2pa_results e b payload ((sealed_block e env keys) p tag time sidecar) false ≡ ok ys
      → layer_results e b
          (record { payload = payload; seal = (sealed_block e env keys) p tag time sidecar })
          (some keys.hmac)
        ≡ ok (xs append (ys append []))
  unfolding layer_results
  sealed_layers b payload p tag time sidecar xs ys h₁ h₂ = rw h₁ (rw h₂)

  artifact_hash :
      (path : String) (b : Bytes)
      → get_str ((file_payload e env keys) path b) "artifactSha256" ≡ some (sha256_hex e.crypto b)
  unfolding payload_of get_str get get_field as_str
  artifact_hash path b = refl

  -- What sealing without the network and without embedding makes of a file's bytes verifies against
  -- those bytes under the sealing HMAC key: verification completes and every result is a pass, with
  -- and without the C2PA sidecar. The keys' public text is assumed to be that of the signing key.
  pub verify-seal_bytes :
      (laws : CryptoLaws e.crypto) (media_laws : MediaLaws e.crypto e.media) (path : String)
      (b : Bytes) (at : Option String) (with_c2pa ai : Bool) (r : SealedRecord)
      → e.crypto.to_public_key_pem (e.crypto.verifying_key keys.ed25519)
        ≡ ok keys.ed25519_public_pem
      → seal_bytes e env keys path b (offline at with_c2pa ai) ≡ ok r
      → (xs : List LayerResult) × (verify_artifact_bytes e b r (some keys.hmac) ≡ ok xs)
        × (all_ok xs ≡ true)
  verify-seal_bytes laws media_laws path b at with_c2pa ai r text h =
      let (p, tag, sidecar, made, signed, of, same) =
        (seal_bytes-offline e env keys) path b at with_c2pa ai h in
      let time = unwrap_or at env.now in
      let payload = (file_payload e env keys) path b in
      let (xs, cryptos, good) = sealed_crypto laws payload p tag time sidecar text made signed in
      let (ys, bound, fine) = sealed_c2pa laws media_laws ai payload b p tag time sidecar of in
      let layers = sealed_layers b payload p tag time sidecar xs ys cryptos bound in
      subst
        (λ (x : SealedRecord).
          (zs : List LayerResult) × (verify_artifact_bytes e b x (some keys.hmac) ≡ ok zs)
          × (all_ok zs ≡ true))
        same
        (
          content_result true ∷ (xs append (ys append [])),
          verify_artifact_held e b
                (record { payload = payload; seal = (sealed_block e env keys) p tag time sidecar })
                (some keys.hmac) (sha256_hex e.crypto b) (artifact_hash path b)
              ∙ ap
                  (λ m. m >>= λ rest.
                    ok (content_result (sha256_hex e.crypto b == sha256_hex e.crypto b) ∷ rest))
                  layers
              ∙ ap (λ t. ok (content_result t ∷ (xs append (ys append []))))
                  (eq_refl (sha256_hex e.crypto b)),
          all_passed xs ys good fine,
        )
