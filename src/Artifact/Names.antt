-- ===== src/Artifact/Names.antt =====
-- The names of the results of verification are those of the layers that the index records.
use apohara_sealchain.Prelude.{
  ◌≡◌, refl, ap, sym, ◌∙◌, String, Bytes, Bool, true, false, ◌||◌, List, [], ◌∷◌, ◌++◌ as ◌append◌,
  Option, ◌==◌, bytes_eq,
}
use apohara_sealchain.Error.{malformed, invalid_preimage, ok, ok_or, >>=-eq-ok}
use apohara_sealchain.Json.{Value, get_str, is_some}
use apohara_sealchain.Crypto.{Crypto}
use apohara_sealchain.Schema.{SealBlock, SealedRecord}
use apohara_sealchain.LayerResult.{LayerResult}
use apohara_sealchain.Seal.{build_preimage}
use apohara_sealchain.Index.{is_true, push_if, present_layers}
use apohara_sealchain.Artifact.{
  Crates, sha256_hex, decode_hex, content_result, ed25519_results, crypto_layers, c2pa_layer,
  c2pa_embedded_layer, tsa_layer, rekor_layer, when_some, c2pa_results, layer_results,
  verify_artifact_bytes,
}
use apohara_sealchain.Artifact.LayerNames.{
  names, ok_names, names-ed25519_results, names-when_some, name-c2pa_layer,
  name-c2pa_embedded_layer, name-tsa_layer, name-rekor_layer, names-append, name-content_result,
}

names-crypto_layers :
    (c : Crypto) (payload : Value) (seal : SealBlock) (key : Option Bytes) {xs : List LayerResult}
    → crypto_layers c payload seal key ≡ ok xs
    → names xs ≡ ("hmac" ∷ push_if (is_some seal.ed25519) "ed25519" [])
unfolding crypto_layers
names-crypto_layers c payload seal key h =
    let (stored, read, h₁) =
      >>=-eq-ok (ok_or (invalid_preimage seal.preimage) (decode_hex c seal.preimage)) _ h in
    let (computed, made, h₂) = >>=-eq-ok (build_preimage c payload seal.sealed_at) _ h₁ in
    let (rest, signed, h₃) =
      >>=-eq-ok
        (ed25519_results c (bytes_eq computed stored) computed seal.ed25519 seal.ed25519_public_key)
        _ h₂ in
    ok_names _ _
      (ap (λ r. "hmac" ∷ r)
        (names-ed25519_results c (bytes_eq computed stored) computed seal.ed25519
          seal.ed25519_public_key signed))
      h₃

push_if-c2pa : (b : Bool) → push_if (b || true) "c2pa" [] ≡ ("c2pa" ∷ [])
push_if-c2pa true = refl
push_if-c2pa false = refl

push_if-unless_c2pa : (b : Bool) → push_if (b || false) "c2pa" [] ≡ push_if b "c2pa" []
push_if-unless_c2pa true = refl
push_if-unless_c2pa false = refl

names-c2pa_results :
    (e : Crates) (b : Bytes) (payload : Value) (seal : SealBlock) (embedded : Bool)
    {xs : List LayerResult}
    → c2pa_results e b payload seal embedded ≡ ok xs
    → names xs ≡ push_if (is_some seal.c2pa_manifest || embedded) "c2pa" []
unfolding c2pa_results
names-c2pa_results e b payload seal true h =
    let (x, checked, h₁) = >>=-eq-ok (c2pa_embedded_layer e b payload seal) _ h in
    let named =
      ok_names (x ∷ []) _ (ap (λ n. n ∷ []) (name-c2pa_embedded_layer e b payload seal x checked))
        h₁ in
    named ∙ sym (push_if-c2pa (is_some seal.c2pa_manifest))
names-c2pa_results e b payload seal false h =
    names-when_some e seal.c2pa_manifest (c2pa_layer e payload) "c2pa" (name-c2pa_layer e payload) h
    ∙ sym (push_if-unless_c2pa (is_some seal.c2pa_manifest))

push_if-append :
    (b : Bool) (n : String) (ns : List String) → (push_if b n [] append ns) ≡ push_if b n ns
push_if-append true n ns = refl
push_if-append false n ns = refl

names-results :
    (hs bs ts rs : List LayerResult) (b₁ b₂ b₃ b₄ : Bool)
    → names hs ≡ ("hmac" ∷ push_if b₁ "ed25519" [])
    → names bs ≡ push_if b₂ "c2pa" []
    → names ts ≡ push_if b₃ "tsa" []
    → names rs ≡ push_if b₄ "rekor" []
    → names (hs append (bs append (ts append rs))) ≡ (
        "hmac"
        ∷ push_if b₁ "ed25519" (push_if b₂ "c2pa" (push_if b₃ "tsa" (push_if b₄ "rekor" []))))
names-results hs bs ts rs b₁ b₂ b₃ b₄ n₁ n₂ n₃ n₄ =
    let t = push_if b₃ "tsa" (push_if b₄ "rekor" []) in
    rw (names-append hs (bs append (ts append rs))) (
      rw (names-append bs (ts append rs)) (
        rw (names-append ts rs) (
          rw n₁ (
            rw n₂ (
              rw n₃ (
                rw n₄ (
                  rw (push_if-append b₃ "tsa" (push_if b₄ "rekor" [])) (
                    rw (push_if-append b₂ "c2pa" t)
                      (rw (push_if-append b₁ "ed25519" (push_if b₂ "c2pa" t)))))))))))

names-layer_results :
    (e : Crates) (b : Bytes) (r : SealedRecord) (key : Option Bytes) {xs : List LayerResult}
    → layer_results e b r key ≡ ok xs
    → names xs ≡ present_layers r
unfolding layer_results present_layers
names-layer_results e b r key h =
    let (signed, e₁, h₂) = >>=-eq-ok (crypto_layers e.crypto r.payload r.seal key) _ h in
    let (bound, e₂, h₃) =
      >>=-eq-ok (c2pa_results e b r.payload r.seal (is_true r.seal.c2pa_embedded)) _ h₂ in
    let (stamped, e₃, h₄) = >>=-eq-ok (when_some e r.seal.tsa (tsa_layer e r.seal)) _ h₃ in
    let (logged, e₄, h₅) = >>=-eq-ok (when_some e r.seal.rekor_anchor (rekor_layer e)) _ h₄ in
    let n₁ = names-crypto_layers e.crypto r.payload r.seal key e₁ in
    let n₂ = names-c2pa_results e b r.payload r.seal (is_true r.seal.c2pa_embedded) e₂ in
    let n₃ = names-when_some e r.seal.tsa (tsa_layer e r.seal) "tsa" (name-tsa_layer e r.seal) e₃ in
    let n₄ =
      names-when_some e r.seal.rekor_anchor (rekor_layer e) "rekor" (name-rekor_layer e) e₄ in
    ok_names _ _
      (names-results signed bound stamped logged (is_some r.seal.ed25519)
        (is_some r.seal.c2pa_manifest || is_true r.seal.c2pa_embedded) (is_some r.seal.tsa)
        (is_some r.seal.rekor_anchor) n₁ n₂ n₃ n₄)
      h₅

-- Verification that completes gives one result for the content and then one for each layer that the
-- record carries, under the names and in the order in which the index lists those layers.
pub verify_artifact_names :
    (e : Crates) (b : Bytes) (r : SealedRecord) (key : Option Bytes) (xs : List LayerResult)
    → verify_artifact_bytes e b r key ≡ ok xs
    → names xs ≡ ("content" ∷ present_layers r)
unfolding verify_artifact_bytes
verify_artifact_names e b r key xs h =
    let (hash, held, h₁) =
      >>=-eq-ok
        (ok_or (malformed "payload missing artifactSha256") (get_str r.payload "artifactSha256")) _
        h in
    let (rest, e₁, h₂) = >>=-eq-ok (layer_results e b r key) _ h₁ in
    let first = name-content_result (sha256_hex e.crypto b == hash) in
    ok_names (content_result (sha256_hex e.crypto b == hash) ∷ rest) _
      (rw first (ap (λ r. "content" ∷ r) (names-layer_results e b r key e₁))) h₂
