-- ===== src/Artifact/Keyless.antt =====
-- Verification without the secret: what passes under the HMAC key passes without it.
use apohara_sealchain.Prelude.{
  String, ◌≡◌, refl, ap, sym, ◌∙◌, Bytes, Bool, true, false, List, ◌∷◌, ◌++◌ as ◌append◌, Option,
  none, some, arith, ◌==◌,
}
use apohara_sealchain.Error.{malformed, invalid_preimage, ok, >>=-eq-ok, ok_or}
use apohara_sealchain.Json.{Value, get_str}
use apohara_sealchain.Crypto.{Crypto}
use apohara_sealchain.Schema.{SealBlock, SealedRecord}
use apohara_sealchain.LayerResult.{LayerResult}
use apohara_sealchain.Index.{is_true}
use apohara_sealchain.Seal.{build_preimage}
use apohara_sealchain.Artifact.{
  Crates, decode_hex, sha256_hex, content_result, hmac_ok, hmac_layer, ed25519_results,
  crypto_layers, c2pa_results, when_some, tsa_layer, rekor_layer, layer_results,
  verify_artifact_bytes,
}
use apohara_sealchain.Artifact.Agrees.{all_ok}
use apohara_sealchain.Prelude.{bytes_eq}

hmac_layer_keyless :
    (c : Crypto) (same : Bool) (key computed : Bytes) (sig : Option Bytes)
    → (hmac_layer c same (some key) sig computed).ok ≡ true
    → (hmac_layer c same none sig computed).ok ≡ true
unfolding hmac_layer hmac_ok
hmac_layer_keyless c true key computed none h = h
hmac_layer_keyless c true key computed (some sig) h = refl
hmac_layer_keyless c false key computed sig h = h

-- The first two results are the content's and the HMAC layer's.
swap_first :
    (x h k : LayerResult) (rest : List LayerResult)
    → (h.ok ≡ true → k.ok ≡ true)
    → all_ok (x ∷ h ∷ rest) ≡ true
    → all_ok (x ∷ k ∷ rest) ≡ true
swap_first x h k rest f g = ground (arith, f)

-- The results, from what each step has given.
crypto_layers_made :
    (c : Crypto) (payload : Value) (seal : SealBlock) (key : Option Bytes) (p q : Bytes)
    (rest : List LayerResult)
    → ok_or (invalid_preimage seal.preimage) (decode_hex c seal.preimage) ≡ ok q
    → build_preimage c payload seal.sealed_at ≡ ok p
    → ed25519_results c (bytes_eq p q) p seal.ed25519 seal.ed25519_public_key ≡ ok rest
    → crypto_layers c payload seal key
      ≡ ok (hmac_layer c (bytes_eq p q) key (decode_hex c seal.hmac.sig) p ∷ rest)
unfolding crypto_layers
crypto_layers_made c payload seal key p q rest stored made signed = rw (stored, made, signed) refl

verified_made :
    (e : Crates) (b : Bytes) (r : SealedRecord) (key : Option Bytes) (hash : String)
    (cs ms ts ls : List LayerResult)
    → ok_or (malformed "payload missing artifactSha256") (get_str r.payload "artifactSha256")
      ≡ ok hash
    → crypto_layers e.crypto r.payload r.seal key ≡ ok cs
    → c2pa_results e b r.payload r.seal (is_true r.seal.c2pa_embedded) ≡ ok ms
    → when_some e r.seal.tsa (tsa_layer e r.seal) ≡ ok ts
    → when_some e r.seal.rekor_anchor (rekor_layer e) ≡ ok ls
    → verify_artifact_bytes e b r key
      ≡ ok (content_result (sha256_hex e.crypto b == hash) ∷ (cs append (ms append (ts append ls))))
unfolding verify_artifact_bytes layer_results
verified_made e b r key hash cs ms ts ls held signed bound stamped logged =
    rw (held, signed, bound, stamped, logged) refl

crypto_layers_keyless :
    (c : Crypto) (payload : Value) (seal : SealBlock) (key : Bytes) (xs : List LayerResult)
    → crypto_layers c payload seal (some key) ≡ ok xs
    → (h : LayerResult) × (k : LayerResult) × (rest : List LayerResult) × (xs ≡ (h ∷ rest))
      × (crypto_layers c payload seal none ≡ ok (k ∷ rest))
      × (h.ok ≡ true → k.ok ≡ true)
unfolding crypto_layers
crypto_layers_keyless c payload seal key xs h =
    let (q, stored, h₁) =
      >>=-eq-ok (ok_or (invalid_preimage seal.preimage) (decode_hex c seal.preimage)) _ h in
    let (p, made, h₂) = >>=-eq-ok (build_preimage c payload seal.sealed_at) _ h₁ in
    let (rest, signed, h₃) =
      >>=-eq-ok (ed25519_results c (bytes_eq p q) p seal.ed25519 seal.ed25519_public_key) _ h₂ in
    let sig = decode_hex c seal.hmac.sig in
    (
      hmac_layer c (bytes_eq p q) (some key) sig p,
      hmac_layer c (bytes_eq p q) none sig p,
      rest,
      cc,
      crypto_layers_made c payload seal none p q rest stored made signed,
      hmac_layer_keyless c (bytes_eq p q) key p sig,
    )

pub verify_artifact_bytes_keyless :
    (e : Crates) (b : Bytes) (r : SealedRecord) (key : Bytes) (xs : List LayerResult)
    → verify_artifact_bytes e b r (some key) ≡ ok xs
    → all_ok xs ≡ true
    → (ys : List LayerResult) × (verify_artifact_bytes e b r none ≡ ok ys) × (all_ok ys ≡ true)
unfolding verify_artifact_bytes layer_results
verify_artifact_bytes_keyless e b r key xs h good =
    let (hash, held, h₁) =
      >>=-eq-ok
        (ok_or (malformed "payload missing artifactSha256") (get_str r.payload "artifactSha256")) _
        h in
    let (layers, verified, h₂) = >>=-eq-ok (layer_results e b r (some key)) _ h₁ in
    let (cs, signed, h₃) =
      >>=-eq-ok (crypto_layers e.crypto r.payload r.seal (some key)) _ verified in
    let (ms, bound, h₄) =
      >>=-eq-ok (c2pa_results e b r.payload r.seal (is_true r.seal.c2pa_embedded)) _ h₃ in
    let (ts, stamped, h₅) = >>=-eq-ok (when_some e r.seal.tsa (tsa_layer e r.seal)) _ h₄ in
    let (ls, logged, h₆) = >>=-eq-ok (when_some e r.seal.rekor_anchor (rekor_layer e)) _ h₅ in
    let (m, k, rest, split, without, passes) =
      crypto_layers_keyless e.crypto r.payload r.seal key cs signed in
    let content = content_result (sha256_hex e.crypto b == hash) in
    let more = rest append (ms append (ts append ls)) in
    let all_results : xs ≡ (content ∷ m ∷ more) = cc in
    (
      content ∷ k ∷ more,
      verified_made e b r none hash (k ∷ rest) ms ts ls held without bound stamped logged,
      swap_first content m k more passes (ap all_ok (sym all_results) ∙ good),
    )
