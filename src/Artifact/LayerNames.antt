-- ===== src/Artifact/LayerNames.antt =====
-- The name of each layer's result.
use Prim.Native.String.{◌++◌}
use apohara_sealchain.Prelude.{
  ◌≡◌, refl, ap, sym, ◌∙◌, String, Bytes, Bool, true, false, List, [], ◌∷◌, ◌++◌ as ◌append◌, map,
  Option, none, some, into_bytes, if◌then◌else◌, arith,
}
use apohara_sealchain.Error.{
  SealError, malformed, missing_public_key, c2pa, Result, ok, err, ok_or, >>=-eq-ok,
}
use apohara_sealchain.Json.{Value, get_str, is_some}
use apohara_sealchain.Crypto.{Crypto}
use apohara_sealchain.Schema.{Ed25519Layer, SealBlock, map_option}
use apohara_sealchain.LayerResult.{LayerResult}
use apohara_sealchain.Layers.{verifying_key_from_pem}
use apohara_sealchain.Layers.C2pa.{
  payload_hash_hex, verify_sidecar, verify_embedded, embedded_signer_pubkey,
}
use apohara_sealchain.Layers.Tsa.{TsaCrates, verify_token}
use apohara_sealchain.Layers.Rekor.{ShardKey, from_json, resolve_shard}
use apohara_sealchain.Layers.Rekor.Sound.{name-verify_anchor}
use apohara_sealchain.Index.{push_if}
use apohara_sealchain.Artifact.{
  Crates, decode_hex, content_result, ed25519_results, c2pa_result, embedded_reason,
  embedded_format, check_signer, c2pa_layer, c2pa_embedded_layer, tsa_to_stamp, tsa_layer,
  load_shards, rekor_layer, when_some,
}

abbrev pub names : List LayerResult → List String
names = map (λ (x : LayerResult). x.name)

abbrev name_of : Result SealError LayerResult → String
name_of (ok x) = x.name
name_of (err e) = ""

ok_name :
    (y : LayerResult) (n : String) {x : LayerResult}
    → y.name ≡ n
    → Path (Result SealError LayerResult) (ok y) (ok x)
    → x.name ≡ n
ok_name y n named h = sym (ap name_of h) ∙ named

name-c2pa_result : (b : Bool) → (c2pa_result b).name ≡ "c2pa"
unfolding c2pa_result
name-c2pa_result true = refl
name-c2pa_result false = refl

pub names-append : (xs ys : List LayerResult) → names (xs append ys) ≡ (names xs append names ys)
names-append [] ys = refl
names-append (x ∷ xs) ys = ap (λ rest. x.name ∷ rest) (names-append xs ys)

pub name-content_result : (b : Bool) → (content_result b).name ≡ "content"
unfolding content_result
name-content_result true = refl
name-content_result false = refl

names-one :
    (x : LayerResult) (n : String) {xs : List LayerResult}
    → x.name ≡ n
    → (x ∷ []) ≡ xs
    → names xs ≡ (n ∷ [])
names-one x n named same = rw (sym same) (rw named)

names-none : {xs : List LayerResult} → [] ≡ xs → names xs ≡ []
names-none same = rw (sym same)

abbrev names_of : Result SealError (List LayerResult) → List String
names_of (ok xs) = names xs
names_of (err e) = []

pub ok_names :
    (ys : List LayerResult) (ns : List String) {xs : List LayerResult}
    → names ys ≡ ns
    → Path (Result SealError (List LayerResult)) (ok ys) (ok xs)
    → names xs ≡ ns
ok_names ys ns named h = sym (ap names_of h) ∙ named

pub names-ed25519_results :
    (c : Crypto) (same : Bool) (p : Bytes) (o : Option Ed25519Layer) (pem : Option String)
    {xs : List LayerResult}
    → ed25519_results c same p o pem ≡ ok xs
    → names xs ≡ push_if (is_some o) "ed25519" []
unfolding ed25519_results
names-ed25519_results c same p none pem h = names-none (cc h)
names-ed25519_results c same p (some l) pem h =
    let (key_pem, held, h') = >>=-eq-ok (ok_or missing_public_key pem) _ h in
    let (key, read, h'') = >>=-eq-ok (verifying_key_from_pem c key_pem) _ h' in
    ok_names _ _ refl h''

pub names-when_some :
    (e : Crates) {A : Type 0} (o : Option A) (check : A → Result SealError LayerResult) (n : String)
    {xs : List LayerResult}
    → ((a : A) (x : LayerResult) → check a ≡ ok x → x.name ≡ n)
    → when_some e o check ≡ ok xs
    → names xs ≡ push_if (is_some o) n []
names-when_some e none check n named h = names-none (cc h)
names-when_some e (some a) check n named h =
    let (x, checked, h') = >>=-eq-ok (check a) _ h in names-one x n (named a x checked) (cc h')

pub name-c2pa_layer :
    (e : Crates) (payload : Value) (manifest : String) (x : LayerResult)
    → c2pa_layer e payload manifest ≡ ok x
    → x.name ≡ "c2pa"
unfolding c2pa_layer
name-c2pa_layer e payload manifest x h =
    let (jumbf, read, h₁) =
      >>=-eq-ok
        (ok_or (c2pa ("invalid c2paManifest hex: " ++ manifest)) (decode_hex e.crypto manifest)) _
        h in
    let (expected, hashed, h₂) = >>=-eq-ok (payload_hash_hex e.crypto payload) _ h₁ in
    let (passed, checked, h₃) = >>=-eq-ok (verify_sidecar e.crypto e.media jumbf expected) _ h₂ in
    ok_name (c2pa_result passed) "c2pa" (name-c2pa_result passed) h₃

name-embedded_reason :
    (signer : Option Bytes) (expected : Bytes) → (embedded_reason signer expected).name ≡ "c2pa"
unfolding embedded_reason
name-embedded_reason none expected = refl
name-embedded_reason (some signer) expected = ground arith

name-check_signer :
    (e : Crates) (b : Bytes) (format : String) (o : Option String) (x : LayerResult)
    → check_signer e b format o ≡ ok x
    → x.name ≡ "c2pa"
unfolding check_signer
name-check_signer e b format none x h = ok_name _ "c2pa" refl h
name-check_signer e b format (some pem) x h =
    let (expected, read, h₁) = >>=-eq-ok (verifying_key_from_pem e.crypto pem) _ h in
    let (signer, found, h₂) = >>=-eq-ok (embedded_signer_pubkey e.crypto e.media b format) _ h₁ in
    ok_name _ "c2pa" (name-embedded_reason signer (e.crypto.as_bytes expected)) h₂

name-choice :
    (b : Bool) (m n : Result SealError LayerResult) {x : LayerResult}
    → (m ≡ ok x → x.name ≡ "c2pa")
    → (n ≡ ok x → x.name ≡ "c2pa")
    → (if b then m else n) ≡ ok x
    → x.name ≡ "c2pa"
name-choice true m n f g h = f h
name-choice false m n f g h = g h

pub name-c2pa_embedded_layer :
    (e : Crates) (b : Bytes) (payload : Value) (seal : SealBlock) (x : LayerResult)
    → c2pa_embedded_layer e b payload seal ≡ ok x
    → x.name ≡ "c2pa"
unfolding c2pa_embedded_layer
name-c2pa_embedded_layer e b payload seal x h =
    let (valid, read, h₁) =
      >>=-eq-ok (verify_embedded e.crypto e.media b (embedded_format payload)) _ h in
    name-choice valid _ _
      (name-check_signer e b (embedded_format payload) seal.ed25519_public_key x)
      (ok_name _ "c2pa" refl) h₁

name-verify_token :
    (t : TsaCrates) (der stamped : Bytes) → (verify_token t der stamped none).name ≡ "tsa"
unfolding verify_token
name-verify_token t der stamped = ground arith

pub name-tsa_layer :
    (e : Crates) (seal : SealBlock) (v : Value) (x : LayerResult)
    → tsa_layer e seal v ≡ ok x
    → x.name ≡ "tsa"
unfolding tsa_layer
name-tsa_layer e seal v x h =
    let (hex, held, h₁) =
      >>=-eq-ok (ok_or (malformed "seal.tsa missing der") (get_str v "der")) _ h in
    let (der, read, h₂) =
      >>=-eq-ok (ok_or (malformed ("invalid seal.tsa der hex: " ++ hex)) (decode_hex e.crypto hex))
        _ h₁ in
    let (stamped, made, h₃) = >>=-eq-ok (tsa_to_stamp e.crypto seal) _ h₂ in
    ok_name _ "tsa" (name-verify_token e.tsa der stamped) h₃

pub name-rekor_layer :
    (e : Crates) (v : Value) (x : LayerResult) → rekor_layer e v ≡ ok x → x.name ≡ "rekor"
unfolding rekor_layer
name-rekor_layer e v x h =
    let (anchor, read, h₁) = >>=-eq-ok (from_json e.crypto v) _ h in
    let (shards, loaded, h₂) = >>=-eq-ok (load_shards e) _ h₁ in
    ok_name _ "rekor"
      (name-verify_anchor e.rekor anchor (
        map_option (λ (s : ShardKey). into_bytes s.public_key_pem)
          (resolve_shard shards anchor.log_id)))
      h₂
