-- ===== src/Artifact.antt =====
-- crates/apohara-sealchain-core/src/artifact.rs, verification in the native build: one result for the
-- content and one for each layer that a receipt carries.
pub mod LayerNames
pub mod Names
pub mod Agrees
pub mod Content
pub mod Keyless
pub mod Chain
use Prim.Native.String.{◌++◌}
use apohara_sealchain.Prelude.{
  String, Bytes, Bool, true, false, ◌&&◌, List, [], ◌∷◌, ◌++◌ as ◌append◌, Option, none, some, ◌==◌,
  bytes_eq, into_bytes, to_ascii_lowercase, if◌then◌else◌,
}
use apohara_sealchain.Error.{
  SealError, malformed, invalid_preimage, missing_public_key, c2pa, Result, ok, err, ◌>>=◌, map_err,
  ok_or, to_option,
}
use apohara_sealchain.Json.{Value, get_str, is_some, unwrap_or}
use apohara_sealchain.Crypto.{Crypto}
use apohara_sealchain.Schema.{Ed25519Layer, SealBlock, SealedRecord, map_option}
use apohara_sealchain.LayerResult.{LayerResult, layer}
use apohara_sealchain.Layers.{decode_hex0x, hmac_verify, verifying_key_from_pem, ed25519_verify}
use apohara_sealchain.Layers.C2pa.{
  MediaCrates, payload_hash_hex, verify_sidecar, verify_embedded, embedded_signer_pubkey,
}
use apohara_sealchain.Layers.Tsa.{TsaCrates, verify_token}
use apohara_sealchain.Layers.Rekor.{ShardKey, RekorCrates, from_json, resolve_shard, verify_anchor}
use apohara_sealchain.Seal.{build_preimage}
use apohara_sealchain.Index.{is_true}
use apohara_sealchain.Paths.{extension}

-- Everything the build links, and the shard file that it embeds, as serde_json parses it.
pub record Crates : Type 1 where
  pub crypto : Crypto
  pub media : MediaCrates crypto
  pub tsa : TsaCrates
  pub rekor : RekorCrates
  pub shard_file : Result String (List ShardKey)

unfoldable pub sha256_hex : Crypto → Bytes → String
sha256_hex c bytes = c.encode (c.digest bytes)

-- The local `decode_hex0x`, which forgets the error.
abbrev pub decode_hex : Crypto → String → Option Bytes
decode_hex c s = to_option (decode_hex0x c s)

unfoldable pub content_result : Bool → LayerResult
content_result true = layer "content" true "artifact hash matches receipt"
content_result false = layer "content" false "artifact hash mismatch: file does not match receipt"

module _ (c : Crypto) where
  unfoldable pub hmac_ok : Bool → Option Bytes → Option Bytes → Bytes → Bool
  hmac_ok true (some key) (some sig) computed = hmac_verify c computed sig key
  hmac_ok true none (some sig) computed = true
  hmac_ok true key none computed = false
  hmac_ok false key sig computed = false

  unfoldable pub hmac_reason : Bool → Bool → Bool → String
  hmac_reason passed has_key preimage_ok =
      if passed && has_key
      then "hmac verified"
      else if passed
      then "preimage integrity ok; HMAC not checked (no secret key supplied)"
      else if preimage_ok
      then "hmac signature invalid"
      else "hmac failed: preimage does not match payload"

  unfoldable pub hmac_layer : Bool → Option Bytes → Option Bytes → Bytes → LayerResult
  unfolding hmac_ok hmac_reason
  hmac_layer preimage_ok key sig computed =
      let passed = hmac_ok preimage_ok key sig computed in
      layer "hmac" passed (hmac_reason passed (is_some key) preimage_ok)

  unfoldable pub ed25519_ok : Bool → Option Bytes → Bytes → c.VerifyingKey → Bool
  ed25519_ok true (some sig) computed key = ed25519_verify c computed sig key
  ed25519_ok true none computed key = false
  ed25519_ok false sig computed key = false

  unfoldable pub ed25519_reason : Bool → Bool → String
  ed25519_reason passed preimage_ok =
      if passed
      then "ed25519 verified"
      else if preimage_ok
      then "ed25519 signature invalid"
      else "ed25519 failed: preimage does not match payload"

  unfoldable pub ed25519_results :
      Bool → Bytes → Option Ed25519Layer → Option String → Result SealError (List LayerResult)
  unfolding ed25519_ok ed25519_reason
  ed25519_results preimage_ok computed none public_key = ok []
  ed25519_results preimage_ok computed (some ed) public_key = do
    pem ← ok_or missing_public_key public_key
    key ← verifying_key_from_pem c pem
    let passed = ed25519_ok preimage_ok (decode_hex c ed.sig) computed key
    ok (layer "ed25519" passed (ed25519_reason passed preimage_ok) ∷ [])

  unfoldable pub crypto_layers :
      Value → SealBlock → Option Bytes → Result SealError (List LayerResult)
  unfolding hmac_layer ed25519_results
  crypto_layers payload seal key_hmac = do
    stored ← ok_or (invalid_preimage seal.preimage) (decode_hex c seal.preimage)
    computed ← build_preimage c payload seal.sealed_at
    let preimage_ok = bytes_eq computed stored
    rest ← ed25519_results preimage_ok computed seal.ed25519 seal.ed25519_public_key
    ok (hmac_layer preimage_ok key_hmac (decode_hex c seal.hmac.sig) computed ∷ rest)

  -- `hmac.sig || ed25519.sig`, the bytes that a timestamp covers.
  unfoldable pub tsa_to_stamp : SealBlock → Result SealError Bytes
  tsa_to_stamp seal = do
    hmac_sig ←
        ok_or (malformed ("invalid hmac.sig hex: " ++ seal.hmac.sig)) (decode_hex c seal.hmac.sig)
    ed_layer ← ok_or (malformed "tsa binding requires an ed25519 layer") seal.ed25519
    ed_sig ←
        ok_or (malformed ("invalid ed25519.sig hex: " ++ ed_layer.sig)) (decode_hex c ed_layer.sig)
    ok (hmac_sig append ed_sig)

unfoldable pub c2pa_result : Bool → LayerResult
c2pa_result true = layer "c2pa" true "c2pa manifest valid; payload hash bound"
c2pa_result false = layer "c2pa" false "c2pa manifest invalid or payload hash mismatch"

embedded_reason : Option Bytes → Bytes → LayerResult
embedded_reason none expected =
    layer "c2pa" false "embedded c2pa manifest has no signer certificate"
embedded_reason (some signer) expected =
    if bytes_eq signer expected
    then layer "c2pa" true "embedded c2pa manifest valid; signer is the seal key"
    else layer "c2pa" false "embedded c2pa signer key does not match the seal key"

-- The extension of the payload's path, else its MIME type.
unfoldable pub embedded_format : Value → String
embedded_format payload = elim (unwrap_or (map_option extension (get_str payload "path")) none) [
  | some ext ↦ to_ascii_lowercase ext
  | none ↦ unwrap_or (get_str payload "mime") ""
]

module _ (e : Crates) where
  unfoldable pub c2pa_layer : Value → String → Result SealError LayerResult
  unfolding c2pa_result
  c2pa_layer payload manifest_hex = do
    jumbf ←
        ok_or (c2pa ("invalid c2paManifest hex: " ++ manifest_hex))
          (decode_hex e.crypto manifest_hex)
    expected ← payload_hash_hex e.crypto payload
    passed ← verify_sidecar e.crypto e.media jumbf expected
    ok (c2pa_result passed)

  check_signer : Bytes → String → Option String → Result SealError LayerResult
  unfolding embedded_reason
  check_signer file_bytes format none =
      ok (layer "c2pa" true "embedded c2pa manifest valid; signer is the seal key")
  check_signer file_bytes format (some pem) = do
    expected ← verifying_key_from_pem e.crypto pem
    signer ← embedded_signer_pubkey e.crypto e.media file_bytes format
    ok (embedded_reason signer (e.crypto.as_bytes expected))

  unfoldable pub c2pa_embedded_layer : Bytes → Value → SealBlock → Result SealError LayerResult
  unfolding check_signer
  c2pa_embedded_layer file_bytes payload seal = do
    let format = embedded_format payload
    valid ← verify_embedded e.crypto e.media file_bytes format
    if valid
        then check_signer file_bytes format seal.ed25519_public_key
        else ok (layer "c2pa" false "embedded c2pa manifest invalid or absent")

  unfoldable pub tsa_layer : SealBlock → Value → Result SealError LayerResult
  tsa_layer seal tsa_value = do
    der_hex ← ok_or (malformed "seal.tsa missing der") (get_str tsa_value "der")
    der ← ok_or (malformed ("invalid seal.tsa der hex: " ++ der_hex)) (decode_hex e.crypto der_hex)
    to_stamp ← tsa_to_stamp e.crypto seal
    ok (verify_token e.tsa der to_stamp none)

  unfoldable pub load_shards : Result SealError (List ShardKey)
  load_shards = map_err (λ text. malformed ("parse rekor-shards.json: " ++ text)) e.shard_file

  unfoldable pub rekor_layer : Value → Result SealError LayerResult
  unfolding load_shards
  rekor_layer rekor_value = do
    anchor ← from_json e.crypto rekor_value
    shards ← load_shards
    let shard_pem =
        map_option (λ (s : ShardKey). into_bytes s.public_key_pem)
          (resolve_shard shards anchor.log_id)
    ok (verify_anchor e.rekor anchor shard_pem)

  -- A result for a layer that is present, none for one that is absent.
  abbrev pub when_some :
      {A : Type 0}
      → Option A
      → (A → Result SealError LayerResult)
      → Result SealError (List LayerResult)
  when_some none check = ok []
  when_some (some a) check = do result ← check a; ok (result ∷ [])

  unfoldable pub c2pa_results :
      Bytes → Value → SealBlock → Bool → Result SealError (List LayerResult)
  c2pa_results file_bytes payload seal true = do
    result ← c2pa_embedded_layer file_bytes payload seal
    ok (result ∷ [])
  c2pa_results file_bytes payload seal false = when_some seal.c2pa_manifest (c2pa_layer payload)

  -- The results after the content's.
  unfoldable pub layer_results :
      Bytes → SealedRecord → Option Bytes → Result SealError (List LayerResult)
  unfolding c2pa_results
  layer_results file_bytes receipt key_hmac = do
    signed ← crypto_layers e.crypto receipt.payload receipt.seal key_hmac
    bound ←
        c2pa_results file_bytes receipt.payload receipt.seal (is_true receipt.seal.c2pa_embedded)
    stamped ← when_some receipt.seal.tsa (tsa_layer receipt.seal)
    logged ← when_some receipt.seal.rekor_anchor rekor_layer
    ok (signed append (bound append (stamped append logged)))

  unfoldable pub verify_artifact_bytes :
      Bytes → SealedRecord → Option Bytes → Result SealError (List LayerResult)
  unfolding content_result layer_results
  verify_artifact_bytes file_bytes receipt key_hmac = do
    expected_hash ←
        ok_or (malformed "payload missing artifactSha256")
          (get_str receipt.payload "artifactSha256")
    let content_ok = sha256_hex e.crypto file_bytes == expected_hash
    rest ← layer_results file_bytes receipt key_hmac
    ok (content_result content_ok ∷ rest)
