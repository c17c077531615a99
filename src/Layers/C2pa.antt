-- ===== src/Layers/C2pa.antt =====
-- crates/apohara-sealchain-core/src/layers/c2pa.rs: the C2PA manifest layer. Reading, signing and the
-- certificate parser are the c2pa, rcgen, pem and x509-parser crates', a parameter of the model.
pub mod Binding
use Prim.Native.String.{◌++◌}
use apohara_sealchain.Prelude.{
  String, Bytes, Bool, false, List, [], ◌∷◌, Option, none, some, ◌==◌, eq_ignore_ascii_case,
  to_ascii_lowercase, contains, if◌then◌else◌,
}
use apohara_sealchain.Error.{SealError, c2pa, Result, ok, ◌>>=◌, ◌>>◌, map_err}
use apohara_sealchain.Json.{Value, string, object, end, field, get_str, is_some, unwrap_or}
use apohara_sealchain.Crypto.{Crypto}
use apohara_sealchain.Excluded.{strip_excluded}
use apohara_sealchain.Layers.{canonicalize}

-- What c2pa::Reader reports of a manifest: its assertions, each with its label and the value or the
-- error of reading it, and the certificate chain of its signature, if there is one.
pub record Manifest : Type 0 where
  pub assertions : List (String × Result String Value)
  pub cert_chain : Option String

pub record Reading : Type 0 where
  pub is_invalid : Bool
  pub active_manifest : Option Manifest

pub record MediaCrates (c : Crypto) : Type 1 where
  -- Context::new().with_settings(offline settings)
  pub context : Result SealError (Unit {0})
  -- Reader::with_manifest_data_and_stream over the placeholder asset; Reader::with_stream
  pub read_sidecar : Bytes → Result String Reading
  pub read_stream : Bytes → String → Result String Reading
  -- Builder::sign with the seal's key: over an assertion (sidecar), and into an asset (embedded)
  pub sign_sidecar : c.SigningKey → String → Value → Bool → Result SealError Bytes
  pub sign_stream : c.SigningKey → Bytes → String → Bool → Result SealError Bytes
  -- the raw public key in the first certificate of a PEM chain
  pub spki_from_cert : String → Option Bytes

abbrev pub payload_hash_label : String
payload_hash_label = "apohara.seal.payloadHash"

-- The loop over the assertions: the first one with the label decides.
unfoldable pub find_bound : List (String × Result String Value) → String → Result SealError Bool
find_bound [] expected = ok false
find_bound ((label, value) ∷ rest) expected =
    let later = find_bound rest expected in
    if label == payload_hash_label
    then (do
      v ← map_err (λ e. c2pa ("assertion value: " ++ e)) value
      ok (eq_ignore_ascii_case (unwrap_or (get_str v "hash") "") expected))
    else later

unfoldable pub bound_in : Option Manifest → String → Result SealError Bool
unfolding find_bound
bound_in none expected = ok false
bound_in (some m) expected = find_bound m.assertions expected

module _ (c : Crypto) (media : MediaCrates c) where
  unfoldable pub verify_sidecar : Bytes → String → Result SealError Bool
  unfolding bound_in
  verify_sidecar manifest_bytes expected = do
    media.context
    reader ← map_err (λ e. c2pa ("read manifest: " ++ e)) (media.read_sidecar manifest_bytes)
    if reader.is_invalid then ok false else bound_in reader.active_manifest expected

  unfoldable pub verify_embedded : Bytes → String → Result SealError Bool
  verify_embedded media_bytes format = do
    media.context
    reader ←
        map_err (λ e. c2pa ("read embedded manifest: " ++ e)) (media.read_stream media_bytes format)
    if reader.is_invalid then ok false else ok (is_some reader.active_manifest)

  pub signer_of : Option Manifest → Option Bytes
  signer_of none = none
  signer_of (some m) = elim m.cert_chain [
    | none ↦ none
    | some chain ↦ if chain == "" then none else media.spki_from_cert chain
  ]

  unfoldable pub embedded_signer_pubkey : Bytes → String → Result SealError (Option Bytes)
  unfolding signer_of
  embedded_signer_pubkey media_bytes format = do
    media.context
    reader ←
        map_err (λ e. c2pa ("read embedded manifest: " ++ e)) (media.read_stream media_bytes format)
    ok (signer_of reader.active_manifest)

unfoldable pub hash_assertion : String → Value
hash_assertion hash_hex =
    object (field "alg" (string "sha256") (field "hash" (string hash_hex) end))

module _ (c : Crypto) where
  unfoldable pub payload_hash_hex : Value → Result SealError String
  payload_hash_hex payload = do
    canonical ← canonicalize c (strip_excluded payload)
    ok (c.encode (c.digest canonical))

  unfoldable pub emit_sidecar : MediaCrates c → Value → c.SigningKey → Bool → Result SealError Bytes
  unfolding hash_assertion
  emit_sidecar media payload signer_key ai_generated = do
    hash_hex ← payload_hash_hex payload
    media.context
    media.sign_sidecar signer_key payload_hash_label (hash_assertion hash_hex) ai_generated

abbrev embeddable_extensions : List String
embeddable_extensions =
    "avif" ∷ "heif" ∷ "heic" ∷ "mp4" ∷ "m4a" ∷ "mov" ∷ "m4v" ∷ "jpg" ∷ "jpeg" ∷ "jxl" ∷ "png"
    ∷ "avi" ∷ "wav" ∷ "webp" ∷ "svg" ∷ "xhtml" ∷ "xml" ∷ "tif" ∷ "tiff" ∷ "dng" ∷ "mp3" ∷ "flac"
    ∷ "gif" ∷ []

unfoldable pub is_embeddable_extension : String → Bool
is_embeddable_extension ext = contains embeddable_extensions (to_ascii_lowercase ext)

-- Building and signing the manifest into the asset are the c2pa crate's.
unfoldable pub embed_manifest :
    (c : Crypto) → MediaCrates c → Bytes → String → c.SigningKey → Bool → Result SealError Bytes
embed_manifest c media media_bytes format signer_key ai_generated = do
  media.context
  media.sign_stream signer_key media_bytes format ai_generated
