-- ===== src/Sealing.antt =====
-- crates/apohara-sealchain-core/src/artifact.rs, sealing: a file into a self-contained receipt.
pub mod Shape
pub mod Offline
pub mod Receipts
pub mod Complete
use Prim.Native.String.{◌++◌}
use apohara_sealchain.Prelude.{
  ℕ, String, Bytes, Bool, true, false, ◌&&◌, not, length, List, Option, none, some,
  to_ascii_lowercase, if◌then◌else◌,
}
use apohara_sealchain.Error.{
  SealError, malformed, invalid_preimage, c2pa, Result, ok, err, ◌>>=◌, ◌>>◌, ensure, map_err,
  ok_or,
}
use apohara_sealchain.Json.{Value, string, number, positive, object, field, end, unwrap_or}
use apohara_sealchain.Crypto.{Crypto}
use apohara_sealchain.Schema.{SealBlock, SealedRecord}
use apohara_sealchain.Layers.{hex0x}
use apohara_sealchain.Layers.C2pa.{emit_sidecar, is_embeddable_extension, embed_manifest}
use apohara_sealchain.Layers.Tsa.{TsaToken, request_token}
use apohara_sealchain.Layers.Rekor.{RekorAnchor, anchor_fields, classify_shard, as_tag}
use apohara_sealchain.Seal.{seal_deterministic}
use apohara_sealchain.Paths.{file_name, extension}
use apohara_sealchain.Artifact.{Crates, sha256_hex, decode_hex, tsa_to_stamp}

pub record Keys (c : Crypto) : Type 0 where
  pub hmac : Bytes
  pub ed25519 : c.SigningKey
  pub ed25519_public_pem : String

-- The file system, the MIME table, the clock, and what the network answers.
pub record Environment (c : Crypto) : Type 1 where
  pub Disk : Type 0
  pub read : Disk → String → Result String Bytes
  pub write : Disk → String → Bytes → Result String Disk
  pub guess_mime : String → Option String
  pub now : String
  pub runtime : Result String (Unit {0})
  pub timestamp_signature : String → Bytes → Result String Bytes
  pub active_urls : List String
  pub submit : Bytes → c.SigningKey → String → Result SealError RekorAnchor

-- The options of a seal, apart from the path and the keys.
pub record SealOptions : Type 0 where
  pub sealed_at : Option String
  pub c2pa : Bool
  pub embed : Bool
  pub tsa : Option String
  pub rekor : Option String
  pub ai_generated : Bool

unfoldable pub payload_of : String → String → ℕ → String → Value
payload_of artifact_sha256 name size mime = object (
    field "artifactSha256" (string artifact_sha256) (
      field "path" (string name)
        (field "size" (number (positive size)) (field "mime" (string mime) end))))

unfoldable pub extension_lossy : String → String
extension_lossy path = elim (extension path) [ some ext ↦ to_ascii_lowercase ext | none ↦ "" ]

module _ (e : Crates) (env : Environment e.crypto) (keys : Keys e.crypto) where
  unfoldable pub add_c2pa : SealOptions → SealedRecord → Result SealError SealBlock
  add_c2pa opts r =
      if not opts.c2pa
      then ok r.seal
      else if opts.embed
      then ok (record (r.seal) { c2pa_embedded = some true })
      else (do
        jumbf ← emit_sidecar e.crypto e.media r.payload keys.ed25519 opts.ai_generated
        ok (record (r.seal) { c2pa_manifest = some (hex0x e.crypto jumbf) }))

  unfoldable pub add_tsa : Option String → SealBlock → Result SealError SealBlock
  add_tsa none seal = ok seal
  add_tsa (some tsa_url) seal = do
    to_stamp ← tsa_to_stamp e.crypto seal
    token ← request_token e.tsa env.runtime env.timestamp_signature to_stamp tsa_url
    ok (record seal {
      tsa = some (
          object (
            field "authority" (string token.authority) (
              field "issuedAt" (string token.issued_at)
                (field "der" (string (hex0x e.crypto token.der)) end))));
    })

  unfoldable pub add_rekor : Option String → SealBlock → Result SealError SealBlock
  add_rekor none seal = ok seal
  add_rekor (some shard_url) seal = do
    preimage ← ok_or (invalid_preimage seal.preimage) (decode_hex e.crypto seal.preimage)
    activeness ← classify_shard shard_url env.active_urls
    anchor ← env.submit preimage keys.ed25519 shard_url
    ok (record seal {
      rekor_anchor = some (
          object (anchor_fields anchor (field "shardActiveness" (string (as_tag activeness)) end)));
    })

  -- From the bytes that the receipt will bind.
  unfoldable pub seal_bytes : String → Bytes → SealOptions → Result SealError SealedRecord
  unfolding add_c2pa add_tsa add_rekor
  seal_bytes path bytes opts = do
    let name = unwrap_or (file_name path) path
    let mime = unwrap_or (env.guess_mime path) "application/octet-stream"
    let payload = payload_of (sha256_hex e.crypto bytes) name (length bytes) mime
    r ←
        seal_deterministic e.crypto payload keys.hmac (some keys.ed25519)
          (unwrap_or opts.sealed_at env.now)
    let signed = record r {
      seal = record (r.seal) { ed25519_public_key = some keys.ed25519_public_pem };
    }
    bound ← add_c2pa opts signed
    stamped ← add_tsa opts.tsa bound
    logged ← add_rekor opts.rekor stamped
    ok (record { payload = r.payload; seal = logged })

  unfoldable pub embed_into_file :
      env.Disk → String → Bytes → Bool → Result SealError (Bytes × env.Disk)
  embed_into_file disk path original_bytes ai_generated = do
    let ext = extension_lossy path
    ensure (is_embeddable_extension ext) (
        c2pa (
          "--embed: unsupported media format for in-file C2PA: " ++ path ++ " (extension \"" ++ ext
          ++ "\"). Embeddable formats: JPEG, PNG, TIFF/DNG, WEBP, AVIF/HEIF, MP4/MOV, GIF, SVG, WAV, MP3, FLAC, JXL. Use the offline sidecar (omit --embed) for other formats."))
    embedded ← embed_manifest e.crypto e.media original_bytes ext keys.ed25519 ai_generated
    disk' ←
        map_err (λ x. malformed ("rewrite embedded " ++ path ++ ": " ++ x))
          (env.write disk path embedded)
    ok (embedded, disk')

  -- The guards, the file's bytes, and in embed mode the rewritten file.
  unfoldable pub prepare : env.Disk → String → SealOptions → Result SealError (Bytes × env.Disk)
  unfolding embed_into_file
  prepare disk path opts = do
    ensure (not (opts.embed && not opts.c2pa))
        (c2pa "--embed requires the C2PA layer (do not combine with --no-c2pa)")
    ensure (not (opts.ai_generated && not opts.c2pa))
        (c2pa "--ai-generated requires the C2PA layer (do not combine with --no-c2pa)")
    bytes ← map_err (λ x. malformed ("read " ++ path ++ ": " ++ x)) (env.read disk path)
    if opts.embed then embed_into_file disk path bytes opts.ai_generated else ok (bytes, disk)

  -- A failure after the rewriting leaves the file rewritten.
  seal_prepared :
      env.Disk
      → String
      → SealOptions
      → Result SealError (Bytes × env.Disk)
      → env.Disk × Result SealError SealedRecord
  seal_prepared disk path opts (err x) = (disk, err x)
  seal_prepared disk path opts (ok (bytes, disk')) = (disk', seal_bytes path bytes opts)

  unfoldable pub seal_artifact :
      env.Disk → String → SealOptions → env.Disk × Result SealError SealedRecord
  unfolding seal_prepared prepare seal_bytes
  seal_artifact disk path opts = seal_prepared disk path opts (prepare disk path opts)
