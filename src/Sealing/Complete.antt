-- ===== src/Sealing/Complete.antt =====
-- crates/apohara-sealchain-core/src/artifact.rs: sealing offline comes to an end with a receipt.
use apohara_sealchain.Prelude.{
  ◌≡◌, refl, subst, String, Bytes, Bool, true, false, List, Option, some,
}
use apohara_sealchain.Error.{ok}
use apohara_sealchain.Json.{Value, unwrap_or}
use apohara_sealchain.Crypto.{CryptoLaws}
use apohara_sealchain.Schema.{SealBlock, SealedRecord}
use apohara_sealchain.Excluded.{strip_excluded}
use apohara_sealchain.LayerResult.{LayerResult}
use apohara_sealchain.Layers.{hex0x, canonicalize, hmac_sign}
use apohara_sealchain.Layers.C2pa.{
  payload_hash_label, hash_assertion, payload_hash_hex, emit_sidecar,
}
use apohara_sealchain.Layers.C2pa.Binding.{MediaLaws}
use apohara_sealchain.Seal.{envelope, build_preimage, seal_deterministic}
use apohara_sealchain.Seal.Shape.{block_of}
use apohara_sealchain.Artifact.{Crates, verify_artifact_bytes}
use apohara_sealchain.Artifact.Agrees.{all_ok}
use apohara_sealchain.Sealing.{
  Keys, Environment, add_c2pa, add_tsa, add_rekor, seal_bytes, prepare, seal_prepared,
  seal_artifact,
}
use apohara_sealchain.Sealing.Shape.{offline, file_payload}
use apohara_sealchain.Sealing.Receipts.{verify-seal_artifact}

module _ (e : Crates) (env : Environment e.crypto) (keys : Keys e.crypto) where
  -- What the C2PA layer needs: the crate's settings and signature, and the payload in canonical form;
  -- without the layer, no mark that the artifact is AI-generated.
  abbrev pub CanBind : Bool → Bool → Value → Type 0
  CanBind false ai payload = ai ≡ false
  CanBind true ai payload =
      (q : Bytes) × (jumbf : Bytes) × (e.media.context ≡ ok tt)
      × (e.crypto.to_vec (strip_excluded payload) ≡ ok q)
      × (e.media.sign_sidecar keys.ed25519 payload_hash_label
            (hash_assertion (e.crypto.encode (e.crypto.digest q))) ai
          ≡ ok jumbf)

  add_c2pa_completes :
      (at : Option String) (with_c2pa ai : Bool) (r : SealedRecord)
      → CanBind with_c2pa ai r.payload
      → (s : SealBlock) × (add_c2pa e env keys (offline at with_c2pa ai) r ≡ ok s)
  unfolding add_c2pa emit_sidecar payload_hash_hex canonicalize
  add_c2pa_completes at false ai r h = (r.seal, refl)
  add_c2pa_completes at true ai r (q, jumbf, context, made, signed) = (
    record (r.seal) { c2pa_manifest = some (hex0x e.crypto jumbf) },
    rw (made, context, signed) refl,
  )

  seal_bytes_completes :
      (laws : CryptoLaws e.crypto) (path : String) (b : Bytes) (at : Option String)
      (with_c2pa ai : Bool) (p : Bytes)
      → e.crypto.to_vec (envelope (file_payload e env keys path b) (unwrap_or at env.now)) ≡ ok p
      → CanBind with_c2pa ai (file_payload e env keys path b)
      → (r : SealedRecord) × (seal_bytes e env keys path b (offline at with_c2pa ai) ≡ ok r)
  unfolding seal_bytes seal_deterministic build_preimage canonicalize hmac_sign add_tsa add_rekor
  seal_bytes_completes laws path b at with_c2pa ai p made bind =
      let payload = file_payload e env keys path b in
      let time = unwrap_or at env.now in
      let (m, keyed) = laws.any_key keys.hmac in
      let tag = e.crypto.finalize m p in
      let block = record (block_of e.crypto p tag (some keys.ed25519) time) {
        ed25519_public_key = some keys.ed25519_public_pem;
      } in
      let (s, bound) =
        add_c2pa_completes at with_c2pa ai (record { payload = payload; seal = block }) bind in
      (record { payload = payload; seal = s }, rw (made, keyed, bound) refl)

  prepare_completes :
      (disk : env.Disk) (path : String) (b : Bytes) (at : Option String) (with_c2pa ai : Bool)
      (payload : Value)
      → env.read disk path ≡ ok b
      → CanBind with_c2pa ai payload
      → prepare e env keys disk path (offline at with_c2pa ai) ≡ ok (b, disk)
  unfolding prepare
  prepare_completes disk path b at false ai payload held bind = rw (bind, held) refl
  prepare_completes disk path b at true true payload held bind = rw held refl
  prepare_completes disk path b at true false payload held bind = rw held refl

  -- Sealing a path that can be read, without the network and without embedding, succeeds when its
  -- envelope has a canonical form and the C2PA crate signs (or the layer is off and no AI mark is
  -- asked for); the disk is as it was, and the receipt verifies against the bytes, every result a
  -- pass. The keys' public text is assumed to be that of the signing key, and the crates to keep
  -- their laws.
  pub seal_artifact_completes :
      (laws : CryptoLaws e.crypto) (media_laws : MediaLaws e.crypto e.media) (disk : env.Disk)
      (path : String) (b p : Bytes) (at : Option String) (with_c2pa ai : Bool)
      → e.crypto.to_public_key_pem (e.crypto.verifying_key keys.ed25519)
        ≡ ok keys.ed25519_public_pem
      → env.read disk path ≡ ok b
      → e.crypto.to_vec (envelope (file_payload e env keys path b) (unwrap_or at env.now)) ≡ ok p
      → CanBind with_c2pa ai (file_payload e env keys path b)
      → (r : SealedRecord) × (seal_artifact e env keys disk path (offline at with_c2pa ai)
          ≡ (disk, ok r))
        × (xs : List LayerResult) × (verify_artifact_bytes e b r (some keys.hmac) ≡ ok xs)
        × (all_ok xs ≡ true)
  unfolding seal_artifact seal_prepared
  seal_artifact_completes laws media_laws disk path b p at with_c2pa ai text held made bind =
      let (r, sealed) = seal_bytes_completes laws path b at with_c2pa ai p made bind in
      let ready = prepare_completes disk path b at with_c2pa ai _ held bind in
      let done : seal_artifact e env keys disk path (offline at with_c2pa ai) ≡ (disk, ok r) =
        rw (ready, sealed) refl in
      let (same, b', held', xs, verified, good) =
        verify-seal_artifact e env keys laws media_laws disk disk path at with_c2pa ai r text
          done in
      let one : b' ≡ b = cc in
      (
        r,
        done,
        xs,
        subst (λ (x : Bytes). verify_artifact_bytes e x r (some keys.hmac) ≡ ok xs) one verified,
        good,
      )
