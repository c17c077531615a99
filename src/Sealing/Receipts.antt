-- ===== src/Sealing/Receipts.antt =====
-- A path sealed offline: the disk stays as it was, and the receipt verifies.
use Prim.Native.String.{◌++◌}
use apohara_sealchain.Prelude.{
  ◌≡◌, ap, subst, ◌∙◌, String, Bytes, Bool, true, ◌&&◌, not, List, Option, some,
}
use apohara_sealchain.Error.{
  SealError, c2pa, malformed, Result, ok, err, ensure, map_err, map_err-eq-ok, >>=-eq-ok,
}
use apohara_sealchain.Crypto.{CryptoLaws}
use apohara_sealchain.Schema.{SealedRecord}
use apohara_sealchain.Schema.RoundTrip.{IsWritable}
use apohara_sealchain.LayerResult.{LayerResult}
use apohara_sealchain.Layers.C2pa.Binding.{MediaLaws}
use apohara_sealchain.Artifact.{Crates, verify_artifact_bytes}
use apohara_sealchain.Artifact.Agrees.{all_ok}
use apohara_sealchain.Sealing.{
  Keys, Environment, SealOptions, seal_bytes, prepare, seal_prepared, seal_artifact,
}
use apohara_sealchain.Sealing.Shape.{offline, seal_bytes-offline}
use apohara_sealchain.Sealing.Offline.{verify-seal_bytes}

module _ (e : Crates) (env : Environment e.crypto) (keys : Keys e.crypto) where
  seal_prepared-ok :
      (disk disk' : env.Disk) (path : String) (opts : SealOptions)
      (m : Result SealError (Bytes × env.Disk)) (r : SealedRecord)
      → seal_prepared e env keys disk path opts m ≡ (disk', ok r)
      → (b : Bytes) × (m ≡ ok (b, disk')) × (seal_bytes e env keys path b opts ≡ ok r)
  unfolding seal_prepared
  seal_prepared-ok disk disk' path opts (err x) r h = cc
  seal_prepared-ok disk disk' path opts (ok (b, d)) r h =
      let same : d ≡ disk' = cc in (b, ap (λ (x : env.Disk). ok (b, x)) same, cc)

  prepare-offline :
      (disk disk' : env.Disk) (path : String) (at : Option String) (with_c2pa ai : Bool) (b : Bytes)
      → prepare e env keys disk path (offline at with_c2pa ai) ≡ ok (b, disk')
      → (env.read disk path ≡ ok b) × (disk' ≡ disk)
  unfolding prepare
  prepare-offline disk disk' path at with_c2pa ai b h =
      let (u, h₁, h₂) =
        >>=-eq-ok
          (ensure (not (ai && not with_c2pa))
            (c2pa "--ai-generated requires the C2PA layer (do not combine with --no-c2pa)"))
          _ h in
      let (bytes, h₃, h₄) =
        >>=-eq-ok (map_err (λ x. malformed ("read " ++ path ++ ": " ++ x)) (env.read disk path)) _
          h₂ in
      let same : bytes ≡ b = cc in (map_err-eq-ok _ (env.read disk path) h₃ ∙ ap ok same, cc)

  -- When sealing a path succeeds without the network and without embedding, the disk is as it was,
  -- and the receipt verifies against the bytes that the path holds: every result is a pass under the
  -- sealing HMAC key. The keys' public text is assumed to be that of the signing key, and the crates
  -- to keep their laws.
  pub verify-seal_artifact :
      (laws : CryptoLaws e.crypto) (media_laws : MediaLaws e.crypto e.media) (disk disk' : env.Disk)
      (path : String) (at : Option String) (with_c2pa ai : Bool) (r : SealedRecord)
      → e.crypto.to_public_key_pem (e.crypto.verifying_key keys.ed25519)
        ≡ ok keys.ed25519_public_pem
      → seal_artifact e env keys disk path (offline at with_c2pa ai) ≡ (disk', ok r)
      → (disk' ≡ disk)
        × (b : Bytes) × (env.read disk path ≡ ok b)
        × (xs : List LayerResult) × (verify_artifact_bytes e b r (some keys.hmac) ≡ ok xs)
        × (all_ok xs ≡ true)
  unfolding seal_artifact
  verify-seal_artifact laws media_laws disk disk' path at with_c2pa ai r text h =
      let (b, prepared, sealed) =
        seal_prepared-ok disk disk' path (offline at with_c2pa ai)
          (prepare e env keys disk path (offline at with_c2pa ai)) r h in
      let (held, same) = prepare-offline disk disk' path at with_c2pa ai b prepared in
      let (xs, verified, good) =
        verify-seal_bytes e env keys laws media_laws path b at with_c2pa ai r text sealed in
      (same, b, held, xs, verified, good)

  -- No opaque layer of a record that is sealed offline is the JSON null.
  pub seal_artifact-IsWritable :
      (disk disk' : env.Disk) (path : String) (at : Option String) (with_c2pa ai : Bool)
      (r : SealedRecord)
      → seal_artifact e env keys disk path (offline at with_c2pa ai) ≡ (disk', ok r)
      → IsWritable r.seal
  unfolding seal_artifact
  seal_artifact-IsWritable disk disk' path at with_c2pa ai r h =
      let (b, prepared, sealed) =
        seal_prepared-ok disk disk' path (offline at with_c2pa ai)
          (prepare e env keys disk path (offline at with_c2pa ai)) r h in
      let (p, tag, sidecar, made, signed, of, same) =
        seal_bytes-offline e env keys path b at with_c2pa ai sealed in
      subst (λ (x : SealedRecord). IsWritable x.seal) same ((λ o. cc), λ o. cc)
