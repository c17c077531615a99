-- ===== src/Tests/Sealed.antt =====
-- Sealing a file, anchors and shards, run over the toy crates.
use apohara_sealchain.Prelude.{
  ◌≢◌, ◌≡◌, ◌↔◌, refl, true, false, Bytes, String, none, some, List, [], ◌∷◌, ◌++◌, Some, arith,
}
use apohara_sealchain.Error.{ok, err}
use apohara_sealchain.Json.{string, object, end, field}
use apohara_sealchain.Schema.{SealedRecord}
use apohara_sealchain.LayerResult.{LayerResult}
use apohara_sealchain.Layers.C2pa.{payload_hash_hex, hash_assertion, emit_sidecar, verify_sidecar}
use apohara_sealchain.Layers.C2pa.Binding.{verify_sidecar-emit_sidecar}
use apohara_sealchain.Layers.Rekor.{
  active, undeterminable, trim_slashes, stale, classify_shard, anchor_fields, from_json,
}
use apohara_sealchain.Layers.Rekor.Anchor.{from_json-anchor_fields}
use apohara_sealchain.Layers.Rekor.Shards.{IsSameUrl, classify_shard_iff}
use apohara_sealchain.Seal.Shape.{block_of}
use apohara_sealchain.Paths.{split_slashes, file_name}
use apohara_sealchain.Artifact.{verify_artifact_bytes}
use apohara_sealchain.Artifact.Agrees.{all_ok}
use apohara_sealchain.Sealing.{
  Keys, Environment, payload_of, add_c2pa, add_tsa, add_rekor, seal_bytes, prepare, seal_artifact,
}
use apohara_sealchain.Sealing.Shape.{offline}
use apohara_sealchain.Sealing.Receipts.{verify-seal_artifact}
use apohara_sealchain.Sealing.Complete.{seal_artifact_completes}
use apohara_sealchain.Excluded.{strip_excluded}
use apohara_sealchain.Tests.Toy.{toy, toy_laws, canonical}
use apohara_sealchain.Tests.Engine.{key, preimage_of, key_text}
use apohara_sealchain.Tests.Crates.{
  file_payload, sidecar_hash, toy_media, toy_media_laws, toy_crates,
}
use apohara_sealchain.Tests.Receipts.{receipt_runs, file, anchor}

abbrev pub toy_keys : Keys toy
toy_keys = record { hmac = key; ed25519 = 5; ed25519_public_pem = key_text }

-- A disk holds one file.
abbrev pub toy_environment : Environment toy
toy_environment = record {
  Disk = Bytes;
  read = λ disk path. ok disk;
  write = λ disk path b. ok b;
  guess_mime = λ path. none;
  now = "now";
  runtime = ok tt;
  timestamp_signature = λ url b. ok b;
  active_urls = [];
  submit = λ b k url. ok anchor;
}

unfoldable pub sealing_runs : Unit {0}
unfolding receipt_runs payload_of split_slashes file_name add_c2pa add_tsa add_rekor seal_bytes
    prepare seal_artifact payload_hash_hex hash_assertion emit_sidecar sidecar_hash
sealing_runs = tt

abbrev pub sealed_file : SealedRecord
sealed_file = record {
  payload = file_payload;
  seal =
      record (block_of toy (preimage_of file_payload) (key ++ preimage_of file_payload) (some 5)
        "now") { ed25519_public_key = some key_text; c2pa_manifest = some "0x10" };
}

sealed_file_test :
    seal_artifact toy_crates toy_environment toy_keys file "a.txt" (offline none true false)
    ≡ (file, ok sealed_file)
unfolding sealing_runs
sealed_file_test = refl

verify-seal_artifact_example :
    (file ≡ file)
    × (b : Bytes) × (toy_environment.read file "a.txt" ≡ ok b)
    × (xs : List LayerResult) × (verify_artifact_bytes toy_crates b sealed_file (some key) ≡ ok xs)
    × (all_ok xs ≡ true)
unfolding sealing_runs
verify-seal_artifact_example =
    verify-seal_artifact toy_crates toy_environment toy_keys toy_laws toy_media_laws file file
      "a.txt" none true false sealed_file refl sealed_file_test

seal_artifact_completes_example :
    (r : SealedRecord) × (seal_artifact toy_crates toy_environment toy_keys file "a.txt"
        (offline none true false)
      ≡ (file, ok r))
    × (xs : List LayerResult) × (verify_artifact_bytes toy_crates file r (some key) ≡ ok xs)
    × (all_ok xs ≡ true)
unfolding sealing_runs
seal_artifact_completes_example =
    seal_artifact_completes toy_crates toy_environment toy_keys toy_laws toy_media_laws file "a.txt"
      file (preimage_of file_payload) none true false refl refl refl
      (canonical (strip_excluded file_payload), 1 ∷ [], refl, refl, refl)

from_json-anchor_fields_example :
    from_json toy (object (anchor_fields anchor (field "shardActiveness" (string "active") end)))
    ≡ ok anchor
from_json-anchor_fields_example =
    from_json-anchor_fields toy anchor (field "shardActiveness" (string "active") end) (omega arith)
      (omega arith) (omega arith) (omega arith)

abbrev known : List String
known = "https://a/" ∷ []

classify_shard_iff_example :
    ((classify_shard "https://a//" known ≡ ok active) ↔ Some (λ u. IsSameUrl u "https://a//") known)
    × ((classify_shard "https://a//" known ≡ ok undeterminable) ↔ (known ≡ []))
    × ((classify_shard "https://a//" known ≡ err (stale "https://a//" known))
        ↔ ((known ≢ []) × (¬ Some (λ u. IsSameUrl u "https://a//") known)))
classify_shard_iff_example = classify_shard_iff "https://a//" known

classify_shard_test : classify_shard "https://a" ("https://a//" ∷ []) ≡ ok active
unfolding classify_shard trim_slashes
classify_shard_test = refl

verify_sidecar-emit_sidecar_example : verify_sidecar toy toy_media (1 ∷ []) sidecar_hash ≡ ok true
unfolding sealing_runs
verify_sidecar-emit_sidecar_example =
    verify_sidecar-emit_sidecar toy toy_media toy_media_laws file_payload 5 false (1 ∷ [])
      sidecar_hash refl refl
