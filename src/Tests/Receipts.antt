-- ===== src/Tests/Receipts.antt =====
-- The layers and whole receipts, run over the toy crates.
use apohara_sealchain.Prelude.Int.{pos}
use apohara_sealchain.Prelude.{
  ◌≡◌, ◌↔◌, refl, true, false, Bytes, Option, none, some, List, [], ◌∷◌, ◌++◌, ◌==◌, into_bytes,
  All,
}
use apohara_sealchain.Error.{ok}
use apohara_sealchain.Json.{Value, string, object, end, field, get_str, as_i64, from_i64}
use apohara_sealchain.Schema.{SealedRecord}
use apohara_sealchain.Layers.Rekor.{
  RekorAnchor, to_json, anchor_fields, proof_to_json, parse_proof, from_json, resolve_shard,
  verify_anchor,
}
use apohara_sealchain.Layers.Rekor.Sound.{Included, Committed, verify_anchor_iff}
use apohara_sealchain.LayerResult.{LayerResult, layer}
use apohara_sealchain.Seal.Shape.{block_of}
use apohara_sealchain.Verify.{verify_block}
use apohara_sealchain.Verify.Accepts.{Accepted, verify_block_iff}
use apohara_sealchain.Index.{present_layers}
use apohara_sealchain.Artifact.{
  sha256_hex, content_result, hmac_ok, hmac_reason, hmac_layer, ed25519_ok, ed25519_reason,
  ed25519_results, crypto_layers, load_shards, rekor_layer, c2pa_results, layer_results,
  verify_artifact_bytes,
}
use apohara_sealchain.Artifact.LayerNames.{names}
use apohara_sealchain.Artifact.Names.{verify_artifact_names}
use apohara_sealchain.Artifact.Agrees.{all_ok, crypto_layers_iff}
use apohara_sealchain.Artifact.Content.{verify_artifact_content, crypto_layers_tampered}
use apohara_sealchain.Tests.Toy.{toy}
use apohara_sealchain.Tests.Engine.{
  engine_runs, payload, tampered, key, preimage_of, sealed, key_text,
}
use apohara_sealchain.Tests.Crates.{toy_rekor, toy_crates}

unfoldable pub receipt_runs : Unit {0}
unfolding engine_runs as_i64 from_i64 to_json anchor_fields proof_to_json parse_proof from_json
    resolve_shard into_bytes verify_anchor sha256_hex content_result hmac_ok hmac_reason hmac_layer
    ed25519_ok ed25519_reason ed25519_results crypto_layers load_shards rekor_layer c2pa_results
    layer_results verify_artifact_bytes present_layers
receipt_runs = tt

abbrev pub file : Bytes
file = 3 ∷ []

abbrev pub file_payload : Value
file_payload =
    object (field "artifactSha256" (string "1101110") (field "path" (string "a.txt") end))

abbrev pub anchor : RekorAnchor
anchor = record {
  log_index = pos 0;
  log_id = "log";
  integrated_time = pos 9;
  inclusion_proof = record {
    log_index = pos 0;
    tree_size = pos 1;
    root_hash = "leaf";
    hashes = [];
    checkpoint = "leaf";
  };
  canonicalized_body = "leaf";
  envelope = object end;
  verifier = object end;
}

abbrev pub receipt : SealedRecord
receipt = record {
  payload = file_payload;
  seal =
      record (block_of toy (preimage_of file_payload) (key ++ preimage_of file_payload) (some 5)
        "now") { ed25519_public_key = some key_text; rekor_anchor = some (to_json anchor) };
}

abbrev pub results : List LayerResult
results =
    layer "content" true "artifact hash matches receipt"
    ∷ layer "hmac" true "hmac verified"
    ∷ layer "ed25519" true "ed25519 verified"
    ∷ layer "rekor" true
        "merkle inclusion ok; checkpoint signature verified against configured shard key"
    ∷ []

receipt_test : verify_artifact_bytes toy_crates file receipt (some key) ≡ ok results
unfolding receipt_runs
receipt_test = refl

held : get_str receipt.payload "artifactSha256" ≡ some "1101110"
unfolding receipt_runs
held = refl

verify_artifact_names_example : names results ≡ ("content" ∷ present_layers receipt)
verify_artifact_names_example =
    verify_artifact_names toy_crates file receipt (some key) results receipt_test

abbrev key_of : Option Bytes
key_of = some (1 ∷ [])

verify_anchor_iff_example : ((verify_anchor toy_rekor anchor key_of).ok ≡ true) ↔ (
    (pem : Bytes) × (root : Bytes) × (key_of ≡ some pem)
    × Included toy_rekor anchor root
    × Committed toy_rekor anchor pem root)
verify_anchor_iff_example = verify_anchor_iff toy_rekor anchor key_of

verify_block_iff_example :
    (verify_block toy payload sealed.seal key (some key_text) ≡ ok true)
    ↔ Accepted toy payload sealed.seal key (some key_text)
verify_block_iff_example = verify_block_iff toy payload sealed.seal key (some key_text)

crypto_layers_iff_example :
    ((xs : List LayerResult) × (crypto_layers toy file_payload receipt.seal (some key) ≡ ok xs)
      × (all_ok xs ≡ true))
    ↔ (verify_block toy file_payload receipt.seal key (some key_text) ≡ ok true)
crypto_layers_iff_example = crypto_layers_iff toy file_payload receipt.seal key

verify_artifact_content_example :
    (rest : List LayerResult) × ((content_result (sha256_hex toy file == "1101110") ∷ rest)
      ≡ results)
    × (verify_artifact_bytes toy_crates (4 ∷ []) receipt (some key)
        ≡ ok (content_result (sha256_hex toy (4 ∷ []) == "1101110") ∷ rest))
verify_artifact_content_example =
    verify_artifact_content toy_crates file (4 ∷ []) receipt (some key) "1101110" results refl held
      receipt_test

abbrev pub failed : List LayerResult
failed =
    layer "hmac" false "hmac failed: preimage does not match payload"
    ∷ layer "ed25519" false "ed25519 failed: preimage does not match payload"
    ∷ []

crypto_layers_tampered_example : All (λ (x : LayerResult). x.ok ≡ false) failed
unfolding receipt_runs
crypto_layers_tampered_example =
    crypto_layers_tampered toy tampered receipt.seal none (preimage_of tampered)
      (preimage_of file_payload) failed refl refl refl refl
