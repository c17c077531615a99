-- ===== src/Tests/Commands.antt =====
-- The commands and the tools, run over a disk.
use apohara_sealchain.Prelude.{
  show, eq_ignore_ascii_case, ◌≡◌, refl, String, true, false, ℕ_discrete, List, [], ◌∷◌, none, some,
  All, bytes_eq, into_bytes, strip_prefix,
}
use apohara_sealchain.Prelude.Sorting.{bytes_leb, sort_by}
use apohara_sealchain.Error.{ok}
use apohara_sealchain.Json.{Value, bool, string, object, field, end, get, get_field}
use apohara_sealchain.Schema.{
  record_to_value, record_from_value, seal_to_fields, hmac_to_value, ed25519_to_value, put_some,
}
use apohara_sealchain.Paths.{split_on, file_name}
use apohara_sealchain.Paths.Order.{path_leb, path_eq}
use apohara_sealchain.Index.{index_record_from}
use apohara_sealchain.Index.Store.{is_receipt_file, index_insert}
use apohara_sealchain.Keystore.{from_parts}
use apohara_sealchain.Keystore.Dir.{resolve_config_dir, no_files}
use apohara_sealchain.Keystore.Store.{from_overrides}
use apohara_sealchain.Cli.{
  exit_ok, verify_artifact, resolve_hmac_key, optional_key, run_verify, exit_code_for, seal_loop,
}
use apohara_sealchain.Cli.Inputs.{expand_inputs}
use apohara_sealchain.Cli.RunSeal.{
  SealArgs, World, shell, default_receipt_path, seal_one, config_of, resolve_keys_for_seal,
  seal_batch, run_seal,
}
use apohara_sealchain.Cli.RunSeal.Verifies.{verify_beside, run_verify-run_seal}
use apohara_sealchain.Keystore.Operations.{load_or_generate}
use apohara_sealchain.LayerResult.{LayerResult, layer}
use apohara_sealchain.Layers.C2pa.{verify_sidecar}
use apohara_sealchain.Artifact.{c2pa_layer}
use apohara_sealchain.Artifact.Agrees.{all_ok}
use apohara_sealchain.Artifact.Chain.{render_chain}
use apohara_sealchain.Mcp.{
  SealParams, VerifyParams, layers_json, verify_outcome, show_chain, seal_outcome,
}
use apohara_sealchain.Mcp.Agrees.{Matches, args_of, run_verify-verify_outcome}
use apohara_sealchain.Mcp.Seals.{offline_params, verify_outcome-seal_outcome}
use apohara_sealchain.Tests.Toy.{toy_laws}
use apohara_sealchain.Tests.Engine.{key}
use apohara_sealchain.Tests.Crates.{toy_crates, toy_media_laws}
use apohara_sealchain.Tests.Receipts.{file}
use apohara_sealchain.Tests.Policies.{toy_chrono}
use apohara_sealchain.Tests.Sealed.{toy_keys, sealed_file, sealing_runs}
use apohara_sealchain.Tests.Disks.{
  decided, String_discrete, Value-discrete, read, print_if, toy_system, toy_files,
}

-- The key of the seal, in hex.
abbrev spec : String
spec = "111111101111111110"

abbrev pub args : SealArgs
args = record {
  paths = "a.txt" ∷ [];
  recursive = false;
  fail_fast = false;
  no_index = false;
  out = none;
  sealed_at = none;
  key = none;
  hmac_key = some spec;
  passphrase = none;
  no_c2pa = false;
  tsa = none;
  rekor = none;
  all = false;
  embed = false;
  ai_generated = false;
}

abbrev pub before : World toy_crates toy_chrono toy_system
before = record {
  disk = ("a.txt", file) ∷ [];
  table = [];
  keys = record { active = no_files; archive = [] };
}

abbrev pub after : World toy_crates toy_chrono toy_system
after = record before {
  disk = ("a.txt.seal.json", 7 ∷ []) ∷ ("a.txt", file) ∷ [];
  table = index_record_from sealed_file "a.txt.seal.json" "now" ∷ [];
}

unfoldable pub disk_runs : Unit {0}
unfolding sealing_runs run_seal seal_batch seal_one config_of resolve_keys_for_seal from_overrides
    from_parts optional_key resolve_hmac_key strip_prefix seal_loop exit_code_for expand_inputs
    is_receipt_file file_name split_on sort_by path_leb path_eq bytes_leb bytes_eq into_bytes read
    default_receipt_path Value-discrete String_discrete decided ℕ_discrete record_to_value
    seal_to_fields hmac_to_value ed25519_to_value put_some index_record_from index_insert print_if
    seal_outcome load_or_generate resolve_config_dir verify_artifact c2pa_layer verify_sidecar
    layers_json get get_field show_chain eq_ignore_ascii_case show
disk_runs = tt

pub run_seal_test : run_seal toy_crates toy_chrono toy_system args before ≡ (after, exit_ok)
unfolding disk_runs
run_seal_test = refl

run_verify-run_seal_example :
    (Path (List String) [] [])
    × All
        (λ a.
          run_verify toy_crates toy_chrono
            (shell toy_crates toy_chrono toy_system after.disk)
            (verify_beside spec a)
          ≡ exit_ok)
        ("a.txt" ∷ [])
unfolding disk_runs
run_verify-run_seal_example =
    run_verify-run_seal toy_crates toy_chrono toy_system toy_laws toy_media_laws toy_files args
      before before after ("a.txt" ∷ []) [] toy_keys spec refl refl refl run_seal_test

abbrev params : SealParams
params = record {
  path = "a.txt";
  c2pa = true;
  embed = false;
  tsa = none;
  rekor = none;
  all = false;
  ai_generated = false;
}

abbrev passes : List LayerResult
passes =
    layer "content" true "artifact hash matches receipt"
    ∷ layer "hmac" true "hmac verified"
    ∷ layer "ed25519" true "ed25519 verified"
    ∷ layer "c2pa" true "c2pa manifest valid; payload hash bound"
    ∷ []

abbrev outcome : Value
outcome = object (
    field "ok" (bool true) (
      field "receipt_path" (string "a.txt.seal.json")
        (field "sealed_at" (string "now") (field "layers" (layers_json passes) end))))

-- The directory held no keys, so the tool has generated them.
abbrev left : World toy_crates toy_chrono toy_system
left = record before {
  disk = ("a.txt.seal.json", 7 ∷ []) ∷ ("a.txt", file) ∷ [];
  keys = record {
    active = record {
      ed25519_pem = some (into_bytes "111110");
      hmac_key = some key;
      keystore_enc = none;
      public_pem = none;
    };
    archive = [];
  };
}

seal_outcome_test :
    seal_outcome toy_crates toy_chrono toy_system (offline_params params) before
    ≡ (left, ok outcome)
unfolding disk_runs
seal_outcome_test = refl

verify_outcome-seal_outcome_example :
    (results : List LayerResult) × (get outcome "layers" ≡ some (layers_json results))
    × (all_ok results ≡ true)
    × (answer : Value) × (verify_outcome toy_crates toy_chrono
          (shell toy_crates toy_chrono toy_system left.disk)
          (record { path = "a.txt"; receipt = default_receipt_path "a.txt"; profile = none })
        ≡ ok answer)
    × (get answer "ok" ≡ some (bool true))
verify_outcome-seal_outcome_example =
    verify_outcome-seal_outcome toy_crates toy_chrono toy_system toy_laws toy_media_laws toy_files
      params before left outcome seal_outcome_test

abbrev asked : VerifyParams
asked = record { path = "a.txt"; receipt = "a.txt.seal.json"; profile = some "offline-basic" }

run_verify-verify_outcome_example :
    Matches
      (verify_outcome toy_crates toy_chrono
        (shell toy_crates toy_chrono toy_system left.disk)
        asked)
      (run_verify toy_crates toy_chrono
        (shell toy_crates toy_chrono toy_system left.disk)
        (args_of asked))
run_verify-verify_outcome_example =
    run_verify-verify_outcome toy_crates toy_chrono
      (shell toy_crates toy_chrono toy_system left.disk) asked

show_chain_test :
    show_chain toy_crates toy_chrono
      (shell toy_crates toy_chrono toy_system left.disk)
      "a.txt.seal.json"
    ≡ ok
        "method:   apohara-seal-v1\nsealedAt: now\nartifact: a.txt (1 bytes)\nlayers:\n  hmac      [HMAC-SHA256]\n  ed25519 (public key embedded)\n  c2pa      (sidecar JUMBF manifest)\n"
unfolding disk_runs render_chain record_from_value
show_chain_test = refl
