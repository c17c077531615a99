-- ===== src/Tests/Policies.antt =====
-- Policies and exit codes, run over the toy crates.
use apohara_sealchain.Prelude.Int.{pos}
use apohara_sealchain.Prelude.Slices.{take}
use apohara_sealchain.Prelude.{
  length, ◌==◌, if◌then◌else◌, ◌+◌, ℕ, ◌≡◌, ◌↔◌, refl, true, false, String, Option, none, some,
  List, [], ◌∷◌, All, Some,
}
use apohara_sealchain.Error.{Result, ok, err}
use apohara_sealchain.Json.{null}
use apohara_sealchain.Schema.{SealedRecord}
use apohara_sealchain.LayerResult.{LayerResult}
use apohara_sealchain.TrustProfile.{find_profile, named_profile}
use apohara_sealchain.Policy.{Policy, Chrono, from_profile, evaluate}
use apohara_sealchain.Policy.Passed.{Satisfies, evaluate_passed_iff}
use apohara_sealchain.Artifact.Agrees.{all_ok}
use apohara_sealchain.Cli.{
  exit_ok, exit_policy, Shell, VerifyArgs, FailureKind, usage, network, report_of, run_verify,
  exit_code_for, seal_loop,
}
use apohara_sealchain.Cli.Verdict.{Completes, IsPassing, IsFailing, run_verify_iff}
use apohara_sealchain.Cli.Batch.{
  IsSealed, IsNetwork, exit_code_for_iff, until_failure, seal_loop-until_failure,
}
use apohara_sealchain.Cli.{verify_artifact}
use apohara_sealchain.Dashboard.{pass, esc, build_dashboard_entry}
use apohara_sealchain.Dashboard.Honest.{build_dashboard_entry_pass_iff}
use apohara_sealchain.Tests.Crates.{toy_crates}
use apohara_sealchain.Tests.Receipts.{file, receipt, results}

abbrev pub toy_chrono : Chrono
toy_chrono = record { DateTime = ℕ; parse_from_rfc3339 = λ s. ok 1; num_days = λ now t. pos 3 }

abbrev pub transparency : Policy
transparency = record {
  require_layers = "ed25519" ∷ "rekor" ∷ [];
  forbid_layers = [];
  min_layers = some 2;
  require_qualified_tsa = false;
  max_age_days = none;
  require_tsa_authority_in = none;
}

from_profile_test : from_profile "transparency" ≡ some transparency
unfolding from_profile named_profile find_profile
from_profile_test = refl

evaluate_passed_iff_example :
    ((evaluate toy_chrono transparency receipt results 4).passed ≡ true)
    ↔ Satisfies toy_chrono transparency receipt results 4
evaluate_passed_iff_example = evaluate_passed_iff toy_chrono transparency receipt results 4

abbrev pub toy_shell : Shell toy_chrono
toy_shell = record {
  read = λ path. ok file;
  read_to_string = λ path. ok "text";
  parse_json = λ text. ok null;
  parse_toml = λ text. ok transparency;
  now = 4;
}

abbrev pub args : VerifyArgs
args = record {
  path = "a.txt";
  receipt = "r";
  hmac_key = none;
  policy = none;
  profile = some "transparency";
}

run_verify_iff_example :
    ((run_verify toy_crates toy_chrono toy_shell args ≡ exit_ok) ↔ (
      (r : SealedRecord) × (rs : List LayerResult) × (policy : Option (Policy × Option String))
      × Completes toy_crates toy_chrono toy_shell args r rs policy
      × (all_ok rs ≡ true)
      × IsPassing toy_crates toy_chrono toy_shell
          (report_of toy_crates toy_chrono toy_shell r rs policy)))
    × ((run_verify toy_crates toy_chrono toy_shell args ≡ exit_policy) ↔ (
        (r : SealedRecord) × (rs : List LayerResult) × (policy : Option (Policy × Option String))
        × Completes toy_crates toy_chrono toy_shell args r rs policy
        × (all_ok rs ≡ true)
        × IsFailing toy_crates toy_chrono toy_shell
            (report_of toy_crates toy_chrono toy_shell r rs policy)))
run_verify_iff_example = run_verify_iff toy_crates toy_chrono toy_shell args

abbrev pub outcomes : List (Result FailureKind ℕ)
outcomes = ok 1 ∷ err usage ∷ err network ∷ []

exit_code_for_iff_example :
    ((exit_code_for outcomes ≡ 0) ↔ All IsSealed outcomes)
    × ((exit_code_for outcomes ≡ 1) ↔ Some IsNetwork outcomes)
exit_code_for_iff_example = exit_code_for_iff outcomes

-- The second artifact fails.
abbrev fail_second : ℕ → String → ℕ × Result FailureKind ℕ
fail_second n path = if path == "b" then (n + 1, err usage) else (n + 1, ok n)

abbrev paths : List String
paths = "a" ∷ "b" ∷ "c" ∷ []

seal_loop-until_failure_example :
    ((seal_loop fail_second true 0 paths).1 ≡ until_failure (seal_loop fail_second false 0 paths).1)
    × (seal_loop fail_second true 0 paths
        ≡ seal_loop fail_second false 0
            (take (length (seal_loop fail_second true 0 paths).1) paths))
seal_loop-until_failure_example = seal_loop-until_failure fail_second 0 paths

seal_loop_test : seal_loop fail_second true 0 paths ≡ (2, ok 0 ∷ err usage ∷ [])
unfolding seal_loop
seal_loop_test = refl

esc_test : esc "<a>" ≡ "&lt;a&gt;"
unfolding esc
esc_test = refl

build_dashboard_entry_pass_iff_example :
    ((build_dashboard_entry toy_crates toy_chrono toy_shell
        (λ path. true)
        "r"
        receipt
        "a.txt"
        (some transparency)).status
      ≡ pass)
    ↔ ((true ≡ true)
        × (rs : List LayerResult) × (verify_artifact toy_crates toy_chrono toy_shell "a.txt" receipt
              none
            ≡ ok rs)
        × (all_ok rs ≡ true))
build_dashboard_entry_pass_iff_example =
    build_dashboard_entry_pass_iff toy_crates toy_chrono toy_shell (λ path. true) "r" receipt
      "a.txt" (some transparency)
