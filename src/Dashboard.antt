-- ===== src/Dashboard.antt =====
-- crates/apohara-sealchain-core/src/dashboard.rs, and `build_dashboard_entry` of
-- crates/apohara-sealchain/src/cli.rs: a row's status and the escaping of its texts. `render_html` is in
-- Page.
pub mod Honest
pub mod Page
use Prim.Native.String
use Prim.Native.String.{◌++◌}
use Prim.Native.Char.{Char, code}
use apohara_sealchain.Prelude.{
  ℕ, nat_eq, String, Bytes, Bool, true, false, List, [], Option, none, some, if◌then◌else◌,
}
use apohara_sealchain.Error.{SealError, Result, ok, err}
use apohara_sealchain.Json.{get_str, unwrap_or}
use apohara_sealchain.Schema.{SealedRecord, map_option}
use apohara_sealchain.LayerResult.{LayerResult}
use apohara_sealchain.Index.{present_layers}
use apohara_sealchain.Artifact.{Crates}
use apohara_sealchain.Artifact.Agrees.{all_ok}
use apohara_sealchain.Policy.{Policy, PolicyReport, Chrono, evaluate}
use apohara_sealchain.Cli.{Shell, verify_artifact}

pub data VerifyStatus : Type 0 where
  pass fail receipt_only : VerifyStatus

pub record DashboardEntry : Type 0 where
  pub artifact_path : String
  pub artifact_sha256 : String
  pub sealed_at : String
  pub layers : List String
  pub receipt_path : String
  pub status : VerifyStatus
  pub layer_results : List LayerResult
  pub policy : Option PolicyReport

-- One character of `esc`.
esc_char : Char → String → String
esc_char c rest =
    if nat_eq (code c) 38
    then "&amp;" ++ rest
    else if nat_eq (code c) 60
    then "&lt;" ++ rest
    else if nat_eq (code c) 62
    then "&gt;" ++ rest
    else if nat_eq (code c) 34
    then "&quot;" ++ rest
    else if nat_eq (code c) 39
    then "&#39;" ++ rest
    else String.◌∷◌ c rest

unfoldable pub esc : String → String
unfolding esc_char
esc String.[] = ""
esc (String.◌∷◌ c s) = esc_char c (esc s)

-- Status, layer results and policy report of a row.
abbrev pub Outcome : Type 0
Outcome = VerifyStatus × List LayerResult × Option PolicyReport

module _ (e : Crates) (chrono : Chrono) (sh : Shell chrono) where
  -- A policy is evaluated only for a row that verifies.
  verified_outcome : SealedRecord → Option Policy → List LayerResult → Bool → Outcome
  verified_outcome r policy results true =
      (pass, results, map_option (λ (p : Policy). evaluate chrono p r results sh.now) policy)
  verified_outcome r policy results false = (fail, results, none)

  outcome_of : SealedRecord → Option Policy → Result SealError (List LayerResult) → Outcome
  outcome_of r policy (ok results) = verified_outcome r policy results (all_ok results)
  outcome_of r policy (err x) = (receipt_only, [], none)

  row_outcome : Bool → SealedRecord → String → Option Policy → Outcome
  row_outcome true r artifact policy =
      outcome_of r policy (verify_artifact e chrono sh artifact r none)
  row_outcome false r artifact policy = (receipt_only, [], none)

  -- `exists` says whether the artifact's path exists.
  unfoldable pub build_dashboard_entry :
      (String → Bool) → String → SealedRecord → String → Option Policy → DashboardEntry
  unfolding row_outcome outcome_of verified_outcome
  build_dashboard_entry exists receipt_path r artifact policy =
      let outcome = row_outcome (exists artifact) r artifact policy in
      record {
        artifact_path = artifact;
        artifact_sha256 = unwrap_or (get_str r.payload "artifactSha256") "";
        sealed_at = r.seal.sealed_at;
        layers = present_layers r;
        receipt_path = receipt_path;
        status = outcome.0;
        layer_results = outcome.1;
        policy = outcome.2;
      }
