-- ===== src/Cli.antt =====
-- crates/apohara-sealchain/src/cli.rs: the exit codes of `verify` and of a batch `seal`. What is
-- printed is not modelled.
pub mod Verdict
pub mod Batch
pub mod Inputs
pub mod RunSeal
pub mod RunDashboard
pub mod RunKeys
use Prim.Native.String.{◌++◌}
use apohara_sealchain.Prelude.{
  ℕ, nat_eq, ltb, String, Bytes, Bool, true, false, ◌||◌, List, [], ◌∷◌, Option, none, some,
  strip_prefix, if◌then◌else◌,
}
use apohara_sealchain.Error.{
  SealError, malformed, unsupported_schema_v3, invalid_preimage, missing_public_key, key_error,
  decrypt, canonicalization, c2pa, tsa, rekor, index, Result, ok, err, ◌>>=◌, map_err, ok_or,
}
use apohara_sealchain.Json.{Value, unwrap_or}
use apohara_sealchain.Schema.{SealedRecord, record_from_value}
use apohara_sealchain.LayerResult.{LayerResult}
use apohara_sealchain.Artifact.{Crates, verify_artifact_bytes}
use apohara_sealchain.Artifact.Agrees.{all_ok}
use apohara_sealchain.Policy.{Policy, PolicyReport, Chrono, from_toml_str, from_profile, evaluate}

abbrev pub exit_ok : ℕ
exit_ok = 0

abbrev pub exit_fail : ℕ
exit_fail = 1

abbrev pub exit_usage : ℕ
exit_usage = 2

abbrev pub exit_schema : ℕ
exit_schema = 3

abbrev pub exit_key : ℕ
exit_key = 4

abbrev pub exit_policy : ℕ
exit_policy = 5

unfoldable pub schema_exit : SealError → ℕ
schema_exit (key_error e) = exit_key
schema_exit (decrypt e) = exit_key
schema_exit (malformed e) = exit_schema
schema_exit unsupported_schema_v3 = exit_schema
schema_exit (invalid_preimage e) = exit_schema
schema_exit missing_public_key = exit_schema
schema_exit (canonicalization e) = exit_schema
schema_exit (c2pa e) = exit_schema
schema_exit (tsa e) = exit_schema
schema_exit (rekor e) = exit_schema
schema_exit (index e) = exit_schema

-- The files, the JSON and TOML parsers, and the clock.
pub record Shell (chrono : Chrono) : Type 0 where
  pub read : String → Result String Bytes
  pub read_to_string : String → Result String String
  pub parse_json : String → Result String Value
  pub parse_toml : String → Result String Policy
  pub now : chrono.DateTime

-- The arguments that decide the exit code.
pub record VerifyArgs : Type 0 where
  pub path : String
  pub receipt : String
  pub hmac_key : Option String
  pub policy : Option String
  pub profile : Option String

module _ (e : Crates) (chrono : Chrono) (sh : Shell chrono) where
  key_spec : String → Option String → Result ℕ Bytes
  key_spec spec (some path) = map_err (λ _. exit_key) (sh.read path)
  key_spec spec none =
      map_err (λ _. exit_key) (e.crypto.decode (unwrap_or (strip_prefix "0x" spec) spec))

  -- A key given as `@file`, or in hex.
  unfoldable pub resolve_hmac_key : String → Result ℕ Bytes
  unfolding key_spec
  resolve_hmac_key spec = key_spec spec (strip_prefix "@" spec)

  unfoldable pub optional_key : Option String → Result ℕ (Option Bytes)
  optional_key none = ok none
  optional_key (some spec) = do key ← resolve_hmac_key spec; ok (some key)

  unfoldable pub read_receipt : String → Result ℕ SealedRecord
  read_receipt path = do
    text ← map_err (λ _. exit_schema) (sh.read_to_string path)
    value ← map_err (λ _. exit_schema) (sh.parse_json text)
    map_err (λ _. exit_schema) (record_from_value value)

  unfoldable pub verify_artifact :
      String → SealedRecord → Option Bytes → Result SealError (List LayerResult)
  verify_artifact file receipt key = do
    bytes ← map_err (λ x. malformed ("read " ++ file ++ ": " ++ x)) (sh.read file)
    verify_artifact_bytes e bytes receipt key

  unfoldable pub resolve_policy :
      Option String → Option String → Result ℕ (Option (Policy × Option String))
  resolve_policy (some path) profile = do
    text ← map_err (λ _. exit_schema) (sh.read_to_string path)
    policy ← map_err (λ _. exit_schema) (from_toml_str sh.parse_toml text)
    ok (some (policy, none))
  resolve_policy none (some name) = do
    policy ← ok_or exit_usage (from_profile name)
    ok (some (policy, some name))
  resolve_policy none none = ok none

  unfoldable pub report_of :
      SealedRecord → List LayerResult → Option (Policy × Option String) → Option PolicyReport
  report_of r results none = none
  report_of r results (some (policy, profile)) =
      some (record (evaluate chrono policy r results sh.now) { profile = profile })

  -- A crypto failure outranks a policy failure.
  unfoldable pub verdict : Bool → Option PolicyReport → ℕ
  verdict false report = exit_fail
  verdict true none = exit_ok
  verdict true (some report) = if report.passed then exit_ok else exit_policy

  unfoldable pub checked : VerifyArgs → Result ℕ ℕ
  unfolding verdict report_of
  checked args = do
    key ← optional_key args.hmac_key
    r ← read_receipt args.receipt
    results ← map_err schema_exit (verify_artifact args.path r key)
    policy ← resolve_policy args.policy args.profile
    ok (verdict (all_ok results) (report_of r results policy))

  -- An early return, or the end of the function.
  abbrev pub exit_of : Result ℕ ℕ → ℕ
  exit_of (ok code) = code
  exit_of (err code) = code

  unfoldable pub run_verify : VerifyArgs → ℕ
  unfolding checked
  run_verify args = exit_of (checked args)

pub data FailureKind : Type 0 where
  usage network schema : FailureKind

-- How `seal_one` classifies a failure to seal.
unfoldable pub failure_kind : Bool → Bool → SealError → FailureKind
failure_kind true network_requested (c2pa e) = usage
failure_kind embed true e = network
failure_kind embed false e = schema

unfoldable pub kind_code : FailureKind → ℕ
kind_code usage = exit_usage
kind_code network = exit_fail
kind_code schema = exit_schema

exit_loop : {A : Type 0} → ℕ → List (Result FailureKind A) → ℕ
exit_loop code [] = code
exit_loop code (ok sealed ∷ os) = exit_loop code os
exit_loop code (err kind ∷ os) =
    exit_loop (if nat_eq code exit_ok || ltb (kind_code kind) code then kind_code kind else code) os

unfoldable pub exit_code_for : {A : Type 0} → List (Result FailureKind A) → ℕ
unfolding exit_loop kind_code
exit_code_for outcomes = exit_loop exit_ok outcomes

-- One round of the loop: with `--fail-fast` a failure ends it.
unfoldable pub seal_next :
    {S A : Type 0}
    → S × Result FailureKind A
    → Bool
    → (S → S × List (Result FailureKind A))
    → S × List (Result FailureKind A)
seal_next (s, ok sealed) fail_fast rest = let (s', os) = rest s in (s', ok sealed ∷ os)
seal_next (s, err kind) true rest = (s, err kind ∷ [])
seal_next (s, err kind) false rest = let (s', os) = rest s in (s', err kind ∷ os)

-- The loop over the artifacts, over the state that sealing one changes.
unfoldable pub seal_loop :
    {S A : Type 0}
    → (S → String → S × Result FailureKind A)
    → Bool
    → S
    → List String
    → S × List (Result FailureKind A)
unfolding seal_next
seal_loop seal_one fail_fast s [] = (s, [])
seal_loop seal_one fail_fast s (a ∷ more) =
    seal_next (seal_one s a) fail_fast (λ s'. seal_loop seal_one fail_fast s' more)
