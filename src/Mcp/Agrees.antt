-- ===== src/Mcp/Agrees.antt =====
-- crates/apohara-sealchain/src/mcp.rs: the tool `verify_receipt` beside the command `verify`.
use apohara_sealchain.Prelude.{
  ℕ, ◌≡◌, ◌≤◌, ◌⊎◌, inl, inr, refl, String, false, List, Option, none, some, arith, Bool-cases,
  if◌then◌else◌,
}
use apohara_sealchain.Error.{SealError, Result, ok, err, ◌>>=◌, map_err, to_string}
use apohara_sealchain.Json.{Value, get, get_field, and_then, unwrap_or}
use apohara_sealchain.Schema.{SealedRecord, record_from_value}
use apohara_sealchain.LayerResult.{LayerResult}
use apohara_sealchain.Policy.{Chrono, from_profile, evaluate}
use apohara_sealchain.Artifact.{Crates}
use apohara_sealchain.Artifact.Agrees.{all_ok}
use apohara_sealchain.Cli.{
  exit_ok, exit_fail, exit_policy, schema_exit, Shell, VerifyArgs, optional_key, read_receipt,
  verify_artifact, resolve_policy, report_of, verdict, exit_of, checked, run_verify,
}
use apohara_sealchain.Mcp.{VerifyParams, as_bool, read_record, verdict_with, verify_outcome}

-- The exit code that an answer stands for.
unfoldable pub policy_code : Option Value → ℕ
policy_code none = exit_ok
policy_code (some policy) =
    if unwrap_or (and_then (get policy "passed") as_bool) false then exit_ok else exit_policy

unfoldable pub code_of : Value → ℕ
unfolding policy_code
code_of outcome =
    if unwrap_or (and_then (get outcome "ok") as_bool) false
    then policy_code (get outcome "policy")
    else exit_fail

-- `verify <path> <receipt> [--profile <name>]`
abbrev pub args_of : VerifyParams → VerifyArgs
args_of params = record {
  path = params.path;
  receipt = params.receipt;
  hmac_key = none;
  policy = none;
  profile = params.profile;
}

abbrev pub Matches : Result String Value → ℕ → Type 0
Matches (ok outcome) code = code ≡ code_of outcome
Matches (err x) code = (2 ≤ code) × (code ≤ 4)

Result-cases : {E A : Type 0} (m : Result E A) → ((a : A) × (m ≡ ok a)) ⊎ ((x : E) × (m ≡ err x))
Result-cases (ok a) = inl (a, refl)
Result-cases (err x) = inr (x, refl)

Option-cases : {A : Type 0} (o : Option A) → (o ≡ none) ⊎ ((a : A) × (o ≡ some a))
Option-cases none = inl refl
Option-cases (some a) = inr (a, refl)

schema_exit_bounds : (x : SealError) → (2 ≤ schema_exit x) × (schema_exit x ≤ 4)
unfolding schema_exit
schema_exit_bounds x = ground arith

module _ (e : Crates) (chrono : Chrono) (sh : Shell chrono) where
  -- The end of both, from the results on.
  abbrev exit_with : SealedRecord → List LayerResult → Option String → Result ℕ ℕ
  exit_with r results profile =
      (resolve_policy e chrono sh none profile >>= λ policy.
      ok (verdict e chrono sh (all_ok results) (report_of e chrono sh r results policy)))

  verdict_with-Matches :
      (r : SealedRecord) (results : List LayerResult) (profile : Option String)
      → Matches
          (verdict_with e chrono sh profile r results)
          (exit_of e chrono sh (exit_with r results profile))
  unfolding verdict_with resolve_policy verdict report_of code_of get get_field as_bool
  verdict_with-Matches r results none = elim (Bool-cases (all_ok results)) [
    | inl good ↦ rw good refl
    | inr bad ↦ rw bad refl
  ]
  verdict_with-Matches r results (some name) = elim (Option-cases (from_profile name)) [
    | inl unknown ↦ rw unknown (omega arith)
    | inr (policy, known) ↦ rw known (elim (Bool-cases (all_ok results)) [
      | inl good ↦ elim (Bool-cases (evaluate chrono policy r results sh.now).passed) [
        | inl passed ↦ rw (good, passed) refl
        | inr failed ↦ rw (good, failed) refl
      ]
      | inr bad ↦ rw bad refl
    ])
  ]

  verified-Matches :
      (params : VerifyParams) (r : SealedRecord)
      → Matches
          (map_err to_string (verify_artifact e chrono sh params.path r none) >>= λ results.
            verdict_with e chrono sh params.profile r results)
          (exit_of e chrono sh (
            map_err schema_exit (verify_artifact e chrono sh params.path r none) >>= λ results.
            exit_with r results params.profile))
  verified-Matches params r = elim (Result-cases (verify_artifact e chrono sh params.path r none)) [
    | inl (results, made) ↦ rw made (verdict_with-Matches r results params.profile)
    | inr (x, failed) ↦ rw failed (schema_exit_bounds x)
  ]

  read-Matches :
      (receipt : String) (k : SealedRecord → Result String Value) (l : SealedRecord → Result ℕ ℕ)
      → ((r : SealedRecord) → Matches (k r) (exit_of e chrono sh (l r)))
      → Matches
          (read_record e chrono sh receipt >>= k)
          (exit_of e chrono sh (read_receipt e chrono sh receipt >>= l))
  unfolding read_record read_receipt
  read-Matches receipt k l each = elim (Result-cases (sh.read_to_string receipt)) [
    | inl (text, held) ↦ elim (Result-cases (sh.parse_json text)) [
      | inl (value, parsed) ↦ elim (Result-cases (record_from_value value)) [
        | inl (r, read) ↦ rw (held, parsed, read) (each r)
        | inr (x, refused) ↦ rw (held, parsed, refused) (omega arith)
      ]
      | inr (x, refused) ↦ rw (held, refused) (omega arith)
    ]
    | inr (x, missing) ↦ rw missing (omega arith)
  ]

  -- The tool and the command agree: an answer of the tool says by its verdicts the code with which
  -- `verify` of the same file, receipt and profile exits without a key (0, 1 or 5), and the tool
  -- answers an error exactly where the command exits with 2, 3 or 4.
  pub run_verify-verify_outcome :
      (params : VerifyParams)
      → Matches (verify_outcome e chrono sh params) (run_verify e chrono sh (args_of params))
  unfolding verify_outcome run_verify checked optional_key
  run_verify-verify_outcome params =
      read-Matches params.receipt _ _ (λ r. verified-Matches params r)
