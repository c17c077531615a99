-- ===== src/Mcp.antt =====
-- crates/apohara-sealchain/src/mcp.rs: the three tools of the MCP server. The protocol, the task on
-- which a tool runs and the identity of the server are the SDK's.

pub mod Agrees
pub mod Seals
use Prim.Native.String.{◌++◌}
use apohara_sealchain.Prelude.{
  String, Bytes, Bool, true, false, List, [], ◌∷◌, map, Option, none, some, ◌==◌, if◌then◌else◌,
}
use apohara_sealchain.Error.{SealError, to_string, Result, ok, err, ◌>>=◌, map_err, ok_or}
use apohara_sealchain.Json.{
  Value, null, bool, string, array, object, field, end, get, get_str, as_str, and_then, unwrap_or,
}
use apohara_sealchain.Schema.{SealedRecord, record_from_value, record_to_value, map_option}
use apohara_sealchain.LayerResult.{LayerResult}
use apohara_sealchain.Policy.{Policy, PolicyReport, Chrono, from_profile, evaluate}
use apohara_sealchain.TrustProfile.{profile_names}
use apohara_sealchain.Provenance.{items_of, or_null}
use apohara_sealchain.Artifact.{Crates}
use apohara_sealchain.Artifact.Agrees.{all_ok}
use apohara_sealchain.Artifact.Chain.{render_chain}
use apohara_sealchain.Sealing.{Keys, SealOptions, seal_artifact}
use apohara_sealchain.Keystore.Operations.{load_or_generate}
use apohara_sealchain.Cli.{Shell, verify_artifact}
use apohara_sealchain.Cli.RunSeal.{
  System, World, shell, default_tsa_url, default_rekor_v2_url, default_receipt_path,
}

-- `c2pa` is true unless it is given, the other flags are false.
pub record SealParams : Type 0 where
  pub path : String
  pub c2pa : Bool
  pub embed : Bool
  pub tsa : Option String
  pub rekor : Option String
  pub all : Bool
  pub ai_generated : Bool

pub record VerifyParams : Type 0 where
  pub path : String
  pub receipt : String
  pub profile : Option String

-- A structured answer with its summary.
pub record CallToolResult : Type 0 where
  pub structured : Value
  pub text : String

unfoldable pub layer_json : LayerResult → Value
layer_json r =
    object
      (field "name" (string r.name) (field "ok" (bool r.ok) (field "reason" (string r.reason) end)))

unfoldable pub layers_json : List LayerResult → Value
unfolding layer_json items_of
layers_json results = array (items_of (map layer_json results))

-- `vec.join(sep)`
unfoldable pub join : String → List String → String
join sep [] = ""
join sep (l ∷ []) = l
join sep (l ∷ (m ∷ ls)) = l ++ sep ++ join sep (m ∷ ls)

unfoldable pub as_bool : Value → Option Bool
as_bool (bool b) = some b
as_bool _ = none

-- `all` stands for the default, and so does the empty text.
unfoldable pub resolve : Bool → Option String → String → Option String
resolve true value default = some default
resolve false value default = map_option (λ v. if v == "" then default else v) value

module _ (e : Crates) (chrono : Chrono) (sh : Shell chrono) where
  unfoldable pub read_record : String → Result String SealedRecord
  read_record receipt = do
    text ← map_err (λ x. "read receipt " ++ receipt ++ ": " ++ x) (sh.read_to_string receipt)
    value ← map_err (λ x. "parse receipt: " ++ x) (sh.parse_json text)
    map_err (λ x. "parse receipt: " ++ e.crypto.shape_error value) (record_from_value value)

  unfoldable pub policy_json : PolicyReport → Value
  unfolding items_of or_null
  policy_json report = object (
      field "passed" (bool report.passed) (
        field "profile" (or_null (map_option string report.profile))
          (field "violations" (array (items_of (map string report.violations))) end)))

  -- The profile, if one is asked for, is enforced beside the verdict.
  unfoldable pub verdict_with :
      Option String → SealedRecord → List LayerResult → Result String Value
  unfolding layers_json policy_json join
  verdict_with none r results =
      ok (object (field "ok" (bool (all_ok results)) (field "layers" (layers_json results) end)))
  verdict_with (some name) r results = do
    policy ←
        ok_or ("unknown profile '" ++ name ++ "' (available: " ++ join ", " profile_names ++ ")")
          (from_profile name)
    let report = record (evaluate chrono policy r results sh.now) { profile = some name }
    ok (
        object (
          field "ok" (bool (all_ok results))
            (field "layers" (layers_json results) (field "policy" (policy_json report) end))))

  unfoldable pub verify_outcome : VerifyParams → Result String Value
  unfolding read_record verdict_with
  verify_outcome params = do
    r ← read_record params.receipt
    results ← map_err to_string (verify_artifact e chrono sh params.path r none)
    verdict_with params.profile r results

  unfoldable pub pass_text : Bool → String
  pass_text passed = if passed then "PASS" else "FAIL"

  policy_text : Option Value → String
  unfolding pass_text
  policy_text none = ""
  policy_text (some policy) =
      " · policy " ++ pass_text (unwrap_or (and_then (get policy "passed") as_bool) false)

  unfoldable pub verify_summary : Value → String
  unfolding pass_text policy_text as_bool
  verify_summary outcome =
      pass_text (unwrap_or (and_then (get outcome "ok") as_bool) false)
      ++ policy_text (get outcome "policy")

  unfoldable pub verify_receipt : VerifyParams → Result String CallToolResult
  unfolding verify_outcome verify_summary
  verify_receipt params = do
    outcome ← verify_outcome params
    ok (record { structured = outcome; text = verify_summary outcome })

  unfoldable pub show_chain : String → Result String String
  unfolding read_record
  show_chain receipt = do r ← read_record receipt; ok (render_chain r)

module _ (e : Crates) (chrono : Chrono) (sys : System e chrono) where
  unfoldable pub options_of : SealParams → SealOptions
  unfolding resolve
  options_of params = record {
    sealed_at = none;
    c2pa = params.c2pa;
    embed = params.embed;
    tsa = resolve params.all params.tsa default_tsa_url;
    rekor = resolve params.all params.rekor default_rekor_v2_url;
    ai_generated = params.ai_generated;
  }

  -- The receipt is written, and verified against the file with the secret.
  unfoldable pub verify_written :
      String → Keys e.crypto → SealedRecord → sys.env.Disk → Result String Value
  unfolding layers_json
  verify_written path keys r disk = do
    results ←
        map_err to_string
          (verify_artifact e chrono (shell e chrono sys disk) path r (some keys.hmac))
    ok (
        object (
          field "ok" (bool true) (
            field "receipt_path" (string (default_receipt_path path)) (
              field "sealed_at" (string r.seal.sealed_at)
                (field "layers" (layers_json results) end)))))

  unfoldable pub answer_written :
      String
      → Keys e.crypto
      → SealedRecord
      → World e chrono sys
      → Result String sys.env.Disk
      → World e chrono sys × Result String Value
  unfolding verify_written
  answer_written path keys r w (err x) =
      (w, err ("write receipt " ++ default_receipt_path path ++ ": " ++ x))
  answer_written path keys r w (ok disk) =
      (record w { disk = disk }, verify_written path keys r disk)

  unfoldable pub answer_serialized :
      String
      → Keys e.crypto
      → SealedRecord
      → World e chrono sys
      → Result String Bytes
      → World e chrono sys × Result String Value
  unfolding answer_written
  answer_serialized path keys r w (err x) = (w, err x)
  answer_serialized path keys r w (ok text) =
      answer_written path keys r w (sys.env.write w.disk (default_receipt_path path) text)

  unfoldable pub answer_sealed :
      String
      → Keys e.crypto
      → World e chrono sys
      → sys.env.Disk × Result SealError SealedRecord
      → World e chrono sys × Result String Value
  unfolding answer_serialized
  answer_sealed path keys w (disk, err x) = (record w { disk = disk }, err (to_string x))
  answer_sealed path keys w (disk, ok r) =
      answer_serialized path keys r (record w { disk = disk })
        (sys.to_string_pretty (record_to_value r))

  unfoldable pub answer_with :
      SealParams
      → World e chrono sys
      → Result SealError (Keys e.crypto)
      → World e chrono sys × Result String Value
  unfolding answer_sealed options_of
  answer_with params w (err x) = (w, err (to_string x))
  answer_with params w (ok keys) =
      answer_sealed params.path keys w
        (seal_artifact e sys.env keys w.disk params.path (options_of params))

  unfoldable pub seal_outcome :
      SealParams → World e chrono sys → World e chrono sys × Result String Value
  unfolding answer_with
  seal_outcome params w =
      let opened = load_or_generate e.crypto sys.keystore sys.faults sys.host sys.fresh w.keys in
      answer_with params (record w { keys = opened.0 }) opened.1

  unfoldable pub seal_summary : Value → String
  seal_summary outcome =
      "Sealed -> "
      ++ unwrap_or (get_str outcome "receipt_path") ""
      ++ " (sealedAt "
      ++ unwrap_or (get_str outcome "sealed_at") ""
      ++ ")"

  summarised : Result String Value → Result String CallToolResult
  unfolding seal_summary
  summarised (err x) = err x
  summarised (ok outcome) = ok (record { structured = outcome; text = seal_summary outcome })

  -- The tool `seal_artifact`.
  unfoldable pub seal_tool :
      SealParams → World e chrono sys → World e chrono sys × Result String CallToolResult
  unfolding seal_outcome summarised
  seal_tool params w = let outcome = seal_outcome params w in (outcome.0, summarised outcome.1)
