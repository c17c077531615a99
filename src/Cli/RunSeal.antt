-- ===== src/Cli/RunSeal.antt =====
-- crates/apohara-sealchain/src/cli.rs: the command `seal`, from its arguments to the exit code. What is
-- printed is not modelled.
pub mod Bundle
pub mod Kept
pub mod Verifies
pub mod Places
use Prim.Native.String.{◌++◌}
use apohara_sealchain.Prelude.{
  ℕ, ltb, String, Bytes, Bool, true, false, ◌&&◌, ◌||◌, not, length, List, [], ◌∷◌,
  ◌++◌ as ◌append◌, map, Option, none, some, if◌then◌else◌, ◌==◌,
}
use apohara_sealchain.Error.{SealError, Result, ok, err, ◌>>=◌, map_err}
use apohara_sealchain.Json.{Value, is_some, unwrap_or}
use apohara_sealchain.Schema.{SealedRecord, record_to_value}
use apohara_sealchain.Policy.{Policy, Chrono}
use apohara_sealchain.Artifact.{Crates}
use apohara_sealchain.Sealing.{Keys, Environment, SealOptions, seal_artifact}
use apohara_sealchain.Index.{present_layers}
use apohara_sealchain.Index.Store.{Table, index_insert}
use apohara_sealchain.Keystore.{KeystoreCrates}
use apohara_sealchain.Keystore.Dir.{Dir, Faults, Host}
use apohara_sealchain.Keystore.Store.{Fresh, from_overrides}
use apohara_sealchain.Keystore.Operations.{load_or_generate_with_passphrase}
use apohara_sealchain.Cli.{
  exit_usage, exit_key, schema_exit, Shell, resolve_hmac_key, optional_key, FailureKind, schema,
  failure_kind, exit_code_for, seal_loop,
}
use apohara_sealchain.Cli.Inputs.{Tree, expand_inputs}

-- layers/tsa.rs and layers/rekor.rs
abbrev pub default_tsa_url : String
default_tsa_url = "https://timestamp.sigstore.dev/api/v1/timestamp"

abbrev pub default_rekor_v2_url : String
default_rekor_v2_url = "https://log2025-1.rekor.sigstore.dev"

-- artifact.rs
unfoldable pub default_receipt_path : String → String
default_receipt_path artifact = artifact ++ ".seal.json"

-- The arguments, apart from `--quiet` and `--json`, which concern what is printed, and `--c2pa`, which
-- is the default.
pub record SealArgs : Type 0 where
  pub paths : List String
  pub recursive : Bool
  pub fail_fast : Bool
  pub no_index : Bool
  pub out : Option String
  pub sealed_at : Option String
  pub key : Option String
  pub hmac_key : Option String
  pub passphrase : Option String
  pub no_c2pa : Bool
  pub tsa : Option String
  pub rekor : Option String
  pub all : Bool
  pub embed : Bool
  pub ai_generated : Bool

-- What the command runs on: the environment of a seal, the walk of the file system, the text of a
-- file's bytes, the parsers and the printer, the clock, the keystore's crates, faults and host, what the
-- generators return, the variable SEALCHAIN_PASSPHRASE, and whether the index can be written.
pub record System (e : Crates) (chrono : Chrono) : Type 1 where
  pub env : Environment e.crypto
  pub tree : env.Disk → Tree
  pub from_utf8 : Bytes → Result String String
  pub parse_json : String → Result String Value
  pub parse_toml : String → Result String Policy
  pub to_string_pretty : Value → Result String Bytes
  pub now : chrono.DateTime
  pub keystore : KeystoreCrates e.crypto
  pub faults : Faults
  pub host : Host
  pub fresh : Fresh e.crypto
  pub passphrase_var : Option String
  pub indexes : Bool

-- `--passphrase`, or the variable unless it is empty.
unfoldable pub resolve_passphrase : Option String → Option String → Option String
resolve_passphrase (some p) var = some p
resolve_passphrase none none = none
resolve_passphrase none (some v) = if not (v == "") then some v else none

module _ (e : Crates) (chrono : Chrono) (sys : System e chrono) where
  -- The files, the index and the directory of the keys, which are apart.
  pub record World : Type 0 where
    pub disk : sys.env.Disk
    pub table : Table
    pub keys : Dir

  -- What the commands that only read see of the disk.
  abbrev pub shell : sys.env.Disk → Shell chrono
  shell disk = record {
    read = sys.env.read disk;
    read_to_string = λ path. (sys.env.read disk path >>= sys.from_utf8);
    parse_json = sys.parse_json;
    parse_toml = sys.parse_toml;
    now = sys.now;
  }

  -- The knobs of a run.
  pub record SealConfig : Type 0 where
    pub keys : Keys e.crypto
    pub options : SealOptions
    pub network_requested : Bool
    pub no_index : Bool

  abbrev pub Sealed : Type 0
  Sealed = Result FailureKind (String × List String)

  -- An index that cannot be written is warned about, and the seal counts.
  unfoldable pub written :
      SealConfig → World → String → SealedRecord → Result String sys.env.Disk → World × Sealed
  written cfg w out r (err x) = (w, err schema)
  written cfg w out r (ok disk) =
      let table =
        if not cfg.no_index && sys.indexes
        then index_insert sys.env.now w.table r out
        else w.table in
      (record w { disk = disk; table = table }, ok (out, present_layers r))

  unfoldable pub serialized :
      SealConfig → World → String → SealedRecord → Result String Bytes → World × Sealed
  unfolding written
  serialized cfg w out r (err x) = (w, err schema)
  serialized cfg w out r (ok text) = written cfg w out r (sys.env.write w.disk out text)

  unfoldable pub sealed_to :
      SealConfig → World → String → sys.env.Disk × Result SealError SealedRecord → World × Sealed
  unfolding serialized
  sealed_to cfg w out (disk, err x) =
      (record w { disk = disk }, err (failure_kind cfg.options.embed cfg.network_requested x))
  sealed_to cfg w out (disk, ok r) =
      serialized cfg (record w { disk = disk }) out r (sys.to_string_pretty (record_to_value r))

  unfoldable pub seal_one : SealConfig → World → String → String → World × Sealed
  unfolding sealed_to
  seal_one cfg w artifact out =
      sealed_to cfg w out (seal_artifact e sys.env cfg.keys w.disk artifact cfg.options)

  -- The default keystore is opened only without overrides.
  unfoldable pub keys_for_seal : SealArgs → World → Option Bytes → World × Result ℕ (Keys e.crypto)
  keys_for_seal args w hmac =
      if is_some hmac || is_some args.key
      then (
        w,
        map_err schema_exit (
            from_overrides e.crypto sys.keystore ((shell w.disk).read_to_string) hmac args.key
              sys.fresh),
      )
      else (let opened =
            load_or_generate_with_passphrase e.crypto sys.keystore sys.faults sys.host
              (resolve_passphrase args.passphrase sys.passphrase_var) sys.fresh w.keys in
          (record w { keys = opened.0 }, map_err schema_exit opened.1))

  with_hmac : SealArgs → World → Result ℕ (Option Bytes) → World × Result ℕ (Keys e.crypto)
  with_hmac args w (err code) = (w, err code)
  with_hmac args w (ok hmac) = keys_for_seal args w hmac

  unfoldable pub resolve_keys_for_seal : SealArgs → World → World × Result ℕ (Keys e.crypto)
  unfolding keys_for_seal with_hmac
  resolve_keys_for_seal args w =
      with_hmac args w (optional_key e chrono (shell w.disk) args.hmac_key)

  unfoldable pub config_of : SealArgs → Keys e.crypto → SealConfig
  config_of args keys =
      let tsa = if args.all then some default_tsa_url else args.tsa in
      let rekor = if args.all then some default_rekor_v2_url else args.rekor in
      record {
        keys = keys;
        options = record {
          sealed_at = args.sealed_at;
          c2pa = not args.no_c2pa;
          embed = args.embed;
          tsa = tsa;
          rekor = rekor;
          ai_generated = args.ai_generated;
        };
        network_requested = is_some tsa || is_some rekor;
        no_index = args.no_index;
      }

  -- One failure for each missing path, or for the first one.
  unfoldable pub report_missing : Bool → List String → List Sealed
  report_missing fail_fast [] = []
  report_missing true (m ∷ missing) = err schema ∷ []
  report_missing false (m ∷ missing) = err schema ∷ report_missing false missing

  unfoldable pub seal_all : SealArgs → SealConfig → World → List String → World × List Sealed
  unfolding default_receipt_path
  seal_all args cfg w artifacts =
      seal_loop (λ w'. λ a. seal_one cfg w' a (unwrap_or args.out (default_receipt_path a)))
        args.fail_fast w artifacts

  -- The outcomes of a run: a missing path ends it at once with `--fail-fast`.
  unfoldable pub seal_batch :
      SealArgs → SealConfig → World → List String → List String → World × List Sealed
  unfolding report_missing seal_all
  seal_batch args cfg w artifacts [] = seal_all args cfg w artifacts
  seal_batch args cfg w artifacts (m ∷ missing) =
      if args.fail_fast
      then (w, report_missing true (m ∷ missing))
      else (let (w', outcomes) = seal_all args cfg w artifacts in
          (w', report_missing false (m ∷ missing) append outcomes))

  with_keys : SealArgs → List String → List String → World × Result ℕ (Keys e.crypto) → World × ℕ
  with_keys args artifacts missing (w, err code) = (w, code)
  with_keys args artifacts missing (w, ok keys) =
      let (w', outcomes) = seal_batch args (config_of args keys) w artifacts missing in
      (w', exit_code_for outcomes)

  is_empty : List String → Bool
  is_empty [] = true
  is_empty (x ∷ xs) = false

  with_inputs : SealArgs → World → Result ℕ (List String × List String) → World × ℕ
  unfolding with_keys is_empty
  with_inputs args w (err code) = (w, code)
  with_inputs args w (ok (artifacts, missing)) =
      if is_empty artifacts && is_empty missing
      then (w, exit_usage)
      else if is_some args.out && (ltb 1 (length artifacts) || not (is_empty missing))
      then (w, exit_usage)
      else with_keys args artifacts missing (resolve_keys_for_seal args w)

  unfoldable pub run_seal : SealArgs → World → World × ℕ
  unfolding with_inputs
  run_seal args w =
      if args.embed && args.no_c2pa
      then (w, exit_usage)
      else with_inputs args w (expand_inputs (sys.tree w.disk) args.recursive args.paths)
