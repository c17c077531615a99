-- ===== src/Policy.antt =====
-- crates/apohara-sealchain-core/src/policy.rs: the attestation policy engine.
pub mod Passed
use Prim.Native.String.{◌++◌}
use apohara_sealchain.Prelude.Int.{ℤ, pos, negsuc, leb_int, is_negative, show_int}
use apohara_sealchain.Prelude.{
  ℕ, ltb, show, String, Bool, true, false, not, List, [], ◌∷◌, ◌++◌ as ◌append◌, map, length,
  filter, any, contains, Option, none, some, eq_ignore_ascii_case, if◌then◌else◌,
}
use apohara_sealchain.Error.{SealError, malformed, Result, ok, err, map_err}
use apohara_sealchain.Json.{Value, get_str, unwrap_or}
use apohara_sealchain.Schema.{SealedRecord, map_option}
use apohara_sealchain.LayerResult.{LayerResult}
use apohara_sealchain.Index.{present_layers}
use apohara_sealchain.TrustProfile.{NamedProfile, named_profile, known_qualified_tsa_hosts}

pub record Policy : Type 0 where
  pub require_layers : List String
  pub forbid_layers : List String
  pub min_layers : Option ℕ
  pub require_qualified_tsa : Bool
  pub max_age_days : Option ℤ
  pub require_tsa_authority_in : Option (List String)

pub record PolicyReport : Type 0 where
  pub passed : Bool
  pub violations : List String
  pub profile : Option String

-- chrono: `DateTime::parse_from_rfc3339`, and `(now - t).num_days()`.
pub record Chrono : Type 1 where
  pub DateTime : Type 0
  pub parse_from_rfc3339 : String → Result String DateTime
  pub num_days : DateTime → DateTime → ℤ

-- `toml::from_str` is the toml crate's.
unfoldable pub from_toml_str : (String → Result String Policy) → String → Result SealError Policy
from_toml_str from_str s = map_err (λ e. malformed ("invalid policy TOML: " ++ e)) (from_str s)

policy_of : NamedProfile → Policy
policy_of p = record {
  require_layers = p.require_layers;
  forbid_layers = [];
  min_layers = p.min_layers;
  require_qualified_tsa = p.require_qualified_tsa;
  max_age_days = none;
  require_tsa_authority_in = none;
}

unfoldable pub from_profile : String → Option Policy
unfolding policy_of
from_profile name = map_option policy_of (named_profile name)

-- The names of the results that are passes.
unfoldable pub verified_ok : List LayerResult → List String
verified_ok results = map (λ (r : LayerResult). r.name) (filter (λ (r : LayerResult). r.ok) results)

-- The loops of `evaluate`, each with the violations that it pushes.
unfoldable pub require_violations : List String → List String → List String → List String
require_violations present verified [] = []
require_violations present verified (l ∷ ls) =
    let rest = require_violations present verified ls in
    if not (contains present l)
    then ("missing required layer: " ++ l) ∷ rest
    else if not (contains verified l)
    then ("required layer present but not verified: " ++ l) ∷ rest
    else rest

unfoldable pub forbid_violations : List String → List String → List String
forbid_violations present [] = []
forbid_violations present (l ∷ ls) =
    let rest = forbid_violations present ls in
    if contains present l then ("forbidden layer present: " ++ l) ∷ rest else rest

unfoldable pub count_verified : List String → List String → ℕ
count_verified present verified = length (filter (contains verified) present)

unfoldable pub min_violations : List String → List String → Option ℕ → List String
min_violations present verified none = []
min_violations present verified (some least) =
    let count = count_verified present verified in
    if ltb count least
    then ("too few verified layers: "
        ++ show count
        ++ " verified, policy requires at least "
        ++ show least)
      ∷ []
    else []

-- The policy's own hosts override the canonical ones.
unfoldable pub allowed_hosts : Policy → List String
allowed_hosts policy = unwrap_or policy.require_tsa_authority_in known_qualified_tsa_hosts

unfoldable pub check_qualified_tsa : Policy → Option Value → List String
check_qualified_tsa policy none =
    "require_qualified_tsa: no TSA layer present (a qualified timestamp is required)" ∷ []
check_qualified_tsa policy (some tsa) =
    let authority = unwrap_or (get_str tsa "authority") "" in
    if any (λ h. eq_ignore_ascii_case h authority) (allowed_hosts policy)
    then []
    else ("require_qualified_tsa: TSA authority '" ++ authority
        ++ "' is not in the qualified-QTSP host allowlist (this matches the recorded authority host against a known-QTSP list; it does NOT cryptographically prove eIDAS qualification)")
      ∷ []

-- `violations.is_empty()`
abbrev pub is_empty : List String → Bool
is_empty [] = true
is_empty (v ∷ vs) = false

module _ (chrono : Chrono) where
  age_violations : String → ℤ → ℤ → List String
  age_violations sealed_at max_days age_days =
      if not (leb_int age_days max_days)
      then ("receipt too old: sealed "
          ++ show_int age_days
          ++ " days ago, policy allows at most "
          ++ show_int max_days)
        ∷ []
      else if is_negative age_days
      then ("receipt sealedAt is in the future (" ++ sealed_at
          ++ "): clock skew or a forged timestamp")
        ∷ []
      else []

  age_of_parsed : String → ℤ → chrono.DateTime → Result String chrono.DateTime → List String
  age_of_parsed sealed_at max_days now (ok t) =
      age_violations sealed_at max_days (chrono.num_days now t)
  age_of_parsed sealed_at max_days now (err e) =
      ("cannot parse sealedAt '" ++ sealed_at ++ "': " ++ e) ∷ []

  unfoldable pub check_max_age : String → Option ℤ → chrono.DateTime → List String
  unfolding age_of_parsed age_violations
  check_max_age sealed_at none now = []
  check_max_age sealed_at (some max_days) now =
      age_of_parsed sealed_at max_days now (chrono.parse_from_rfc3339 sealed_at)

  unfoldable pub violations_of :
      Policy → SealedRecord → List LayerResult → chrono.DateTime → List String
  unfolding check_max_age
  violations_of policy r results now =
      let present = present_layers r in
      let verified = verified_ok results in
      require_violations present verified policy.require_layers
      append (forbid_violations present policy.forbid_layers
          append (min_violations present verified policy.min_layers
              append ((if policy.require_qualified_tsa
                    then check_qualified_tsa policy r.seal.tsa
                    else [])
                  append check_max_age r.seal.sealed_at policy.max_age_days now)))

  unfoldable pub evaluate :
      Policy → SealedRecord → List LayerResult → chrono.DateTime → PolicyReport
  unfolding violations_of
  evaluate policy r results now =
      let violations = violations_of policy r results now in
      record { passed = is_empty violations; violations = violations; profile = none }
