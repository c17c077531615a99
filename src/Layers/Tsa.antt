-- ===== src/Layers/Tsa.antt =====
-- crates/apohara-sealchain-core/src/layers/tsa.rs: RFC 3161 timestamps. The token check and the PEM
-- reader are the sigstore-tsa and pem crates', a parameter of the model.
pub mod Imprint
use Prim.Native.String
use Prim.Native.String.{◌++◌}
use Prim.Native.Char.{code}
use apohara_sealchain.Prelude.{
  String, Bytes, Bool, true, false, ◌||◌, List, [], ◌∷◌, ◌++◌ as ◌append◌, Option, none, some, ◌==◌,
  nat_eq, strip_prefix, if◌then◌else◌,
}
use apohara_sealchain.Error.{SealError, tsa, Result, ok, err, ◌>>=◌, ◌>>◌, map_err}
use apohara_sealchain.Json.{unwrap_or}
use apohara_sealchain.LayerResult.{LayerResult, layer}

-- What `verify_timestamp_response` answers: the time, a hash mismatch or another error, by its text.
pub data Token : Type 0 where
  verified : String → Token
  hash_mismatch : String → Token
  refused : String → Token

pub record TsaCrates : Type 1 where
  -- verify_timestamp_response with no roots, and with trust roots
  pub Root : Type 0
  pub check : Bytes → Bytes → Token
  pub check_chain : Bytes → Bytes → List Root → Token
  -- std::str::from_utf8; pem::parse_many: blocks with their tags
  pub from_utf8 : Bytes → Result String String
  pub parse_many : String → Result String (List (String × Root))

-- `rest.split(['/', ':']).next()`
unfoldable pub until_separator : String → String
until_separator String.[] = String.[]
until_separator (String.◌∷◌ c s) =
    let rest = until_separator s in
    if nat_eq (code c) b'/' || nat_eq (code c) b':' then String.[] else String.◌∷◌ c rest

-- `a.or_else(b)`
abbrev first_some : Option String → Option String → Option String
first_some none b = b
first_some (some a) b = some a

host_after : Option String → Option String
host_after none = none
host_after (some rest) = let host = until_separator rest in if host == "" then none else some host

unfoldable pub host_of : String → Option String
unfolding host_after
host_of url = host_after (first_some (strip_prefix "https://" url) (strip_prefix "http://" url))

unfoldable pub authority_label : String → String
authority_label url =
    if url == "https://timestamp.sigstore.dev/api/v1/timestamp"
    then "sigstore"
    else if url == "https://freetsa.org/tsr"
    then "freetsa"
    else unwrap_or (host_of url) url

abbrev pub tsa_result : Bool → String → LayerResult
tsa_result passed reason = layer "tsa" passed reason

pub record TsaToken : Type 0 where
  pub authority : String
  pub issued_at : String
  pub der : Bytes

-- The time in a freshly issued token, once its imprint is checked.
issued_time : Token → Result SealError String
issued_time (verified time) = ok time
issued_time (hash_mismatch e) = err (tsa ("parse issued token: " ++ e))
issued_time (refused e) = err (tsa ("parse issued token: " ++ e))

module _ (crates : TsaCrates) where
  certificates : List (String × crates.Root) → List crates.Root
  certificates [] = []
  certificates ((tag, root) ∷ rest) =
      let more = certificates rest in if tag == "CERTIFICATE" then root ∷ more else more

  some_roots : List crates.Root → Result String (List crates.Root)
  some_roots [] = err "no CERTIFICATE block in root pem"
  some_roots (r ∷ rs) = ok (r ∷ rs)

  unfoldable pub decode_roots : Bytes → Result String (List crates.Root)
  unfolding certificates some_roots
  decode_roots root_pem = do
    text ← map_err (λ e. "root pem not utf-8: " ++ e) (crates.from_utf8 root_pem)
    blocks ← map_err (λ e. "parse root pem: " ++ e) (crates.parse_many text)
    some_roots (certificates blocks)

  chain_result : Token → LayerResult
  chain_result (verified time) = tsa_result true "imprint ok; chain verified"
  chain_result (hash_mismatch e) = tsa_result true ("imprint ok; chain unverified (" ++ e ++ ")")
  chain_result (refused e) = tsa_result true ("imprint ok; chain unverified (" ++ e ++ ")")

  with_roots : Bytes → Bytes → Result String (List crates.Root) → LayerResult
  with_roots der to_stamp (ok roots) = chain_result (crates.check_chain der to_stamp roots)
  with_roots der to_stamp (err reason) =
      tsa_result true ("imprint ok; chain unverified (" ++ reason ++ ")")

  after_imprint : Bytes → Bytes → Option Bytes → LayerResult
  after_imprint der to_stamp none = tsa_result true "imprint ok; chain unverified (no root)"
  after_imprint der to_stamp (some root_pem) = with_roots der to_stamp (decode_roots root_pem)

  imprint_result : Bytes → Bytes → Option Bytes → Token → LayerResult
  imprint_result der to_stamp root_pem (verified time) = after_imprint der to_stamp root_pem
  imprint_result der to_stamp root_pem (hash_mismatch e) = tsa_result false "tsa imprint mismatch"
  imprint_result der to_stamp root_pem (refused e) =
      tsa_result false ("tsa token unverifiable: " ++ e)

  unfoldable pub verify_token : Bytes → Bytes → Option Bytes → LayerResult
  unfolding imprint_result after_imprint with_roots chain_result
  verify_token der to_stamp root_pem =
      imprint_result der to_stamp root_pem (crates.check der to_stamp)

  -- The runtime's start and the client's request, with the DER of the token that it answers, are the
  -- tokio and sigstore-tsa crates'.
  unfoldable pub request_token :
      Result String (Unit {0})
      → (String → Bytes → Result String Bytes)
      → Bytes
      → String
      → Result SealError TsaToken
  unfolding issued_time
  request_token runtime timestamp_signature to_stamp tsa_url = do
    map_err (λ e. tsa ("build runtime: " ++ e)) runtime
    der ←
        map_err (λ e. tsa ("request timestamp from " ++ tsa_url ++ ": " ++ e))
          (timestamp_signature tsa_url to_stamp)
    issued_at ← issued_time (crates.check der to_stamp)
    ok (record { authority = authority_label tsa_url; issued_at = issued_at; der = der })
