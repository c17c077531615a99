-- ===== src/Provenance.antt =====
-- crates/apohara-sealchain-core/src/provenance.rs: the in-toto statements of a record.
pub mod Layers
use apohara_sealchain.Prelude.{
  String, Bool, true, false, not, Option, none, some, List, [], ◌∷◌, ◌++◌, ◌==◌, if◌then◌else◌,
}
use apohara_sealchain.Json.{
  Value, null, bool, string, array, object, Items, nil, cons, Fields, end, field, get, get_str,
  as_str, as_i64, from_i64, and_then, unwrap_or, is_some,
}
use apohara_sealchain.Schema.{HmacLayer, Ed25519Layer, SealBlock, SealedRecord}
use apohara_sealchain.Index.{is_true}

abbrev pub statement_type_v1 : String
statement_type_v1 = "https://in-toto.io/Statement/v1"

abbrev pub predicate_type_v1 : String
predicate_type_v1 = "https://apohara.dev/sealchain/provenance/v1"

abbrev pub model_signing_predicate_type_v1 : String
model_signing_predicate_type_v1 = "https://model_signing/signature/v1.0"

-- `json!` of a vector, and of an optional value.
unfoldable pub items_of : List Value → Items
items_of [] = nil
items_of (v ∷ vs) = cons v (items_of vs)

unfoldable pub or_null : Option Value → Value
or_null none = null
or_null (some v) = v

-- `opt.filter(|s| !s.is_empty())`
unfoldable pub non_empty : Option String → Option String
non_empty none = none
non_empty (some s) = if not (s == "") then some s else none

unfoldable pub subject_for : SealedRecord → Value
unfolding items_of non_empty get_str
subject_for r =
    let artifact_sha256 = unwrap_or (get_str r.payload "artifactSha256") "" in
    let subject_name = unwrap_or (non_empty (get_str r.payload "path")) artifact_sha256 in
    array (
      cons
        (object (
          field "name" (string subject_name)
            (field "digest" (object (field "sha256" (string artifact_sha256) end)) end)))
        nil)

-- The entries of the predicate, one to a layer; `some_if` pushes one when its layer is there.
abbrev pub push_entry : Option Value → List Value → List Value
push_entry none rest = rest
push_entry (some v) rest = v ∷ rest

unfoldable pub hmac_entry : HmacLayer → Value
hmac_entry l = object (
    field "type" (string "hmac") (
      field "alg" (string l.alg) (
        field "keyId" (string l.key_id) (
          field "offlineVerifiable" (bool false) (
            field "note"
              (string
                "symmetric integrity tag; the secret is not in the receipt, so only the key holder can re-check it. Not a public-authorship claim.")
              end)))))

-- The public key is in the entry when the receipt has it.
unfoldable pub public_key_field : Option String → Fields
public_key_field none = end
public_key_field (some pem) = field "publicKey" (string pem) end

unfoldable pub ed25519_entry : Option String → Option Ed25519Layer → Option Value
unfolding public_key_field
ed25519_entry pem none = none
ed25519_entry pem (some ed) = some (
    object (
      field "type" (string "ed25519") (
        field "keyId" (string ed.key_id) (
          field "offlineVerifiable" (bool true) (
            field "note"
              (string
                "signature over the canonical preimage; proves the key holder sealed this artifact (authorship), checkable offline.")
              (public_key_field pem))))))

unfoldable pub c2pa_fields : String → String → Value
c2pa_fields mode note = object (
    field "type" (string "c2pa") (
      field "mode" (string mode)
        (field "offlineVerifiable" (bool true) (field "note" (string note) end))))

unfoldable pub c2pa_entry : Option Bool → Option String → Option Value
unfolding c2pa_fields
c2pa_entry embedded manifest =
    if is_true embedded
    then some (c2pa_fields "embedded" "in-file C2PA manifest (hard binding); verified offline.")
    else if is_some manifest
    then some
        (c2pa_fields "sidecar" "sidecar JUMBF manifest binding the payload hash; verified offline.")
    else none

unfoldable pub str_or_null : Value → String → Value
unfolding get_str or_null
str_or_null v key = or_null (and_then (get_str v key) λ s. some (string s))

unfoldable pub i64_or_null : Value → String → Value
unfolding get or_null as_i64
i64_or_null v key = or_null (and_then (and_then (get v key) as_i64) λ n. some (from_i64 n))

unfoldable pub tsa_entry : Option Value → Option Value
unfolding str_or_null
tsa_entry none = none
tsa_entry (some tsa) = some (
    object (
      field "type" (string "tsa") (
        field "authority" (str_or_null tsa "authority") (
          field "issuedAt" (str_or_null tsa "issuedAt") (
            field "offlineVerifiable" (bool true) (
              field "note"
                (string
                  "RFC 3161 timestamp over hmac.sig || ed25519.sig; the token verifies offline by message imprint.")
                end))))))

unfoldable pub rekor_entry : Option Value → Option Value
unfolding str_or_null i64_or_null
rekor_entry none = none
rekor_entry (some rekor) = some (
    object (
      field "type" (string "rekor") (
        field "logIndex" (i64_or_null rekor "logIndex") (
          field "logId" (str_or_null rekor "logId") (
            field "offlineVerifiable" (bool true) (
              field "note"
                (string
                  "Sigstore Rekor v2 DSSE anchor; RFC 6962 inclusion + checkpoint signature verify offline against the pinned shard key.")
                end))))))

unfoldable pub attestations : SealBlock → List Value
unfolding hmac_entry ed25519_entry c2pa_entry tsa_entry rekor_entry
attestations seal =
    hmac_entry seal.hmac
    ∷ push_entry (ed25519_entry seal.ed25519_public_key seal.ed25519) (
        push_entry (c2pa_entry seal.c2pa_embedded seal.c2pa_manifest)
          (push_entry (tsa_entry seal.tsa) (push_entry (rekor_entry seal.rekor_anchor) [])))

unfoldable pub build_predicate : SealedRecord → Value
unfolding attestations items_of
build_predicate r = object (
    field "method" (string r.seal.method) (
      field "sealedAt" (string r.seal.sealed_at)
        (field "attestations" (array (items_of (attestations r.seal))) end)))

unfoldable pub provenance_statement : SealedRecord → Value
unfolding subject_for build_predicate
provenance_statement r = object (
    field "_type" (string statement_type_v1) (
      field "subject" (subject_for r) (
        field "predicateType" (string predicate_type_v1)
          (field "predicate" (build_predicate r) end))))

unfoldable pub model_signing_statement : SealedRecord → Value
unfolding subject_for
model_signing_statement r = object (
    field "_type" (string statement_type_v1) (
      field "subject" (subject_for r) (
        field "predicateType" (string model_signing_predicate_type_v1) (
          field "predicate"
            (object (
              field "sealedBy" (string "apohara-sealchain") (
                field "method" (string r.seal.method) (
                  field "sealedAt" (string r.seal.sealed_at)
                    (field "sealchainPredicateType" (string predicate_type_v1) end)))))
            end))))
