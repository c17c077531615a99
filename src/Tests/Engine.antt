-- ===== src/Tests/Engine.antt =====
-- Sealing, verifying and tampering, run over the toy crates.
use apohara_sealchain.Prelude.{
  ◌≡◌, ◌≢◌, ◌↔◌, refl, Bool, true, false, Bytes, String, none, some, [], ◌∷◌, ◌++◌, strip_prefix,
  contains, bytes_eq,
}
use apohara_sealchain.Error.{malformed, missing_public_key, unsupported_schema_v3, ok, err}
use apohara_sealchain.Json.{
  Fields, bool, null, array, cons, nil, get, get_field, string, Value, null, string, object, end,
  field, get, get_field, as_str, as_object, get_str,
}
use apohara_sealchain.Schema.{
  seal_time, top_time, put_some, hmac_to_value, ed25519_to_value, v4, SealBlock, SealedRecord,
  seal_to_fields, record_to_value, detect_schema, parse_seal_fields, seal_from_value,
}
use apohara_sealchain.Schema.RoundTrip.{parse_seal_fields-seal_to_fields}
use apohara_sealchain.Excluded.{is_excluded, strip_excluded}
use apohara_sealchain.Excluded.Laws.{IsClean, strip_excluded-IsClean}
use apohara_sealchain.Schema.Detect.{HasSealTime, HasTopTime, detect_schema_iff}
use apohara_sealchain.Layers.{
  canonicalize, hex0x, decode_hex0x, hmac_sign, hmac_verify, verifying_key_from_pem, ed25519_sign,
  ed25519_verify,
}
use apohara_sealchain.Seal.{envelope, build_preimage, seal_deterministic}
use apohara_sealchain.Seal.Shape.{block_of}
use apohara_sealchain.Verify.{or_else, verify, verify_block}
use apohara_sealchain.Verify.Accepts.{Accepted}
use apohara_sealchain.Verify.Raw.{Reads, verify_iff}
use apohara_sealchain.Verify.Errors.{verify_answers}
use apohara_sealchain.Verify.Sealed.{verify_resealed}
use apohara_sealchain.Tests.Toy.{toy_runs, toy, toy_laws, canonical, toy_encode}

-- Everything that a run of the engine computes with.
unfoldable pub engine_runs : Unit {0}
unfolding toy_runs contains strip_prefix is_excluded strip_excluded get get_field as_str as_object
    get_str seal_time top_time canonicalize put_some hmac_to_value ed25519_to_value detect_schema
    seal_to_fields record_to_value parse_seal_fields seal_from_value hex0x decode_hex0x hmac_sign
    hmac_verify verifying_key_from_pem ed25519_sign ed25519_verify envelope build_preimage
    seal_deterministic verify verify_block
engine_runs = tt

abbrev pub payload : Value
payload = object (
    field "artifactSha256" (string "ab")
      (field "truncated" null (field "path" (string "a.txt") end)))

-- The same payload with another volatile entry, and with another path.
abbrev pub replayed : Value
replayed = object (field "artifactSha256" (string "ab") (field "path" (string "a.txt") end))

abbrev pub tampered : Value
tampered = object (field "artifactSha256" (string "ab") (field "path" (string "b.txt") end))

abbrev pub key : Bytes
key = 7 ∷ 9 ∷ []

abbrev pub preimage_of : Value → Bytes
preimage_of v = canonical (envelope v "now")

abbrev pub sealed : SealedRecord
sealed = record {
  payload = payload;
  seal = block_of toy (preimage_of payload) (key ++ preimage_of payload) (some 5) "now";
}

abbrev pub key_text : String
key_text = toy_encode (5 ∷ [])

seal_deterministic_test : seal_deterministic toy payload key (some 5) "now" ≡ ok sealed
unfolding engine_runs
seal_deterministic_test = refl

verify_tests :
    (verify toy (record_to_value sealed) key (some key_text) ≡ ok true)
    × (verify toy (record_to_value (record sealed { payload = replayed })) key (some key_text)
        ≡ ok true)
    × (verify toy (record_to_value (record sealed { payload = tampered })) key (some key_text)
        ≡ ok false)
    × (verify toy (record_to_value sealed) [] (some key_text) ≡ ok false)
    × (verify toy (record_to_value sealed) key none ≡ err missing_public_key)
    × (verify toy (object (field "sealedAt" (string "now") end)) key none
        ≡ err unsupported_schema_v3)
unfolding engine_runs
verify_tests = (refl, refl, refl, refl, refl, refl)

not_null : none ≢ some null
not_null e = cc

verify_resealed_example :
    verify toy
      (record_to_value (record { payload = tampered; seal = sealed.seal }))
      key
      (some key_text)
    ≡ ok (bytes_eq (preimage_of tampered) (preimage_of payload))
unfolding engine_runs
verify_resealed_example =
    verify_resealed toy toy_laws payload tampered key (some 5) "now" sealed sealed.seal
      (preimage_of payload) (preimage_of tampered) (some key_text) refl (refl, refl, refl, refl)
      (not_null, not_null) refl refl refl

verify_answers_example :
    (b : Bool) × (verify toy
        (record_to_value (record sealed { payload = tampered }))
        key
        (some key_text)
      ≡ ok b)
unfolding engine_runs
verify_answers_example =
    verify_answers toy (record_to_value (record sealed { payload = tampered })) key (some key_text)
      (object (seal_to_fields sealed.seal)) sealed.seal tampered (preimage_of tampered)
      (preimage_of payload) (refl, refl, refl, refl) refl refl (5, refl)

verify_iff_example : (verify toy (record_to_value sealed) key (some key_text) ≡ ok true) ↔ (
    (seal_value : Value) × (seal : SealBlock) × (payload : Value) × Reads
      (record_to_value sealed)
      seal_value
      seal
      payload
    × Accepted toy payload seal key
        (or_else (some key_text) (get_str seal_value "ed25519PublicKey")))
verify_iff_example = verify_iff toy (record_to_value sealed) key (some key_text)

-- A record of the old shape.
abbrev legacy : Value
legacy = object (field "sealedAt" (string "t") end)

detect_schema_iff_example :
    ((detect_schema legacy ≡ ok v4) ↔ HasSealTime legacy)
    × ((detect_schema legacy ≡ err unsupported_schema_v3)
        ↔ ((¬ HasSealTime legacy) × HasTopTime legacy))
    × (((text : String) × (detect_schema legacy ≡ err (malformed text)))
        ↔ ((¬ HasSealTime legacy) × (¬ HasTopTime legacy)))
detect_schema_iff_example = detect_schema_iff legacy

parse_seal_fields-seal_to_fields_example :
    parse_seal_fields (seal_to_fields sealed.seal) ≡ ok sealed.seal
parse_seal_fields-seal_to_fields_example =
    parse_seal_fields-seal_to_fields sealed.seal (not_null, not_null)

-- A volatile entry between others, at two depths.
abbrev nested : Fields
nested =
    field "a" (object (field "truncated" null (field "b" (bool true) end)))
      (field "kg_status" null (field "c" (array (cons (string "x") nil)) end))

strip_excluded-IsClean_example : IsClean (strip_excluded payload)
strip_excluded-IsClean_example = strip_excluded-IsClean payload
