-- ===== src/Schema.antt =====
-- crates/apohara-sealchain-core/src/schema.rs: the wire types, the serde derives that its attributes
-- describe, and `detect_schema`. Proofs are in the modules below.
pub mod RoundTrip
pub mod Detect
use apohara_sealchain.Prelude.{String, Bool, true, false, Option, none, some, if◌then◌else◌}
use apohara_sealchain.Error.{
  SealError, malformed, unsupported_schema_v3, Result, ok, err, ◌>>=◌, ok_or,
}
use apohara_sealchain.Json.{
  Value, null, bool, string, array, object, Items, nil, cons, Fields, end, field, get_field, as_str,
  as_object, and_then, is_some,
}

pub data SchemaVersion : Type 0 where
  v4 : SchemaVersion

pub record HmacLayer : Type 0 where
  pub alg : String
  pub key_id : String
  pub sig : String

pub record Ed25519Layer : Type 0 where
  pub key_id : String
  pub sig : String

pub record SealBlock : Type 0 where
  pub method : String
  pub sealed_at : String
  pub preimage : String
  pub hmac : HmacLayer
  pub ed25519 : Option Ed25519Layer
  pub ed25519_public_key : Option String
  pub tsa : Option Value
  pub rekor_anchor : Option Value
  pub c2pa_manifest : Option String
  pub c2pa_embedded : Option Bool

pub record SealedRecord : Type 0 where
  pub payload : Value
  pub seal : SealBlock

-- `#[serde(skip_serializing_if = "Option::is_none")]`
unfoldable pub put_some : String → Option Value → Fields → Fields
put_some k none rest = rest
put_some k (some v) rest = field k v rest

abbrev pub map_option : {A B : Type 0} → (A → B) → Option A → Option B
map_option f none = none
map_option f (some a) = some (f a)

unfoldable pub hmac_to_value : HmacLayer → Value
hmac_to_value l =
    object (
      field "alg" (string l.alg) (field "keyId" (string l.key_id) (field "sig" (string l.sig) end)))

unfoldable pub ed25519_to_value : Ed25519Layer → Value
ed25519_to_value l = object (field "keyId" (string l.key_id) (field "sig" (string l.sig) end))

-- `impl Serialize for SealBlock`
unfoldable pub seal_to_fields : SealBlock → Fields
seal_to_fields s = field "method" (string s.method) (
    field "sealedAt" (string s.sealed_at) (
      field "preimage" (string s.preimage) (
        field "hmac" (hmac_to_value s.hmac) (
          put_some "ed25519" (map_option ed25519_to_value s.ed25519) (
            put_some "ed25519PublicKey" (map_option string s.ed25519_public_key) (
              put_some "tsa" s.tsa (
                put_some "rekorAnchor" s.rekor_anchor (
                  put_some "c2paManifest" (map_option string s.c2pa_manifest)
                    (put_some "c2paEmbedded" (map_option bool s.c2pa_embedded) end)))))))))

-- `impl Serialize for SealedRecord`
unfoldable pub record_to_value : SealedRecord → Value
record_to_value r =
    object (field "payload" r.payload (field "seal" (object (seal_to_fields r.seal)) end))

-- Deserialization. The text of a refusal is not modelled here.
abbrev pub Parsed : Type 0 → Type 0
Parsed A = Result (Unit {0}) A

abbrev pub parse_str : Value → Parsed String
parse_str v = ok_or tt (as_str v)

unfoldable pub parse_bool : Value → Parsed Bool
parse_bool (bool b) = ok b
parse_bool _ = err tt

unfoldable pub parse_value : Value → Parsed Value
parse_value v = ok v

abbrev pub required : {A : Type 0} → (Value → Parsed A) → Option Value → Parsed A
required parse none = err tt
required parse (some v) = parse v

-- An `Option` field with `default`: absent and null are `None`.
abbrev pub optional : {A : Type 0} → (Value → Parsed A) → Option Value → Parsed (Option A)
optional parse none = ok none
optional parse (some null) = ok none
optional parse (some v) = do a ← parse v; ok (some a)

-- A derived struct is read from an object, and from an array of its fields in order.
unfoldable pub parse_hmac : Value → Parsed HmacLayer
parse_hmac (object fs) = do
  alg ← required parse_str (get_field fs "alg")
  key_id ← required parse_str (get_field fs "keyId")
  sig ← required parse_str (get_field fs "sig")
  ok (record { alg = alg; key_id = key_id; sig = sig })
parse_hmac (array (cons a (cons k (cons s nil)))) = do
  alg ← parse_str a
  key_id ← parse_str k
  sig ← parse_str s
  ok (record { alg = alg; key_id = key_id; sig = sig })
parse_hmac _ = err tt

unfoldable pub parse_ed25519 : Value → Parsed Ed25519Layer
parse_ed25519 (object fs) = do
  key_id ← required parse_str (get_field fs "keyId")
  sig ← required parse_str (get_field fs "sig")
  ok (record { key_id = key_id; sig = sig })
parse_ed25519 (array (cons k (cons s nil))) = do
  key_id ← parse_str k
  sig ← parse_str s
  ok (record { key_id = key_id; sig = sig })
parse_ed25519 _ = err tt

-- `impl Deserialize for SealBlock`, from an object. Unknown keys are ignored.
unfoldable pub parse_seal_fields : Fields → Parsed SealBlock
unfolding parse_hmac parse_ed25519 parse_bool parse_value
parse_seal_fields fs = do
  method ← required parse_str (get_field fs "method")
  sealed_at ← required parse_str (get_field fs "sealedAt")
  preimage ← required parse_str (get_field fs "preimage")
  hmac ← required parse_hmac (get_field fs "hmac")
  ed25519 ← optional parse_ed25519 (get_field fs "ed25519")
  ed25519_public_key ← optional parse_str (get_field fs "ed25519PublicKey")
  tsa ← optional parse_value (get_field fs "tsa")
  rekor_anchor ← optional parse_value (get_field fs "rekorAnchor")
  c2pa_manifest ← optional parse_str (get_field fs "c2paManifest")
  c2pa_embedded ← optional parse_bool (get_field fs "c2paEmbedded")
  ok (record {
    method = method;
    sealed_at = sealed_at;
    preimage = preimage;
    hmac = hmac;
    ed25519 = ed25519;
    ed25519_public_key = ed25519_public_key;
    tsa = tsa;
    rekor_anchor = rekor_anchor;
    c2pa_manifest = c2pa_manifest;
    c2pa_embedded = c2pa_embedded;
  })

-- `serde_json::from_value::<SealBlock>`, at the values that pass `detect_schema`: objects.
unfoldable pub seal_from_value : Value → Parsed SealBlock
unfolding parse_seal_fields
seal_from_value (object fs) = parse_seal_fields fs
seal_from_value _ = err tt

-- `SealedRecord`'s derived reader, from an object whose block is one: serde's reading of a struct from
-- an array of its fields is left out.
unfoldable pub record_from_value : Value → Parsed SealedRecord
record_from_value (object fs) = do
  payload ← required parse_value (get_field fs "payload")
  seal ← required seal_from_value (get_field fs "seal")
  ok (record { payload = payload; seal = seal })
record_from_value _ = err tt

-- `obj.get("seal")…get("sealedAt")` and `obj.get("sealedAt")`, as strings.
unfoldable pub seal_time : Fields → Option String
seal_time obj =
    and_then (and_then (get_field obj "seal") as_object)
      (λ seal. and_then (get_field seal "sealedAt") as_str)

unfoldable pub top_time : Fields → Option String
top_time obj = and_then (get_field obj "sealedAt") as_str

detect_object : Fields → Result SealError SchemaVersion
detect_object obj =
    if is_some (seal_time obj)
    then ok v4
    else if is_some (top_time obj)
    then err unsupported_schema_v3
    else err (malformed "no seal.sealedAt and no top-level sealedAt")

unfoldable pub detect_schema : Value → Result SealError SchemaVersion
unfolding detect_object
detect_schema value = do
  obj ← ok_or (malformed "record is not a JSON object") (as_object value)
  detect_object obj
