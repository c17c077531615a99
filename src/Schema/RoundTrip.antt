-- ===== src/Schema/RoundTrip.antt =====
-- A seal block is read back as it was written.
use apohara_sealchain.Prelude.{
  ◌≡◌, ◌≢◌, refl, String, Bool, Option, none, some, arith, if◌then◌else◌, ◌==◌,
}
use apohara_sealchain.Error.{ok}
use apohara_sealchain.Json.{
  Value, null, bool, string, object, Fields, get_field, as_str, and_then, get, get_str,
}
use apohara_sealchain.Schema.{
  SealBlock, SealedRecord, record_to_value, record_from_value, seal_from_value, HmacLayer,
  Ed25519Layer, put_some, hmac_to_value, ed25519_to_value, seal_to_fields, parse_value, parse_hmac,
  parse_ed25519, parse_seal_fields, optional, parse_str, parse_bool, map_option,
}

abbrev or_else : Option Value → Option Value → Option Value
or_else none b = b
or_else (some a) b = some a

get_field-put_some :
    (j k : String) (o : Option Value) (r : Fields)
    → get_field (put_some j o r) k ≡ (if j == k then or_else o (get_field r k) else get_field r k)
unfolding get_field put_some
get_field-put_some j k none r = ground arith
get_field-put_some j k (some v) r = refl

parse_hmac-to_value : (l : HmacLayer) → parse_hmac (hmac_to_value l) ≡ ok l
unfolding parse_hmac hmac_to_value get_field as_str
parse_hmac-to_value l = refl

parse_ed25519-to_value : (l : Ed25519Layer) → parse_ed25519 (ed25519_to_value l) ≡ ok l
unfolding parse_ed25519 ed25519_to_value get_field as_str
parse_ed25519-to_value l = refl

-- An opaque layer that is the JSON null would be read back as absent.
abbrev pub IsNotNull : Option Value → Type 0
IsNotNull o = o ≢ some null

abbrev pub IsWritable : SealBlock → Type 0
IsWritable s = IsNotNull s.tsa × IsNotNull s.rekor_anchor

or_else-none : (o : Option Value) → or_else o none ≡ o
or_else-none none = refl
or_else-none (some v) = refl

optional-str : (o : Option String) → optional parse_str (map_option string o) ≡ ok o
unfolding as_str
optional-str none = refl
optional-str (some s) = refl

optional-bool : (o : Option Bool) → optional parse_bool (map_option bool o) ≡ ok o
unfolding parse_bool
optional-bool none = refl
optional-bool (some b) = refl

optional-ed25519 :
    (o : Option Ed25519Layer) → optional parse_ed25519 (map_option ed25519_to_value o) ≡ ok o
unfolding parse_ed25519 ed25519_to_value get_field as_str
optional-ed25519 none = refl
optional-ed25519 (some l) = refl

optional-value : (o : Option Value) → IsNotNull o → optional parse_value o ≡ ok o
unfolding parse_value
optional-value none h = refl
optional-value (some null) h = absurd (h refl)
optional-value (some _) h = refl

ruleset read_laws =
    (get_field-put_some, or_else-none, optional-str, optional-bool, optional-ed25519)

-- Reading back the fields of a written seal block gives the block, if no opaque layer in it is the
-- JSON null.
pub parse_seal_fields-seal_to_fields :
    (s : SealBlock) → IsWritable s → parse_seal_fields (seal_to_fields s) ≡ ok s
unfolding parse_seal_fields seal_to_fields get_field as_str
parse_seal_fields-seal_to_fields s (t, r) =
    simp (read_laws, parse_hmac-to_value, optional-value s.tsa t, optional-value s.rekor_anchor r)

pub record_from_value-record_to_value :
    (r : SealedRecord) → IsWritable r.seal → record_from_value (record_to_value r) ≡ ok r
unfolding record_from_value record_to_value get_field parse_value seal_from_value
record_from_value-record_to_value r h = rw (parse_seal_fields-seal_to_fields r.seal h) refl

and_then-as_str : (o : Option String) → and_then (map_option string o) as_str ≡ o
unfolding as_str
and_then-as_str none = refl
and_then-as_str (some s) = refl

-- `verify` reads the embedded key from the raw block.
pub get_str-seal_to_fields :
    (s : SealBlock) → get_str (object (seal_to_fields s)) "ed25519PublicKey" ≡ s.ed25519_public_key
unfolding get_str get seal_to_fields get_field
get_str-seal_to_fields s = simp (get_field-put_some, or_else-none, and_then-as_str)
