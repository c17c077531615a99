-- ===== src/Tests/Toy.antt =====
-- A small concrete instance of the crates' interface that meets its laws.
use Prim.Native.Char.{code}
use apohara_sealchain.Prelude.{
  ℕ, zero, suc, ◌+◌, ◌*◌, ◌%◌, ◌≡◌, refl, ap, ◌∙◌, sym, String, Bytes, [], ◌∷◌, ◌++◌, length,
  nat_eq, bytes_eq, bytes_eq_iff, bytes_eq_refl, arith, if◌then◌else◌,
}
use apohara_sealchain.Error.{Result, ok, err}
use apohara_sealchain.Json.{
  Value, null, bool, number, string, array, object, Items, nil, cons, Fields, end, field,
}
use apohara_sealchain.Crypto.{Crypto, CryptoLaws}

-- A byte n is n times `1` and a `0`.
unfoldable pub encode_from : ℕ → Bytes → String
encode_from zero [] = String.◌∷◌ "0" String.[]
encode_from zero (n ∷ ns) = String.◌∷◌ "0" (encode_from n ns)
encode_from (suc k) ns = String.◌∷◌ "1" (encode_from k ns)

unfoldable pub toy_encode : Bytes → String
unfolding encode_from
toy_encode [] = ""
toy_encode (n ∷ ns) = encode_from n ns

cons_ok : ℕ → Result String Bytes → Result String Bytes
cons_ok n (ok ns) = ok (n ∷ ns)
cons_ok n (err e) = err e

decode_from : ℕ → String → Result String Bytes
decode_from k String.[] = if nat_eq k 0 then ok [] else err "odd length"
decode_from k (String.◌∷◌ ch s) =
    let more = decode_from (suc k) s in
    let next = decode_from 0 s in
    if nat_eq (code ch) 49
    then more
    else if nat_eq (code ch) 48
    then cons_ok k next
    else err "invalid character"

unfoldable pub toy_decode : String → Result String Bytes
unfolding decode_from cons_ok
toy_decode s = decode_from 0 s

decode-encode_from : (k j : ℕ) (ns : Bytes) → decode_from j (encode_from k ns) ≡ ok ((j + k) ∷ ns)
unfolding decode_from encode_from cons_ok
decode-encode_from zero j [] = ground arith
decode-encode_from zero j (n ∷ ns) = ground (arith, decode-encode_from n 0 ns)
decode-encode_from (suc k) j ns = ground (arith, decode-encode_from k (suc j) ns)

pub toy_decode-encode : (b : Bytes) → toy_decode (toy_encode b) ≡ ok b
unfolding toy_decode toy_encode
toy_decode-encode [] = ground arith
toy_decode-encode (n ∷ ns) = ground (arith, decode-encode_from n 0 ns)

unfoldable pub text_bytes : String → Bytes
text_bytes String.[] = 34 ∷ []
text_bytes (String.◌∷◌ ch s) = code ch ∷ text_bytes s

-- The bytes of a value, by a fixed printing of each constructor.
unfoldable mutual
  pub print : Value → Bytes → Bytes
  print null rest = 110 ∷ rest
  print (bool b) rest = (if b then 116 else 102) ∷ rest
  print (number n) rest = 48 ∷ rest
  print (string s) rest = 34 ∷ (text_bytes s ++ rest)
  print (array xs) rest = 91 ∷ print_items xs (93 ∷ rest)
  print (object fs) rest = 123 ∷ print_fields fs (125 ∷ rest)

  pub print_items : Items → Bytes → Bytes
  print_items nil rest = rest
  print_items (cons v vs) rest = print v (44 ∷ print_items vs rest)

  pub print_fields : Fields → Bytes → Bytes
  print_fields end rest = rest
  print_fields (field k v fs) rest = text_bytes k ++ (58 ∷ print v (44 ∷ print_fields fs rest))

checksum : ℕ → Bytes → ℕ
checksum h [] = h
checksum h (b ∷ bs) = checksum ((h * 31 + b) % 97) bs

-- Canonical JSON, cut down to a checksum of the printing.
unfoldable pub canonical : Value → Bytes
unfolding text_bytes print checksum
canonical v = checksum 0 (print v []) ∷ []

replicate : ℕ → ℕ → Bytes
replicate zero b = []
replicate (suc n) b = b ∷ replicate n b

length-replicate : (n b : ℕ) → length (replicate n b) ≡ n
unfolding replicate
length-replicate zero b = refl
length-replicate (suc n) b = ap suc (length-replicate n b)

sum : Bytes → ℕ
sum [] = 0
sum (b ∷ bs) = b + sum bs

unfoldable pub toy_sign : ℕ → Bytes → Bytes
unfolding replicate sum
toy_sign k msg = replicate 64 (k + sum msg)

read_key : Result String Bytes → Result String ℕ
read_key (ok (v ∷ [])) = ok v
read_key (ok _) = err "not a key"
read_key (err e) = err e

unfoldable pub toy_key : String → Result String ℕ
unfolding read_key toy_decode
toy_key pem = read_key (toy_decode pem)

pub toy_key_roundtrip :
    (v : ℕ) (pem : String)
    → (let r : Result String String = ok (toy_encode (v ∷ [])) in r) ≡ ok pem
    → toy_key pem ≡ ok v
unfolding toy_key
toy_key_roundtrip v pem h =
    let e : toy_encode (v ∷ []) ≡ pem = cc in
    ap toy_key (sym e) ∙ ap read_key (toy_decode-encode (v ∷ []))

-- Everything that a run over the toy computes with.
unfoldable pub toy_runs : Unit {0}
unfolding toy_encode toy_decode text_bytes print canonical replicate sum toy_sign toy_key bytes_eq
toy_runs = tt

abbrev pub toy : Crypto
toy = record {
  to_vec = λ v. ok (canonical v);
  shape_error = λ v. "invalid shape";
  encode = toy_encode;
  decode = toy_decode;
  digest = λ b. 2 ∷ b;
  Mac = Bytes;
  new_from_slice = λ k. ok k;
  finalize = λ k msg. k ++ msg;
  verify_slice = λ k msg tag. bytes_eq (k ++ msg) tag;
  SigningKey = ℕ;
  VerifyingKey = ℕ;
  verifying_key = λ k. k;
  from_public_key_pem = toy_key;
  to_public_key_pem = λ v. ok (toy_encode (v ∷ []));
  as_bytes = λ v. v ∷ [];
  sign_bytes = toy_sign;
  verify_bytes = λ v msg sig. bytes_eq (toy_sign v msg) sig;
}

length-toy_sign : (k : ℕ) (msg : Bytes) → length (toy_sign k msg) ≡ 64
unfolding toy_sign
length-toy_sign k msg = length-replicate 64 (k + sum msg)

pub toy_laws : CryptoLaws toy
toy_laws = record {
  decode-encode = toy_decode-encode;
  any_key = λ k. (k, refl);
  verify_slice_iff = λ k msg tag. bytes_eq_iff (k ++ msg) tag;
  length-sign = length-toy_sign;
  verify-sign = λ k msg. bytes_eq_refl (toy_sign k msg);
  pem_roundtrip = toy_key_roundtrip;
}
