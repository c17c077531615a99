-- ===== src/Tests/Keys.antt =====
-- Small concrete instances of the keystore's crates, and its operations run over them.
use apohara_sealchain.Prelude.Slices.{take, drop, take-append, drop-append}
use apohara_sealchain.Prelude.{
  ℕ, zero, suc, ◌≡◌, refl, sym, String, Bytes, [], ◌∷◌, ◌++◌, length, nat_eq, if◌then◌else◌,
  into_bytes, arith, length-append,
}
use apohara_sealchain.Error.{Result, ok, err, ◌>>=◌, ok_injective}
use apohara_sealchain.Keystore.{KeystoreCrates, Secret, secret_of, header_of}
use apohara_sealchain.Keystore.RoundTrip.{KeystoreLaws}
use apohara_sealchain.Tests.Toy.{
  toy, encode_from, toy_encode, toy_decode, toy_key, toy_key_roundtrip, toy_decode-encode,
}

-- PEMs of the toy are texts of zeros and ones.
unfoldable pub bits_of : Bytes → Result String String
bits_of [] = ok String.[]
bits_of (b ∷ bs) =
    let rest = bits_of bs in
    if nat_eq b 48
    then (rest >>= λ s. ok (String.◌∷◌ "0" s))
    else if nat_eq b 49
    then (rest >>= λ s. ok (String.◌∷◌ "1" s))
    else err "invalid utf-8"

abbrev zeros : Bytes
zeros =
    0 ∷ 0 ∷ 0 ∷ 0 ∷ 0 ∷ 0 ∷ 0 ∷ 0 ∷ 0 ∷ 0 ∷ 0 ∷ 0 ∷ 0 ∷ 0 ∷ 0 ∷ 0 ∷ 0 ∷ 0 ∷ 0 ∷ 0 ∷ 0 ∷ 0 ∷ 0 ∷ 0
    ∷ 0 ∷ 0 ∷ 0 ∷ 0 ∷ 0 ∷ 0 ∷ 0 ∷ 0 ∷ []

unfoldable pub both : Result String Bytes → Result String Bytes → Result String Bytes
both a b = a >>= λ x. b >>= λ y. ok (x ++ y)

unfoldable pub secret_bytes : Bytes → Result String Secret
secret_bytes [] = err "empty"
secret_bytes (s ∷ hmac) =
    ok (record { ed25519_pkcs8_pem = toy_encode (s ∷ []); hmac_hex = toy_encode hmac })

abbrev pub toy_keystore : KeystoreCrates toy
toy_keystore = record {
  Params = Unit;
  new_params = λ n r p len. ok tt;
  scrypt = λ pass salt params. ok zeros;
  Cipher = Bytes;
  new_cipher = λ key. ok key;
  seal_with = λ cipher nonce plain. ok plain;
  open_with = λ cipher nonce sealed. ok sealed;
  header_to_vec = λ h. both (toy_decode h.salt) (toy_decode h.nonce);
  header_from_slice = λ b. ok (header_of (toy_encode (take 16 b)) (toy_encode (drop 16 b)));
  secret_to_vec = λ s. both (toy_decode s.ed25519_pkcs8_pem) (toy_decode s.hmac_hex);
  secret_from_slice = secret_bytes;
  to_pkcs8_pem = λ s. ok (toy_encode (s ∷ []));
  from_pkcs8_pem = toy_key;
  to_public_key_der = λ v. ok (v ∷ []);
  from_utf8 = bits_of;
}

bits_of-encode_from :
    (n : ℕ) (ns : Bytes) → bits_of (into_bytes (encode_from n ns)) ≡ ok (encode_from n ns)
unfolding bits_of into_bytes encode_from
bits_of-encode_from zero [] = refl
bits_of-encode_from zero (n ∷ ns) = rw (bits_of-encode_from n ns) refl
bits_of-encode_from (suc n) ns = rw (bits_of-encode_from n ns) refl

bits_of-encode : (b : Bytes) → bits_of (into_bytes (toy_encode b)) ≡ ok (toy_encode b)
unfolding bits_of into_bytes toy_encode
bits_of-encode [] = refl
bits_of-encode (n ∷ ns) = bits_of-encode_from n ns

utf8_of :
    (n : ℕ) (pem : String)
    → toy_keystore.to_pkcs8_pem n ≡ ok pem
    → bits_of (into_bytes pem) ≡ ok pem
utf8_of n pem e = rw (sym (ok_injective e)) (bits_of-encode (n ∷ []))

secret_vec :
    (n : ℕ) (pem : String) (hmac : Bytes)
    → toy_keystore.to_pkcs8_pem n ≡ ok pem
    → toy_keystore.secret_to_vec (secret_of toy pem hmac) ≡ ok (n ∷ hmac)
unfolding both
secret_vec n pem hmac e =
    rw (sym (ok_injective e)) (rw (toy_decode-encode (n ∷ []), toy_decode-encode hmac) refl)

read_secret :
    (n : ℕ) (pem : String) (hmac : Bytes)
    → toy_keystore.to_pkcs8_pem n ≡ ok pem
    → secret_bytes (n ∷ hmac) ≡ ok (secret_of toy pem hmac)
unfolding secret_bytes
read_secret n pem hmac e = rw (sym (ok_injective e)) refl

read_header :
    (salt nonce : Bytes)
    → length salt ≡ 16
    → toy_keystore.header_from_slice (salt ++ nonce)
      ≡ ok (header_of (toy_encode salt) (toy_encode nonce))
read_header salt nonce hs =
    let front : take 16 (salt ++ nonce) ≡ salt = rw (sym hs) (take-append salt nonce) in
    let back : drop 16 (salt ++ nonce) ≡ nonce = rw (sym hs) (drop-append salt nonce) in
    rw (front, back) refl

pub toy_keystore_laws : KeystoreLaws toy toy_keystore
unfolding secret_bytes both
toy_keystore_laws = record {
  params_valid = (tt, refl);
  scrypt_total = λ pass salt params. (zeros, refl, refl);
  cipher_total = λ key len. (key, refl);
  open-seal = λ cipher nonce plain len. (plain, refl, refl);
  header_reads = λ salt nonce hs hn. (
    salt ++ nonce,
    rw (toy_decode-encode salt, toy_decode-encode nonce) refl,
    read_header salt nonce hs,
    omega (arith, length-append {0} salt nonce),
  );
  secret_reads = λ s pem hmac e. (s ∷ hmac, secret_vec s pem hmac e, read_secret s pem hmac e);
  pkcs8_reads = λ s. (toy_encode (s ∷ []), refl, toy_key_roundtrip s _ refl);
  public_pem_total = λ v. (toy_encode (v ∷ []), refl);
  der_total = λ v. (v ∷ [], refl);
  private_utf8 = λ s pem e. utf8_of s pem e;
  public_utf8 = λ v pem e. utf8_of v pem e;
}
