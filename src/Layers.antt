-- ===== src/Layers.antt =====
-- crates/apohara-sealchain-core/src/layers/{hmac,ed25519}.rs, jcs.rs, and the hex helpers that
-- seal.rs, verify.rs and artifact.rs repeat.
pub mod Laws
pub mod C2pa
pub mod Tsa
pub mod Rekor
use Prim.Native.String.{◌++◌}
use apohara_sealchain.Prelude.{String, Bool, true, false, Bytes, ◌&&◌, length, nat_eq, strip_prefix}
use apohara_sealchain.Error.{
  SealError, canonicalization, key_error, Result, ok, err, ◌>>=◌, map_err,
}
use apohara_sealchain.Json.{Value, unwrap_or}
use apohara_sealchain.Crypto.{Crypto}

module _ (c : Crypto) where
  unfoldable pub canonicalize : Value → Result SealError Bytes
  canonicalize v = map_err canonicalization (c.to_vec v)

  unfoldable pub hex0x : Bytes → String
  hex0x bytes = "0x" ++ c.encode bytes

  -- The prefix is optional.
  unfoldable pub decode_hex0x : String → Result String Bytes
  decode_hex0x s = c.decode (unwrap_or (strip_prefix "0x" s) s)

  unfoldable pub hmac_sign : Bytes → Bytes → Result SealError Bytes
  hmac_sign preimage key = do
    mac ← map_err (λ e. key_error ("hmac key: " ++ e)) (c.new_from_slice key)
    ok (c.finalize mac preimage)

  hmac_verify_with : Bytes → Bytes → Result String c.Mac → Bool
  hmac_verify_with preimage sig (ok mac) = c.verify_slice mac preimage sig
  hmac_verify_with preimage sig (err e) = false

  unfoldable pub hmac_verify : Bytes → Bytes → Bytes → Bool
  unfolding hmac_verify_with
  hmac_verify preimage sig key = hmac_verify_with preimage sig (c.new_from_slice key)

  unfoldable pub verifying_key_from_pem : String → Result SealError c.VerifyingKey
  verifying_key_from_pem pem = map_err key_error (c.from_public_key_pem pem)

  unfoldable pub ed25519_sign : Bytes → c.SigningKey → Bytes
  ed25519_sign preimage key = c.sign_bytes key preimage

  -- A signature of another length than 64 is a mismatch.
  unfoldable pub ed25519_verify : Bytes → Bytes → c.VerifyingKey → Bool
  ed25519_verify preimage sig key = nat_eq (length sig) 64 && c.verify_bytes key preimage sig
