-- ===== src/Verify.antt =====
-- crates/apohara-sealchain-core/src/verify.rs: verification of a raw record's HMAC and Ed25519 layers.
pub mod Accepts
pub mod Raw
pub mod Sealed
pub mod Errors
use Prim.Native.String.{◌++◌}
use apohara_sealchain.Prelude.{
  String, Bytes, Bool, true, false, not, Option, none, some, bytes_eq, if◌then◌else◌,
}
use apohara_sealchain.Error.{
  SealError, malformed, invalid_preimage, missing_public_key, Result, ok, err, ◌>>=◌, ◌>>◌, map_err,
  ok_or,
}
use apohara_sealchain.Json.{Value, get, get_str}
use apohara_sealchain.Crypto.{Crypto}
use apohara_sealchain.Schema.{Ed25519Layer, SealBlock, seal_from_value, detect_schema}
use apohara_sealchain.Layers.{decode_hex0x, hmac_verify, verifying_key_from_pem, ed25519_verify}
use apohara_sealchain.Seal.{build_preimage}

-- `a.or(b)`
abbrev pub or_else : Option String → Option String → Option String
or_else none b = b
or_else (some a) b = some a

module _ (c : Crypto) where
  -- A malformed hex signature is a mismatch, not an error.
  unfoldable pub hmac_matches : Bytes → Bytes → Result String Bytes → Bool
  hmac_matches computed key (ok sig) = hmac_verify c computed sig key
  hmac_matches computed key (err e) = false

  unfoldable pub ed25519_matches : Bytes → c.VerifyingKey → Result String Bytes → Bool
  ed25519_matches computed key (ok sig) = ed25519_verify c computed sig key
  ed25519_matches computed key (err e) = false

  -- The Ed25519 layer, if it is present.
  unfoldable pub check_ed25519 : Bytes → Option Ed25519Layer → Option String → Result SealError Bool
  unfolding ed25519_matches
  check_ed25519 computed none pubkey_pem = ok true
  check_ed25519 computed (some ed_layer) pubkey_pem = do
    pem ← ok_or missing_public_key pubkey_pem
    key ← verifying_key_from_pem c pem
    ok (ed25519_matches computed key (decode_hex0x c ed_layer.sig))

  -- From the comparison of the two preimages on.
  unfoldable pub compare_layers :
      Bytes → Bytes → SealBlock → Bytes → Option String → Result SealError Bool
  unfolding hmac_matches check_ed25519
  compare_layers computed stored seal key_hmac pubkey_pem =
      if not (bytes_eq computed stored)
      then ok false
      else if not (hmac_matches computed key_hmac (decode_hex0x c seal.hmac.sig))
      then ok false
      else check_ed25519 computed seal.ed25519 pubkey_pem

  -- From the recomputed preimage on.
  unfoldable pub verify_block : Value → SealBlock → Bytes → Option String → Result SealError Bool
  unfolding compare_layers
  verify_block payload seal key_hmac pubkey_pem = do
    computed ← build_preimage c payload seal.sealed_at
    stored ← map_err (λ e. invalid_preimage ("preimage: " ++ e)) (decode_hex0x c seal.preimage)
    compare_layers computed stored seal key_hmac pubkey_pem

  unfoldable pub verify : Value → Bytes → Option String → Result SealError Bool
  verify value key_hmac pubkey_pem = do
    detect_schema value
    seal_value ← ok_or (malformed "missing seal block") (get value "seal")
    seal ←
        map_err (λ _. malformed ("invalid seal block: " ++ c.shape_error seal_value))
          (seal_from_value seal_value)
    let embedded = get_str seal_value "ed25519PublicKey"
    payload ← ok_or (malformed "missing payload") (get value "payload")
    verify_block payload seal key_hmac (or_else pubkey_pem embedded)
