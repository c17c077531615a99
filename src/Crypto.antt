-- ===== src/Crypto.antt =====
-- The crates that the core calls for canonical JSON, hex, SHA-256, HMAC and Ed25519
-- (serde_jcs, hex, sha2, hmac, ed25519-dalek). Their operations are a parameter of the model;
-- `CryptoLaws` is the documented behaviour that properties may assume.
use apohara_sealchain.Prelude.{◌≡◌, ◌↔◌, true, Bool, String, Bytes, length}
use apohara_sealchain.Error.{Result, ok}
use apohara_sealchain.Json.{Value}

pub record Crypto : Type 1 where
  -- serde_jcs::to_vec, with the text of its error
  pub to_vec : Value → Result String Bytes
  -- the text with which serde_json refuses a value of another shape
  pub shape_error : Value → String
  -- hex::encode and hex::decode
  pub encode : Bytes → String
  pub decode : String → Result String Bytes
  -- Sha256::digest
  pub digest : Bytes → Bytes
  -- Hmac::<Sha256>: new_from_slice; update and finalize; update and verify_slice(..).is_ok()
  pub Mac : Type 0
  pub new_from_slice : Bytes → Result String Mac
  pub finalize : Mac → Bytes → Bytes
  pub verify_slice : Mac → Bytes → Bytes → Bool
  -- ed25519_dalek
  pub SigningKey : Type 0
  pub VerifyingKey : Type 0
  pub verifying_key : SigningKey → VerifyingKey
  pub from_public_key_pem : String → Result String VerifyingKey
  pub to_public_key_pem : VerifyingKey → Result String String
  pub as_bytes : VerifyingKey → Bytes
  pub sign_bytes : SigningKey → Bytes → Bytes
  pub verify_bytes : VerifyingKey → Bytes → Bytes → Bool

pub record CryptoLaws (c : Crypto) : Type 1 where
  -- hex decoding inverts encoding
  pub decode-encode : (b : Bytes) → c.decode (c.encode b) ≡ ok b
  -- HMAC takes keys of any length, and a tag verifies exactly when it is the computed one
  pub any_key : (k : Bytes) → (m : c.Mac) × (c.new_from_slice k ≡ ok m)
  pub verify_slice_iff :
      (m : c.Mac) (msg tag : Bytes) → (c.verify_slice m msg tag ≡ true) ↔ (c.finalize m msg ≡ tag)
  -- Ed25519 signatures have 64 bytes and verify under the signer's public key
  pub length-sign : (k : c.SigningKey) (msg : Bytes) → length (c.sign_bytes k msg) ≡ 64
  pub verify-sign :
      (k : c.SigningKey) (msg : Bytes)
      → c.verify_bytes (c.verifying_key k) msg (c.sign_bytes k msg) ≡ true
  -- a public key is read back from its PEM
  pub pem_roundtrip :
      (v : c.VerifyingKey) (pem : String)
      → c.to_public_key_pem v ≡ ok pem
      → c.from_public_key_pem pem ≡ ok v
