-- ===== src/Verify/Raw.antt =====
-- Verification of a raw record: the structural gates, then the layers.
use Prim.Native.String.{◌++◌}
use apohara_sealchain.Prelude.{◌≡◌, ◌↔◌, refl, ap, ◌∙◌, Bytes, Bool, true, String, Option, some}
use apohara_sealchain.Error.{malformed, ok, map_err, ok_or, >>=-eq-ok, map_err-eq-ok, ok_or-eq-ok}
use apohara_sealchain.Json.{Value, get, get_str}
use apohara_sealchain.Crypto.{Crypto}
use apohara_sealchain.Schema.{SchemaVersion, v4, SealBlock, seal_from_value, detect_schema}
use apohara_sealchain.Verify.{or_else, verify_block, verify}
use apohara_sealchain.Verify.Accepts.{Accepted, verify_block_iff}

-- The record is read as this seal block, from this value, over this payload.
abbrev pub Reads : Value → Value → SealBlock → Value → Type 0
Reads value seal_value seal payload =
    (detect_schema value ≡ ok v4)
    × (get value "seal" ≡ some seal_value)
    × (seal_from_value seal_value ≡ ok seal)
    × (get value "payload" ≡ some payload)

only_v4 : (v : SchemaVersion) → v ≡ v4
only_v4 v4 = refl

module _ (c : Crypto) (value : Value) (key : Bytes) (pem : Option String) where
  pub verify_of_Reads :
      (seal_value : Value) (seal : SealBlock) (payload : Value)
      → Reads value seal_value seal payload
      → verify c value key pem
        ≡ verify_block c payload seal key (or_else pem (get_str seal_value "ed25519PublicKey"))
  unfolding verify
  verify_of_Reads seal_value seal payload (gate, found, parsed, there) =
      rw (gate, found, parsed, there)

  pub verify-eq-ok :
      (b : Bool)
      → verify c value key pem ≡ ok b
      → (seal_value : Value) × (seal : SealBlock) × (payload : Value) × Reads value seal_value seal
          payload
        × (verify_block c payload seal key (or_else pem (get_str seal_value "ed25519PublicKey"))
            ≡ ok b)
  unfolding verify
  verify-eq-ok b h =
      let (version, gate, h₁) = >>=-eq-ok (detect_schema value) _ h in
      let (seal_value, found, h₂) =
        >>=-eq-ok (ok_or (malformed "missing seal block") (get value "seal")) _ h₁ in
      let refused = malformed ("invalid seal block: " ++ c.shape_error seal_value) in
      let (seal, parsed, h₃) =
        >>=-eq-ok (map_err (λ _. refused) (seal_from_value seal_value)) _ h₂ in
      let (payload, there, h₄) =
        >>=-eq-ok (ok_or (malformed "missing payload") (get value "payload")) _ h₃ in
      (
        seal_value,
        seal,
        payload,
        (
          gate ∙ ap ok (only_v4 version),
          ok_or-eq-ok _ (get value "seal") found,
          map_err-eq-ok _ (seal_from_value seal_value) parsed,
          ok_or-eq-ok _ (get value "payload") there,
        ),
        h₄,
      )

  -- A raw record verifies exactly when its structure can be read and the parts read are accepted; the
  -- Ed25519 key is the one given, else the embedded one.
  pub verify_iff : (verify c value key pem ≡ ok true) ↔ (
      (seal_value : Value) × (seal : SealBlock) × (payload : Value) × Reads value seal_value seal
        payload
      × Accepted c payload seal key (or_else pem (get_str seal_value "ed25519PublicKey")))
  verify_iff = (
    λ h.
        let (sv, seal, payload, reads, good) = verify-eq-ok true h in
        (sv, seal, payload, reads, (verify_block_iff c payload seal key _).0 good),
    λ (sv, seal, payload, reads, accepted).
        verify_of_Reads sv seal payload reads ∙ (verify_block_iff c payload seal key _).1 accepted,
  )
