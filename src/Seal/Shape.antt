-- ===== src/Seal/Shape.antt =====
-- What a deterministic seal holds.
use apohara_sealchain.Prelude.{◌≡◌, Bytes, String, Option, none}
use apohara_sealchain.Error.{ok, >>=-eq-ok}
use apohara_sealchain.Json.{Value}
use apohara_sealchain.Crypto.{Crypto}
use apohara_sealchain.Schema.{SealBlock, SealedRecord, map_option}
use apohara_sealchain.Layers.{hex0x, hmac_sign}
use apohara_sealchain.Seal.{method_v1, hmac_alg, ed25519_layer, build_preimage, seal_deterministic}

-- The block that is built from a preimage and a tag.
abbrev pub block_of : (c : Crypto) → Bytes → Bytes → Option c.SigningKey → String → SealBlock
block_of c preimage tag ed sealed_at = record {
  method = method_v1;
  sealed_at = sealed_at;
  preimage = hex0x c preimage;
  hmac = record { alg = hmac_alg; key_id = "hmac-default"; sig = hex0x c tag };
  ed25519 = map_option (ed25519_layer c preimage) ed;
  ed25519_public_key = none;
  tsa = none;
  rekor_anchor = none;
  c2pa_manifest = none;
  c2pa_embedded = none;
}

pub seal_deterministic-eq-ok :
    (c : Crypto) (payload : Value) (key : Bytes) (ed : Option c.SigningKey) (sealed_at : String)
    {r : SealedRecord}
    → seal_deterministic c payload key ed sealed_at ≡ ok r
    → (p : Bytes) × (tag : Bytes) × (build_preimage c payload sealed_at ≡ ok p)
      × (hmac_sign c p key ≡ ok tag)
      × (record { payload = payload; seal = block_of c p tag ed sealed_at } ≡ r)
unfolding seal_deterministic
seal_deterministic-eq-ok c payload key ed sealed_at h =
    let (p, made, h') = >>=-eq-ok (build_preimage c payload sealed_at) _ h in
    let (tag, signed, h'') = >>=-eq-ok (hmac_sign c p key) _ h' in (p, tag, made, signed, cc)
