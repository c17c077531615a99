-- ===== src/Seal.antt =====
-- crates/apohara-sealchain-core/src/seal.rs: the canonical preimage and the deterministic seal.
pub mod Shape
use apohara_sealchain.Prelude.{String, Bytes, Option, none}
use apohara_sealchain.Error.{SealError, Result, ok, ◌>>=◌}
use apohara_sealchain.Json.{Value, string, object, end, field}
use apohara_sealchain.Crypto.{Crypto}
use apohara_sealchain.Schema.{Ed25519Layer, SealedRecord, map_option}
use apohara_sealchain.Excluded.{strip_excluded}
use apohara_sealchain.Layers.{canonicalize, hex0x, hmac_sign, ed25519_sign}

-- crates/apohara-sealchain-core/src/lib.rs
abbrev pub method_v1 : String
method_v1 = "apohara-seal-v1"

-- layers/hmac.rs
abbrev pub hmac_alg : String
hmac_alg = "HMAC-SHA256"

-- The object that the seal covers: the stripped payload between the method and the time.
unfoldable pub envelope : Value → String → Value
envelope payload sealed_at = object (
    field "method" (string method_v1)
      (field "sealedAt" (string sealed_at) (field "payload" (strip_excluded payload) end)))

module _ (c : Crypto) where
  unfoldable pub build_preimage : Value → String → Result SealError Bytes
  build_preimage payload sealed_at = canonicalize c (envelope payload sealed_at)

  unfoldable pub ed25519_layer : Bytes → c.SigningKey → Ed25519Layer
  ed25519_layer preimage key = record {
    key_id = "default";
    sig = hex0x c (ed25519_sign c preimage key);
  }

  unfoldable pub seal_deterministic :
      Value → Bytes → Option c.SigningKey → String → Result SealError SealedRecord
  unfolding ed25519_layer
  seal_deterministic payload key_hmac ed sealed_at = do
    preimage ← build_preimage payload sealed_at
    hmac_sig ← hmac_sign c preimage key_hmac
    ok (record {
      payload = payload;
      seal = record {
        method = method_v1;
        sealed_at = sealed_at;
        preimage = hex0x c preimage;
        hmac = record { alg = hmac_alg; key_id = "hmac-default"; sig = hex0x c hmac_sig };
        ed25519 = map_option (ed25519_layer preimage) ed;
        ed25519_public_key = none;
        tsa = none;
        rekor_anchor = none;
        c2pa_manifest = none;
        c2pa_embedded = none;
      };
    })
