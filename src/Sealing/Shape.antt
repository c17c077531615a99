-- ===== src/Sealing/Shape.antt =====
-- crates/apohara-sealchain-core/src/artifact.rs: what sealing without the network and without
-- embedding makes.
use apohara_sealchain.Prelude.{
  ◌≡◌, refl, ap, sym, ◌∙◌, subst, String, Bytes, Bool, true, false, length, Option, none, some,
}
use apohara_sealchain.Error.{ok, ◌>>=◌, >>=-eq-ok}
use apohara_sealchain.Json.{Value, unwrap_or}
use apohara_sealchain.Schema.{SealBlock, SealedRecord}
use apohara_sealchain.Layers.{hex0x, hmac_sign}
use apohara_sealchain.Layers.C2pa.{emit_sidecar}
use apohara_sealchain.Seal.{build_preimage, seal_deterministic}
use apohara_sealchain.Seal.Shape.{block_of, seal_deterministic-eq-ok}
use apohara_sealchain.Paths.{file_name}
use apohara_sealchain.Artifact.{Crates, sha256_hex}
use apohara_sealchain.Sealing.{
  Keys, Environment, SealOptions, payload_of, add_c2pa, add_tsa, add_rekor, seal_bytes,
}

abbrev pub offline : Option String → Bool → Bool → SealOptions
offline sealed_at with_c2pa ai_generated = record {
  sealed_at = sealed_at;
  c2pa = with_c2pa;
  embed = false;
  tsa = none;
  rekor = none;
  ai_generated = ai_generated;
}

module _ (e : Crates) (env : Environment e.crypto) (keys : Keys e.crypto) where
  abbrev name_of : String → String
  name_of path = unwrap_or (file_name path) path

  abbrev pub file_payload : String → Bytes → Value
  file_payload path b =
      payload_of (sha256_hex e.crypto b) (name_of path) (length b)
        (unwrap_or (env.guess_mime path) "application/octet-stream")

  -- The sidecar, if there is one, is over this payload and signed with the seal's key.
  abbrev pub SidecarOf : Value → Bool → Option String → Type 0
  SidecarOf payload ai none = Unit
  SidecarOf payload ai (some text) =
      (jumbf : Bytes) × (text ≡ hex0x e.crypto jumbf)
      × (emit_sidecar e.crypto e.media payload keys.ed25519 ai ≡ ok jumbf)

  abbrev pub sealed_block : Bytes → Bytes → String → Option String → SealBlock
  sealed_block p tag at sidecar = record (block_of e.crypto p tag (some keys.ed25519) at) {
    ed25519_public_key = some keys.ed25519_public_pem;
    c2pa_manifest = sidecar;
  }

  abbrev with_key : SealedRecord → SealedRecord
  with_key m = record m {
    seal = record (m.seal) { ed25519_public_key = some keys.ed25519_public_pem };
  }

  abbrev with_block : SealedRecord → SealBlock → SealedRecord
  with_block m s = record { payload = m.payload; seal = s }

  add_c2pa-offline :
      (at : Option String) (with_c2pa ai : Bool) (payload : Value) (p tag : Bytes) (time : String)
      {s : SealBlock}
      → add_c2pa e env keys
          (offline at with_c2pa ai)
          (record { payload = payload; seal = sealed_block p tag time none })
        ≡ ok s
      → (sidecar : Option String) × SidecarOf payload ai sidecar
        × (sealed_block p tag time sidecar ≡ s)
  unfolding add_c2pa
  add_c2pa-offline at false ai payload p tag time h = (none, tt, cc)
  add_c2pa-offline at true ai payload p tag time h =
      let (jumbf, emitted, h₁) =
        >>=-eq-ok (emit_sidecar e.crypto e.media payload keys.ed25519 ai) _ h in
      (some (hex0x e.crypto jumbf), (jumbf, refl, emitted), cc)

  pub seal_bytes-offline :
      (path : String) (b : Bytes) (at : Option String) (with_c2pa ai : Bool) {r : SealedRecord}
      → seal_bytes e env keys path b (offline at with_c2pa ai) ≡ ok r
      → (p : Bytes) × (tag : Bytes) × (sidecar : Option String) × (build_preimage e.crypto
            (file_payload path b)
            (unwrap_or at env.now)
          ≡ ok p)
        × (hmac_sign e.crypto p keys.hmac ≡ ok tag)
        × SidecarOf (file_payload path b) ai sidecar
        × (record {
          payload = file_payload path b;
          seal = sealed_block p tag (unwrap_or at env.now) sidecar;
        }
            ≡ r)
  unfolding seal_bytes add_tsa add_rekor
  seal_bytes-offline path b at with_c2pa ai {r = r} h =
      let (made, e₁, h₁) =
        >>=-eq-ok
          (seal_deterministic e.crypto (file_payload path b) keys.hmac (some keys.ed25519)
            (unwrap_or at env.now))
          _ h in
      let (p, tag, pre, mac, shape) =
        seal_deterministic-eq-ok e.crypto (file_payload path b) keys.hmac (some keys.ed25519)
          (unwrap_or at env.now) e₁ in
      let h₂ =
        subst
          (λ (m : SealedRecord).
            (add_c2pa e env keys (offline at with_c2pa ai) (with_key m) >>= λ bound.
            ok (with_block m bound))
            ≡ ok r)
          (sym shape) h₁ in
      let (s, bound, h₃) =
        >>=-eq-ok
          (add_c2pa e env keys (offline at with_c2pa ai) (
            with_key (record {
              payload = file_payload path b;
              seal = block_of e.crypto p tag (some keys.ed25519) (unwrap_or at env.now);
            })))
          _ h₂ in
      let (sidecar, of, same) =
        add_c2pa-offline at with_c2pa ai (file_payload path b) p tag (unwrap_or at env.now) bound in
      let result : with_block
            (record {
              payload = file_payload path b;
              seal = block_of e.crypto p tag (some keys.ed25519) (unwrap_or at env.now);
            })
            s
          ≡ r =
        cc in
      (
        p,
        tag,
        sidecar,
        pre,
        mac,
        of,
        ap (λ (x : SealBlock). record { payload = file_payload path b; seal = x }) same ∙ result,
      )
