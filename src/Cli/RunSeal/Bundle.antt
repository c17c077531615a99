-- ===== src/Cli/RunSeal/Bundle.antt =====
-- crates/apohara-sealchain-core/src/keystore.rs, as `seal` uses it: the public text of a bundle.
use Prim.Native.String.{◌++◌}
use apohara_sealchain.Prelude.{
  ◌≡◌, ap, ℕ, String, Bytes, Bool, true, false, Option, none, some, ◌&&◌, ◌||◌, Bool-cases, inl,
  inr, if◌then◌else◌,
}
use apohara_sealchain.Error.{SealError, key_error, Result, ok, err, map_err, map_err-eq-ok, ok_or}
use apohara_sealchain.Error
use apohara_sealchain.Json.{is_some}
use apohara_sealchain.Crypto.{Crypto}
use apohara_sealchain.Policy.{Chrono}
use apohara_sealchain.Artifact.{Crates}
use apohara_sealchain.Sealing.{Keys}
use apohara_sealchain.Keystore.{KeystoreCrates, decrypt_secret, from_parts}
use apohara_sealchain.Keystore.Dir
use apohara_sealchain.Keystore.Dir.{
  Dir, Faults, Host, M, lift, attempt, creating, resolve_config_dir, ed25519_file, hmac_file,
  enc_file,
}
use apohara_sealchain.Keystore.Store.{
  Fresh, read, read_to_string, write_fresh, load_plaintext, load_encrypted, generate,
  load_or_generate_in, from_overrides,
}
use apohara_sealchain.Keystore.Operations.{load_or_generate_with_passphrase}
use apohara_sealchain.Cli.{schema_exit}
use apohara_sealchain.Cli.RunSeal.{
  SealArgs, System, World, shell, resolve_passphrase, keys_for_seal, with_hmac,
  resolve_keys_for_seal,
}

-- The public text of the bundle is that of its signing key.
abbrev pub IsBundle : (c : Crypto) → Keys c → Type 0
IsBundle c keys = c.to_public_key_pem (c.verifying_key keys.ed25519) ≡ ok keys.ed25519_public_pem

module _ (c : Crypto) (k : KeystoreCrates c) where
  from_parts-IsBundle :
      (hmac : Bytes) (ed : c.SigningKey) {keys : Keys c}
      → from_parts c k hmac ed ≡ ok keys
      → IsBundle c keys
  unfolding from_parts
  from_parts-IsBundle hmac ed {keys = keys} h =
      let (pem, made, same) =
        Error.>>=-eq-ok
          (map_err (λ x. key_error ("encode public pem: " ++ x))
            (c.to_public_key_pem (c.verifying_key ed)))
          _ h in
      let text = map_err-eq-ok _ (c.to_public_key_pem (c.verifying_key ed)) made in cc

  from_overrides-IsBundle :
      (read : String → Result String String) (hmac : Option Bytes) (path : Option String)
      (fresh : Fresh c) {keys : Keys c}
      → from_overrides c k read hmac path fresh ≡ ok keys
      → IsBundle c keys
  unfolding from_overrides
  from_overrides-IsBundle read hmac none fresh h = from_parts-IsBundle _ _ h
  from_overrides-IsBundle read hmac (some path) fresh h =
      let (pem, held, h₁) = Error.>>=-eq-ok (map_err _ (read path)) _ h in
      let (signing, parsed, h₂) = Error.>>=-eq-ok (map_err _ (k.from_pkcs8_pem pem)) _ h₁ in
      from_parts-IsBundle _ signing h₂

  -- An operation of the keystore whose result is a bundle.
  abbrev pub Gives : M (Keys c) → Type 0
  Gives m = (d d' : Dir) (keys : Keys c) → m d ≡ (d', ok keys) → IsBundle c keys

  Gives-parts : (hmac : Bytes) (ed : c.SigningKey) → Gives (lift (from_parts c k hmac ed))
  Gives-parts hmac ed d d' keys h = from_parts-IsBundle hmac ed (ap (λ x. x.1) h)

  module _ (w : Faults) (host : Host) (dir : String) where
    load_plaintext-IsBundle : Gives (load_plaintext c k w host dir)
    unfolding load_plaintext
    load_plaintext-IsBundle d d' keys h =
        let (pem, d₁, _, h₁) =
          Dir.>>=-eq-ok (read_to_string c k w host dir ed25519_file) _ d d' keys h in
        let (signing, d₂, _, h₂) =
          Dir.>>=-eq-ok (lift (map_err _ (k.from_pkcs8_pem pem))) _ d₁ d' keys h₁ in
        let (hmac, d₃, _, h₃) = Dir.>>=-eq-ok (read c k w host dir hmac_file) _ d₂ d' keys h₂ in
        Gives-parts hmac signing d₃ d' keys h₃

    load_encrypted-IsBundle : (pass : Option String) → Gives (load_encrypted c k w host dir pass)
    unfolding load_encrypted
    load_encrypted-IsBundle pass d d' keys h =
        let (text, d₁, _, h₁) = Dir.>>=-eq-ok (lift (ok_or _ pass)) _ d d' keys h in
        let (blob, d₂, _, h₂) = Dir.>>=-eq-ok (read c k w host dir enc_file) _ d₁ d' keys h₁ in
        let (secret, d₃, _, h₃) =
          Dir.>>=-eq-ok (lift (decrypt_secret c k blob text)) _ d₂ d' keys h₂ in
        let (signing, d₄, _, h₄) =
          Dir.>>=-eq-ok (lift (map_err _ (k.from_pkcs8_pem secret.ed25519_pkcs8_pem))) _ d₃ d' keys
            h₃ in
        let (hmac, d₅, _, h₅) =
          Dir.>>=-eq-ok (lift (map_err _ (c.decode secret.hmac_hex))) _ d₄ d' keys h₄ in
        Gives-parts hmac signing d₅ d' keys h₅

    generate-IsBundle :
        (pass : Option String) (fresh : Fresh c) → Gives (generate c k w host dir pass fresh)
    unfolding generate
    generate-IsBundle pass fresh d d' keys h =
        let (u, d₁, _, h₁) = Dir.>>=-eq-ok (attempt (w.fault creating) _) _ d d' keys h in
        let (v, d₂, _, h₂) =
          Dir.>>=-eq-ok (write_fresh c k w host dir pass fresh) _ d₁ d' keys h₁ in
        Gives-parts fresh.hmac fresh.ed25519 d₂ d' keys h₂

    Gives-if : (b : Bool) (m n : M (Keys c)) → Gives m → Gives n → Gives (if b then m else n)
    Gives-if true m n g h = g
    Gives-if false m n g h = h

    load_or_generate_in-IsBundle :
        (pass : Option String) (fresh : Fresh c)
        → Gives (load_or_generate_in c k w host dir pass fresh)
    unfolding load_or_generate_in
    load_or_generate_in-IsBundle pass fresh d d' keys h =
        let generates = generate-IsBundle pass fresh in
        let plain =
          Gives-if (is_some d.active.ed25519_pem && is_some d.active.hmac_key) _ _
            load_plaintext-IsBundle generates in
        Gives-if (is_some d.active.keystore_enc) _ _ (load_encrypted-IsBundle pass) plain d d' keys
          h

  pub opened-IsBundle :
      (w : Faults) (host : Host) (pass : Option String) (fresh : Fresh c)
      → Gives (load_or_generate_with_passphrase c k w host pass fresh)
  unfolding load_or_generate_with_passphrase
  opened-IsBundle w host pass fresh d d' keys h =
      let (dir, d₁, _, h₁) = Dir.>>=-eq-ok (lift (resolve_config_dir host)) _ d d' keys h in
      load_or_generate_in-IsBundle w host dir pass fresh d₁ d' keys h₁

module _ (e : Crates) (chrono : Chrono) (sys : System e chrono) where
  keys_for_seal-IsBundle :
      (args : SealArgs) (w w' : World e chrono sys) (hmac : Option Bytes) {keys : Keys e.crypto}
      → keys_for_seal e chrono sys args w hmac ≡ (w', ok keys)
      → IsBundle e.crypto keys
  unfolding keys_for_seal
  keys_for_seal-IsBundle args w w' hmac {keys = keys} h =
      elim (Bool-cases (is_some hmac || is_some args.key)) [
        | inl given ↦ from_overrides-IsBundle e.crypto sys.keystore _ hmac args.key sys.fresh (
            map_err-eq-ok schema_exit
              (from_overrides e.crypto sys.keystore ((shell e chrono sys w.disk).read_to_string)
                hmac args.key sys.fresh)
              (ap (λ x. x.1) (rw given at h)))
        | inr default ↦
            let opened =
              load_or_generate_with_passphrase e.crypto sys.keystore sys.faults sys.host
                (resolve_passphrase args.passphrase sys.passphrase_var) sys.fresh w.keys in
            opened-IsBundle e.crypto sys.keystore sys.faults sys.host _ sys.fresh w.keys opened.0
              keys
              (ap (λ r. (opened.0, r))
                (map_err-eq-ok schema_exit opened.1 (ap (λ x. x.1) (rw default at h))))
      ]

  with_hmac-IsBundle :
      (args : SealArgs) (w w' : World e chrono sys) (m : Result ℕ (Option Bytes))
      {keys : Keys e.crypto}
      → with_hmac e chrono sys args w m ≡ (w', ok keys)
      → IsBundle e.crypto keys
  unfolding with_hmac
  with_hmac-IsBundle args w w' (err code) h = cc
  with_hmac-IsBundle args w w' (ok hmac) h = keys_for_seal-IsBundle args w w' hmac h

  pub resolve_keys_for_seal-IsBundle :
      (args : SealArgs) (w w' : World e chrono sys) {keys : Keys e.crypto}
      → resolve_keys_for_seal e chrono sys args w ≡ (w', ok keys)
      → IsBundle e.crypto keys
  unfolding resolve_keys_for_seal
  resolve_keys_for_seal-IsBundle args w w' h = with_hmac-IsBundle args w w' _ h
