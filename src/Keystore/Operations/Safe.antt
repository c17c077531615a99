-- ===== src/Keystore/Operations/Safe.antt =====
-- Encrypting a keystore in place, whichever access fails.
use apohara_sealchain.Prelude.{
  ◌≡◌, refl, ◌∙◌, sym, ◌⊎◌, inl, inr, subst, String, Bytes, some, arith,
}
use apohara_sealchain.Error.{SealError, Result, ok, err}
use apohara_sealchain.Crypto.{Crypto, CryptoLaws}
use apohara_sealchain.Sealing.{Keys}
use apohara_sealchain.Keystore.{KeystoreCrates, secret_of, encrypt_secret, from_parts}
use apohara_sealchain.Keystore.RoundTrip.{KeystoreLaws, decrypt_secret-encrypt_secret}
use apohara_sealchain.Keystore.Dir.{
  ed25519_file, hmac_file, Dir, Faults, no_faults, Host, resolve_config_dir, resume, ◌>>◌, done,
}
use apohara_sealchain.Keystore.Store.{
  Fresh, remove_file, load_plaintext, load_encrypted, write_encrypted,
}
use apohara_sealchain.Keystore.Operations.Vault.{
  dir_of, IsFresh, Opens, IsBundle, load_encrypted_lem,
}
use apohara_sealchain.Keystore.Operations.{plaintext_keys, replace_plaintext, encrypt_keystore}

-- Both plaintext files are as they were.
abbrev Kept : Dir → Dir → Type 0
Kept d d' =
    (d'.active.ed25519_pem ≡ d.active.ed25519_pem) × (d'.active.hmac_key ≡ d.active.hmac_key)

module _ (c : Crypto) (k : KeystoreCrates c) (w : Faults) (host : Host) (dir : String) where
  load_plaintext_keeps : (d : Dir) → (load_plaintext c k w host dir d).0 ≡ d
  unfolding load_plaintext
  load_plaintext_keeps d = ground arith

  plaintext_keys_keeps : (d : Dir) → (plaintext_keys c k w host dir d).0 ≡ d
  unfolding plaintext_keys
  plaintext_keys_keeps d = ground (arith, load_plaintext_keeps d)

  load_plaintext-IsBundle :
      (d d' : Dir) (keys : Keys c)
      → load_plaintext c k w host dir d ≡ (d', ok keys)
      → IsBundle c k keys
  unfolding load_plaintext from_parts
  load_plaintext-IsBundle d d' keys h = ground arith

  plaintext_keys-loads :
      (d d' : Dir) (keys : Keys c)
      → plaintext_keys c k w host dir d ≡ (d', ok keys)
      → load_plaintext c k w host dir d ≡ (d, ok keys)
  unfolding plaintext_keys
  plaintext_keys-loads d d' keys h = ground (arith, load_plaintext_keeps d)

  write_encrypted-Kept :
      (s : c.SigningKey) (hmac : Bytes) (pass : String) (salt nonce : Bytes) (d : Dir)
      → Kept d (write_encrypted c k w host dir s hmac pass salt nonce d).0
  unfolding write_encrypted
  write_encrypted-Kept s hmac pass salt nonce d = ground arith

  write_encrypted-stored :
      (s : c.SigningKey) (hmac : Bytes) (pass pem : String) (salt nonce blob : Bytes) (d d' : Dir)
      → k.to_pkcs8_pem s ≡ ok pem
      → encrypt_secret c k (secret_of c pem hmac) pass salt nonce ≡ ok blob
      → write_encrypted c k w host dir s hmac pass salt nonce d ≡ (d', ok tt)
      → d'.active.keystore_enc ≡ some blob
  unfolding write_encrypted
  write_encrypted-stored s hmac pass pem salt nonce blob d d' e₁ e₂ h = ground arith

  removed_enc :
      (keys : Keys c) (d : Dir)
      → ((remove_file c k w host dir ed25519_file
            >> (remove_file c k w host dir hmac_file >> done keys))
          d).0.active.keystore_enc
        ≡ d.active.keystore_enc
  unfolding remove_file
  removed_enc keys d = ground arith

module _ (c : Crypto) (k : KeystoreCrates c) (host : Host) (dir : String) where
  load_opened :
      (d : Dir) (blob : Bytes) (pass : String) (keys : Keys c)
      → d.active.keystore_enc ≡ some blob
      → Opens c k blob pass keys
      → IsBundle c k keys
      → load_encrypted c k no_faults host dir (some pass) d ≡ (d, ok keys)
  load_opened d blob pass keys e opens bundle =
      subst
        (λ x.
          let at = dir_of d.active.ed25519_pem d.active.hmac_key x d.active.public_pem d.archive in
          load_encrypted c k no_faults host dir (some pass) at ≡ (at, ok keys))
        (sym e)
        (load_encrypted_lem c k host dir blob d.active.ed25519_pem d.active.hmac_key
          d.active.public_pem d.archive keys pass opens bundle)

  module _ (w : Faults) (cl : CryptoLaws c) (kl : KeystoreLaws c k) where
    -- The bundle can be read from the new directory under the passphrase.
    abbrev Moved : String → Keys c → Dir → Type 0
    Moved pass keys d' = load_encrypted c k no_faults host dir (some pass) d' ≡ (d', ok keys)

    finish :
        (keys : Keys c) (blob : Bytes) (pass : String) (d : Dir)
        (r : Dir × Result SealError (Unit {0}))
        → Kept d r.0
        → Opens c k blob pass keys
        → IsBundle c k keys
        → ((d' : Dir) → r ≡ (d', ok tt) → d'.active.keystore_enc ≡ some blob)
        → Kept d
            (resume r (λ u.
              remove_file c k w host dir ed25519_file
              >> (remove_file c k w host dir hmac_file >> done keys))).0
          ⊎ Moved pass keys
              (resume r (λ u.
                remove_file c k w host dir ed25519_file
                >> (remove_file c k w host dir hmac_file >> done keys))).0
    finish keys blob pass d (d₁, err e) kept opens bundle stored = inl kept
    finish keys blob pass d (d₁, ok tt) kept opens bundle stored = inr (
        load_opened _ blob pass keys (removed_enc c k w host dir keys d₁ ∙ stored d₁ refl) opens
          bundle)

    replace_plaintext_safe :
        (d : Dir) (pass : String) (fresh : Fresh c) (keys : Keys c)
        → IsFresh fresh
        → IsBundle c k keys
        → Kept d (replace_plaintext c k w host dir pass fresh keys d).0
          ⊎ Moved pass keys (replace_plaintext c k w host dir pass fresh keys d).0
    unfolding replace_plaintext
    replace_plaintext_safe d pass fresh keys (hs, hn) bundle =
        let (pem, e₁, e₂) = kl.pkcs8_reads keys.ed25519 in
        let (blob, e₃, e₄) =
          decrypt_secret-encrypt_secret c k cl kl keys.ed25519 pem pass keys.hmac fresh.salt
            fresh.nonce e₁ hs hn in
        let opens : Opens c k blob pass keys = record {
          secret = secret_of c pem keys.hmac;
          decrypts = e₄;
          parses = e₂;
          decodes = cl.decode-encode keys.hmac;
        } in
        finish keys blob pass d
          (write_encrypted c k w host dir keys.ed25519 keys.hmac pass fresh.salt fresh.nonce d)
          (write_encrypted-Kept c k w host dir keys.ed25519 keys.hmac pass fresh.salt fresh.nonce d)
          opens bundle
          (λ d' h.
            write_encrypted-stored c k w host dir keys.ed25519 keys.hmac pass pem fresh.salt
              fresh.nonce blob d d' e₁ e₃ h)

    loaded_safe :
        (d : Dir) (pass : String) (fresh : Fresh c) (r : Dir × Result SealError (Keys c))
        → IsFresh fresh
        → r.0 ≡ d
        → ((d' : Dir) (keys : Keys c)
            → r ≡ (d', ok keys)
            → load_plaintext c k w host dir d ≡ (d, ok keys))
        → Kept d (resume r (replace_plaintext c k w host dir pass fresh)).0
          ⊎ ((keys : Keys c) × (load_plaintext c k w host dir d ≡ (d, ok keys))
              × Moved pass keys (resume r (replace_plaintext c k w host dir pass fresh)).0)
    loaded_safe d pass fresh (d₁, err e) h same loads = inl (rw same (refl, refl))
    loaded_safe d pass fresh (d₁, ok keys) h same loads =
        let loaded = loads d₁ keys refl in
        let bundle = load_plaintext-IsBundle c k w host dir d d keys loaded in
        rw same (elim (replace_plaintext_safe d pass fresh keys h bundle) [
          | inl kept ↦ inl kept
          | inr moved ↦ inr (keys, loaded, moved)
        ])

module _ (c : Crypto) (k : KeystoreCrates c) (cl : CryptoLaws c) (kl : KeystoreLaws c k)
    (w : Faults) (host : Host) where
  -- Whichever access fails, encrypting a keystore in place leaves both plaintext files as they were, or
  -- a directory from which the passphrase reads the very bundle that the plaintext files held.
  pub encrypt_keystore_safe :
      (d : Dir) (pass dir : String) (fresh : Fresh c)
      → resolve_config_dir host ≡ ok dir
      → IsFresh fresh
      → let d' = (encrypt_keystore c k w host pass fresh d).0 in
        ((d'.active.ed25519_pem ≡ d.active.ed25519_pem) × (d'.active.hmac_key ≡ d.active.hmac_key))
        ⊎ ((keys : Keys c) × (load_plaintext c k w host dir d ≡ (d, ok keys))
            × (load_encrypted c k no_faults host dir (some pass) d' ≡ (d', ok keys)))
  unfolding encrypt_keystore
  encrypt_keystore_safe d pass dir fresh resolved h = rw resolved (
      loaded_safe c k host dir w cl kl d pass fresh (plaintext_keys c k w host dir d) h
        (plaintext_keys_keeps c k w host dir d) (plaintext_keys-loads c k w host dir d))
