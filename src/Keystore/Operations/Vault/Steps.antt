-- ===== src/Keystore/Operations/Vault/Steps.antt =====
-- Each operation on the vault, when no access fails.
use apohara_sealchain.Prelude.{◌≡◌, refl, String, Bytes, List, Option, none, some}
use apohara_sealchain.Error.{Result, SealError, ok}
use apohara_sealchain.Crypto.{Crypto, CryptoLaws}
use apohara_sealchain.Sealing.{Keys}
use apohara_sealchain.Keystore.{KeystoreCrates}
use apohara_sealchain.Keystore.RoundTrip.{KeystoreLaws}
use apohara_sealchain.Keystore.Dir.{
  Files, Dir, no_faults, Host, resolve_config_dir, create_archive, put_archived, ed25519_file,
  hmac_file, enc_file, public_file,
}
use apohara_sealchain.Keystore.Store.{Fresh, write_fresh, generate}
use apohara_sealchain.Keystore.Operations.{
  load_or_generate_with_passphrase, encrypt_keystore, decrypt_keystore, rotate,
}
use apohara_sealchain.Keystore.Operations.Vault.{
  Vault, empty, plain, locked, dir_of, IsFresh, IsBundle, Holds, load_plaintext_lem,
  load_encrypted_lem, write_plaintext_lem, write_encrypted_lem,
}

-- The vault that a bundle is written to.
abbrev pub stored : {c : Crypto} → Option String → Keys c → Vault c
stored none keys = plain keys
stored (some pass) keys = locked keys pass

abbrev pub bundle_of : {c : Crypto} → Fresh c → String → Keys c
bundle_of fresh pem = record {
  hmac = fresh.hmac;
  ed25519 = fresh.ed25519;
  ed25519_public_pem = pem;
}

module _ (c : Crypto) (k : KeystoreCrates c) (cl : CryptoLaws c) (kl : KeystoreLaws c k)
    (host : Host) (dir : String) (resolved : resolve_config_dir host ≡ ok dir) where
  -- An operation ends well, returning the keys, in a directory that holds the vault.
  abbrev pub Ends : Dir × Result SealError (Keys c) → Keys c → Vault c → Type 0
  Ends r keys v = (d : Dir) × (r ≡ (d, ok keys)) × Holds c k d v

  write_fresh_lem :
      (pass : Option String) (fresh : Fresh c) (pem : String) (p : Option Bytes)
      (a : List (String × Files))
      → IsFresh fresh
      → IsBundle c k (bundle_of fresh pem)
      → (d : Dir) × (write_fresh c k no_faults host dir pass fresh (dir_of none none none p a)
          ≡ (d, ok tt))
        × Holds c k d (stored pass (bundle_of fresh pem))
  unfolding write_fresh
  write_fresh_lem none fresh pem p a h bundle =
      let (b, is_pem, e) =
        write_plaintext_lem c k host dir cl kl fresh.ed25519 fresh.hmac none none none p a in
      (_, e, (b, p, a, refl, is_pem, bundle))
  write_fresh_lem (some pass) fresh pem p a h bundle =
      let (blob, public, opens, text, e) =
        write_encrypted_lem c k host dir cl kl (bundle_of fresh pem) pass fresh.salt fresh.nonce
          none none none p a h.0 h.1 bundle in
      (_, e, (blob, public, a, refl, text, opens, bundle))

  pub generate_empty :
      (d : Dir) (pass : Option String) (fresh : Fresh c) (pem : String)
      → IsFresh fresh
      → IsBundle c k (bundle_of fresh pem)
      → Holds c k d empty
      → Ends
          (load_or_generate_with_passphrase c k no_faults host pass fresh d)
          (bundle_of fresh pem)
          (stored pass (bundle_of fresh pem))
  unfolding load_or_generate_with_passphrase generate
  generate_empty d pass fresh pem h bundle (p, a, e) =
      let (d', written, holds) = write_fresh_lem pass fresh pem p a h bundle in
      (d', rw (e, resolved, written, bundle) refl, holds)

  pub load_plain :
      (d : Dir) (keys : Keys c) (pass : Option String) (fresh : Fresh c)
      → Holds c k d (plain keys)
      → load_or_generate_with_passphrase c k no_faults host pass fresh d ≡ (d, ok keys)
  unfolding load_or_generate_with_passphrase
  load_plain d keys pass fresh (b, p, a, e, pem, bundle) =
      rw (e, resolved) (load_plaintext_lem c k host dir b none p a keys pem bundle)

  pub load_locked :
      (d : Dir) (keys : Keys c) (pass : String) (fresh : Fresh c)
      → Holds c k d (locked keys pass)
      → load_or_generate_with_passphrase c k no_faults host (some pass) fresh d ≡ (d, ok keys)
  unfolding load_or_generate_with_passphrase
  load_locked d keys pass fresh (blob, public, a, e, text, opens, bundle) =
      rw (e, resolved)
        (load_encrypted_lem c k host dir blob none none (some public) a keys pass opens bundle)

  pub encrypt_plain :
      (d : Dir) (keys : Keys c) (pass : String) (fresh : Fresh c)
      → IsFresh fresh
      → Holds c k d (plain keys)
      → Ends (encrypt_keystore c k no_faults host pass fresh d) keys (locked keys pass)
  unfolding encrypt_keystore
  encrypt_plain d keys pass fresh h (b, p, a, e, pem, bundle) =
      let (blob, public, opens, text, written) =
        write_encrypted_lem c k host dir cl kl keys pass fresh.salt fresh.nonce (some b)
          (some keys.hmac) none p a h.0 h.1 bundle in
      (
        dir_of none none (some blob) (some public) a,
        rw (e, resolved, load_plaintext_lem c k host dir b none p a keys pem bundle, written) refl,
        (blob, public, a, refl, text, opens, bundle),
      )

  pub decrypt_locked :
      (d : Dir) (keys : Keys c) (pass : String)
      → Holds c k d (locked keys pass)
      → Ends (decrypt_keystore c k no_faults host pass d) keys (plain keys)
  unfolding decrypt_keystore
  decrypt_locked d keys pass (blob, public, a, e, text, opens, bundle) =
      let (b, pem, written) =
        write_plaintext_lem c k host dir cl kl keys.ed25519 keys.hmac none none (some blob)
          (some public) a in
      (
        dir_of (some b) (some keys.hmac) none none a,
        rw
            (
              e,
              resolved,
              load_encrypted_lem c k host dir blob none none (some public) a keys pass opens bundle,
              written,
            )
            refl,
        (b, none, a, refl, pem, bundle),
      )

  pub rotate_plain :
      (d : Dir) (keys : Keys c) (stamp : String) (pass : Option String) (fresh : Fresh c)
      (pem : String)
      → IsFresh fresh
      → IsBundle c k (bundle_of fresh pem)
      → Holds c k d (plain keys)
      → Ends
          (rotate c k no_faults host stamp pass fresh d)
          (bundle_of fresh pem)
          (plain (bundle_of fresh pem))
  unfolding rotate
  rotate_plain d keys stamp pass fresh pem h bundle (b, p, a, e, is_pem, old) =
      let (d', written, holds) =
        write_fresh_lem none fresh pem p
          (put_archived stamp hmac_file (some keys.hmac)
            (put_archived stamp ed25519_file (some b) (create_archive stamp a)))
          h bundle in
      (d', rw (e, resolved, written, bundle) refl, holds)

  pub rotate_locked :
      (d : Dir) (keys : Keys c) (pass : String) (stamp new_pass : String) (fresh : Fresh c)
      (pem : String)
      → IsFresh fresh
      → IsBundle c k (bundle_of fresh pem)
      → Holds c k d (locked keys pass)
      → Ends
          (rotate c k no_faults host stamp (some new_pass) fresh d)
          (bundle_of fresh pem)
          (locked (bundle_of fresh pem) new_pass)
  unfolding rotate
  rotate_locked d keys pass stamp new_pass fresh pem h bundle
        (blob, public, a, e, text, opens, old) =
      let (d', written, holds) =
        write_fresh_lem (some new_pass) fresh pem none
          (put_archived stamp public_file (some public)
            (put_archived stamp enc_file (some blob) (create_archive stamp a)))
          h bundle in
      (d', rw (e, resolved, written, bundle) refl, holds)
