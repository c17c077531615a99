-- ===== src/Keystore/Operations/Guards.antt =====
-- What an encrypted keystore refuses.
use apohara_sealchain.Prelude.{◌≡◌, refl, String, Bytes, some, none, arith}
use apohara_sealchain.Error.{SealError, key_error, ok, err}
use apohara_sealchain.Crypto.{Crypto}
use apohara_sealchain.Keystore.{KeystoreCrates, decrypt_secret}
use apohara_sealchain.Keystore.Dir.{Dir, Faults, reading, enc_file, Host, resolve_config_dir}
use apohara_sealchain.Keystore.Store.{Fresh}
use apohara_sealchain.Keystore.Operations.{
  load_or_generate_with_passphrase, encrypt_keystore, decrypt_keystore, any_file, rotate,
}

-- An encrypted keystore whose blob can be read but does not open under a passphrase refuses, without
-- changing the directory, loading and rotating without a passphrase and encrypting again, with `KeyError`,
-- and loading and decrypting under that passphrase, with the error of the blob. It does not refuse to
-- rotate under that passphrase.
pub encrypted_refuses :
    (c : Crypto) (k : KeystoreCrates c) (w : Faults) (host : Host) (d : Dir) (blob : Bytes)
    (dir pass stamp : String) (fresh : Fresh c) (e : SealError)
    → resolve_config_dir host ≡ ok dir
    → d.active.keystore_enc ≡ some blob
    → w.fault (reading enc_file) ≡ none
    → decrypt_secret c k blob pass ≡ err e
    → (load_or_generate_with_passphrase c k w host none fresh d ≡ (
      d,
      err (key_error "keystore is encrypted: provide --passphrase or set SEALCHAIN_PASSPHRASE"),
    ))
      × (rotate c k w host stamp none fresh d
          ≡ (d, err (key_error "encrypted keystore: provide --passphrase to rotate")))
      × (encrypt_keystore c k w host pass fresh d
          ≡ (d, err (key_error "keystore is already encrypted")))
      × (load_or_generate_with_passphrase c k w host (some pass) fresh d ≡ (d, err e))
      × (decrypt_keystore c k w host pass d ≡ (d, err e))
unfolding load_or_generate_with_passphrase encrypt_keystore decrypt_keystore rotate any_file
encrypted_refuses c k w host d blob dir pass stamp fresh e resolved held readable wrong = (
  rw (resolved, held) refl,
  rw (resolved, held) refl,
  rw (resolved, held) refl,
  ground arith,
  ground arith,
)
