-- ===== src/Cli/RunKeys/Converts.antt =====
-- crates/apohara-sealchain/src/cli.rs: `key encrypt` and `key decrypt` over a directory of keys.
use apohara_sealchain.Prelude.{◌≡◌, refl, String, true, false, Option, some}
use apohara_sealchain.Error.{ok}
use apohara_sealchain.Crypto.{Crypto, CryptoLaws}
use apohara_sealchain.Sealing.{Keys}
use apohara_sealchain.Keystore.{KeystoreCrates}
use apohara_sealchain.Keystore.RoundTrip.{KeystoreLaws}
use apohara_sealchain.Keystore.Dir.{Dir, no_faults, Host, resolve_config_dir}
use apohara_sealchain.Keystore.Store.{Fresh}
use apohara_sealchain.Keystore.Operations.Vault.{plain, locked, IsFresh, Holds}
use apohara_sealchain.Keystore.Operations.Vault.Steps.{encrypt_plain, decrypt_locked}
use apohara_sealchain.Cli.{exit_ok}
use apohara_sealchain.Cli.RunSeal.{resolve_passphrase}
use apohara_sealchain.Cli.RunKeys.{ended, converted, run_key_convert}

module _ (c : Crypto) (k : KeystoreCrates c) (cl : CryptoLaws c) (kl : KeystoreLaws c k)
    (host : Host) (dir : String) (resolved : resolve_config_dir host ≡ ok dir) where
  -- When no access fails, `key encrypt` of a plaintext keystore exits 0 and leaves it encrypted, and
  -- `key decrypt` under the same passphrase, whether given or from the variable, then exits 0 and leaves the
  -- same keys in plaintext. The crates are assumed to keep their laws, the configuration directory to
  -- resolve, and the salt and nonce that are drawn to have 16 and 24 bytes.
  pub run_key_convert-run_key_convert :
      (var given given' : Option String) (pass : String) (fresh fresh' : Fresh c) (keys : Keys c)
      (d : Dir)
      → resolve_passphrase given var ≡ some pass
      → resolve_passphrase given' var ≡ some pass
      → IsFresh fresh
      → Holds c k d (plain keys)
      → (d₁ : Dir) × (d₂ : Dir) × (run_key_convert c k no_faults host var given true fresh d
          ≡ (d₁, (exit_ok, "ENCRYPTED\n")))
        × Holds c k d₁ (locked keys pass)
        × (run_key_convert c k no_faults host var given' false fresh' d₁
            ≡ (d₂, (exit_ok, "DECRYPTED\n")))
        × Holds c k d₂ (plain keys)
  unfolding run_key_convert converted ended
  run_key_convert-run_key_convert var given given' pass fresh fresh' keys d e e' h holds =
      let (d₁, done₁, locked₁) =
        encrypt_plain c k cl kl host dir resolved d keys pass fresh h holds in
      let (d₂, done₂, plain₂) = decrypt_locked c k cl kl host dir resolved d₁ keys pass locked₁ in
      (d₁, d₂, rw (e, done₁) refl, locked₁, rw (e', done₂) refl, plain₂)
