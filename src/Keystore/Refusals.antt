-- ===== src/Keystore/Refusals.antt =====
-- How decryption fails.
use apohara_sealchain.Prelude.{◌≡◌, String, Bytes, Bool, true, false, arith}
use apohara_sealchain.Error.{SealError, decrypt, err}
use apohara_sealchain.Crypto.{Crypto}
use apohara_sealchain.Keystore.{KeystoreCrates, EncHeader, open_secret, decrypt_secret}

-- `matches!(e, SealError::Decrypt(_))`
abbrev pub is_decrypt : SealError → Bool
is_decrypt (decrypt text) = true
is_decrypt _ = false

module _ (c : Crypto) (k : KeystoreCrates c) where
  open_secret-is_decrypt :
      (header : EncHeader) (ciphertext : Bytes) (passphrase : String) (e : SealError)
      → open_secret c k header ciphertext passphrase ≡ err e
      → is_decrypt e ≡ true
  unfolding open_secret
  open_secret-is_decrypt header ciphertext passphrase e h = ground arith

  -- Whatever the blob and the passphrase, decryption fails with `Decrypt` only.
  pub decrypt_secret-is_decrypt :
      (blob : Bytes) (passphrase : String) (e : SealError)
      → decrypt_secret c k blob passphrase ≡ err e
      → is_decrypt e ≡ true
  unfolding decrypt_secret
  decrypt_secret-is_decrypt blob passphrase e h = grind (arith, open_secret-is_decrypt)
