-- ===== src/Keystore/Store.antt =====
-- crates/apohara-sealchain-core/src/keystore.rs: reading and writing the two storage modes.
use Prim.Native.String.{◌++◌}
use apohara_sealchain.Prelude.{String, Bytes, ◌&&◌, Option, none, some, into_bytes, if◌then◌else◌}
use apohara_sealchain.Error.{SealError, key_error, Result, ok, err, map_err, ok_or}
use apohara_sealchain.Error
use apohara_sealchain.Json.{unwrap_or}
use apohara_sealchain.Crypto.{Crypto}
use apohara_sealchain.Sealing.{Keys}
use apohara_sealchain.Keystore.{
  KeystoreCrates, secret_of, from_parts, encrypt_secret, decrypt_secret,
}
use apohara_sealchain.Keystore.Dir.{
  File, ed25519_file, hmac_file, enc_file, public_file, name_of, get, Faults, reading, writing,
  restricting, removing, creating, M, ◌>>=◌, ◌>>◌, lift, is_file, Host, attempt, change, put,
}

-- What the operating system's generators return to one operation.
pub record Fresh (c : Crypto) : Type 0 where
  pub ed25519 : c.SigningKey
  pub hmac : Bytes
  pub salt : Bytes
  pub nonce : Bytes

module _ (c : Crypto) (k : KeystoreCrates c) (w : Faults) (host : Host) (dir : String) where
  abbrev message : String → File → String → SealError
  message verb f text = key_error (verb ++ " " ++ host.display dir (name_of f) ++ ": " ++ text)

  -- fs::read
  unfoldable pub read : File → M Bytes
  read f d = elim (w.fault (reading f)) [
    | some text ↦ (d, err (message "read" f text))
    | none ↦ elim (get f d.active) [
      | some b ↦ (d, ok b)
      | none ↦ (d, err (message "read" f host.not_found))
    ]
  ]

  -- fs::read_to_string
  unfoldable pub read_to_string : File → M String
  unfolding read
  read_to_string f = do b ← read f; lift (map_err (message "read" f) (k.from_utf8 b))

  -- fs::write
  unfoldable pub write : File → Bytes → M (Unit {0})
  write f b d = elim (w.fault (writing f)) [
    | some text ↦ (put f (w.left f) d, err (message "write" f text))
    | none ↦ (put f (some b) d, ok tt)
  ]

  unfoldable pub write_private : File → Bytes → M (Unit {0})
  unfolding write
  write_private f b = do write f b; attempt (w.fault (restricting f)) (message "chmod" f)

  -- fs::remove_file, of a file that is there
  unfoldable pub remove_file : File → M (Unit {0})
  remove_file f = do attempt (w.fault (removing f)) (message "remove" f); change (put f none)

  unfoldable pub load_plaintext : M (Keys c)
  unfolding read_to_string read
  load_plaintext = do
    pem ← read_to_string ed25519_file
    signing ← lift (map_err (λ x. key_error ("parse ed25519 pem: " ++ x)) (k.from_pkcs8_pem pem))
    hmac ← read hmac_file
    lift (from_parts c k hmac signing)

  unfoldable pub load_encrypted : Option String → M (Keys c)
  unfolding read
  load_encrypted passphrase = do
    pass ← lift (
        ok_or (key_error "keystore is encrypted: provide --passphrase or set SEALCHAIN_PASSPHRASE")
          passphrase)
    blob ← read enc_file
    secret ← lift (decrypt_secret c k blob pass)
    signing ← lift (
        map_err (λ x. key_error ("parse ed25519 pem: " ++ x))
          (k.from_pkcs8_pem secret.ed25519_pkcs8_pem))
    hmac ← lift (map_err (λ x. key_error ("decode hmac: " ++ x)) (c.decode secret.hmac_hex))
    lift (from_parts c k hmac signing)

  unfoldable pub write_plaintext : c.SigningKey → Bytes → M (Unit {0})
  unfolding write_private write
  write_plaintext signing hmac = do
    pem ← lift (map_err (λ x. key_error ("encode pkcs8 pem: " ++ x)) (k.to_pkcs8_pem signing))
    write_private ed25519_file (into_bytes pem)
    write_private hmac_file hmac

  unfoldable pub write_encrypted :
      c.SigningKey → Bytes → String → (salt nonce : Bytes) → M (Unit {0})
  unfolding write_private write
  write_encrypted signing hmac passphrase salt nonce = do
    pem ← lift (map_err (λ x. key_error ("encode pkcs8 pem: " ++ x)) (k.to_pkcs8_pem signing))
    blob ← lift (encrypt_secret c k (secret_of c pem hmac) passphrase salt nonce)
    write_private enc_file blob
    public ← lift (
        map_err (λ x. key_error ("encode public pem: " ++ x))
          (c.to_public_key_pem (c.verifying_key signing)))
    write public_file (into_bytes public)

  -- The new material, encrypted exactly when a passphrase is given.
  unfoldable pub write_fresh : Option String → Fresh c → M (Unit {0})
  unfolding write_plaintext write_encrypted
  write_fresh none fresh = write_plaintext fresh.ed25519 fresh.hmac
  write_fresh (some pass) fresh =
      write_encrypted fresh.ed25519 fresh.hmac pass fresh.salt fresh.nonce

  unfoldable pub generate : Option String → Fresh c → M (Keys c)
  unfolding write_fresh
  generate passphrase fresh = do
    attempt (w.fault creating) (λ text. key_error ("create " ++ dir ++ ": " ++ text))
    write_fresh passphrase fresh
    lift (from_parts c k fresh.hmac fresh.ed25519)

  -- load_or_generate_with_passphrase, in the resolved directory
  unfoldable pub load_or_generate_in : Option String → Fresh c → M (Keys c)
  unfolding load_plaintext load_encrypted generate
  load_or_generate_in passphrase fresh = do
    encrypted ← is_file enc_file
    ed ← is_file ed25519_file
    hmac ← is_file hmac_file
    if encrypted
        then load_encrypted passphrase
        else (if ed && hmac then load_plaintext else generate passphrase fresh)

module _ (c : Crypto) (k : KeystoreCrates c) where
  -- from_overrides: nothing is written, and what is not given is generated.
  unfoldable pub from_overrides :
      (read_path : String → Result String String) (hmac_key : Option Bytes)
      (ed_pem_path : Option String)
      → Fresh c
      → Result SealError (Keys c)
  from_overrides read_path hmac_key none fresh =
      from_parts c k (unwrap_or hmac_key fresh.hmac) fresh.ed25519
  from_overrides read_path hmac_key (some path) fresh =
      Error.◌>>=◌ (map_err (λ x. key_error ("read " ++ path ++ ": " ++ x)) (read_path path)) λ pem.
        Error.◌>>=◌ (map_err (λ x. key_error ("parse ed25519 pem: " ++ x)) (k.from_pkcs8_pem pem))
          λ signing. from_parts c k (unwrap_or hmac_key fresh.hmac) signing
