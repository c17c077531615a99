-- ===== src/Keystore/Operations.antt =====
-- crates/apohara-sealchain-core/src/keystore.rs: loading or generating, changing the storage mode,
-- rotating, and the summary that needs no passphrase.
pub mod Safe
pub mod Vault
pub mod Rotation
pub mod Guards
use Prim.Native.String.{◌++◌}
use apohara_sealchain.Prelude.{
  String, Bytes, Bool, true, false, ◌&&◌, ◌||◌, not, List, [], ◌∷◌, Option, none, some,
  if◌then◌else◌,
}
use apohara_sealchain.Error.{SealError, key_error, Result, ok, err, map_err, ensure}
use apohara_sealchain.Error
use apohara_sealchain.Json.{is_some}
use apohara_sealchain.Crypto.{Crypto}
use apohara_sealchain.Sealing.{Keys}
use apohara_sealchain.Keystore.{
  KeystoreCrates, fingerprint_from_signing, fingerprint_from_public_pem, from_parts,
}
use apohara_sealchain.Keystore.Dir.{
  File, ed25519_file, hmac_file, enc_file, public_file, name_of, Files, get, set, Dir,
  create_archive, put_archived, Faults, renaming, creating_archive, M, ◌>>=◌, ◌>>◌, done, lift,
  is_file, Host, resolve_config_dir, attempt, change, put,
}
use apohara_sealchain.Keystore.Store.{
  Fresh, remove_file, load_plaintext, load_encrypted, write_plaintext, write_encrypted, write_fresh,
  load_or_generate_in,
}

-- The files that make up the active keystore.
abbrev pub active_files : Bool → List File
active_files true = enc_file ∷ public_file ∷ []
active_files false = ed25519_file ∷ hmac_file ∷ []

module _ (c : Crypto) (k : KeystoreCrates c) (w : Faults) (host : Host) where
  unfoldable pub load_or_generate_with_passphrase : Option String → Fresh c → M (Keys c)
  unfolding load_or_generate_in
  load_or_generate_with_passphrase passphrase fresh = do
    dir ← lift (resolve_config_dir host)
    load_or_generate_in c k w host dir passphrase fresh

  unfoldable pub load_or_generate : Fresh c → M (Keys c)
  unfolding load_or_generate_with_passphrase
  load_or_generate fresh = load_or_generate_with_passphrase none fresh

  -- The guards, and the bundle that is to be encrypted.
  unfoldable pub plaintext_keys : String → M (Keys c)
  unfolding load_plaintext
  plaintext_keys dir = do
    encrypted ← is_file enc_file
    lift (ensure (not encrypted) (key_error "keystore is already encrypted"))
    ed ← is_file ed25519_file
    hmac ← is_file hmac_file
    lift (ensure (ed && hmac) (key_error ("no plaintext keystore to encrypt in " ++ dir)))
    load_plaintext c k w host dir

  unfoldable pub replace_plaintext : String → String → Fresh c → Keys c → M (Keys c)
  unfolding write_encrypted remove_file
  replace_plaintext dir passphrase fresh keys = do
    write_encrypted c k w host dir keys.ed25519 keys.hmac passphrase fresh.salt fresh.nonce
    remove_file c k w host dir ed25519_file
    remove_file c k w host dir hmac_file
    done keys

  unfoldable pub encrypt_keystore : String → Fresh c → M (Keys c)
  unfolding plaintext_keys replace_plaintext
  encrypt_keystore passphrase fresh = do
    dir ← lift (resolve_config_dir host)
    keys ← plaintext_keys dir
    replace_plaintext dir passphrase fresh keys

  unfoldable pub remove_if_file : String → File → M (Unit {0})
  unfolding remove_file
  remove_if_file dir f = do
    present ← is_file f
    if present then remove_file c k w host dir f else done tt

  unfoldable pub decrypt_keystore : String → M (Keys c)
  unfolding load_encrypted write_plaintext remove_file remove_if_file
  decrypt_keystore passphrase = do
    dir ← lift (resolve_config_dir host)
    encrypted ← is_file enc_file
    lift (ensure encrypted (key_error "keystore is not encrypted (nothing to decrypt)"))
    keys ← load_encrypted c k w host dir (some passphrase)
    write_plaintext c k w host dir keys.ed25519 keys.hmac
    remove_file c k w host dir enc_file
    remove_if_file dir public_file
    done keys

  -- fs::rename into the archive, of a file that is there
  unfoldable pub archive_file : String → String → File → M (Unit {0})
  archive_file dir stamp f = do
    present ← is_file f
    if present
        then (attempt (w.fault (renaming f)) (λ text. key_error (
              "archive "
              ++ host.display dir (name_of f)
              ++ " -> "
              ++ host.display (host.archive_dir dir stamp) (name_of f)
              ++ ": "
              ++ text))
            >> change (λ d. record {
              active = set f none d.active;
              archive = put_archived stamp f (get f d.active) d.archive;
            }))
        else done tt

  unfoldable pub archive_files : String → String → List File → M (Unit {0})
  unfolding archive_file
  archive_files dir stamp [] = done tt
  archive_files dir stamp (f ∷ fs) = do archive_file dir stamp f; archive_files dir stamp fs

  any_file : List File → M Bool
  any_file [] = done false
  any_file (f ∷ fs) = do present ← is_file f; rest ← any_file fs; done (present || rest)

  -- Whether the keystore is encrypted, once it may be rotated.
  unfoldable pub rotate_guards : String → Option String → M Bool
  unfolding any_file
  rotate_guards dir passphrase = do
    encrypted ← is_file enc_file
    present ← any_file (active_files encrypted)
    lift (ensure present (key_error ("no active keystore to rotate in " ++ dir)))
    lift (
        ensure (not (encrypted && not (is_some passphrase)))
          (key_error "encrypted keystore: provide --passphrase to rotate"))
    done encrypted

  unfoldable pub archive_active : String → String → List File → M (Unit {0})
  unfolding archive_files
  archive_active dir stamp files = do
    attempt (w.fault creating_archive)
        (λ text. key_error ("create " ++ host.archive_dir dir stamp ++ ": " ++ text))
    change (λ d. record d { archive = create_archive stamp d.archive })
    archive_files dir stamp files

  -- The stamp is the time, to the second.
  unfoldable pub rotate : String → Option String → Fresh c → M (Keys c)
  unfolding rotate_guards archive_active write_fresh
  rotate stamp passphrase fresh = do
    dir ← lift (resolve_config_dir host)
    encrypted ← rotate_guards dir passphrase
    archive_active dir stamp (active_files encrypted)
    write_fresh c k w host dir (if encrypted then passphrase else none) fresh
    lift (from_parts c k fresh.hmac fresh.ed25519)
