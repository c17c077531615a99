-- ===== src/Cli/RunKeys.antt =====
-- crates/apohara-sealchain/src/cli.rs: the commands `keygen` and `key`, from their arguments to the exit
-- code and what they print without `--json`.
pub mod Converts
use Prim.Native.String.{◌++◌}
use apohara_sealchain.Prelude.{ℕ, String, Bool, List, [], ◌∷◌, Option, none, some, if◌then◌else◌}
use apohara_sealchain.Error.{SealError, Result, ok, err}
use apohara_sealchain.Json.{unwrap_or}
use apohara_sealchain.Crypto.{Crypto}
use apohara_sealchain.Sealing.{Keys}
use apohara_sealchain.Keystore.{KeystoreCrates, fingerprint_from_signing}
use apohara_sealchain.Keystore.Dir.{Dir, Faults, Host, resolve_config_dir}
use apohara_sealchain.Keystore.Store.{Fresh}
use apohara_sealchain.Keystore.Operations.{
  load_or_generate_with_passphrase, encrypt_keystore, decrypt_keystore, rotate,
}
use apohara_sealchain.Keystore.Info.{ArchivedKey, KeystoreInfo, info}
use apohara_sealchain.Cli.{exit_ok, exit_key, schema_exit}
use apohara_sealchain.Cli.RunSeal.{resolve_passphrase}

-- The exit code and the standard output.
abbrev pub Ended : Type 0
Ended = ℕ × String

unfoldable pub archived_lines : List ArchivedKey → String
archived_lines [] = ""
archived_lines (a ∷ rest) =
    "  "
    ++ a.archived_at
    ++ " "
    ++ unwrap_or a.fingerprint "(unknown)"
    ++ "\n"
    ++ archived_lines rest

unfoldable pub archived_text : List ArchivedKey → String
unfolding archived_lines
archived_text [] = "archived:   (none)\n"
archived_text (a ∷ rest) = "archived:\n" ++ archived_lines (a ∷ rest)

unfoldable pub print_keystore_info : KeystoreInfo → String
unfolding archived_text
print_keystore_info i =
    "config dir: "
    ++ i.config_dir
    ++ "\nmode:       "
    ++ (if i.encrypted then "encrypted" else "plaintext")
    ++ "\nactive:     "
    ++ unwrap_or i.active_fingerprint "(none)"
    ++ "\n"
    ++ archived_text i.archived

-- `var` is the variable SEALCHAIN_PASSPHRASE.
module _ (c : Crypto) (k : KeystoreCrates c) (w : Faults) (host : Host) (var : Option String) where
  -- `keys.config_dir()`, which the keystore has resolved.
  unfoldable pub shown_dir : String
  shown_dir = elim (resolve_config_dir host) [ ok dir ↦ dir | err x ↦ "(unknown config dir)" ]

  -- The end of a command: an error of the keystore gives its exit code.
  unfoldable pub ended : (Keys c → Ended) → Dir × Result SealError (Keys c) → Dir × Ended
  ended report (d, err x) = (d, (schema_exit x, ""))
  ended report (d, ok keys) = (d, report keys)

  unfoldable pub run_keygen : Option String → Fresh c → Dir → Dir × Ended
  unfolding ended shown_dir
  run_keygen passphrase fresh d =
      ended (λ keys. (exit_ok, "Keys ready in " ++ shown_dir ++ "\n" ++ keys.ed25519_public_pem))
        (load_or_generate_with_passphrase c k w host (resolve_passphrase passphrase var) fresh d)

  unfoldable pub rotated_report : Result SealError String → Ended
  unfolding shown_dir
  rotated_report (err x) = (schema_exit x, "")
  rotated_report (ok fingerprint) = (
    exit_ok,
    "ROTATED keystore in " ++ shown_dir ++ "\n  new fingerprint: " ++ fingerprint ++ "\n",
  )

  -- The stamp is the time, to the second.
  unfoldable pub run_key_rotate : Option String → String → Fresh c → Dir → Dir × Ended
  unfolding ended rotated_report
  run_key_rotate passphrase stamp fresh d =
      ended (λ keys. rotated_report (fingerprint_from_signing c k keys.ed25519))
        (rotate c k w host stamp (resolve_passphrase passphrase var) fresh d)

  unfoldable pub listed : Result SealError KeystoreInfo → Ended
  unfolding print_keystore_info
  listed (err x) = (schema_exit x, "")
  listed (ok i) = (exit_ok, print_keystore_info i)

  unfoldable pub run_key_list : Dir → Ended
  unfolding listed
  run_key_list d = listed (info c k w host d)

  unfoldable pub converted : Bool → Option String → Fresh c → Dir → Dir × Ended
  unfolding ended
  converted encrypt none fresh d = (d, (exit_key, ""))
  converted encrypt (some passphrase) fresh d =
      if encrypt
      then ended (λ keys. (exit_ok, "ENCRYPTED\n")) (encrypt_keystore c k w host passphrase fresh d)
      else ended (λ keys. (exit_ok, "DECRYPTED\n")) (decrypt_keystore c k w host passphrase d)

  unfoldable pub run_key_convert : Option String → Bool → Fresh c → Dir → Dir × Ended
  unfolding converted
  run_key_convert passphrase encrypt fresh d =
      converted encrypt (resolve_passphrase passphrase var) fresh d
