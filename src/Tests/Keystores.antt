-- ===== src/Tests/Keystores.antt =====
-- The keystore's properties at concrete directories.
use mathlib.Core.List.{Perm}
use apohara_sealchain.Prelude.Slices.{to_le_bytes, from_le_bytes}
use apohara_sealchain.Prelude.Sorting.{IsSorted, text_leb, bytes_leb, sort_by}
use apohara_sealchain.Prelude.{
  ◌≡◌, ◌↔◌, length, arith, ◌⊎◌, refl, true, false, String, Bytes, [], ◌∷◌, Option, none, some, All,
  bytes_eq, into_bytes,
}
use apohara_sealchain.Json.{is_some}
use apohara_sealchain.Error.{ok}
use apohara_sealchain.Sealing.{Keys}
use apohara_sealchain.Keystore.{
  EncHeader, open_secret, secret_of, from_parts, fingerprint_from_signing, encrypt_secret,
  decrypt_secret,
}
use apohara_sealchain.Keystore.Framed.{framed, decrypt_secret_iff}
use apohara_sealchain.Keystore.RoundTrip.{decrypt_secret-encrypt_secret}
use apohara_sealchain.Keystore.Dir.{
  get, Files, Dir, archived, create_archive, put_archived, Access, removing, Faults, no_faults,
  Host, resolve_config_dir,
}
use apohara_sealchain.Keystore.Store.{
  Fresh, load_plaintext, load_encrypted, write_plaintext, write_encrypted,
}
use apohara_sealchain.Keystore.Operations.{
  load_or_generate_with_passphrase, encrypt_keystore, decrypt_keystore, active_files, rotate,
}
use apohara_sealchain.Keystore.Operations.Vault.{plain, locked, dir_of, Holds}
use apohara_sealchain.Keystore.Operations.Vault.Steps.{bundle_of}
use apohara_sealchain.Keystore.Operations.Vault.Runs.{
  load, encrypt, decrypt_with, rotate_at, calls, generated, encrypted, rotated_locked, decrypted,
  finished, then_run, calls_refine,
}
use apohara_sealchain.Keystore.Operations.Safe.{encrypt_keystore_safe}
use apohara_sealchain.Keystore.Operations.Rotation.{or_else, earlier, rotate-archived}
use apohara_sealchain.Keystore.Info.{ArchivedKey, KeystoreInfo, info}
use apohara_sealchain.Keystore.Info.Honest.{stamps, stamps_of, info-lists}
use apohara_sealchain.Cli.{exit_ok}
use apohara_sealchain.Cli.RunSeal.{resolve_passphrase}
use apohara_sealchain.Cli.RunKeys.{run_key_convert}
use apohara_sealchain.Cli.RunKeys.Converts.{run_key_convert-run_key_convert}
use apohara_sealchain.Tests.Toy.{toy, toy_laws, toy_runs}
use apohara_sealchain.Tests.Keys.{toy_keystore, toy_keystore_laws, bits_of, both, secret_bytes}

unfoldable pub keystore_runs : Unit {0}
unfolding toy_runs bits_of both secret_bytes from_parts to_le_bytes from_le_bytes bytes_eq
    into_bytes encrypt_secret decrypt_secret resolve_config_dir load_plaintext load_encrypted
    write_plaintext write_encrypted load_or_generate_with_passphrase encrypt_keystore
    decrypt_keystore rotate create_archive put_archived
keystore_runs = tt

abbrev host : Host
host = record {
  config_dir = some "d";
  xdg = none;
  home = none;
  join = λ a b. b;
  display = λ a b. b;
  archive_dir = λ a b. b;
  not_found = "missing";
}

abbrev salt : Bytes
salt = 0 ∷ 0 ∷ 0 ∷ 0 ∷ 0 ∷ 0 ∷ 0 ∷ 0 ∷ 0 ∷ 0 ∷ 0 ∷ 0 ∷ 0 ∷ 0 ∷ 0 ∷ 0 ∷ []

abbrev nonce : Bytes
nonce = 0 ∷ 0 ∷ 0 ∷ 0 ∷ 0 ∷ 0 ∷ 0 ∷ 0 ∷ salt

abbrev fresh : Fresh toy
fresh = record { ed25519 = 5; hmac = 1 ∷ []; salt = salt; nonce = nonce }

abbrev keys : Keys toy
keys = bundle_of fresh "111110"

-- The PEM of the key 5, and the HMAC key.
unfoldable pub pem_bytes : Bytes
pem_bytes = into_bytes "111110"

abbrev start : Dir
start = dir_of none none none none []

decrypt_secret-encrypt_secret_example :
    (blob : Bytes) × (encrypt_secret toy toy_keystore
        (secret_of toy "111110" (1 ∷ []))
        "p"
        salt
        nonce
      ≡ ok blob)
    × (decrypt_secret toy toy_keystore blob "p" ≡ ok (secret_of toy "111110" (1 ∷ [])))
unfolding toy_runs
decrypt_secret-encrypt_secret_example =
    decrypt_secret-encrypt_secret toy toy_keystore toy_laws toy_keystore_laws 5 "111110" "p"
      (1 ∷ []) salt nonce refl refl refl

-- A header of one byte, and a ciphertext of two.
abbrev blob : Bytes
blob = 83 ∷ 67 ∷ 75 ∷ 49 ∷ 1 ∷ 0 ∷ 0 ∷ 0 ∷ 7 ∷ 5 ∷ 5 ∷ []

decrypt_secret_iff_example :
    (decrypt_secret toy toy_keystore blob "p" ≡ ok (secret_of toy "111110" (1 ∷ []))) ↔ (
      (len : Bytes) × (header_json : Bytes) × (ciphertext : Bytes) × (header : EncHeader) × (blob
        ≡ framed len header_json ciphertext)
      × (length len ≡ 4)
      × (from_le_bytes len ≡ length header_json)
      × (toy_keystore.header_from_slice header_json ≡ ok header)
      × (open_secret toy toy_keystore header ciphertext "p" ≡ ok (secret_of toy "111110" (1 ∷ []))))
decrypt_secret_iff_example =
    decrypt_secret_iff toy toy_keystore blob "p" (secret_of toy "111110" (1 ∷ [])) (omega arith)

-- A keystore that is generated, encrypted, rotated under another passphrase, and decrypted.
calls_refine_example :
    (d' : Dir) × (calls toy toy_keystore no_faults host
        (load none fresh
          ∷ encrypt "p" fresh
          ∷ rotate_at "t" (some "q") fresh
          ∷ decrypt_with "q"
          ∷ [])
        start
      ≡ (d', ok (keys ∷ keys ∷ keys ∷ keys ∷ [])))
    × Holds toy toy_keystore d' (plain keys)
unfolding toy_runs from_parts resolve_config_dir
calls_refine_example =
    calls_refine toy toy_keystore toy_laws toy_keystore_laws host "d" refl
      (then_run (generated none fresh "111110" (refl, refl) refl) (
        then_run (encrypted keys "p" fresh (refl, refl)) (
          then_run (rotated_locked keys "p" "t" "q" fresh "111110" (refl, refl) refl)
            (then_run (decrypted keys "q") finished))))
      start (none, [], refl)

-- No file can be removed.
abbrev stuck : Access → Option String
stuck (removing f) = some "busy"
stuck _ = none

abbrev busy : Faults
busy = record { fault = stuck; left = λ f. none }

abbrev held : Dir
held = dir_of (some pem_bytes) (some (1 ∷ [])) none none []

abbrev after_encrypt : Dir
after_encrypt = (encrypt_keystore toy toy_keystore busy host "p" fresh held).0

encrypt_keystore_safe_example :
    ((after_encrypt.active.ed25519_pem ≡ some pem_bytes)
      × (after_encrypt.active.hmac_key ≡ some (1 ∷ [])))
    ⊎ ((ks : Keys toy) × (load_plaintext toy toy_keystore busy host "d" held ≡ (held, ok ks))
        × (load_encrypted toy toy_keystore no_faults host "d" (some "p") after_encrypt
            ≡ (after_encrypt, ok ks)))
unfolding resolve_config_dir
encrypt_keystore_safe_example =
    encrypt_keystore_safe toy toy_keystore toy_laws toy_keystore_laws busy host held "p" "d" fresh
      refl (refl, refl)

abbrev old : Files
old = record {
  ed25519_pem = some (7 ∷ []);
  hmac_key = some (7 ∷ []);
  keystore_enc = none;
  public_pem = none;
}

abbrev held_before : Dir
held_before = dir_of (some pem_bytes) (some (1 ∷ [])) none none (("t", old) ∷ [])

abbrev after_rotate : Dir
after_rotate = (rotate toy toy_keystore no_faults host "t" none fresh held_before).0

rotate-archived_example :
    ((fs : Files) × (archived "t" after_rotate.archive ≡ some fs)
      × All
          (λ f.
            get f fs ≡ or_else (get f held_before.active) (get f (earlier "t" held_before.archive)))
          (active_files false))
    × (is_some after_rotate.active.keystore_enc ≡ false)
unfolding keystore_runs
rotate-archived_example =
    rotate-archived toy toy_keystore no_faults host "t" "d" none fresh held_before after_rotate keys
      refl refl

-- Two archives, the older one first.
abbrev held_twice : Dir
held_twice =
    dir_of (some pem_bytes) (some (1 ∷ [])) none none
      (("t1", held.active) ∷ ("t2", held.active) ∷ [])

abbrev summary : KeystoreInfo
summary = record {
  config_dir = "d";
  encrypted = false;
  active_fingerprint = some "110111110";
  archived =
      record { archived_at = "t2"; fingerprint = some "110111110" }
      ∷ record { archived_at = "t1"; fingerprint = some "110111110" }
      ∷ [];
}

info-lists_example :
    (fp : String) × (fingerprint_from_signing toy toy_keystore 5 ≡ ok fp)
    × (summary.active_fingerprint ≡ some fp)
    × (summary.encrypted ≡ false)
    × (summary.config_dir ≡ "d")
    × IsSorted (λ (x y : ArchivedKey). text_leb y.archived_at x.archived_at) summary.archived
    × Perm (stamps_of summary.archived) (stamps held_twice.archive)
unfolding keystore_runs info pem_bytes fingerprint_from_signing sort_by text_leb bytes_leb
info-lists_example =
    info-lists toy toy_keystore toy_laws toy_keystore_laws host "d" none keys held_twice summary
      refl
      (
        pem_bytes,
        none,
        held_twice.archive,
        refl,
        record { pem = "111110"; is_text = refl; parses = refl },
        refl,
      )
      refl

run_key_convert-run_key_convert_example :
    (d₁ : Dir) × (d₂ : Dir) × (run_key_convert toy toy_keystore no_faults host
        (some "p")
        none
        true
        fresh
        held
      ≡ (d₁, (exit_ok, "ENCRYPTED\n")))
    × Holds toy toy_keystore d₁ (locked keys "p")
    × (run_key_convert toy toy_keystore no_faults host (some "p") (some "p") false fresh d₁
        ≡ (d₂, (exit_ok, "DECRYPTED\n")))
    × Holds toy toy_keystore d₂ (plain keys)
unfolding keystore_runs pem_bytes resolve_passphrase
run_key_convert-run_key_convert_example =
    run_key_convert-run_key_convert toy toy_keystore toy_laws toy_keystore_laws host "d" refl
      (some "p") none (some "p") "p" fresh fresh keys held refl refl (refl, refl)
      (pem_bytes, none, [], refl, record { pem = "111110"; is_text = refl; parses = refl }, refl)
