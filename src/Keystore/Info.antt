-- ===== src/Keystore/Info.antt =====
-- crates/apohara-sealchain-core/src/keystore.rs: the summary that needs no passphrase.
pub mod Honest
use Prim.Native.String.{◌++◌}
use apohara_sealchain.Prelude.Sorting.{text_leb, sort_by}
use apohara_sealchain.Prelude.{String, Bytes, Bool, true, false, List, [], ◌∷◌, Option, none, some}
use apohara_sealchain.Error.{SealError, key_error, Result, ok, err, ◌>>=◌, ◌>>◌, map_err}
use apohara_sealchain.Json.{is_some}
use apohara_sealchain.Crypto.{Crypto}
use apohara_sealchain.Keystore.{
  KeystoreCrates, fingerprint_from_signing, fingerprint_from_public_pem,
}
use apohara_sealchain.Keystore.Dir.{
  File, ed25519_file, enc_file, public_file, name_of, Files, get, Dir, Access, reading,
  reading_archived, listing, Faults, Host, resolve_config_dir,
}

pub record ArchivedKey : Type 0 where
  pub archived_at : String
  pub fingerprint : Option String

pub record KeystoreInfo : Type 0 where
  pub config_dir : String
  pub encrypted : Bool
  pub active_fingerprint : Option String
  pub archived : List ArchivedKey

-- Newest first: `b.archived_at.cmp(&a.archived_at)`
abbrev pub newer : ArchivedKey → ArchivedKey → Bool
newer a b = text_leb b.archived_at a.archived_at

module _ (c : Crypto) (k : KeystoreCrates c) (w : Faults) (host : Host) where
  -- The text of a file that is there, with the error of the access.
  unfoldable pub text_of : Access → String → Bytes → Result SealError String
  text_of access path b =
      let failed = λ (x : String). key_error ("read " ++ path ++ ": " ++ x) in
      elim (w.fault access) [
        | some text ↦ err (failed text)
        | none ↦ map_err failed (k.from_utf8 b)
      ]

  unfoldable pub public_fingerprint : Access → String → Bytes → Result SealError (Option String)
  unfolding text_of
  public_fingerprint access path b = do
    pem ← text_of access path b
    fp ← fingerprint_from_public_pem c k pem
    ok (some fp)

  unfoldable pub private_fingerprint : Access → String → Bytes → Result SealError (Option String)
  unfolding text_of
  private_fingerprint access path b = do
    pem ← text_of access path b
    signing ← map_err (λ x. key_error ("parse ed25519 pem: " ++ x)) (k.from_pkcs8_pem pem)
    fp ← fingerprint_from_signing c k signing
    ok (some fp)

  unfoldable pub active_fingerprint : String → Files → Bool → Result SealError (Option String)
  unfolding public_fingerprint private_fingerprint
  active_fingerprint dir files true = elim (files.public_pem) [
    | some b ↦ public_fingerprint (reading public_file) (host.display dir (name_of public_file)) b
    | none ↦ ok none
  ]
  active_fingerprint dir files false = elim (files.ed25519_pem) [
    | some b ↦
        private_fingerprint (reading ed25519_file) (host.display dir (name_of ed25519_file)) b
    | none ↦ ok none
  ]

  unfoldable pub archived_fingerprint : String → String → Files → Result SealError (Option String)
  unfolding public_fingerprint private_fingerprint
  archived_fingerprint dir stamp files =
      let path = λ (f : File). host.display (host.archive_dir dir stamp) (name_of f) in
      elim (files.public_pem) [
        | some b ↦ public_fingerprint (reading_archived stamp public_file) (path public_file) b
        | none ↦ elim (files.ed25519_pem) [
          | some b ↦ private_fingerprint (reading_archived stamp ed25519_file) (path ed25519_file) b
          | none ↦ ok none
        ]
      ]

  -- The loop over the directory's entries.
  unfoldable pub archived_keys :
      String → List (String × Files) → Result SealError (List ArchivedKey)
  unfolding archived_fingerprint
  archived_keys dir [] = ok []
  archived_keys dir ((stamp, files) ∷ rest) = do
    fingerprint ← archived_fingerprint dir stamp files
    later ← archived_keys dir rest
    ok (record { archived_at = stamp; fingerprint = fingerprint } ∷ later)

  unfoldable pub list_archived :
      String → List (String × Files) → Result SealError (List ArchivedKey)
  unfolding archived_keys sort_by text_leb
  list_archived dir [] = ok []
  list_archived dir (a ∷ rest) = elim (w.fault listing) [
    | some text ↦ err (key_error ("read " ++ host.join dir "archive" ++ ": " ++ text))
    | none ↦ (do keys ← archived_keys dir (a ∷ rest); ok (sort_by newer keys))
  ]

  unfoldable pub info : Dir → Result SealError KeystoreInfo
  unfolding active_fingerprint list_archived
  info d = do
    dir ← resolve_config_dir host
    let encrypted = is_some d.active.keystore_enc
    active ← active_fingerprint dir d.active encrypted
    archived ← list_archived dir d.archive
    ok (record {
      config_dir = dir;
      encrypted = encrypted;
      active_fingerprint = active;
      archived = archived;
    })
