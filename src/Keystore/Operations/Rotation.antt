-- ===== src/Keystore/Operations/Rotation.antt =====
-- What a rotation archives, and that it keeps the storage mode.
use apohara_sealchain.Prelude.{
  ◌≡◌, refl, sym, ap, All, ◌∙◌, String, Bytes, Bool, true, false, not, ◌&&◌, Option, none, some,
  List, [], ◌∷◌, arith, if◌then◌else◌, eq_refl,
}
use apohara_sealchain.Error.{SealError, ok}
use apohara_sealchain.Json.{is_some}
use apohara_sealchain.Crypto.{Crypto}
use apohara_sealchain.Sealing.{Keys}
use apohara_sealchain.Keystore.{KeystoreCrates}
use apohara_sealchain.Keystore.Dir.{
  File, ed25519_file, hmac_file, enc_file, public_file, get, set, Files, no_files, Dir, archived,
  create_archive, put_archived, Faults, Host, resolve_config_dir, M, >>=-eq-ok, ◌>>◌, attempt,
  creating_archive,
}
use apohara_sealchain.Keystore.Store.{Fresh, write_fresh}
use apohara_sealchain.Keystore.Operations.{
  archive_file, active_files, any_file, rotate_guards, archive_active, rotate,
}

abbrev pub or_else : Option Bytes → Option Bytes → Option Bytes
or_else none b = b
or_else (some a) b = some a

-- The archive's files before a rotation: none, where there is no such archive.
abbrev pub earlier : String → List (String × Files) → Files
earlier stamp a = elim (archived stamp a) [ some fs ↦ fs | none ↦ no_files ]

archived-create_archive :
    (stamp : String) (a : List (String × Files))
    → archived stamp (create_archive stamp a) ≡ some (earlier stamp a)
unfolding create_archive
archived-create_archive stamp [] = ground (arith, eq_refl stamp)
archived-create_archive stamp ((s, fs) ∷ rest) =
    ground (arith, archived-create_archive stamp rest, eq_refl stamp)

archived-put_archived :
    (stamp : String) (f : File) (b : Option Bytes) (a : List (String × Files)) (fs : Files)
    → archived stamp a ≡ some fs
    → archived stamp (put_archived stamp f b a) ≡ some (set f b fs)
unfolding put_archived
archived-put_archived stamp f b [] fs h = cc
archived-put_archived stamp f b ((s, x) ∷ rest) fs h =
    ground (arith, archived-put_archived stamp f b rest fs)

module _ (c : Crypto) (k : KeystoreCrates c) (w : Faults) (host : Host) where
  archive_file_lem :
      (dir stamp : String) (f : File) (d d' : Dir) (fs : Files)
      → archived stamp d.archive ≡ some fs
      → archive_file c k w host dir stamp f d ≡ (d', ok tt)
      → (archived stamp d'.archive ≡ some (set f (or_else (get f d.active) (get f fs)) fs))
        × (d'.active ≡ set f none d.active)
  unfolding archive_file
  archive_file_lem dir stamp ed25519_file d d' fs a h =
      ground (arith, archived-put_archived stamp ed25519_file d.active.ed25519_pem d.archive fs)
  archive_file_lem dir stamp hmac_file d d' fs a h =
      ground (arith, archived-put_archived stamp hmac_file d.active.hmac_key d.archive fs)
  archive_file_lem dir stamp enc_file d d' fs a h =
      ground (arith, archived-put_archived stamp enc_file d.active.keystore_enc d.archive fs)
  archive_file_lem dir stamp public_file d d' fs a h =
      ground (arith, archived-put_archived stamp public_file d.active.public_pem d.archive fs)

  write_fresh_archive :
      (dir : String) (pass : Option String) (fresh : Fresh c) (d : Dir)
      → (write_fresh c k w host dir pass fresh d).0.archive ≡ d.archive
  unfolding write_fresh
  write_fresh_archive dir none fresh d = ground arith
  write_fresh_archive dir (some pass) fresh d = ground arith

  write_fresh_mode :
      (dir : String) (pass : Option String) (fresh : Fresh c) (d d' : Dir)
      → d.active.keystore_enc ≡ none
      → write_fresh c k w host dir pass fresh d ≡ (d', ok tt)
      → is_some d'.active.keystore_enc ≡ is_some pass
  unfolding write_fresh
  write_fresh_mode dir none fresh d d' e h = ground arith
  write_fresh_mode dir (some pass) fresh d d' e h = ground arith

  rotate_guards_lem :
      (dir : String) (pass : Option String) (d d' : Dir) (encrypted : Bool)
      → rotate_guards c k w host dir pass d ≡ (d', ok encrypted)
      → (d' ≡ d)
        × (encrypted ≡ is_some d.active.keystore_enc)
        × ((encrypted && not (is_some pass)) ≡ false)
  unfolding rotate_guards any_file
  rotate_guards_lem dir pass d d' encrypted h = ground arith

  -- The archive's files once `f` has been moved there.
  abbrev moved : File → Files → Files → Files
  moved f active fs = set f (or_else (get f active) (get f fs)) fs

  attempted :
      {A : Type 0} (failure : Option String) (e : String → SealError) (m : M A) (d d' : Dir) (b : A)
      → (attempt failure e >> m) d ≡ (d', ok b)
      → m d ≡ (d', ok b)
  attempted none e m d d' b h = h
  attempted (some text) e m d d' b h = cc

  two_files :
      (dir stamp : String) (f g : File) (d d₁ d₂ d' : Dir) (fs : Files)
      → archived stamp d.archive ≡ some fs
      → archive_file c k w host dir stamp f d ≡ (d₁, ok tt)
      → archive_file c k w host dir stamp g d₁ ≡ (d₂, ok tt)
      → d₂ ≡ d'
      → (archived stamp d'.archive ≡ some (moved g (set f none d.active) (moved f d.active fs)))
        × (d'.active ≡ set g none (set f none d.active))
  two_files dir stamp f g d d₁ d₂ d' fs a h₁ h₂ last =
      let (a₁, e₁) = archive_file_lem dir stamp f d d₁ fs a h₁ in
      let (a₂, e₂) = archive_file_lem dir stamp g d₁ d₂ (moved f d.active fs) a₁ h₂ in
      rw (sym last, sym e₁) (a₂, e₂)

  archive_active_lem :
      (dir stamp : String) (f g : File) (d d' : Dir)
      → archive_active c k w host dir stamp (f ∷ g ∷ []) d ≡ (d', ok tt)
      → (archived stamp d'.archive
          ≡ some (moved g (set f none d.active) (moved f d.active (earlier stamp d.archive))))
        × (d'.active ≡ set g none (set f none d.active))
  unfolding archive_active
  archive_active_lem dir stamp f g d d' h =
      let created = record d { archive = create_archive stamp d.archive } in
      let h₀ = attempted (w.fault creating_archive) _ _ d d' tt h in
      let (u₁, d₁, h₁, k₁) = >>=-eq-ok (archive_file c k w host dir stamp f) _ created d' tt h₀ in
      let (u₂, d₂, h₂, k₂) = >>=-eq-ok (archive_file c k w host dir stamp g) _ d₁ d' tt k₁ in
      two_files dir stamp f g created d₁ d₂ d' (earlier stamp d.archive)
        (archived-create_archive stamp d.archive) h₁ h₂ (ap (λ r. r.0) k₂)

  -- By the storage mode: what is archived, and that no blob is left behind.
  abbrev IsArchived : String → Bool → Dir → Dir → Type 0
  IsArchived stamp encrypted d d' =
      (fs : Files) × (archived stamp d'.archive ≡ some fs)
      × All (λ f. get f fs ≡ or_else (get f d.active) (get f (earlier stamp d.archive)))
          (active_files encrypted)

  archive_active-IsArchived :
      (dir stamp : String) (encrypted : Bool) (d d' : Dir)
      → encrypted ≡ is_some d.active.keystore_enc
      → archive_active c k w host dir stamp (active_files encrypted) d ≡ (d', ok tt)
      → IsArchived stamp encrypted d d' × (d'.active.keystore_enc ≡ none)
  archive_active-IsArchived dir stamp true d d' e h =
      let (a, same) = archive_active_lem dir stamp enc_file public_file d d' h in
      ((_, a, (refl, (refl, tt))), ap (λ (x : Files). x.keystore_enc) same)
  archive_active-IsArchived dir stamp false d d' e h =
      let (a, same) = archive_active_lem dir stamp ed25519_file hmac_file d d' h in
      let clear : d.active.keystore_enc ≡ none = ground arith in
      ((_, a, (refl, (refl, tt))), ap (λ (x : Files). x.keystore_enc) same ∙ clear)

  same_mode :
      (encrypted : Bool) (pass : Option String)
      → (encrypted && not (is_some pass)) ≡ false
      → is_some (if encrypted then pass else none) ≡ encrypted
  same_mode true pass h = ground arith
  same_mode false pass h = refl

  rotated :
      (dir stamp : String) (pass : Option String) (fresh : Fresh c) (encrypted : Bool)
      (d d₀ d₁ d₂ d' : Dir)
      → rotate_guards c k w host dir pass d ≡ (d₀, ok encrypted)
      → archive_active c k w host dir stamp (active_files encrypted) d₀ ≡ (d₁, ok tt)
      → write_fresh c k w host dir (if encrypted then pass else none) fresh d₁ ≡ (d₂, ok tt)
      → d₂ ≡ d'
      → IsArchived stamp (is_some d.active.keystore_enc) d d'
        × (is_some d'.active.keystore_enc ≡ is_some d.active.keystore_enc)
  rotated dir stamp pass fresh encrypted d d₀ d₁ d₂ d' h₀ h₁ h₂ last =
      let (same, mode, guarded) = rotate_guards_lem dir pass d d₀ encrypted h₀ in
      let at_start = rw same at h₁ in
      let (is_archived, cleared) =
        archive_active-IsArchived dir stamp encrypted d d₁ mode at_start in
      let now = if encrypted then pass else none in
      let kept : d₂.archive ≡ d₁.archive =
        ap (λ r. r.0.archive) (sym h₂) ∙ write_fresh_archive dir now fresh d₁ in
      let written = write_fresh_mode dir now fresh d₁ d₂ cleared h₂ in
      rw (sym last, sym mode, kept) (is_archived, written ∙ same_mode encrypted pass guarded)

  -- When a rotation succeeds, the archive of its stamp has each file of the active keystore, in place of
  -- the file that an earlier rotation of the same stamp left there (which stays only where the active
  -- keystore lacks that file), and the keystore is encrypted after it exactly when it was before.
  pub rotate-archived :
      (stamp dir : String) (pass : Option String) (fresh : Fresh c) (d d' : Dir) (keys : Keys c)
      → resolve_config_dir host ≡ ok dir
      → rotate c k w host stamp pass fresh d ≡ (d', ok keys)
      → ((fs : Files) × (archived stamp d'.archive ≡ some fs)
          × All
              (λ f. get f fs ≡ or_else (get f d.active) (get f (earlier stamp d.archive)))
              (active_files (is_some d.active.keystore_enc)))
        × (is_some d'.active.keystore_enc ≡ is_some d.active.keystore_enc)
  unfolding rotate
  rotate-archived stamp dir pass fresh d d' keys resolved h =
      let (encrypted, d₀, h₀, k₀) =
        >>=-eq-ok (rotate_guards c k w host dir pass) _ d d' keys (rw resolved at h) in
      let (u₁, d₁, h₁, k₁) =
        >>=-eq-ok (archive_active c k w host dir stamp (active_files encrypted)) _ d₀ d' keys k₀ in
      let (u₂, d₂, h₂, k₂) =
        >>=-eq-ok (write_fresh c k w host dir (if encrypted then pass else none) fresh) _ d₁ d' keys
          k₁ in
      rotated dir stamp pass fresh encrypted d d₀ d₁ d₂ d' h₀ h₁ h₂ (ap (λ r. r.0) k₂)
