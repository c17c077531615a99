-- ===== src/Keystore/Info/Honest.antt =====
-- What the summary reports.
use mathlib.Core.List.{Perm}
use mathlib.Core.List.Perm
use apohara_sealchain.Prelude.Sorting.{
  text_leb, text_leb_total, text_leb_trans, sort_by-perm, sort_by-IsSorted, IsSorted,
}
use apohara_sealchain.Prelude.{
  ◌≡◌, refl, sym, ap, ◌∙◌, String, true, ◌||◌, Option, none, some, List, [], ◌∷◌, map, arith, subst,
  Option-cases, inl, inr,
}
use apohara_sealchain.Error.{ok, >>=-eq-ok, ok_injective}
use apohara_sealchain.Json.{is_some}
use apohara_sealchain.Crypto.{Crypto, CryptoLaws}
use apohara_sealchain.Sealing.{Keys}
use apohara_sealchain.Keystore.{
  KeystoreCrates, from_parts, fingerprint_from_signing, fingerprint_from_public_pem,
}
use apohara_sealchain.Keystore.RoundTrip.{KeystoreLaws}
use apohara_sealchain.Keystore.Dir.{
  Files, Dir, listing, Faults, no_faults, Host, resolve_config_dir,
}
use apohara_sealchain.Keystore.Info.{
  ArchivedKey, KeystoreInfo, newer, active_fingerprint, archived_keys, archived_fingerprint,
  list_archived, info,
}
use apohara_sealchain.Keystore.Operations.Vault.{Holds}
use apohara_sealchain.Keystore.Operations.Vault.Steps.{stored}

abbrev pub stamps : List (String × Files) → List String
stamps a = map (λ (x : String × Files). x.0) a

abbrev pub stamps_of : List ArchivedKey → List String
stamps_of xs = map (λ (x : ArchivedKey). x.archived_at) xs

module _ (c : Crypto) (k : KeystoreCrates c) (w : Faults) (host : Host) where
  archived_keys_lem :
      (dir : String) (a : List (String × Files)) (xs : List ArchivedKey)
      → archived_keys c k w host dir a ≡ ok xs
      → stamps_of xs ≡ stamps a
  unfolding archived_keys
  archived_keys_lem dir [] xs h = ground arith
  archived_keys_lem dir ((s, fs) ∷ a) xs h =
      let (fp, h₁, k₁) = >>=-eq-ok (archived_fingerprint c k w host dir s fs) _ h in
      let (later, h₂, k₂) = >>=-eq-ok (archived_keys c k w host dir a) _ k₁ in
      let key : ArchivedKey = record { archived_at = s; fingerprint = fp } in
      let e : key ∷ later ≡ xs = cc in
      ap stamps_of (sym e) ∙ ap (◌∷◌ s) (archived_keys_lem dir a later h₂)

  newer_total : (a b : ArchivedKey) → (newer a b || newer b a) ≡ true
  newer_total a b = text_leb_total b.archived_at a.archived_at

  newer_trans : (a b d : ArchivedKey) → newer a b ≡ true → newer b d ≡ true → newer a d ≡ true
  newer_trans a b d h k = text_leb_trans d.archived_at b.archived_at a.archived_at k h

  list_archived-lists :
      (dir : String) (a : List (String × Files)) (xs : List ArchivedKey)
      → list_archived c k w host dir a ≡ ok xs
      → IsSorted newer xs × Perm (stamps_of xs) (stamps a)
  unfolding list_archived
  list_archived-lists dir [] xs h =
      let e : [] ≡ xs = cc in
      subst (λ (ys : List ArchivedKey). IsSorted newer ys × Perm (stamps_of ys) []) e
        (tt, Perm.refl [])
  list_archived-lists dir (x ∷ a) xs h = elim (Option-cases (w.fault listing)) [
    | inr (text, e) ↦ let failed = rw (e, list_archived) at h in cc
    | inl e ↦
        let (keys, h₁, k₁) =
          >>=-eq-ok (archived_keys c k w host dir (x ∷ a)) _ (rw (e, list_archived) at h) in
        let sorted = ok_injective k₁ in
        let same = archived_keys_lem dir (x ∷ a) keys h₁ in
        rw (sym sorted, sym same)
          (
            sort_by-IsSorted newer newer_total newer_trans keys,
            Perm.map (λ (y : ArchivedKey). y.archived_at) (sort_by-perm newer keys),
          )
  ]

module _ (c : Crypto) (k : KeystoreCrates c) (cl : CryptoLaws c) (kl : KeystoreLaws c k)
    (host : Host) where
  active_fingerprint_lem :
      (dir : String) (pass : Option String) (keys : Keys c) (d : Dir)
      → Holds c k d (stored pass keys)
      → (fp : String) × (fingerprint_from_signing c k keys.ed25519 ≡ ok fp)
        × (is_some d.active.keystore_enc ≡ is_some pass)
        × (active_fingerprint c k no_faults host dir d.active (is_some pass) ≡ ok (some fp))
  unfolding active_fingerprint fingerprint_from_signing fingerprint_from_public_pem from_parts
  active_fingerprint_lem dir none keys d (b, p, a, e, pem, bundle) =
      let (der, h) = kl.der_total (c.verifying_key keys.ed25519) in
      (c.encode (c.digest der), rw h refl, rw e refl, rw (e, pem.is_text, pem.parses, h) refl)
  active_fingerprint_lem dir (some pass) keys d (blob, public, a, e, text, opens, bundle) =
      let (der, h) = kl.der_total (c.verifying_key keys.ed25519) in
      let (pem, g) = kl.public_pem_total (c.verifying_key keys.ed25519) in
      let same : pem ≡ keys.ed25519_public_pem = ground arith in
      let back =
        cl.pem_roundtrip (c.verifying_key keys.ed25519) keys.ed25519_public_pem (g ∙ ap ok same) in
      (c.encode (c.digest der), rw h refl, rw e refl, rw (e, text, back, h) refl)

  -- For a keystore held in the clear or locked, when no read fails, the summary tells the two apart, gives
  -- the fingerprint of the very key that is held (with no passphrase), and lists every archive once,
  -- newest first.
  pub info-lists :
      (dir : String) (pass : Option String) (keys : Keys c) (d : Dir) (i : KeystoreInfo)
      → resolve_config_dir host ≡ ok dir
      → Holds c k d (stored pass keys)
      → info c k no_faults host d ≡ ok i
      → (fp : String) × (fingerprint_from_signing c k keys.ed25519 ≡ ok fp)
        × (i.active_fingerprint ≡ some fp)
        × (i.encrypted ≡ is_some pass)
        × (i.config_dir ≡ dir)
        × IsSorted (λ (x y : ArchivedKey). text_leb y.archived_at x.archived_at) i.archived
        × Perm (stamps_of i.archived) (stamps d.archive)
  unfolding info
  info-lists dir pass keys d i resolved holds h =
      let (fp, known, mode, active) = active_fingerprint_lem dir pass keys d holds in
      let (archived, h₁, k₁) =
        >>=-eq-ok (list_archived c k no_faults host dir d.archive) _
          (rw (resolved, mode, active) at h) in
      let (sorted, perm) = list_archived-lists c k no_faults host dir d.archive archived h₁ in
      rw (sym (ok_injective k₁)) (fp, known, refl, refl, refl, sorted, perm)
