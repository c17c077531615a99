-- ===== src/Layers/Rekor/Sound.antt =====
-- What a passing anchor has shown.
use Prim.Native.String.{◌++◌}
use apohara_sealchain.Prelude.Int.{ℤ, pos, negsuc}
use apohara_sealchain.Prelude.{
  ℕ, ◌+◌, ◌≡◌, ◌↔◌, refl, ap, sym, ◌∙◌, subst, String, Bytes, true, false, List, [], ◌∷◌, Option,
  none, some, show, Some, any_iff_Some,
}
use apohara_sealchain.Error.{Result, ok, err, map_err, ensure, ◌>>=◌, >>=-eq-ok, map_err-eq-ok}
use apohara_sealchain.Layers.Rekor.{
  RekorAnchor, RekorCrates, decode_hashes, non_negative, decode_public_key, check_inclusion,
  check_checkpoint, report, rekor_result, verify_with, verify_anchor,
}

ensure-eq-ok : (b : _) (e : String) {u : Unit {0}} → ensure b e ≡ ok u → b ≡ true
ensure-eq-ok true e h = refl
ensure-eq-ok false e h = cc

module _ (r : RekorCrates) where
  non_negative-eq-ok : (z : ℤ) {n : ℕ} → non_negative r z ≡ ok n → z ≡ pos n
  unfolding non_negative
  non_negative-eq-ok (pos m) {n} h = let same : m ≡ n = cc in ap pos same
  non_negative-eq-ok (negsuc m) h = cc

  -- The texts are the hex of the hashes, in order.
  abbrev pub AreHashes : List String → List r.Hash → Type 0
  AreHashes [] [] = Unit
  AreHashes [] (x ∷ xs) = ⊥
  AreHashes (h ∷ hs) [] = ⊥
  AreHashes (h ∷ hs) (x ∷ xs) = (r.from_hex h ≡ ok x) × AreHashes hs xs

  -- The anchor's body is a leaf of the tree with this root, by the stored Merkle path.
  abbrev pub Included : RekorAnchor → r.Hash → Type 0
  Included a root =
      (body : Bytes) × (hashes : List r.Hash) × (i : ℕ) × (n : ℕ) × (r.decode_base64
          a.canonicalized_body
        ≡ ok body)
      × (r.from_hex a.inclusion_proof.root_hash ≡ ok root)
      × AreHashes a.inclusion_proof.hashes hashes
      × (a.inclusion_proof.log_index ≡ pos i)
      × (a.inclusion_proof.tree_size ≡ pos n)
      × (r.verify_inclusion_proof (r.hash_leaf body) i n hashes root ≡ ok tt)

  -- The stored checkpoint commits to this root, and one of its signatures is by the pinned key.
  abbrev pub Committed : RekorAnchor → Bytes → r.Hash → Type 0
  Committed a pem root =
      (cp : r.Checkpoint) × (k : r.PublicKey) × (r.from_text a.inclusion_proof.checkpoint ≡ ok cp)
      × (r.hash_eq (r.checkpoint_root cp) root ≡ true)
      × (decode_public_key r pem ≡ ok k)
      × Some (λ sig. r.verify_ed25519 k sig (r.signed_data cp) ≡ true) (r.signatures cp)

  decode_hashes_sound :
      (i : ℕ) (hs : List String) (xs : List r.Hash) → decode_hashes r i hs ≡ ok xs → AreHashes hs xs
  unfolding decode_hashes
  decode_hashes_sound i [] [] h = tt
  decode_hashes_sound i [] (x ∷ xs) h = cc
  decode_hashes_sound i (t ∷ ts) [] h =
      let (hash, read, h₁) =
        >>=-eq-ok (map_err (λ e. "proof hash[" ++ show i ++ "] invalid: " ++ e) (r.from_hex t)) _
          h in
      let (rest, more, h₂) = >>=-eq-ok (decode_hashes r (i + 1) ts) _ h₁ in cc
  decode_hashes_sound i (t ∷ ts) (y ∷ ys) h =
      let (hash, read, h₁) =
        >>=-eq-ok (map_err (λ e. "proof hash[" ++ show i ++ "] invalid: " ++ e) (r.from_hex t)) _
          h in
      let (rest, more, h₂) = >>=-eq-ok (decode_hashes r (i + 1) ts) _ h₁ in
      let head : hash ≡ y = cc in
      let tail : rest ≡ ys = cc in
      (
        map_err-eq-ok _ (r.from_hex t) read ∙ ap ok head,
        decode_hashes_sound (i + 1) ts ys (more ∙ ap ok tail),
      )

  decode_hashes_complete :
      (i : ℕ) (hs : List String) (xs : List r.Hash) → AreHashes hs xs → decode_hashes r i hs ≡ ok xs
  unfolding decode_hashes
  decode_hashes_complete i [] [] h = refl
  decode_hashes_complete i [] (x ∷ xs) h = absurd h
  decode_hashes_complete i (t ∷ ts) [] h = absurd h
  decode_hashes_complete i (t ∷ ts) (x ∷ xs) (e, h) =
      rw e (rw (decode_hashes_complete (i + 1) ts xs h))

  check_inclusion_iff :
      (a : RekorAnchor) (root : r.Hash) → (check_inclusion r a ≡ ok root) ↔ Included a root
  unfolding check_inclusion non_negative
  check_inclusion_iff a root = (
    λ h.
        let p = a.inclusion_proof in
        let (body, h1, e1) =
          >>=-eq-ok
            (map_err (λ e. "canonicalizedBody not base64: " ++ e)
              (r.decode_base64 a.canonicalized_body))
            _ h in
        let (root', h2, e2) =
          >>=-eq-ok
            (map_err (λ e. "inclusion proof rootHash invalid: " ++ e) (r.from_hex p.root_hash)) _
            e1 in
        let (hashes, h3, e3) = >>=-eq-ok (decode_hashes r 0 p.hashes) _ e2 in
        let (i, h4, e4) = >>=-eq-ok (non_negative r p.log_index) _ e3 in
        let (n, h5, e5) = >>=-eq-ok (non_negative r p.tree_size) _ e4 in
        let (u, h6, e6) =
          >>=-eq-ok
            (map_err (λ e. "merkle inclusion failed: " ++ e)
              (r.verify_inclusion_proof (r.hash_leaf body) i n hashes root'))
            _ e5 in
        let same : root' ≡ root = cc in
        (
          body,
          hashes,
          i,
          n,
          map_err-eq-ok _ (r.decode_base64 a.canonicalized_body) h1,
          map_err-eq-ok _ (r.from_hex p.root_hash) h2 ∙ ap ok same,
          decode_hashes_sound 0 p.hashes hashes h3,
          non_negative-eq-ok p.log_index h4,
          non_negative-eq-ok p.tree_size h5,
          subst (λ x. r.verify_inclusion_proof (r.hash_leaf body) i n hashes x ≡ ok tt) same
              (map_err-eq-ok _ (r.verify_inclusion_proof (r.hash_leaf body) i n hashes root') h6),
        ),
    λ (body, hashes, i, n, e1, e2, e3, e4, e5, e6). rw e1 (
        rw e2 (
          rw (decode_hashes_complete 0 a.inclusion_proof.hashes hashes e3)
            (rw e4 (rw e5 (rw e6))))),
  )

  check_checkpoint_iff :
      (a : RekorAnchor) (pem : Bytes) (root : r.Hash)
      → (check_checkpoint r a pem root ≡ ok tt) ↔ Committed a pem root
  unfolding check_checkpoint
  check_checkpoint_iff a pem root = (
    λ h.
        let (cp, h1, e1) =
          >>=-eq-ok
            (map_err (λ e. "checkpoint parse failed: " ++ e)
              (r.from_text a.inclusion_proof.checkpoint))
            _ h in
        let (u, h2, e2) =
          >>=-eq-ok
            (ensure (r.hash_eq (r.checkpoint_root cp) root)
              "checkpoint root hash != inclusion proof root hash")
            _ e1 in
        let (k, h3, e3) = >>=-eq-ok (decode_public_key r pem) _ e2 in
        (
          cp,
          k,
          map_err-eq-ok _ (r.from_text a.inclusion_proof.checkpoint) h1,
          ensure-eq-ok _ _ h2,
          h3,
          (any_iff_Some (λ sig. r.verify_ed25519 k sig (r.signed_data cp)) (r.signatures cp)).0
              (ensure-eq-ok _ _ e3),
        ),
    λ (cp, k, e1, e2, e3, signed).
        let found =
          (any_iff_Some (λ sig. r.verify_ed25519 k sig (r.signed_data cp)) (r.signatures cp)).1
            signed in
        rw e1 (rw e2 (rw e3 (rw found))),
  )

  report_iff : (x : Result String (Unit {0})) → ((report r x).ok ≡ true) ↔ (x ≡ ok tt)
  unfolding report rekor_result
  report_iff (ok tt) = ((λ h. refl), λ h. refl)
  report_iff (err e) = ((λ h. cc), λ h. cc)

  name-report : (x : Result String (Unit {0})) → (report r x).name ≡ "rekor"
  unfolding report rekor_result
  name-report (ok tt) = refl
  name-report (err e) = refl

  -- An anchor passes exactly when a shard key is at hand, the anchor's body is in the tree under a
  -- root by the stored Merkle path, with both integers non-negative, and the stored checkpoint
  -- commits to that same root under a signature by that key.
  pub verify_anchor_iff :
      (a : RekorAnchor) (key : Option Bytes)
      → ((verify_anchor r a key).ok ≡ true) ↔ (
          (pem : Bytes) × (root : r.Hash) × (key ≡ some pem)
          × Included a root
          × Committed a pem root)
  unfolding verify_anchor verify_with rekor_result
  verify_anchor_iff a none = ((λ h. cc), λ (pem, root, e, i, s). cc)
  verify_anchor_iff a (some pem) = (
    λ h.
        let passed = (report_iff (check_inclusion r a >>= check_checkpoint r a pem)).0 h in
        let (root, inc, committed) =
          >>=-eq-ok (check_inclusion r a) (check_checkpoint r a pem) passed in
        (
          pem,
          root,
          refl,
          (check_inclusion_iff a root).0 inc,
          (check_checkpoint_iff a pem root).0 committed,
        ),
    λ (pem', root, e, inc, committed).
        let same : pem ≡ pem' = cc in
        (report_iff (check_inclusion r a >>= check_checkpoint r a pem)).1 (
          rw ((check_inclusion_iff a root).1 inc) (
            (check_checkpoint_iff a pem root).1
              (subst (λ x. Committed a x root) (sym same) committed))),
  )

  pub name-verify_anchor :
      (a : RekorAnchor) (key : Option Bytes) → (verify_anchor r a key).name ≡ "rekor"
  unfolding verify_anchor verify_with rekor_result
  name-verify_anchor a none = refl
  name-verify_anchor a (some pem) = name-report (check_inclusion r a >>= check_checkpoint r a pem)
