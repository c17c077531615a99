-- ===== src/Layers/C2pa/Binding.antt =====
-- A sidecar manifest binds the payload's canonical hash.
use apohara_sealchain.Prelude.{
  ◌≡◌, refl, ap, ◌∙◌, String, Bytes, Bool, true, false, List, [], ◌∷◌, ◌++◌, some, ◌==◌, All,
  eq_ignore_ascii_case, eq_ignore_ascii_case_refl,
}
use apohara_sealchain.Error.{Result, ok, >>=-eq-ok}
use apohara_sealchain.Json.{Value, get, get_field, get_str, as_str, unwrap_or}
use apohara_sealchain.Crypto.{Crypto}
use apohara_sealchain.Layers.C2pa.{
  Manifest, MediaCrates, payload_hash_label, find_bound, bound_in, verify_sidecar, payload_hash_hex,
  hash_assertion, emit_sidecar,
}

-- What the c2pa crate documents of a signed sidecar: it reads back as a manifest in a state other than
-- Invalid, and the added assertion is there, behind assertions of the crate's own labels.
pub record MediaLaws (c : Crypto) (media : MediaCrates c) : Type 1 where
  pub sidecar_reads :
      (k : c.SigningKey) (hash : String) (ai : Bool) (jumbf : Bytes)
      → media.sign_sidecar k payload_hash_label (hash_assertion hash) ai ≡ ok jumbf
      → (man : Manifest) × (before : List (String × Result String Value)) × (after : List
          (String × Result String Value))
        × (media.read_sidecar jumbf
            ≡ ok (record { is_invalid = false; active_manifest = some man }))
        × (man.assertions ≡ (before ++ ((payload_hash_label, ok (hash_assertion hash)) ∷ after)))
        × All (λ (a : String × Result String Value). (a.0 == payload_hash_label) ≡ false) before

find_bound-append :
    (before after : List (String × Result String Value)) (v : Value) (expected : String)
    → All (λ (a : String × Result String Value). (a.0 == payload_hash_label) ≡ false) before
    → find_bound (before ++ ((payload_hash_label, ok v) ∷ after)) expected
      ≡ ok (eq_ignore_ascii_case (unwrap_or (get_str v "hash") "") expected)
unfolding find_bound
find_bound-append [] after v expected h = refl
find_bound-append ((label, value) ∷ rest) after v expected (differs, h) =
    rw differs (find_bound-append rest after v expected h)

bound-hash_assertion :
    (hash : String)
    → eq_ignore_ascii_case (unwrap_or (get_str (hash_assertion hash) "hash") "") hash ≡ true
unfolding hash_assertion get_str get get_field as_str
bound-hash_assertion hash = eq_ignore_ascii_case_refl hash

module _ (c : Crypto) (media : MediaCrates c) (laws : MediaLaws c media) where
  -- A sidecar emitted for a payload verifies against the payload's canonical hash, whoever signs it
  -- and whether or not it discloses generated content.
  pub verify_sidecar-emit_sidecar :
      (payload : Value) (k : c.SigningKey) (ai : Bool) (jumbf : Bytes) (hash : String)
      → emit_sidecar c media payload k ai ≡ ok jumbf
      → payload_hash_hex c payload ≡ ok hash
      → verify_sidecar c media jumbf hash ≡ ok true
  unfolding emit_sidecar verify_sidecar bound_in
  verify_sidecar-emit_sidecar payload k ai jumbf hash h hashed =
      let (hash', hashed', h₁) = >>=-eq-ok (payload_hash_hex c payload) _ h in
      let (u, ready, signed) =
        >>=-eq-ok media.context
          (λ _. media.sign_sidecar k payload_hash_label (hash_assertion hash') ai) h₁ in
      let same : hash' ≡ hash = cc in
      let (man, before, after, reads, holds, others) = laws.sidecar_reads k hash' ai jumbf signed in
      rw ready (
        rw reads (
          rw holds (
            find_bound-append before after (hash_assertion hash') hash others
            ∙ ap ok (
                ap
                  (λ x.
                    eq_ignore_ascii_case (unwrap_or (get_str (hash_assertion x) "hash") "") hash)
                  same
                ∙ bound-hash_assertion hash))))
