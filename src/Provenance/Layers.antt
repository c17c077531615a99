-- ===== src/Provenance/Layers.antt =====
-- The statements claim the layers of the record and no other.
use apohara_sealchain.Prelude.{
  ◌≡◌, refl, ap, String, Bool, true, false, ◌||◌, Option, none, some, List, [], ◌∷◌, map,
}
use apohara_sealchain.Json.{
  Value, array, get, get_field, get_str, as_str, and_then, unwrap_or, is_some,
}
use apohara_sealchain.Schema.{Ed25519Layer, SealedRecord}
use apohara_sealchain.Index.{is_true, push_if, present_layers}
use apohara_sealchain.Provenance.{
  items_of, push_entry, hmac_entry, ed25519_entry, c2pa_entry, tsa_entry, rekor_entry, attestations,
  build_predicate, subject_for, provenance_statement, model_signing_statement,
}

-- The names under "type".
abbrev pub types : List Value → List String
types vs = map (λ v. unwrap_or (get_str v "type") "") vs

types-push_entry :
    (o : Option Value) (b : Bool) (name : String) (vs : List Value) (names : List String)
    → is_some o ≡ b
    → types (push_entry o []) ≡ push_if b name []
    → types vs ≡ names
    → types (push_entry o vs) ≡ push_if b name names
types-push_entry none true name vs names e h k = cc
types-push_entry none false name vs names e h k = k
types-push_entry (some v) true name vs names e h k = cc
types-push_entry (some v) false name vs names e h k = cc

ed25519_entry_type :
    (pem : Option String) (ed : Option Ed25519Layer)
    → (is_some (ed25519_entry pem ed) ≡ is_some ed)
      × (types (push_entry (ed25519_entry pem ed) []) ≡ push_if (is_some ed) "ed25519" [])
unfolding ed25519_entry get_str get get_field as_str
ed25519_entry_type pem none = (refl, refl)
ed25519_entry_type none (some ed) = (refl, refl)
ed25519_entry_type (some pem) (some ed) = (refl, refl)

c2pa_entry_type :
    (embedded : Option Bool) (manifest : Option String)
    → (is_some (c2pa_entry embedded manifest) ≡ (is_some manifest || is_true embedded))
      × (types (push_entry (c2pa_entry embedded manifest) [])
          ≡ push_if (is_some manifest || is_true embedded) "c2pa" [])
unfolding c2pa_entry get_str get get_field as_str
c2pa_entry_type none none = (refl, refl)
c2pa_entry_type none (some m) = (refl, refl)
c2pa_entry_type (some true) none = (refl, refl)
c2pa_entry_type (some true) (some m) = (refl, refl)
c2pa_entry_type (some false) none = (refl, refl)
c2pa_entry_type (some false) (some m) = (refl, refl)

tsa_entry_type :
    (tsa : Option Value)
    → (is_some (tsa_entry tsa) ≡ is_some tsa)
      × (types (push_entry (tsa_entry tsa) []) ≡ push_if (is_some tsa) "tsa" [])
unfolding tsa_entry get_str get get_field as_str
tsa_entry_type none = (refl, refl)
tsa_entry_type (some v) = (refl, refl)

rekor_entry_type :
    (rekor : Option Value)
    → (is_some (rekor_entry rekor) ≡ is_some rekor)
      × (types (push_entry (rekor_entry rekor) []) ≡ push_if (is_some rekor) "rekor" [])
unfolding rekor_entry get_str get get_field as_str
rekor_entry_type none = (refl, refl)
rekor_entry_type (some v) = (refl, refl)

attestations-types : (r : SealedRecord) → types (attestations r.seal) ≡ present_layers r
unfolding attestations present_layers hmac_entry get_str get get_field as_str
attestations-types r =
    let (e₁, t₁) = ed25519_entry_type r.seal.ed25519_public_key r.seal.ed25519 in
    let (e₂, t₂) = c2pa_entry_type r.seal.c2pa_embedded r.seal.c2pa_manifest in
    let (e₃, t₃) = tsa_entry_type r.seal.tsa in
    let (e₄, t₄) = rekor_entry_type r.seal.rekor_anchor in
    ap (◌∷◌ "hmac") (
      types-push_entry _ _ "ed25519" _ _ e₁ t₁
        (types-push_entry _ _ "c2pa" _ _ e₂ t₂ (types-push_entry _ _ "tsa" _ _ e₃ t₃ t₄)))

-- The statement attests the layers that the record carries, in their order and no other, and the
-- model-signing statement has the same subject.
pub provenance_statement-layers :
    (r : SealedRecord)
    → (vs : List Value) × (and_then
          (get (provenance_statement r) "predicate")
          (λ p. get p "attestations")
        ≡ some (array (items_of vs)))
      × (types vs ≡ present_layers r)
      × (get (provenance_statement r) "subject" ≡ some (subject_for r))
      × (get (model_signing_statement r) "subject" ≡ some (subject_for r))
unfolding provenance_statement model_signing_statement build_predicate get get_field
provenance_statement-layers r = (attestations r.seal, refl, attestations-types r, refl, refl)
