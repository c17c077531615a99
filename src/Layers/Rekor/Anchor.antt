-- ===== src/Layers/Rekor/Anchor.antt =====
-- A written anchor is read back.
use apohara_sealchain.Prelude.Int.{IsI64}
use apohara_sealchain.Prelude.{◌≡◌, refl, String, List, [], ◌∷◌}
use apohara_sealchain.Error.{ok}
use apohara_sealchain.Json.{object, Fields, get, get_field, as_str}
use apohara_sealchain.Json.Laws.{as_i64-from_i64}
use apohara_sealchain.Crypto.{Crypto}
use apohara_sealchain.Layers.Rekor.{
  InclusionProof, RekorAnchor, strings_to_items, proof_to_json, anchor_fields, parse_strings,
  parse_hashes, build_proof, parse_proof, from_json,
}

parse_strings-strings_to_items : (ss : List String) → parse_strings (strings_to_items ss) ≡ ok ss
unfolding parse_strings strings_to_items as_str
parse_strings-strings_to_items [] = refl
parse_strings-strings_to_items (s ∷ ss) = rw (parse_strings-strings_to_items ss)

parse_proof-proof_to_json :
    (p : InclusionProof)
    → IsI64 p.log_index
    → IsI64 p.tree_size
    → parse_proof (proof_to_json p) ≡ ok p
unfolding parse_proof proof_to_json build_proof parse_hashes get_field as_str
parse_proof-proof_to_json p h₁ h₂ =
    rw (as_i64-from_i64 p.log_index h₁)
      (rw (as_i64-from_i64 p.tree_size h₂) (rw (parse_strings-strings_to_items p.hashes)))

-- Reading the entries that are written for an anchor gives the anchor, when its four integers fit an
-- i64 and whatever entries follow, such as the shard's activeness that sealing adds.
pub from_json-anchor_fields :
    (c : Crypto) (a : RekorAnchor) (rest : Fields)
    → IsI64 a.log_index
    → IsI64 a.integrated_time
    → IsI64 a.inclusion_proof.log_index
    → IsI64 a.inclusion_proof.tree_size
    → from_json c (object (anchor_fields a rest)) ≡ ok a
unfolding from_json anchor_fields get get_field as_str
from_json-anchor_fields c a rest h₁ h₂ h₃ h₄ =
    rw (parse_proof-proof_to_json a.inclusion_proof h₃ h₄)
      (rw (as_i64-from_i64 a.log_index h₁) (rw (as_i64-from_i64 a.integrated_time h₂)))
