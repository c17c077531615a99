-- ===== src/Index.antt =====
-- crates/apohara-sealchain-core/src/index.rs: which layers a record carries, and the row that the
-- index keeps of it.
pub mod Store
pub mod Rows
pub mod Listing
pub mod Layers
use Prim.Native.String.{◌++◌}
use apohara_sealchain.Prelude.{String, Bool, true, false, ◌||◌, List, [], ◌∷◌, Option, none, some}
use apohara_sealchain.Json.{get_str, is_some, unwrap_or}
use apohara_sealchain.Schema.{SealedRecord}

pub record IndexRecord : Type 0 where
  pub artifact_path : String
  pub artifact_sha256 : String
  pub sealed_at : String
  pub layers : String
  pub receipt_path : String
  pub indexed_at : String

-- `opt == Some(true)`
abbrev pub is_true : Option Bool → Bool
is_true none = false
is_true (some b) = b

-- `if test { layers.push(name) }`
abbrev pub push_if : Bool → String → List String → List String
push_if true name rest = name ∷ rest
push_if false name rest = rest

unfoldable pub present_layers : SealedRecord → List String
present_layers r =
    "hmac"
    ∷ push_if (is_some r.seal.ed25519) "ed25519" (
        push_if (is_some r.seal.c2pa_manifest || is_true r.seal.c2pa_embedded) "c2pa"
          (push_if (is_some r.seal.tsa) "tsa" (push_if (is_some r.seal.rekor_anchor) "rekor" [])))

-- `layers.join(",")`
unfoldable pub join_layers : List String → String
join_layers [] = ""
join_layers (l ∷ []) = l
join_layers (l ∷ (m ∷ ls)) = l ++ "," ++ join_layers (m ∷ ls)

-- The time of indexing is read from the clock.
unfoldable pub index_record_from : SealedRecord → String → String → IndexRecord
unfolding join_layers present_layers
index_record_from r receipt_path now = record {
  artifact_path = unwrap_or (get_str r.payload "path") "";
  artifact_sha256 = unwrap_or (get_str r.payload "artifactSha256") "";
  sealed_at = r.seal.sealed_at;
  layers = join_layers (present_layers r);
  receipt_path = receipt_path;
  indexed_at = now;
}
