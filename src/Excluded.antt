-- ===== src/Excluded.antt =====
-- crates/apohara-sealchain-core/src/excluded.rs: the volatile keys and their removal. The keys of a
-- map are distinct, so inserting its entries in iteration order into a new map appends them.
pub mod Laws
use apohara_sealchain.Prelude.{String, Bool, List, [], ◌∷◌, contains, if◌then◌else◌}
use apohara_sealchain.Json.{
  Value, null, bool, number, string, array, object, Items, nil, cons, Fields, end, field,
}

abbrev pub excluded_keys : List String
excluded_keys =
    "kg_status" ∷ "kg_latency_ms" ∷ "surface_status" ∷ "truncated" ∷ "charsSeen"
    ∷ "lowConfidenceTier" ∷ []

unfoldable pub is_excluded : String → Bool
unfolding contains
is_excluded key = contains excluded_keys key

unfoldable mutual
  pub strip_excluded : Value → Value
  strip_excluded (object map) = object (strip_fields map)
  strip_excluded (array items) = array (strip_items items)
  strip_excluded null = null
  strip_excluded (bool b) = bool b
  strip_excluded (number n) = number n
  strip_excluded (string s) = string s

  -- `items.iter().map(strip_excluded).collect()`
  pub strip_items : Items → Items
  strip_items nil = nil
  strip_items (cons v vs) = cons (strip_excluded v) (strip_items vs)

  -- the loop over a map's entries
  pub strip_fields : Fields → Fields
  strip_fields end = end
  strip_fields (field k val rest) =
      if is_excluded k then strip_fields rest else field k (strip_excluded val) (strip_fields rest)
