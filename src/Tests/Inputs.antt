-- ===== src/Tests/Inputs.antt =====
-- The expansion of the inputs at a concrete tree.
use apohara_sealchain.Prelude.Sorting.{bytes_leb, sort_by}
use apohara_sealchain.Prelude.{
  ◌≡◌, refl, String, true, not, List, [], ◌∷◌, all, All, ◌==◌, if◌then◌else◌, bytes_eq, into_bytes,
  none,
}
use apohara_sealchain.Error.{ok}
use apohara_sealchain.Paths.{split_on, file_name}
use apohara_sealchain.Paths.Order.{path_leb, path_eq}
use apohara_sealchain.Index.Store.{plain_file, nil, cons}
use apohara_sealchain.Cli.Inputs.{
  Found, file, directory, nothing, Tree, is_receipt_path, expand_inputs,
}
use apohara_sealchain.Cli.Inputs.Distinct.{IsStrict}
use apohara_sealchain.Cli.Inputs.Expanded.{IsMissing, lost, expand_inputs_lem}

abbrev found_at : String → Found
found_at path =
    if path == "b"
    then file
    else if path == "d"
    then directory (cons (plain_file "d/x.seal.json" none) (cons (plain_file "d/a" none) nil))
    else nothing

abbrev tree : Tree
tree = record { at = found_at; glob = λ pattern. ok (ok "b" ∷ ok "q" ∷ []) }

abbrev inputs : List String
inputs = "d" ∷ "b" ∷ "*" ∷ "m" ∷ []

expand_inputs_test : expand_inputs tree true inputs ≡ ok ("b" ∷ "d/a" ∷ [], "m" ∷ [])
unfolding expand_inputs file_name split_on sort_by path_leb path_eq bytes_leb bytes_eq into_bytes
expand_inputs_test = refl

expand_inputs_lem_example :
    IsStrict ("b" ∷ "d/a" ∷ [])
    × (all (λ p. not (is_receipt_path p)) ("b" ∷ "d/a" ∷ []) ≡ true)
    × (all (λ q. not (lost tree true ("b" ∷ "d/a" ∷ []) q)) inputs ≡ true)
    × All (IsMissing tree true) ("m" ∷ [])
expand_inputs_lem_example =
    expand_inputs_lem tree true inputs ("b" ∷ "d/a" ∷ []) ("m" ∷ []) expand_inputs_test
