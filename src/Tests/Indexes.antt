-- ===== src/Tests/Indexes.antt =====
-- The index of receipts and the provenance statement at concrete receipts.
use apohara_sealchain.Prelude.Sorting.{bytes_leb, text_leb, sort_by}
use apohara_sealchain.Prelude.{
  ◌≡◌, ◌≤◌, refl, String, List, [], ◌∷◌, some, All, length, ◌==◌, if◌then◌else◌, into_bytes,
  strip_prefix,
}
use apohara_sealchain.Error.{Result, ok, err}
use apohara_sealchain.Json.{Value, array, get, and_then}
use apohara_sealchain.Schema.{SealedRecord, map_option}
use apohara_sealchain.Paths.{split_on, file_name}
use apohara_sealchain.Index.{IndexRecord, present_layers, index_record_from}
use apohara_sealchain.Index.Store.{
  Table, index_list, index_find, is_receipt_file, Listing, folder, plain_file, nil, cons, scan_into,
  rebuild,
}
use apohara_sealchain.Index.Rows.{row_of, last_for, IsKeyed, IsReceipt, rebuild_lem}
use apohara_sealchain.Provenance.{
  items_of, provenance_statement, model_signing_statement, subject_for,
}
use apohara_sealchain.Provenance.Layers.{types, provenance_statement-layers}
use apohara_sealchain.Tests.Receipts.{receipt}

abbrev row : String → String → IndexRecord
row path at = record {
  artifact_path = "a.txt";
  artifact_sha256 = "1";
  sealed_at = at;
  layers = "hmac,ed25519";
  receipt_path = path;
  indexed_at = "now";
}

abbrev table : Table
table = row "a" "2" ∷ row "b" "3" ∷ row "c" "2" ∷ []

-- The latest first, and then by the path.
index_list_test : index_list table ≡ (row "b" "3" ∷ row "a" "2" ∷ row "c" "2" ∷ [])
unfolding index_list bytes_leb into_bytes sort_by text_leb
index_list_test = refl

index_find_test : index_find (λ s. s) table "ed25519" ≡ index_list table
unfolding index_find strip_prefix split_on bytes_leb into_bytes sort_by text_leb
index_find_test = refl

abbrev parse : String → Result String SealedRecord
parse text = if text == "r" then ok receipt else err "syntax"

-- One receipt, a receipt file that does not parse, and another file, in a folder.
abbrev tree : Listing
tree = cons (plain_file "x.seal.json" (some "r")) (
    cons
      (folder "d"
        (cons (plain_file "y.seal.json" (some "s")) (cons (plain_file "z" (some "r")) nil)))
      nil)

abbrev rebuilt : Table
rebuilt = index_record_from receipt "x.seal.json" "now" ∷ []

rebuild_lem_example :
    (rs : List (String × SealedRecord)) × (scan_into parse "." tree ≡ ok rs)
    × All IsReceipt rs
    × (row_of rebuilt "q" ≡ map_option (λ r. index_record_from r "q" "now") (last_for "q" rs))
    × IsKeyed rebuilt
    × (1 ≡ length rs)
    × (length rebuilt ≤ 1)
unfolding rebuild scan_into file_name is_receipt_file index_record_from split_on
rebuild_lem_example = rebuild_lem parse "now" "." "q" table rebuilt tree 1 refl

provenance_statement-layers_example :
    (vs : List Value) × (and_then
        (get (provenance_statement receipt) "predicate")
        (λ p. get p "attestations")
      ≡ some (array (items_of vs)))
    × (types vs ≡ present_layers receipt)
    × (get (provenance_statement receipt) "subject" ≡ some (subject_for receipt))
    × (get (model_signing_statement receipt) "subject" ≡ some (subject_for receipt))
provenance_statement-layers_example = provenance_statement-layers receipt
