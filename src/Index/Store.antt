-- ===== src/Index/Store.antt =====
-- crates/apohara-sealchain-core/src/index.rs: the table of receipts, its queries, and its rebuilding
-- from a directory. The table is the sequence of its rows; SQLite runs the statements on it, and none of them fails.
use Prim.Native.String.{◌++◌}
use apohara_sealchain.Prelude.Sorting.{text_leb, sort_by}
use apohara_sealchain.Prelude.{
  ℕ, String, Bool, false, ◌&&◌, ◌||◌, not, List, [], ◌∷◌, Option, none, some, any, filter, length,
  strip_prefix, ◌++◌ as ◌append◌, if◌then◌else◌, ◌==◌,
}
use apohara_sealchain.Error
use apohara_sealchain.Error.{SealError, index, Result, ok, err, ◌>>=◌, ◌>>◌}
use apohara_sealchain.Json.{is_some}
use apohara_sealchain.Schema.{SealedRecord}
use apohara_sealchain.Paths.{split_on, file_name}
use apohara_sealchain.Index.{IndexRecord, index_record_from}

-- The variables as `env::var_os` returns them; `join` is `Path::join`.
unfoldable pub resolve_db_path :
    (join : String → String → String) (xdg home : Option String) → Result SealError String
resolve_db_path join xdg home =
    let from_home : Result SealError String = elim home [
      | some h ↦ ok (join (join (join (join h ".local") "share") "apohara-sealchain") "index.db")
      | none ↦ err (index "cannot resolve data dir: $HOME unset")
    ] in
    elim xdg [
      | some x ↦
          if not (x == "") then ok (join (join x "apohara-sealchain") "index.db") else from_home
      | none ↦ from_home
    ]

abbrev pub Table : Type 0
Table = List IndexRecord

-- `INSERT .. ON CONFLICT(receipt_path) DO UPDATE SET ..` of all other columns
unfoldable pub upsert : Table → IndexRecord → Table
upsert [] row = row ∷ []
upsert (r ∷ rest) row =
    let later = upsert rest row in
    if r.receipt_path == row.receipt_path then row ∷ rest else r ∷ later

-- index_insert, at the time `now`
unfoldable pub index_insert : String → Table → SealedRecord → String → Table
unfolding upsert
index_insert now t receipt receipt_path = upsert t (index_record_from receipt receipt_path now)

-- `ORDER BY sealed_at DESC, receipt_path ASC`, by the bytes of the texts
unfoldable pub listed_before : IndexRecord → IndexRecord → Bool
listed_before a b =
    text_leb b.sealed_at a.sealed_at
    && (not (text_leb a.sealed_at b.sealed_at) || text_leb a.receipt_path b.receipt_path)

unfoldable pub index_list : Table → List IndexRecord
unfolding listed_before
index_list t = sort_by listed_before t

-- `s.starts_with(p)` and `s.contains(p)`
unfoldable pub starts_with : String → String → Bool
starts_with s p = is_some (strip_prefix p s)

unfoldable pub contains_text : String → String → Bool
unfolding starts_with
contains_text String.[] p = starts_with "" p
contains_text (String.◌∷◌ c s) p = starts_with (String.◌∷◌ c s) p || contains_text s p

-- `s.ends_with(p)`
unfoldable pub ends_with : String → String → Bool
ends_with String.[] p = p == ""
ends_with (String.◌∷◌ c s) p = String.◌∷◌ c s == p || ends_with s p

-- The closure of `index_find`; `lower` is `str::to_lowercase`.
unfoldable pub row_matches : (lower : String → String) → String → IndexRecord → Bool
unfolding contains_text starts_with
row_matches lower needle r =
    contains_text (lower r.artifact_path) needle
    || starts_with (lower r.artifact_sha256) needle
    || any (λ l. l == needle) (split_on b',' r.layers)

unfoldable pub index_find : (lower : String → String) → Table → String → List IndexRecord
unfolding index_list row_matches
index_find lower t query = filter (row_matches lower (lower query)) (index_list t)

-- What a walk of a directory meets, in the order of `read_dir`. A file has its text if it can be read.
mutual
  pub data Entry : Type 0 where
    unreadable : String → Entry
    folder : String → Listing → Entry
    plain_file : String → Option String → Entry

  -- `failed` is a `read_dir` that fails.
  pub data Listing : Type 0 where
    failed : String → Listing
    nil : Listing
    cons : Entry → Listing → Listing

unfoldable pub is_receipt_file : String → Bool
unfolding ends_with
is_receipt_file path = elim (file_name path) [ some n ↦ ends_with n ".seal.json" | none ↦ false ]

unfoldable pub keep_receipt :
    String → Option SealedRecord → List (String × SealedRecord) → List (String × SealedRecord)
keep_receipt path none out = out
keep_receipt path (some receipt) out = (path, receipt) ∷ out

module _ (from_str : String → Result String SealedRecord) where
  unfoldable pub parse_receipt : Option String → Option SealedRecord
  parse_receipt none = none
  parse_receipt (some text) = Error.to_option (from_str text)

  -- The receipts below a directory, in the order of the walk.
  unfoldable mutual
    unfolding parse_receipt keep_receipt is_receipt_file

    pub scan_entry : Entry → Result SealError (List (String × SealedRecord))
    scan_entry (unreadable x) = err (index ("scan entry: " ++ x))
    scan_entry (folder path listing) = scan_into path listing
    scan_entry (plain_file path text) =
        ok (if is_receipt_file path then keep_receipt path (parse_receipt text) [] else [])

    pub scan_into : String → Listing → Result SealError (List (String × SealedRecord))
    scan_into dir (failed x) = err (index ("scan " ++ dir ++ ": " ++ x))
    scan_into dir nil = ok []
    scan_into dir (cons e rest) =
        scan_entry e >>= λ xs. scan_into dir rest >>= λ ys. ok (xs append ys)

-- The rows of the receipts, one after the other.
unfoldable pub insert_all : String → Table → List (String × SealedRecord) → Table
unfolding index_insert
insert_all now t [] = t
insert_all now t ((path, receipt) ∷ rest) = insert_all now (index_insert now t receipt path) rest

-- `DELETE FROM receipts`, the rows of the scan, and their count
unfoldable pub rebuild_with : String → Table → List (String × SealedRecord) → Table × ℕ
unfolding insert_all
rebuild_with now t receipts = (insert_all now [] receipts, length receipts)

unfoldable pub rebuild :
    (from_str : String → Result String SealedRecord)
    → String
    → Table
    → String
    → Listing
    → Result SealError (Table × ℕ)
unfolding rebuild_with
rebuild from_str now t dir listing = do
  receipts ← scan_into from_str dir listing
  ok (rebuild_with now t receipts)
