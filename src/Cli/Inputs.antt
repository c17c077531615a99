-- ===== src/Cli/Inputs.antt =====
-- crates/apohara-sealchain/src/cli.rs: the inputs of `seal`, expanded to the artifacts.
pub mod Distinct
pub mod Expanded
use Prim.Native.Char.{Char, code}
use apohara_sealchain.Prelude.Sorting.{sort_by}
use apohara_sealchain.Prelude.{
  ℕ, String, Bool, true, false, ◌||◌, not, List, [], ◌∷◌, ◌++◌, filter, nat_eq, if◌then◌else◌,
}
use apohara_sealchain.Error.{Result, ok, err, ◌>>=◌, map_err}
use apohara_sealchain.Paths.Order.{path_leb, path_eq}
use apohara_sealchain.Index.Store.{
  Entry, unreadable, folder, plain_file, Listing, failed, nil, cons, is_receipt_file,
}
use apohara_sealchain.Cli.{exit_schema, exit_usage}

-- What is at a path: a file, a directory, or neither.
pub data Found : Type 0 where
  file : Found
  directory : Listing → Found
  nothing : Found

-- The file system, and the paths that `glob::glob` yields (an error is one that it warns about).
pub record Tree : Type 0 where
  pub at : String → Found
  pub glob : String → Result String (List (Result String String))

abbrev pub is_file : Found → Bool
is_file file = true
is_file _ = false

unfoldable pub is_glob_pattern : String → Bool
is_glob_pattern String.[] = false
is_glob_pattern (String.◌∷◌ c s) =
    nat_eq (code c) b'*' || nat_eq (code c) b'?' || nat_eq (code c) b'[' || is_glob_pattern s

-- The entries that are not directories, and what is in the directories if `recursive`.
unfoldable mutual
  pub collect_entry : Bool → Entry → Result ℕ (List String)
  collect_entry recursive (unreadable x) = err exit_schema
  collect_entry true (folder path listing) = collect_dir true listing
  collect_entry false (folder path listing) = ok []
  collect_entry recursive (plain_file path text) = ok (path ∷ [])

  pub collect_dir : Bool → Listing → Result ℕ (List String)
  collect_dir recursive (failed x) = err exit_schema
  collect_dir recursive nil = ok []
  collect_dir recursive (cons e rest) =
      collect_entry recursive e >>= λ xs. collect_dir recursive rest >>= λ ys. ok (xs ++ ys)

-- `is_receipt_path` is the same test as the index's.
abbrev pub is_receipt_path : String → Bool
is_receipt_path path = is_receipt_file path

-- `Vec::dedup`: of a run of equal elements the first stays.
unfoldable pub dedup_after : String → List String → List String
dedup_after kept [] = []
dedup_after kept (p ∷ ps) =
    let rest = dedup_after (if path_eq p kept then kept else p) ps in
    if path_eq p kept then rest else p ∷ rest

unfoldable pub dedup : List String → List String
unfolding dedup_after
dedup [] = []
dedup (p ∷ ps) = p ∷ dedup_after p ps

module _ (tree : Tree) where
  unfoldable pub glob_files : List (Result String String) → List String
  glob_files [] = []
  glob_files (ok p ∷ rest) =
      let more = glob_files rest in if is_file (tree.at p) then p ∷ more else more
  glob_files (err x ∷ rest) = glob_files rest

  -- The artifacts and the missing paths of one input, by what is there.
  unfoldable pub expand_found : Bool → String → Found → Result ℕ (List String × List String)
  unfolding collect_dir glob_files is_glob_pattern
  expand_found recursive input file = ok (input ∷ [], [])
  expand_found recursive input (directory listing) =
      collect_dir recursive listing >>= λ xs. ok (xs, [])
  expand_found recursive input nothing =
      if is_glob_pattern input
      then (map_err (λ x. exit_usage) (tree.glob input) >>= λ ps. ok (glob_files ps, []))
      else ok ([], input ∷ [])

  unfoldable pub expand_all : Bool → List String → Result ℕ (List String × List String)
  unfolding expand_found
  expand_all recursive [] = ok ([], [])
  expand_all recursive (input ∷ inputs) = expand_found recursive input (tree.at input) >>= λ one.
      expand_all recursive inputs >>= λ more. ok (one.0 ++ more.0, one.1 ++ more.1)

  unfoldable pub expand_inputs : Bool → List String → Result ℕ (List String × List String)
  unfolding expand_all is_receipt_file dedup
  expand_inputs recursive inputs = expand_all recursive inputs >>= λ found.
      ok (dedup (sort_by path_leb (filter (λ p. not (is_receipt_path p)) found.0)), found.1)
