-- ===== src/Cli/RunDashboard.antt =====
-- crates/apohara-sealchain/src/cli.rs: the command `dashboard`, from its arguments to the page and the
-- exit code, and what `ls` and `find` print as a table.
pub mod Sealed
use Prim.Native.String.{◌++◌}
use apohara_sealchain.Prelude.{
  ℕ, length, show, String, Bool, List, [], ◌∷◌, map, Option, none, some, ◌==◌, if◌then◌else◌,
}
use apohara_sealchain.Error.{Result, ok, err, ◌>>=◌, map_err, ok_or}
use apohara_sealchain.Json.{unwrap_or}
use apohara_sealchain.Schema.{SealedRecord, record_from_value, map_option}
use apohara_sealchain.Paths.{file_name}
use apohara_sealchain.Index.{IndexRecord}
use apohara_sealchain.Index.Store.{Table, Listing, index_list, scan_into}
use apohara_sealchain.Artifact.{Crates}
use apohara_sealchain.Policy.{Policy, Chrono, from_toml_str, from_profile}
use apohara_sealchain.Cli.{exit_ok, exit_usage, exit_schema, Shell, read_receipt}
use apohara_sealchain.Dashboard.{DashboardEntry, build_dashboard_entry}
use apohara_sealchain.Dashboard.Page.{short_hash, render_html}

pub record DashboardArgs : Type 0 where
  pub from_dir : Option String
  pub out : Option String
  pub policy : Option String
  pub profile : Option String

-- What the command leaves: its exit code, the page on the standard output, and the file it wrote.
pub record Report : Type 0 where
  pub code : ℕ
  pub stdout : String
  pub written : Option (String × String)

-- `s.strip_suffix(p)`
unfoldable pub strip_suffix : String → String → Option String
strip_suffix p String.[] = if "" == p then some "" else none
strip_suffix p (String.◌∷◌ c s) =
    let front = strip_suffix p s in
    if String.◌∷◌ c s == p then some "" else map_option (λ t. String.◌∷◌ c t) front

unfoldable pub artifact_path_for_receipt : String → String
unfolding strip_suffix
artifact_path_for_receipt receipt = unwrap_or (strip_suffix ".seal.json" receipt) receipt

-- A row of `ls` and `find`; `none` if the hash cannot be cut.
unfoldable pub index_line : IndexRecord → Option String
unfolding short_hash
index_line r =
    map_option
      (λ short.
        r.sealed_at ++ "  " ++ short ++ "  " ++ r.artifact_path ++ "  [" ++ r.layers ++ "]\n")
      (short_hash r.artifact_sha256)

unfoldable pub index_lines : List IndexRecord → Option String
unfolding index_line
index_lines [] = some ""
index_lines (r ∷ rows) =
    let later = index_lines rows in
    elim (index_line r) [ none ↦ none | some line ↦ map_option (λ rest. line ++ rest) later ]

unfoldable pub print_index_rows : List IndexRecord → Option String
unfolding index_lines
print_index_rows [] = some "(no indexed receipts)\n"
print_index_rows (r ∷ rows) = index_lines (r ∷ rows)

-- The sources of a directory's receipts: the artifact is looked up next to each.
unfoldable pub beside_receipts :
    List (String × SealedRecord) → List (String × SealedRecord × String)
unfolding artifact_path_for_receipt
beside_receipts [] = []
beside_receipts ((path, r) ∷ rest) =
    (path, r, artifact_path_for_receipt path) ∷ beside_receipts rest

unfoldable pub with_source :
    IndexRecord
    → Result ℕ SealedRecord
    → List (String × SealedRecord × String)
    → List (String × SealedRecord × String)
with_source row (ok r) later = (row.receipt_path, r, row.artifact_path) ∷ later
with_source row (err code) later = later

module _ (e : Crates) (chrono : Chrono) (sh : Shell chrono) where
  unfoldable pub resolve_dashboard_policy : DashboardArgs → Result ℕ (Option (Policy × String))
  resolve_dashboard_policy args = elim args.policy [
    | some path ↦ do
      text ← map_err (λ _. exit_schema) (sh.read_to_string path)
      policy ← map_err (λ _. exit_schema) (from_toml_str sh.parse_toml text)
      ok (some (policy, unwrap_or (file_name path) "policy"))
    | none ↦ elim args.profile [
      | some name ↦ do policy ← ok_or exit_usage (from_profile name); ok (some (policy, name))
      | none ↦ ok none
    ]
  ]

  -- A receipt's text, as `serde_json::from_str` reads it.
  unfoldable pub receipt_of_text : String → Result String SealedRecord
  receipt_of_text text = do
    value ← sh.parse_json text
    map_err (λ x. e.crypto.shape_error value) (record_from_value value)

  -- The sources of the index's rows: one whose receipt does not read is left out.
  unfoldable pub readable_rows : List IndexRecord → List (String × SealedRecord × String)
  unfolding with_source
  readable_rows [] = []
  readable_rows (row ∷ rows) =
      with_source row (read_receipt e chrono sh row.receipt_path) (readable_rows rows)

  -- `listing` walks a directory, and `table` is the index.
  module _ (exists : String → Bool) (listing : String → Listing) (table : Table) where
    unfoldable pub gather_dashboard_sources :
        DashboardArgs → Result ℕ (List (String × SealedRecord × String))
    unfolding beside_receipts readable_rows
    gather_dashboard_sources args = elim args.from_dir [
      | some dir ↦ do
        scanned ← map_err (λ _. exit_schema) (scan_into receipt_of_text dir (listing dir))
        ok (beside_receipts scanned)
      | none ↦ ok (readable_rows (index_list table))
    ]

    unfoldable pub entries_of :
        Option (Policy × String) → List (String × SealedRecord × String) → List DashboardEntry
    entries_of policy sources =
        map
          (λ (source : String × SealedRecord × String).
            build_dashboard_entry e chrono sh exists source.0 source.1 source.2
              (map_option (λ (p : Policy × String). p.0) policy))
          sources

    -- The entries and the label of the policy column.
    unfoldable pub gathered : DashboardArgs → Result ℕ (List DashboardEntry × Option String)
    unfolding resolve_dashboard_policy gather_dashboard_sources entries_of
    gathered args = do
      policy ← resolve_dashboard_policy args
      sources ← gather_dashboard_sources args
      ok (entries_of policy sources, map_option (λ (p : Policy × String). p.1) policy)

    -- `writable` says whether a file can be written.
    unfoldable pub delivered :
        (writable : String → Bool) → Option String → List DashboardEntry → String → Report
    delivered writable none entries html = record { code = exit_ok; stdout = html; written = none }
    delivered writable (some path) entries html =
        if writable path
        then record {
          code = exit_ok;
          stdout = "WROTE " ++ path ++ " (" ++ show (length entries) ++ " receipts)\n";
          written = some (path, html);
        }
        else record { code = exit_schema; stdout = ""; written = none }

    unfoldable pub rendered :
        (writable : String → Bool)
        → String
        → Option String
        → Result ℕ (List DashboardEntry × Option String)
        → Option Report
    unfolding delivered
    rendered writable generated_at out (err code) =
        some (record { code = code; stdout = ""; written = none })
    rendered writable generated_at out (ok (entries, label)) =
        map_option (delivered writable out entries) (render_html entries generated_at label)

    -- The command; `none` if it panics.
    unfoldable pub run_dashboard :
        (writable : String → Bool) → String → DashboardArgs → Option Report
    unfolding rendered gathered
    run_dashboard writable generated_at args =
        rendered writable generated_at args.out (gathered args)
