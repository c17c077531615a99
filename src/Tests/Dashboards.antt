-- ===== src/Tests/Dashboards.antt =====
-- The command `dashboard`, run over the disk that `seal` leaves, and what `key list` prints.
use apohara_sealchain.Prelude.{
  ◌≡◌, refl, String, Bool, true, false, List, [], ◌∷◌, none, some, length, All, inl,
}
use apohara_sealchain.Error.{ok, err}
use apohara_sealchain.Schema.{SealedRecord, record_from_value}
use apohara_sealchain.Index.Store.{Listing, nil, cons, plain_file, scan_into}
use apohara_sealchain.Cli.{read_receipt}
use apohara_sealchain.Cli.RunSeal.{shell}
use apohara_sealchain.Cli.RunDashboard.{
  DashboardArgs, artifact_path_for_receipt, receipt_of_text, resolve_dashboard_policy, gathered,
}
use apohara_sealchain.Cli.RunKeys.{print_keystore_info}
use apohara_sealchain.Keystore.Info.{KeystoreInfo}
use apohara_sealchain.Cli.RunDashboard.Sealed.{gathered-run_seal}
use apohara_sealchain.Dashboard.{pass, DashboardEntry}
use apohara_sealchain.Tests.Toy.{toy_laws}
use apohara_sealchain.Tests.Crates.{toy_crates, toy_media_laws}
use apohara_sealchain.Tests.Policies.{toy_chrono}
use apohara_sealchain.Tests.Sealed.{toy_keys, sealed_file}
use apohara_sealchain.Tests.Disks.{toy_system, toy_files}
use apohara_sealchain.Tests.Commands.{args, before, after, disk_runs, run_seal_test}

artifact_path_test : artifact_path_for_receipt "a.txt.seal.json" ≡ "a.txt"
unfolding artifact_path_for_receipt
artifact_path_test = refl

abbrev summary : KeystoreInfo
summary = record {
  config_dir = "d";
  encrypted = true;
  active_fingerprint = none;
  archived = record { archived_at = "t"; fingerprint = some "f" } ∷ [];
}

print_keystore_info_test :
    print_keystore_info summary
    ≡ "config dir: d\nmode:       encrypted\nactive:     (none)\narchived:\n  t f\n"
unfolding print_keystore_info
print_keystore_info_test = refl

abbrev dashboard_args : DashboardArgs
dashboard_args = record { from_dir = some "."; out = none; policy = none; profile = none }

abbrev exists : toy_system.env.Disk → String → Bool
exists d p = elim (toy_system.env.read d p) [ ok b ↦ true | err x ↦ false ]

abbrev listing : String → Listing
listing dir = cons (plain_file "a.txt.seal.json" (some "receipt")) nil

abbrev scanned : List (String × SealedRecord)
scanned = ("a.txt.seal.json", sealed_file) ∷ []

gathered-run_seal_example :
    (entries : List DashboardEntry) × (gathered toy_crates toy_chrono
        (shell toy_crates toy_chrono toy_system after.disk)
        (exists after.disk)
        listing
        after.table
        dashboard_args
      ≡ ok (entries, none))
    × (length entries ≡ length scanned)
    × All (λ (x : DashboardEntry). x.status ≡ pass) entries
unfolding disk_runs scan_into receipt_of_text resolve_dashboard_policy read_receipt
    record_from_value
gathered-run_seal_example =
    gathered-run_seal toy_crates toy_chrono toy_system exists toy_laws toy_media_laws toy_files
      (λ d p b h. rw (exists, h) refl) args before before after ("a.txt" ∷ []) [] toy_keys refl refl
      run_seal_test dashboard_args "." listing none scanned refl refl refl ((inl refl, refl), tt)
