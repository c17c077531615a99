-- ===== src/Cli/RunDashboard/Sealed.antt =====
-- crates/apohara-sealchain/src/cli.rs: what the dashboard shows of what `seal` has sealed.
use Prim.Native.String.{◌++◌}
use Prim.Native.Char.{Char}
use text.Mathlib.TextLemmas.{nil-append, cons-append}
use apohara_sealchain.Prelude.{
  ℕ, ◌+◌, ◌≡◌, refl, ap, String, Bytes, Bool, true, false, not, List, [], Option, some, ◌==◌,
  eq_iff, eq_refl, length, Some, ◌∷◌, All, All-mono, arith, Bool-cases, inl, inr,
}
use apohara_sealchain.Error.{ok}
use apohara_sealchain.Crypto.{CryptoLaws}
use apohara_sealchain.Schema.{SealedRecord, map_option}
use apohara_sealchain.Schema.RoundTrip.{record_from_value-record_to_value}
use apohara_sealchain.Layers.C2pa.Binding.{MediaLaws}
use apohara_sealchain.Policy.{Policy, Chrono}
use apohara_sealchain.Artifact.{Crates}
use apohara_sealchain.Artifact.Keyless.{verify_artifact_bytes_keyless}
use apohara_sealchain.Sealing.{Keys}
use apohara_sealchain.Index.Store.{Table, Listing, scan_into}
use apohara_sealchain.Cli.{exit_ok, read_receipt, verify_artifact}
use apohara_sealchain.Cli.Inputs.{expand_inputs}
use apohara_sealchain.Cli.RunSeal.{
  SealArgs, System, World, shell, default_receipt_path, resolve_keys_for_seal, run_seal,
}
use apohara_sealchain.Cli.RunSeal.Kept.{SystemLaws, IsVerified}
use apohara_sealchain.Cli.RunSeal.Verifies.{offline_args, run_seal-IsVerified}
use apohara_sealchain.Cli.RunDashboard.{
  strip_suffix, artifact_path_for_receipt, beside_receipts, entries_of, gathered,
  gather_dashboard_sources, resolve_dashboard_policy, receipt_of_text, DashboardArgs,
}
use apohara_sealchain.Dashboard.{pass, DashboardEntry, build_dashboard_entry}
use apohara_sealchain.Dashboard.Honest.{build_dashboard_entry_pass_iff}

unfoldable chars : String → ℕ
chars String.[] = 0
chars (String.◌∷◌ c s) = chars s + 1

chars-append : (s t : String) → chars (s ++ t) ≡ chars s + chars t
unfolding chars
chars-append String.[] t = rw nil-append (omega arith)
chars-append (String.◌∷◌ c s) t = rw cons-append (omega (arith, chars-append s t))

longer : (c : Char) (s p : String) → (String.◌∷◌ c (s ++ p) == p) ≡ false
unfolding chars
longer c s p = elim (Bool-cases (String.◌∷◌ c (s ++ p) == p)) [
  | inl h ↦
      let e = ap chars ((eq_iff (String.◌∷◌ c (s ++ p)) p).0 h) in
      absurd (omega (arith, e, chars-append s p))
  | inr h ↦ h
]

strip_suffix_self : (p : String) → strip_suffix p p ≡ some ""
unfolding strip_suffix
strip_suffix_self String.[] = refl
strip_suffix_self (String.◌∷◌ c p) = rw (eq_refl (String.◌∷◌ c p)) refl

-- A suffix that was put is taken off.
strip_suffix-append : (s p : String) → strip_suffix p (s ++ p) ≡ some s
unfolding strip_suffix
strip_suffix-append String.[] p = rw nil-append (strip_suffix_self p)
strip_suffix-append (String.◌∷◌ c s) p =
    rw (cons-append, longer c s p, strip_suffix-append s p) refl

artifact_path_for_receipt-default_receipt_path :
    (a : String) → artifact_path_for_receipt (default_receipt_path a) ≡ a
unfolding artifact_path_for_receipt default_receipt_path
artifact_path_for_receipt-default_receipt_path a = rw (strip_suffix-append a ".seal.json") refl

-- What is read is there.
abbrev ExistsIfRead :
    (e : Crates) (chrono : Chrono) (sys : System e chrono) → (sys.env.Disk → String → Bool) → Type 0
ExistsIfRead e chrono sys exists =
    (d : sys.env.Disk) (p : String) (b : Bytes) → sys.env.read d p ≡ ok b → exists d p ≡ true

-- What holds of all, holds of one that is among them.
All-Some :
    {A : Type 0} {P Q : A → Type 0} (xs : List A) → All P xs → Some Q xs → (a : A) × P a × Q a
All-Some [] h k = absurd k
All-Some (x ∷ xs) (h, hs) (inl k) = (x, h, k)
All-Some (x ∷ xs) (h, hs) (inr k) = All-Some xs hs k

module _ (e : Crates) (chrono : Chrono) (sys : System e chrono)
    (exists : sys.env.Disk → String → Bool) where
  -- The receipt beside an artifact reads, and its row, with the artifact that is looked up from it, shows
  -- a pass.
  abbrev ShowsPass : sys.env.Disk → Option Policy → String → Type 0
  ShowsPass disk policy a =
      let sh = shell e chrono sys disk in
      (r : SealedRecord) × (read_receipt e chrono sh (default_receipt_path a) ≡ ok r)
      × ((build_dashboard_entry e chrono sh (exists disk) (default_receipt_path a) r
            (artifact_path_for_receipt (default_receipt_path a)) policy).status
          ≡ pass)

  ShowsPass-IsVerified :
      (files : SystemLaws e chrono sys) (there : ExistsIfRead e chrono sys exists)
      (keys : Keys e.crypto) (at : Option String) (with_c2pa ai no_index : Bool)
      (disk : sys.env.Disk) (policy : Option Policy) (a : String)
      → IsVerified e chrono sys keys at with_c2pa ai no_index disk a
      → ShowsPass disk policy a
  unfolding read_receipt verify_artifact
  ShowsPass-IsVerified files there keys at with_c2pa ai no_index disk policy a
        (b, r, text, results, held, stored, printed, writable, verified, good) =
      let (s, utf8, parsed) = files.parse-print r text printed in
      let (rs, passed, all_passed) =
        verify_artifact_bytes_keyless e b r keys.hmac results verified good in
      let iff =
        build_dashboard_entry_pass_iff e chrono (shell e chrono sys disk) (exists disk)
          (default_receipt_path a) r (artifact_path_for_receipt (default_receipt_path a)) policy in
      let back = artifact_path_for_receipt-default_receipt_path a in
      (
        r,
        rw (stored, utf8, parsed, record_from_value-record_to_value r writable) refl,
        iff.1 (rw back (there disk a b held), rs, rw (back, held) passed, all_passed),
      )

  -- A receipt that a scan has found beside one of the artifacts, and as the disk holds it.
  abbrev IsBeside : sys.env.Disk → List String → String × SealedRecord → Type 0
  IsBeside disk artifacts (path, r) =
      Some (λ a. path ≡ default_receipt_path a) artifacts
      × (read_receipt e chrono (shell e chrono sys disk) path ≡ ok r)

  -- The rows of such receipts show passes.
  entries_of-IsBeside :
      (disk : sys.env.Disk) (artifacts : List String) (policy : Option (Policy × String))
      (listing : String → Listing) (table : Table) (scanned : List (String × SealedRecord))
      → All (ShowsPass disk (map_option (λ (p : Policy × String). p.0) policy)) artifacts
      → All (IsBeside disk artifacts) scanned
      → All
          (λ (x : DashboardEntry). x.status ≡ pass)
          (entries_of e chrono
            (shell e chrono sys disk)
            (exists disk)
            listing
            table
            policy
            (beside_receipts scanned))
  unfolding entries_of beside_receipts
  entries_of-IsBeside disk artifacts policy listing table [] passes h = tt
  entries_of-IsBeside disk artifacts policy listing table ((path, r) ∷ scanned) passes
        ((one, read), h) =
      let (a, (r', read', shown), same) = All-Some artifacts passes one in
      let same_receipt : r ≡ r' = cc in
      (
        rw (same, same_receipt) shown,
        entries_of-IsBeside disk artifacts policy listing table scanned passes h,
      )

  length-entries_of :
      (disk : sys.env.Disk) (policy : Option (Policy × String)) (listing : String → Listing)
      (table : Table) (scanned : List (String × SealedRecord))
      → length (
          entries_of e chrono
            (shell e chrono sys disk)
            (exists disk)
            listing
            table
            policy
            (beside_receipts scanned))
        ≡ length scanned
  unfolding entries_of beside_receipts
  length-entries_of disk policy listing table [] = refl
  length-entries_of disk policy listing table ((path, r) ∷ scanned) =
      omega (arith, length-entries_of disk policy listing table scanned)

  module _ (laws : CryptoLaws e.crypto) (media_laws : MediaLaws e.crypto e.media)
      (files : SystemLaws e chrono sys) (there : ExistsIfRead e chrono sys exists) where
    -- When `seal` exits 0 without the network, without embedding and with each receipt beside its
    -- artifact, a dashboard over a directory whose scan finds receipts of that run alone, as the disk
    -- then holds them, has a row for each, and every row shows a pass, whatever policy is asked for. The
    -- crates and the disk are assumed to keep their laws, and a path that reads to exist.
    pub gathered-run_seal :
        (args : SealArgs) (w w₁ w' : World e chrono sys) (artifacts missing : List String)
        (keys : Keys e.crypto)
        → expand_inputs (sys.tree w.disk) args.recursive args.paths ≡ ok (artifacts, missing)
        → resolve_keys_for_seal e chrono sys (offline_args args) w ≡ (w₁, ok keys)
        → run_seal e chrono sys (offline_args args) w ≡ (w', exit_ok)
        → (d : DashboardArgs) (dir : String) (listing : String → Listing)
        → (policy : Option (Policy × String)) (scanned : List (String × SealedRecord))
        → d.from_dir ≡ some dir
        → resolve_dashboard_policy e chrono (shell e chrono sys w'.disk) d ≡ ok policy
        → scan_into (receipt_of_text e chrono (shell e chrono sys w'.disk)) dir (listing dir)
          ≡ ok scanned
        → All (IsBeside w'.disk artifacts) scanned
        → (entries : List DashboardEntry) × (gathered e chrono
              (shell e chrono sys w'.disk)
              (exists w'.disk)
              listing
              w'.table
              d
            ≡ ok (entries, map_option (λ (p : Policy × String). p.1) policy))
          × (length entries ≡ length scanned)
          × All (λ (x : DashboardEntry). x.status ≡ pass) entries
    unfolding gathered gather_dashboard_sources
    gathered-run_seal args w w₁ w' artifacts missing keys expanded resolved h d dir listing policy
          scanned from asked scan beside =
        let sealed =
          run_seal-IsVerified e chrono sys laws media_laws files args w w₁ w' artifacts missing keys
            expanded resolved h in
        let passes =
          All-mono
            (ShowsPass-IsVerified files there keys args.sealed_at (not args.no_c2pa)
              args.ai_generated args.no_index w'.disk
              (map_option (λ (p : Policy × String). p.0) policy))
            artifacts sealed.1 in
        (
          entries_of e chrono (shell e chrono sys w'.disk) (exists w'.disk) listing w'.table policy
              (beside_receipts scanned),
          rw (asked, from, scan) refl,
          length-entries_of w'.disk policy listing w'.table scanned,
          entries_of-IsBeside w'.disk artifacts policy listing w'.table scanned passes beside,
        )
