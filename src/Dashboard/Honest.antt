-- ===== src/Dashboard/Honest.antt =====
-- When a row claims a pass, and what escaping leaves of a text.
use Prim.Native.String.{◌++◌}
use Prim.Native.Char.{Char, code}
use text.Mathlib.TextLemmas.{nil-append, cons-append}
use apohara_sealchain.Prelude.{
  ℕ, nat_eq, ◌≡◌, ◌↔◌, ◌≢◌, refl, ap, ◌∙◌, String, Bool, true, false, ◌||◌, List, Option, none,
  arith,
}
use apohara_sealchain.Error.{SealError, Result, ok, err}
use apohara_sealchain.Schema.{SealedRecord}
use apohara_sealchain.LayerResult.{LayerResult}
use apohara_sealchain.Artifact.{Crates}
use apohara_sealchain.Artifact.Agrees.{all_ok}
use apohara_sealchain.Policy.{Policy, Chrono}
use apohara_sealchain.Cli.{Shell, verify_artifact}
use apohara_sealchain.Dashboard.{
  pass, receipt_only, esc_char, esc, verified_outcome, outcome_of, row_outcome,
  build_dashboard_entry,
}

-- Some character is `<`, `>`, or a quote.
abbrev pub is_markup : ℕ → Bool
is_markup c = nat_eq c 60 || nat_eq c 62 || nat_eq c 34 || nat_eq c 39

unfoldable pub has_markup : String → Bool
has_markup String.[] = false
has_markup (String.◌∷◌ c s) = is_markup (code c) || has_markup s

has_markup-append : (s t : String) → has_markup (s ++ t) ≡ (has_markup s || has_markup t)
unfolding has_markup
has_markup-append String.[] t = rw nil-append refl
has_markup-append (String.◌∷◌ c s) t = rw cons-append (ground (arith, has_markup-append s t))

has_markup-esc_char :
    (c : Char) (rest : String) → has_markup rest ≡ false → has_markup (esc_char c rest) ≡ false
unfolding has_markup esc_char
has_markup-esc_char c rest h = ground (
  arith,
  has_markup-append "&amp;" rest,
  has_markup-append "&lt;" rest,
  has_markup-append "&gt;" rest,
  has_markup-append "&quot;" rest,
  has_markup-append "&#39;" rest,
)

-- Whatever a text holds, its escaped form has no angle bracket and no quote.
pub has_markup-esc : (s : String) → has_markup (esc s) ≡ false
unfolding esc has_markup
has_markup-esc String.[] = refl
has_markup-esc (String.◌∷◌ c s) = has_markup-esc_char c (esc s) (has_markup-esc s)

receipt_only≢pass : receipt_only ≢ pass
receipt_only≢pass h = cc

module _ (e : Crates) (chrono : Chrono) (sh : Shell chrono) where
  verified_iff :
      (r : SealedRecord) (policy : Option Policy) (results : List LayerResult) (good : Bool)
      → ((verified_outcome e chrono sh r policy results good).0 ≡ pass) ↔ (good ≡ true)
  unfolding verified_outcome
  verified_iff r policy results true = ((λ h. refl), λ h. refl)
  verified_iff r policy results false = ((λ h. cc), λ h. cc)

  outcome_iff :
      (r : SealedRecord) (policy : Option Policy) (m : Result SealError (List LayerResult))
      → ((outcome_of e chrono sh r policy m).0 ≡ pass)
        ↔ ((results : List LayerResult) × (m ≡ ok results) × (all_ok results ≡ true))
  unfolding outcome_of
  outcome_iff r policy (err x) = ((λ h. cc), λ (results, h, g). cc)
  outcome_iff r policy (ok results) =
      let iff = verified_iff r policy results (all_ok results) in
      (
        λ h. (results, refl, iff.0 h),
        λ (results', same, good). let e : results ≡ results' = cc in iff.1 (ap all_ok e ∙ good),
      )

  row_iff :
      (there : Bool) (r : SealedRecord) (artifact : String) (policy : Option Policy)
      → ((row_outcome e chrono sh there r artifact policy).0 ≡ pass) ↔ (
          (there ≡ true)
          × (results : List LayerResult) × (verify_artifact e chrono sh artifact r none
              ≡ ok results)
          × (all_ok results ≡ true))
  unfolding row_outcome
  row_iff true r artifact policy =
      let iff = outcome_iff r policy (verify_artifact e chrono sh artifact r none) in
      (
        λ h. let (results, made, good) = iff.0 h in (refl, results, made, good),
        λ (t, results, made, good). iff.1 (results, made, good),
      )
  row_iff false r artifact policy =
      ((λ h. absurd (receipt_only≢pass h)), λ (t, results, made, good). cc)

  -- A dashboard row shows a pass exactly when the artifact is there and verification of it against the
  -- receipt, without the HMAC key, completes with every result a pass.
  pub build_dashboard_entry_pass_iff :
      (exists : String → Bool) (receipt_path : String) (r : SealedRecord) (artifact : String)
      (policy : Option Policy)
      → ((build_dashboard_entry e chrono sh exists receipt_path r artifact policy).status ≡ pass)
        ↔ ((exists artifact ≡ true)
            × (results : List LayerResult) × (verify_artifact e chrono sh artifact r none
                ≡ ok results)
            × (all_ok results ≡ true))
  unfolding build_dashboard_entry
  build_dashboard_entry_pass_iff exists receipt_path r artifact policy =
      row_iff (exists artifact) r artifact policy
