-- ===== src/Dashboard/Page/Inert.antt =====
-- What the texts of receipts, policies and artifact names can add to the markup of the page.
use Prim.Native.String.{◌++◌}
use mathlib.Core.Option.{some-injective}
use apohara_sealchain.Prelude.{
  ◌≡◌, refl, String, Bool, true, false, List, map, length, sym, into_bytes, [], ◌∷◌, Option, none,
  some, if◌then◌else◌, arith,
}
use apohara_sealchain.Schema.{map_option}
use apohara_sealchain.LayerResult.{LayerResult}
use apohara_sealchain.Policy.{PolicyReport}
use apohara_sealchain.Dashboard.{VerifyStatus, DashboardEntry}
use apohara_sealchain.Dashboard.Page.{
  badges, badge_class, report_cell, policy_cell, row_html, row_before, rows_html, short_hash,
  footer, policy_heading, head_html, render_html, count_status, empty_row,
}
use apohara_sealchain.Dashboard.Page.Markup.{
  markup, markup-append, markup-esc, beside, markup-map_option,
}

markup-badge_class : (state : Option LayerResult) → markup (badge_class state) ≡ []
unfolding badge_class markup
markup-badge_class none = refl
markup-badge_class (some r) =
    elim r.ok as (λ good. markup (if good then "badge ok" else "badge bad") ≡ []) [
      | true ↦ refl
      | false ↦ refl
    ]

-- An entry without its texts, with the numbers of its layers and violations.
blank_report : PolicyReport → PolicyReport
blank_report r = record {
  passed = r.passed;
  violations = map (λ v. "") r.violations;
  profile = none;
}

unfoldable pub blank_entry : DashboardEntry → DashboardEntry
unfolding blank_report
blank_entry e = record {
  artifact_path = "";
  artifact_sha256 = "";
  sealed_at = "";
  layers = map (λ layer. "") e.layers;
  receipt_path = "";
  status = e.status;
  layer_results = [];
  policy = map_option blank_report e.policy;
}

length-map : {A : Type 0} {B : Type 0} (f : A → B) (xs : List A) → length (map f xs) ≡ length xs
length-map f [] = refl
length-map f (x ∷ xs) = omega (arith, length-map f xs)

markup-badges :
    (results : List LayerResult) (layers : List String)
    → markup (badges results layers) ≡ markup (badges [] (map (λ layer. "") layers))
unfolding badges
markup-badges results [] = refl
markup-badges results (layer ∷ layers) =
    simp (markup-append, markup-esc, markup-badge_class, markup-badges results layers)

markup-report_cell :
    (passed : Bool) (violations : List String)
    → markup (report_cell passed violations)
      ≡ markup (report_cell passed (map (λ v. "") violations))
unfolding report_cell
markup-report_cell true violations = refl
markup-report_cell false violations = simp (markup-append, markup-esc, length-map)

markup-policy_cell :
    (l l' : String) (policy : Option PolicyReport)
    → markup (policy_cell (some l) policy)
      ≡ markup (policy_cell (some l') (map_option blank_report policy))
unfolding policy_cell blank_report
markup-policy_cell l l' none = refl
markup-policy_cell l l' (some r) = markup-report_cell r.passed r.violations

-- A label without its text.
abbrev blank_label : Option String → Option String
blank_label l = map_option (λ t. "") l

markup-row_html :
    (l : Option String) (e : DashboardEntry) (short short' : String)
    → markup (row_html l e short) ≡ markup (row_html (blank_label l) (blank_entry e) short')
unfolding row_html blank_entry
markup-row_html none e short short' =
    simp (markup-append, markup-esc, markup-badges e.layer_results e.layers)
markup-row_html (some l) e short short' = simp (
  markup-append,
  markup-esc,
  markup-badges e.layer_results e.layers,
  markup-policy_cell l "" e.policy,
)

count_status-map :
    (s : VerifyStatus) (entries : List DashboardEntry)
    → count_status s (map blank_entry entries) ≡ count_status s entries
unfolding count_status blank_entry
count_status-map s [] = refl
count_status-map s (e ∷ entries) = ground (arith, count_status-map s entries)

markup-policy_heading :
    (l : Option String) → markup (policy_heading l) ≡ markup (policy_heading (blank_label l))
unfolding policy_heading
markup-policy_heading none = refl
markup-policy_heading (some l) = simp (markup-append, markup-esc)

empty_row-map :
    (l : Option String) (entries : List DashboardEntry)
    → empty_row (blank_label l) (map blank_entry entries) ≡ empty_row l entries
unfolding empty_row
empty_row-map none [] = refl
empty_row-map (some l) [] = refl
empty_row-map l (e ∷ entries) = refl

markup-head_html :
    (entries : List DashboardEntry) (g : String) (l : Option String)
    → markup (head_html entries g l)
      ≡ markup (head_html (map blank_entry entries) "" (blank_label l))
unfolding head_html
markup-head_html entries g l = simp (
  markup-append,
  markup-esc,
  length-map,
  count_status-map,
  markup-policy_heading l,
  empty_row-map l entries,
)

-- What a row adds to the markup of the rows after it does not depend on its texts.
markup-row_before :
    (l : Option String) (e : DashboardEntry) (short : Option String) (short' : String)
    (later later' : Option String) (h : String)
    → ((r : String) → later ≡ some r → map_option markup later' ≡ some (markup r))
    → row_before l e short later ≡ some h
    → map_option markup (row_before (blank_label l) (blank_entry e) (some short') later')
      ≡ some (markup h)
unfolding row_before
markup-row_before l e none short' later later' h same made = cc
markup-row_before l e (some short) short' later later' h same made =
    markup-map_option (λ rest. row_html l e short ++ rest)
      (λ rest. row_html (blank_label l) (blank_entry e) short' ++ rest)
      (λ s t rest. beside _ _ s t (sym (markup-row_html l e short short')) rest) later later' h same
      made

markup-rows_html :
    (l : Option String) (entries : List DashboardEntry) (h : String)
    → rows_html l entries ≡ some h
    → map_option markup (rows_html (blank_label l) (map blank_entry entries)) ≡ some (markup h)
unfolding rows_html short_hash into_bytes blank_entry
markup-rows_html l [] h made = rw (sym (some-injective _ _ made)) refl
markup-rows_html l (e ∷ entries) h made =
    markup-row_before l e (short_hash e.artifact_sha256) "" (rows_html l entries)
      (rows_html (blank_label l) (map blank_entry entries)) h (markup-rows_html l entries) made

-- The angle brackets and quotes of a page that is rendered are, in number and order, those of the page of the same entries
-- with blank paths, hashes, dates, layer names, violations and label and without layer results.
pub render_html-blank_entry :
    (entries : List DashboardEntry) (generated_at : String) (policy_label : Option String)
    (html : String)
    → render_html entries generated_at policy_label ≡ some html
    → map_option markup (render_html (map blank_entry entries) "" (blank_label policy_label))
      ≡ some (markup html)
unfolding render_html
render_html-blank_entry entries g l html made =
    markup-map_option
      (λ rows.
        head_html entries g l ++ rows ++ "</tbody>\n</table>\n" ++ footer ++ "</body>\n</html>\n")
      (λ rows.
        head_html (map blank_entry entries) "" (blank_label l)
        ++ rows
        ++ "</tbody>\n</table>\n"
        ++ footer
        ++ "</body>\n</html>\n")
      (λ s t rows. beside _ _ _ _ (sym (markup-head_html entries g l)) (beside s t _ _ rows refl))
      (rows_html l entries) (rows_html (blank_label l) (map blank_entry entries)) html
      (markup-rows_html l entries) made
