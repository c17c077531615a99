-- ===== src/Tests/Pages.antt =====
-- The dashboard's page, run on small entries.
use apohara_sealchain.Prelude.{
  ◌≡◌, ◌↔◌, into_bytes, refl, false, String, none, some, [], ◌∷◌, map, All,
}
use apohara_sealchain.Schema.{map_option}
use apohara_sealchain.Dashboard.{pass, fail, DashboardEntry}
use apohara_sealchain.Dashboard.Page.{short_hash, count_status, render_html}
use apohara_sealchain.Dashboard.Page.Markup.{markup}
use apohara_sealchain.Dashboard.Page.Inert.{blank_entry, render_html-blank_entry}
use apohara_sealchain.Dashboard.Page.Total.{IsCuttable, render_html_iff}

abbrev hostile : DashboardEntry
hostile = record {
  artifact_path = "<script>.bin";
  artifact_sha256 = "abcdef0123456789";
  sealed_at = "'2026'";
  layers = "hmac" ∷ [];
  receipt_path = "r";
  status = pass;
  layer_results = record { name = "hmac"; ok = false; reason = "\"><b>" } ∷ [];
  policy = some (record { passed = false; violations = "<i>" ∷ []; profile = none });
}

-- The page of the one entry.
abbrev page : String
page = elim (render_html (hostile ∷ []) "now" (some "<b>")) [ none ↦ "" | some html ↦ html ]

short_hash_test : short_hash "abcdef0123456789" ≡ some "abcdef012345"
unfolding short_hash into_bytes
short_hash_test = refl

short_hash_inside_test : short_hash "abcdef01234é" ≡ none
unfolding short_hash into_bytes
short_hash_inside_test = refl

count_status_test : count_status fail (hostile ∷ []) ≡ 0
unfolding count_status
count_status_test = refl

render_html-blank_entry_example :
    map_option markup (render_html (map blank_entry (hostile ∷ [])) "" (some ""))
    ≡ some (markup page)
unfolding render_html short_hash into_bytes
render_html-blank_entry_example =
    render_html-blank_entry (hostile ∷ []) "now" (some "<b>") page refl

render_html_iff_example :
    ((html : String) × (render_html (hostile ∷ []) "now" none ≡ some html))
    ↔ All (λ (e : DashboardEntry). IsCuttable e.artifact_sha256) (hostile ∷ [])
render_html_iff_example = render_html_iff (hostile ∷ []) "now" none
