-- ===== src/Dashboard/Page.antt =====
-- crates/apohara-sealchain-core/src/dashboard.rs, `render_html`: the page over its rows.
pub mod Markup
pub mod Inert
pub mod Total
use Prim.Native.Char.{Char, code}
use Prim.Native.String.{◌++◌}
use apohara_sealchain.Prelude.{
  ℕ, ◌-◌, ltb, leb, nat_eq, show, String, Bool, true, false, ◌&&◌, List, [], ◌∷◌, length, filter,
  find?, Option, none, some, into_bytes, ◌==◌, if◌then◌else◌,
}
use apohara_sealchain.Json.{is_some}
use apohara_sealchain.Schema.{map_option}
use apohara_sealchain.LayerResult.{LayerResult}
use apohara_sealchain.Policy.{PolicyReport}
use apohara_sealchain.Dashboard.{VerifyStatus, pass, fail, receipt_only, DashboardEntry, esc}

abbrev style : String
style =
    "<style>\n:root{color-scheme:light dark}\n*{box-sizing:border-box}\nbody{font-family:ui-monospace,SFMono-Regular,Menlo,Consolas,monospace;margin:2rem auto;max-width:60rem;padding:0 1rem;line-height:1.5}\nh1{font-size:1.4rem;margin:0}\n.meta{color:#888;margin:.2rem 0 1rem}\n.summary{list-style:none;display:flex;gap:1rem;flex-wrap:wrap;padding:0;margin:0 0 1.5rem}\n.summary li{border:1px solid #8884;border-radius:.4rem;padding:.3rem .7rem}\ntable{border-collapse:collapse;width:100%;font-size:.85rem}\nth,td{text-align:left;padding:.45rem .5rem;border-bottom:1px solid #8883;vertical-align:top}\nth{font-weight:700;border-bottom:2px solid #8886}\n.path{word-break:break-all}\n.hash{color:#888;font-size:.8rem}\n.badge{display:inline-block;border:1px solid #8886;border-radius:.3rem;padding:.05rem .35rem;margin:0 .2rem .2rem 0;font-size:.75rem}\n.status{font-weight:700}\n.ok{color:#1a7f37}\n.bad{color:#c1121f}\n.warn{color:#9a6700}\n.badge.ok{border-color:#1a7f3777}\n.badge.bad{border-color:#c1121f77}\n.empty{color:#888;text-align:center;padding:1.5rem}\nfooter{color:#888;font-size:.75rem;margin-top:1.5rem;border-top:1px solid #8883;padding-top:.8rem}\n</style>\n"

abbrev footer : String
footer =
    "<footer>\nA seal is evidence, not a verdict. Each row reports only what was re-checked: a PASS means the artifact was present and every present layer verified; receipt-only means the artifact file was not found, so no pass is claimed. See SPEC.md and docs/TRUST-PROFILE.md for what each layer proves.\n</footer>\n"

unfoldable pub label : VerifyStatus → String
label pass = "PASS"
label fail = "FAIL"
label receipt_only = "receipt-only"

unfoldable pub css : VerifyStatus → String
css pass = "ok"
css fail = "bad"
css receipt_only = "warn"

-- The bytes of a character.
unfoldable pub len_utf8 : Char → ℕ
len_utf8 c =
    if ltb (code c) 128
    then 1
    else if ltb (code c) 2048
    then 2
    else if ltb (code c) 65536
    then 3
    else 4

-- `&s[..n]`: it panics (`none`) unless a character ends at the byte n.
unfoldable pub take_bytes : ℕ → String → Option String
unfolding len_utf8
take_bytes n String.[] = if nat_eq n 0 then some "" else none
take_bytes n (String.◌∷◌ c s) =
    let more = take_bytes (n - len_utf8 c) s in
    if nat_eq n 0
    then some ""
    else if leb (len_utf8 c) n
    then map_option (λ t. String.◌∷◌ c t) more
    else none

-- `s.len()`
unfoldable pub byte_len : String → ℕ
byte_len s = length (into_bytes s)

unfoldable pub short_hash : String → Option String
unfolding take_bytes byte_len
short_hash hash = if leb 12 (byte_len hash) then take_bytes 12 hash else some hash

unfoldable pub is_status : VerifyStatus → VerifyStatus → Bool
is_status pass pass = true
is_status fail fail = true
is_status receipt_only receipt_only = true
is_status a b = false

unfoldable pub count_status : VerifyStatus → List DashboardEntry → ℕ
unfolding is_status
count_status s entries = length (filter (λ (e : DashboardEntry). is_status e.status s) entries)

-- `vec.join("; ")`
unfoldable pub join_violations : List String → String
join_violations [] = ""
join_violations (v ∷ []) = v
join_violations (v ∷ (w ∷ ws)) = v ++ "; " ++ join_violations (w ∷ ws)

unfoldable pub badge_class : Option LayerResult → String
badge_class none = "badge"
badge_class (some r) = if r.ok then "badge ok" else "badge bad"

unfoldable pub badge_title : Option LayerResult → String
badge_title none = "present (not re-verified)"
badge_title (some r) = r.reason

unfoldable pub badge : List LayerResult → String → String
unfolding badge_class badge_title
badge results layer =
    let state = find? (λ (r : LayerResult). r.name == layer) results in
    "<span class=\""
    ++ badge_class state
    ++ "\" title=\""
    ++ esc (badge_title state)
    ++ "\">"
    ++ esc layer
    ++ "</span>"

unfoldable pub badges : List LayerResult → List String → String
unfolding badge
badges results [] = ""
badges results (layer ∷ layers) = badge results layer ++ badges results layers

unfoldable pub report_cell : Bool → List String → String
report_cell true violations = "<td class=\"status ok\">PASS</td>"
report_cell false violations =
    "<td class=\"status bad\" title=\""
    ++ esc (join_violations violations)
    ++ "\">FAIL ("
    ++ show (length violations)
    ++ ")</td>"

unfoldable pub policy_cell : Option String → Option PolicyReport → String
unfolding report_cell
policy_cell none policy = ""
policy_cell (some l) none =
    "<td class=\"status warn\" title=\"artifact missing; not evaluated\">&mdash;</td>"
policy_cell (some l) (some report) = report_cell report.passed report.violations

unfoldable pub row_html : Option String → DashboardEntry → String → String
unfolding badges policy_cell
row_html policy_label e short =
    "<tr>\n<td class=\"path\">"
    ++ esc e.artifact_path
    ++ "</td><td class=\"hash\" title=\""
    ++ esc e.artifact_sha256
    ++ "\">"
    ++ esc short
    ++ "</td><td class=\"sealed\">"
    ++ esc e.sealed_at
    ++ "</td><td class=\"layers\">"
    ++ badges e.layer_results e.layers
    ++ "</td><td class=\"status "
    ++ css e.status
    ++ "\">"
    ++ label e.status
    ++ "</td>"
    ++ policy_cell policy_label e.policy
    ++ "\n</tr>\n"

-- A row, whose short hash may be missing, before the rows after it.
unfoldable pub row_before :
    Option String → DashboardEntry → Option String → Option String → Option String
unfolding row_html
row_before policy_label e none later = none
row_before policy_label e (some short) later =
    map_option (λ rest. row_html policy_label e short ++ rest) later

unfoldable pub rows_html : Option String → List DashboardEntry → Option String
unfolding row_before
rows_html policy_label [] = some ""
rows_html policy_label (e ∷ entries) =
    row_before policy_label e (short_hash e.artifact_sha256) (rows_html policy_label entries)

unfoldable pub policy_heading : Option String → String
policy_heading none = ""
policy_heading (some l) = "<th>policy: " ++ esc l ++ "</th>"

unfoldable pub empty_row : Option String → List DashboardEntry → String
empty_row policy_label [] =
    "<tr><td colspan=\""
    ++ (if is_some policy_label then "6" else "5")
    ++ "\" class=\"empty\">no receipts indexed</td></tr>\n"
empty_row policy_label (e ∷ entries) = ""

unfoldable pub head_html : List DashboardEntry → String → Option String → String
unfolding policy_heading empty_row count_status
head_html entries generated_at policy_label =
    "<!doctype html>\n<html lang=\"en\">\n<head>\n<meta charset=\"utf-8\">\n<meta name=\"viewport\" content=\"width=device-width, initial-scale=1\">\n<title>apohara-sealchain transparency dashboard</title>\n"
    ++ style
    ++ "</head>\n<body>\n<header>\n<h1>apohara-sealchain transparency</h1>\n<p class=\"meta\">generated "
    ++ esc generated_at
    ++ " &middot; offline report, no network</p>\n<ul class=\"summary\">\n<li><b>"
    ++ show (length entries)
    ++ "</b> receipts</li>\n<li class=\"ok\"><b>"
    ++ show (count_status pass entries)
    ++ "</b> verified</li>\n<li class=\"bad\"><b>"
    ++ show (count_status fail entries)
    ++ "</b> failed</li>\n<li class=\"warn\"><b>"
    ++ show (count_status receipt_only entries)
    ++ "</b> receipt-only</li>\n</ul>\n</header>\n<table>\n<thead>\n<tr><th>artifact</th><th>hash</th><th>sealed</th><th>layers</th><th>verify</th>"
    ++ policy_heading policy_label
    ++ "</tr>\n</thead>\n<tbody>\n"
    ++ empty_row policy_label entries

-- The page; `none` if the rendering panics at a hash.
unfoldable pub render_html : List DashboardEntry → String → Option String → Option String
unfolding head_html rows_html
render_html entries generated_at policy_label =
    map_option
      (λ rows.
        head_html entries generated_at policy_label
        ++ rows
        ++ "</tbody>\n</table>\n"
        ++ footer
        ++ "</body>\n</html>\n")
      (rows_html policy_label entries)
