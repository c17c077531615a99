-- ===== src/Dashboard/Page/Total.antt =====
-- When the page is rendered at all.
use Prim.Native.String.{◌++◌}
use Prim.Native.Char.{Char}
use text.Mathlib.TextLemmas.{nil-append, cons-append}
use mathlib.Core.Option.{some-injective}
use apohara_sealchain.Prelude.{
  ℕ, ◌+◌, ◌-◌, ◌<◌, ◌≤◌, ◌⊎◌, inl, inr, ◌↔◌, ◌≡◌, refl, sym, ap, ◌∙◌, subst, String, true, false,
  List, [], ◌∷◌, Option, none, some, leb, into_bytes, arith, length-append, Bool-cases,
  Option-cases, zero, suc, All,
}
use apohara_sealchain.Schema.{map_option}
use apohara_sealchain.Dashboard.{DashboardEntry}
use apohara_sealchain.Dashboard.Page.{
  len_utf8, byte_len, take_bytes, short_hash, head_html, footer, row_html, row_before, rows_html,
  render_html,
}

-- A text has fewer than 12 bytes, or is cut in two by its byte 12.
unfoldable pub IsCuttable : String → Type 0
IsCuttable s =
    (byte_len s < 12) ⊎ ((p : String) × (rest : String) × (s ≡ p ++ rest) × (byte_len p ≡ 12))

byte_len-cons : (c : Char) (s : String) → byte_len (String.◌∷◌ c s) ≡ len_utf8 c + byte_len s
unfolding byte_len into_bytes len_utf8
byte_len-cons c s = grind (arith, length-append)

byte_len-nil : byte_len "" ≡ 0
unfolding byte_len into_bytes
byte_len-nil = refl

len_utf8_pos : (c : Char) → 1 ≤ len_utf8 c
unfolding len_utf8
len_utf8_pos c = ground arith

take_bytes-zero : (s : String) → take_bytes 0 s ≡ some ""
unfolding take_bytes
take_bytes-zero String.[] = refl
take_bytes-zero (String.◌∷◌ c s) = refl

-- A character that fits is taken, and the rest after it.
take_bytes-more :
    (c : Char) (s : String) (n : ℕ)
    → take_bytes (len_utf8 c + n) (String.◌∷◌ c s)
      ≡ map_option (λ t. String.◌∷◌ c t) (take_bytes n s)
unfolding take_bytes
take_bytes-more c s n =
    let left : len_utf8 c + n - len_utf8 c ≡ n = omega arith in
    rw left (ground (arith, len_utf8_pos c))

take_bytes-append : (p rest : String) → take_bytes (byte_len p) (p ++ rest) ≡ some p
take_bytes-append String.[] rest = rw (byte_len-nil, nil-append) (take_bytes-zero rest)
take_bytes-append (String.◌∷◌ c p) rest =
    rw
      (
        byte_len-cons c p,
        cons-append,
        take_bytes-more c (p ++ rest) (byte_len p),
        take_bytes-append p rest,
      )
      refl

-- A text that is taken is empty, or goes on after a character that fits.
take_bytes-cases :
    (n : ℕ) (c : Char) (s p : String)
    → take_bytes n (String.◌∷◌ c s) ≡ some p
    → ((n ≡ 0) × (p ≡ ""))
      ⊎ ((m : ℕ) × (t : String) × (n ≡ len_utf8 c + m)
          × (take_bytes m s ≡ some t)
          × (p ≡ String.◌∷◌ c t))
unfolding take_bytes
take_bytes-cases zero c s p h = inl (refl, sym (some-injective _ _ h))
take_bytes-cases (suc n) c s p h = elim (Bool-cases (leb (len_utf8 c) (suc n))) [
  | inl fits ↦ elim (Option-cases (take_bytes (suc n - len_utf8 c) s)) [
    | inl missing ↦ absurd (ground arith)
    | inr (t, taken) ↦ inr (suc n - len_utf8 c, t, ground arith, taken, ground arith)
  ]
  | inr big ↦ absurd (ground arith)
]

-- What is taken is the first part of the text, and has the bytes asked for.
take_bytes-parts :
    (n : ℕ) (s p : String)
    → take_bytes n s ≡ some p
    → (rest : String) × (s ≡ p ++ rest) × (byte_len p ≡ n)
unfolding take_bytes
take_bytes-parts zero String.[] p h =
    let e : p ≡ "" = sym (some-injective _ _ h) in ("", rw (e, nil-append) refl, rw e byte_len-nil)
take_bytes-parts (suc n) String.[] p h = absurd (ground arith)
take_bytes-parts n (String.◌∷◌ c s) p h = elim (take_bytes-cases n c s p h) [
  | inl (z, e) ↦ (String.◌∷◌ c s, rw (e, nil-append) refl, rw (e, z) byte_len-nil)
  | inr (m, t, fits, taken, e) ↦
      let (rest, parts, len) = take_bytes-parts m s t taken in
      (rest, rw (e, cons-append, parts) refl, rw (e, byte_len-cons c t, len, fits) refl)
]

short_hash_long : (s : String) → leb 12 (byte_len s) ≡ true → short_hash s ≡ take_bytes 12 s
unfolding short_hash
short_hash_long s h = rw h refl

short_hash_fits : (s : String) → leb 12 (byte_len s) ≡ false → short_hash s ≡ some s
unfolding short_hash
short_hash_fits s h = rw h refl

short_hash_iff : (s : String) → ((short : String) × (short_hash s ≡ some short)) ↔ IsCuttable s
unfolding IsCuttable
short_hash_iff s = elim (Bool-cases (leb 12 (byte_len s))) [
  | inl long ↦ (
    λ (p, h).
        let (rest, parts, len) = take_bytes-parts 12 s p (sym (short_hash_long s long) ∙ h) in
        inr (p, rest, parts, len),
    λ c. elim c [
      | inl less ↦ absurd (ground arith)
      | inr (p, rest, parts, len) ↦
          let taken : take_bytes 12 (p ++ rest) ≡ some p =
            subst (λ n. take_bytes n (p ++ rest) ≡ some p) len (take_bytes-append p rest) in
          (p, short_hash_long s long ∙ ap (take_bytes 12) parts ∙ taken)
    ],
  )
  | inr fits ↦ (λ h. inl (ground arith), λ c. (s, short_hash_fits s fits))
]

-- A text is there after a function exactly when it was before.
map_option_iff :
    (f : String → String) (m : Option String)
    → ((h : String) × (map_option f m ≡ some h)) ↔ ((r : String) × (m ≡ some r))
map_option_iff f none = (λ (h, e). cc, λ (r, e). cc)
map_option_iff f (some r) = (λ h. (r, refl), λ h. (f r, refl))

row_before_iff :
    (l : Option String) (e : DashboardEntry) (short later : Option String)
    → ((h : String) × (row_before l e short later ≡ some h))
      ↔ (((a : String) × (short ≡ some a)) × ((b : String) × (later ≡ some b)))
unfolding row_before
row_before_iff l e none later = (λ (h, m). cc, λ ((a, absent), m). cc)
row_before_iff l e (some short) later =
    let rest = map_option_iff (λ r. row_html l e short ++ r) later in
    (λ h. ((short, refl), rest.0 h), λ (here, m). rest.1 m)

rows_html_iff :
    (l : Option String) (entries : List DashboardEntry)
    → ((h : String) × (rows_html l entries ≡ some h))
      ↔ All (λ (e : DashboardEntry). IsCuttable e.artifact_sha256) entries
unfolding rows_html
rows_html_iff l [] = (λ h. tt, λ h. ("", refl))
rows_html_iff l (e ∷ entries) =
    let row = row_before_iff l e (short_hash e.artifact_sha256) (rows_html l entries) in
    let cut = short_hash_iff e.artifact_sha256 in
    let later = rows_html_iff l entries in
    (
      λ h. let (short, rest) = row.0 h in (cut.0 short, later.0 rest),
      λ (short, rest). row.1 (cut.1 short, later.1 rest),
    )

-- The page is rendered exactly when every entry's hash has fewer than 12 bytes or a character of it ends
-- at its byte 12; else the rendering panics.
pub render_html_iff :
    (entries : List DashboardEntry) (generated_at : String) (policy_label : Option String)
    → ((html : String) × (render_html entries generated_at policy_label ≡ some html))
      ↔ All (λ (e : DashboardEntry). IsCuttable e.artifact_sha256) entries
unfolding render_html
render_html_iff entries generated_at policy_label =
    let rows = rows_html_iff policy_label entries in
    let whole =
      map_option_iff
        (λ rows.
          head_html entries generated_at policy_label
          ++ rows
          ++ "</tbody>\n</table>\n"
          ++ footer
          ++ "</body>\n</html>\n")
        (rows_html policy_label entries) in
    (λ h. rows.0 (whole.0 h), λ c. whole.1 (rows.1 c))
