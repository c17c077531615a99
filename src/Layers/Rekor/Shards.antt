-- ===== src/Layers/Rekor/Shards.antt =====
-- Which shards may be anchored to.
use Prim.Native.Char.{Char, char, code, IsScalar}
use Prim.Native.String.{◌++◌}
use text.Mathlib.TextLemmas.{nil-append, cons-append}
use apohara_sealchain.Prelude.{
  ℕ, zero, suc, subst, arith, nat_eq, ap, ◌&&◌, eq_iff, ◌≡◌, ◌↔◌, refl, sym, ◌∙◌, String, true,
  List, [], ◌∷◌, any, Some, ◌==◌, Bool-cases, inl, inr, false≢true, ◌≢◌,
}
use apohara_sealchain.Error.{ok, err}
use apohara_sealchain.Layers.Rekor.{active, undeterminable, trim_slashes, stale, classify_shard}

abbrev pub slash : Char
slash = char 47 tt

char_at_code : (c : Char) → code c ≡ 47 → c ≡ slash
char_at_code (char n p) h =
    subst (λ (k : ℕ). (q : IsScalar k) → char k q ≡ slash) (sym h) (λ q. refl) p

-- `n` slashes.
abbrev pub slashes : ℕ → String
slashes zero = ""
slashes (suc n) = String.◌∷◌ slash (slashes n)

-- The two URLs are one text followed by slashes, as many as there are.
abbrev pub IsSameUrl : String → String → Type 0
IsSameUrl a b = (c : String) × (m : ℕ) × (n : ℕ) × (a ≡ c ++ slashes m) × (b ≡ c ++ slashes n)

trim_slashes-slashes : (n : ℕ) → trim_slashes (slashes n) ≡ ""
unfolding trim_slashes
trim_slashes-slashes zero = refl
trim_slashes-slashes (suc n) = rw (trim_slashes-slashes n) refl

trim_slashes-append : (c : String) (n : ℕ) → trim_slashes (c ++ slashes n) ≡ trim_slashes c
unfolding trim_slashes
trim_slashes-append String.[] n = rw nil-append (trim_slashes-slashes n)
trim_slashes-append (String.◌∷◌ ch c) n = rw (cons-append, trim_slashes-append c n) refl

-- What is cut off is slashes.
trim_slashes-parts : (s : String) → (n : ℕ) × (s ≡ trim_slashes s ++ slashes n)
unfolding trim_slashes
trim_slashes-parts String.[] = (0, rw nil-append refl)
trim_slashes-parts (String.◌∷◌ ch s) =
    let (n, e) = trim_slashes-parts s in
    elim (Bool-cases (trim_slashes s == "" && nat_eq (code ch) b'/')) [
      | inl cut ↦
          let gone : trim_slashes s ≡ "" = (eq_iff (trim_slashes s) "").0 (ground (arith, cut)) in
          let is_slash : code ch ≡ 47 = ground (arith, cut) in
          let all_slashes : s ≡ slashes n = e ∙ rw (gone, nil-append) refl in
          rw cut
            (suc n, rw (nil-append, char_at_code ch is_slash) (ap (String.◌∷◌ slash) all_slashes))
      | inr kept ↦ rw kept (n, rw cons-append (ap (String.◌∷◌ ch) e))
    ]

trim_slashes_iff : (a b : String) → ((trim_slashes a == trim_slashes b) ≡ true) ↔ IsSameUrl a b
trim_slashes_iff a b = (
  λ h.
      let (m, e) = trim_slashes-parts a in
      let (n, e') = trim_slashes-parts b in
      let same : trim_slashes a ≡ trim_slashes b = (eq_iff (trim_slashes a) (trim_slashes b)).0 h in
      (trim_slashes a, m, n, e, rw same e'),
  λ (c, m, n, e, e').
      (eq_iff (trim_slashes a) (trim_slashes b)).1
        (rw (e, e', trim_slashes-append c m, trim_slashes-append c n) refl),
)

cons≢nil : {u : String} {us : List String} → (u ∷ us) ≢ []
cons≢nil h = cc

any_iff_IsSameUrl :
    (url : String) (urls : List String)
    → (any (λ u. trim_slashes u == trim_slashes url) urls ≡ true) ↔ Some (λ u. IsSameUrl u url) urls
any_iff_IsSameUrl url [] = ground arith
any_iff_IsSameUrl url (u ∷ us) =
    let here = trim_slashes_iff u url in
    let later = any_iff_IsSameUrl url us in
    elim (Bool-cases (trim_slashes u == trim_slashes url)) [
      | inl e ↦ ((λ h. inl (here.0 e)), λ k. rw e refl)
      | inr e ↦ (
        (λ h. inr (later.0 (rw e at h))),
        λ k. elim k [
          | inl same ↦ absurd (false≢true (sym e ∙ here.1 same))
          | inr rest ↦ rw e (later.1 rest)
        ],
      )
    ]

-- A shard is taken as active exactly when some active URL is its URL but for the slashes at the ends, as
-- undeterminable exactly when no active URL is known, and refused as stale exactly when active URLs are
-- known and none of them is its URL in that sense.
pub classify_shard_iff :
    (url : String) (urls : List String)
    → ((classify_shard url urls ≡ ok active) ↔ Some (λ u. IsSameUrl u url) urls)
      × ((classify_shard url urls ≡ ok undeterminable) ↔ (urls ≡ []))
      × ((classify_shard url urls ≡ err (stale url urls))
          ↔ ((urls ≢ []) × (¬ Some (λ u. IsSameUrl u url) urls)))
unfolding classify_shard
classify_shard_iff url [] =
    (((λ h. cc), λ h. absurd h), ((λ h. refl), λ h. refl), ((λ h. cc), λ (n, h). absurd (n refl)))
classify_shard_iff url (u ∷ us) =
    let f = λ (v : String). trim_slashes v == trim_slashes url in
    let found = any_iff_IsSameUrl url (u ∷ us) in
    elim (Bool-cases (any f (u ∷ us))) [
      | inl e ↦ rw e (
        ((λ h. found.0 e), λ h. refl),
        ((λ h. cc), λ h. cc),
        ((λ h. cc), λ (n, h). absurd (h (found.0 e))),
      )
      | inr e ↦ rw e (
        ((λ h. cc), λ h. absurd (false≢true (sym e ∙ found.1 h))),
        ((λ h. cc), λ h. cc),
        ((λ h. (cons≢nil, λ k. false≢true (sym e ∙ found.1 k))), λ h. refl),
      )
    ]
