-- ===== src/Cli/RunSeal/Places.antt =====
-- crates/apohara-sealchain-core/src/artifact.rs, default_receipt_path: where the receipts of a batch are.
use Prim.Native.Char.{Char, code}
use Prim.Native.String.{◌++◌}
use text.Mathlib.TextLemmas.{
  nil-append, cons-append, append-nil, append_cancel_left, append_cancel_right,
}
use apohara_sealchain.Prelude.{
  ◌≡◌, refl, ap, sym, ◌∙◌, String, true, false, not, List, [], ◌∷◌, ◌++◌ as ◌append◌, Option, none,
  some, nat_eq, Bool-cases, inl, inr, arith, ◌==◌, eq_iff, eq_refl, all,
}
use apohara_sealchain.Paths.{
  onto_first, split_on, split_slashes, last_component, no_parent, file_name,
}
use apohara_sealchain.Paths.Order.{path_eq, path_eq_refl}
use apohara_sealchain.Cli.Inputs.{is_receipt_path}
use apohara_sealchain.Cli.Inputs.Distinct.{before, IsStrict}
use apohara_sealchain.Index.Store.{ends_with, is_receipt_file}
use apohara_sealchain.Cli.RunSeal.{default_receipt_path}

abbrev suffix : String
suffix = ".seal.json"

first_part :
    (c : Char) (s : String) (before : List String) (n : String) {parts : List String}
    → onto_first c (split_on b'/' s) ≡ parts
    → split_on b'/' s ≡ (before append (n ∷ []))
    → ends_with n suffix ≡ true
    → (before' : List String) × (n' : String) × (parts ≡ (before' append (n' ∷ [])))
      × (ends_with n' suffix ≡ true)
unfolding ends_with
first_part c s [] n e same ends =
    ([], String.◌∷◌ c n, sym e ∙ ap (onto_first c) same, ground (arith, ends))
first_part c s (b ∷ before) n e same ends =
    (String.◌∷◌ c b ∷ before, n, sym e ∙ ap (onto_first c) same, ends)

-- The last part of a receipt's path ends as the path does.
split_receipt :
    (m : String)
    → (before : List String) × (n : String) × (split_on b'/' (m ++ suffix)
        ≡ (before append (n ∷ [])))
      × (ends_with n suffix ≡ true)
unfolding split_on ends_with
split_receipt String.[] = ([], suffix, rw (nil-append suffix) refl, refl)
split_receipt (String.◌∷◌ c m) = elim (Bool-cases (nat_eq (code c) b'/')) [
  | inl slash ↦
      let (before, n, same, ends) = split_receipt m in
      ("" ∷ before, n, rw (cons-append c m suffix, slash, same) refl, ends)
  | inr other ↦
      let (before, n, same, ends) = split_receipt m in
      first_part c (m ++ suffix) before n (rw (cons-append c m suffix, other) refl) same ends
]

last_component-append :
    (before : List String) (n : String) (found : Option String)
    → (n == "") ≡ false
    → (n == ".") ≡ false
    → last_component (before append (n ∷ [])) found ≡ some n
unfolding last_component
last_component-append [] n found h k = rw (h, k) refl
last_component-append (p ∷ before) n found h k = last_component-append before n _ h k

-- No short name ends like a receipt's.
ends_lem :
    (n s : String) → ends_with n suffix ≡ true → ends_with s suffix ≡ false → (n == s) ≡ false
ends_lem n s h k = elim (Bool-cases (n == s)) [ inl e ↦ cc ((eq_iff n s).0 e) | inr e ↦ e ]

file_name-default_receipt_path :
    (m : String)
    → (n : String) × (file_name (default_receipt_path m) ≡ some n) × (ends_with n suffix ≡ true)
unfolding file_name default_receipt_path split_slashes no_parent ends_with
file_name-default_receipt_path m =
    let (before, n, same, ends) = split_receipt m in
    let here =
      last_component-append before n none (ends_lem n "" ends refl) (ends_lem n "." ends refl) in
    let parent : no_parent (some n) ≡ some n = rw (ends_lem n ".." ends refl) refl in
    (n, ap (λ ps. no_parent (last_component ps none)) same ∙ (ap no_parent here ∙ parent), ends)

-- A receipt's path is that of a receipt.
is_receipt_file-default_receipt_path :
    (m : String) → is_receipt_file (default_receipt_path m) ≡ true
unfolding is_receipt_file
is_receipt_file-default_receipt_path m =
    let (n, named, ends) = file_name-default_receipt_path m in rw (named, is_receipt_file) ends

-- The receipt of a path is at no other path's receipt, and at no path that is not a receipt's.
pub receipt_apart :
    (m a : String) → is_receipt_file a ≡ false → (default_receipt_path m == a) ≡ false
receipt_apart m a h = elim (Bool-cases (default_receipt_path m == a)) [
  | inl e ↦
      let same = (eq_iff (default_receipt_path m) a).0 e in
      cc (is_receipt_file-default_receipt_path m, ap is_receipt_file same)
  | inr e ↦ e
]

pub receipts_apart :
    (m a : String) → (m == a) ≡ false → (default_receipt_path m == default_receipt_path a) ≡ false
unfolding default_receipt_path
receipts_apart m a h = elim (Bool-cases (default_receipt_path m == default_receipt_path a)) [
  | inl e ↦
      let same = append_cancel_right m a suffix ((eq_iff (m ++ suffix) (a ++ suffix)).0 e) in
      cc (ap (λ x. x == a) same, eq_refl a)
  | inr e ↦ e
]

-- The paths of a batch: none is a receipt's, and none stands twice.
abbrev pub AreApart : List String → Type 0
AreApart [] = Unit {0}
AreApart (a ∷ more) =
    (is_receipt_file a ≡ false) × (all (λ m. not (m == a)) more ≡ true) × AreApart more

differs : (a b : String) → before a b ≡ true → (b == a) ≡ false
differs a b h = elim (Bool-cases (b == a)) [
  | inl e ↦
      let same = (eq_iff b a).0 e in
      let one = ap (λ x. path_eq x a) same ∙ path_eq_refl a in ground (arith, h, one)
  | inr e ↦ e
]

all_differ :
    (a : String) (ps : List String) → all (before a) ps ≡ true → all (λ m. not (m == a)) ps ≡ true
all_differ a [] h = refl
all_differ a (p ∷ ps) h = ground (arith, h, differs a p, all_differ a ps)

pub AreApart-IsStrict :
    (ps : List String) → IsStrict ps → all (λ p. not (is_receipt_path p)) ps ≡ true → AreApart ps
AreApart-IsStrict [] h k = tt
AreApart-IsStrict (p ∷ ps) (h, hs) k =
    (ground arith, all_differ p ps h, AreApart-IsStrict ps hs (ground arith))

pub all_apart :
    (a : String) (ps : List String)
    → is_receipt_file a ≡ false
    → all (λ m. not (default_receipt_path m == a)) ps ≡ true
all_apart a [] h = refl
all_apart a (p ∷ ps) h = rw (receipt_apart p a h, all_apart a ps h) refl

pub all_receipts_apart :
    (a : String) (ps : List String)
    → all (λ m. not (m == a)) ps ≡ true
    → all (λ m. not (default_receipt_path m == default_receipt_path a)) ps ≡ true
all_receipts_apart a [] h = refl
all_receipts_apart a (p ∷ ps) h = ground (arith, h, receipts_apart p a, all_receipts_apart a ps)

-- No path is that of its own receipt.
pub own_receipt_apart : (a : String) → (default_receipt_path a == a) ≡ false
unfolding default_receipt_path
own_receipt_apart a = elim (Bool-cases (default_receipt_path a == a)) [
  | inl e ↦
      let same : (a ++ suffix) ≡ (a ++ "") = (eq_iff (a ++ suffix) a).0 e ∙ sym (append-nil a) in
      cc (ap (λ x. x == suffix) (append_cancel_left a suffix "" same), eq_refl suffix)
  | inr e ↦ e
]
