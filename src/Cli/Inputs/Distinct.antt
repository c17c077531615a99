-- ===== src/Cli/Inputs/Distinct.antt =====
-- Paths sorted, with each path once: the last step of the expansion of the inputs.
use apohara_sealchain.Prelude.Sorting.{
  sort_by, sort_by-IsSorted, all-sort_by, any-sort_by, IsSorted,
}
use apohara_sealchain.Prelude.{
  ◌≡◌, refl, ◌∙◌, String, Bool, true, false, ◌&&◌, ◌||◌, not, List, [], ◌∷◌, ◌++◌, all, any, filter,
  if◌then◌else◌, Bool-cases, inl, inr, arith, eq_iff, eq_refl, ◌==◌,
}
use apohara_sealchain.Paths.Order.{
  path_leb, path_eq, path_leb_total, path_leb_trans, path_leb_antisymm, path_eq_refl, path_eq-leb,
  path_eq-eq,
}
use apohara_sealchain.Cli.Inputs.{is_receipt_path, dedup_after, dedup}

-- `a` stands before `b`, and is another path.
abbrev pub before : String → String → Bool
before a b = path_leb a b && not (path_eq b a)

-- Sorted, with no path twice.
abbrev pub IsStrict : List String → Type 0
IsStrict [] = Unit {0}
IsStrict (p ∷ ps) = (all (before p) ps ≡ true) × IsStrict ps

before_trans : (a b d : String) → before a b ≡ true → path_leb b d ≡ true → before a d ≡ true
before_trans a b d h k = ground (
  arith,
  path_leb_trans a b d,
  path_leb_trans b d a,
  path_leb_antisymm b a,
  path_eq-leb d a a,
  path_leb_total a a,
)

all-before :
    (a b : String) (ps : List String)
    → before a b ≡ true
    → all (before b) ps ≡ true
    → all (before a) ps ≡ true
all-before a b [] h k = refl
all-before a b (p ∷ ps) h k = ground (arith, before_trans a b p, all-before a b ps)

dedup_after-IsStrict :
    (kept : String) (ps : List String)
    → all (path_leb kept) ps ≡ true
    → IsSorted path_leb ps
    → (all (before kept) (dedup_after kept ps) ≡ true) × IsStrict (dedup_after kept ps)
unfolding dedup_after
dedup_after-IsStrict kept [] h k = (refl, tt)
dedup_after-IsStrict kept (p ∷ ps) h (above, k) = elim (Bool-cases (path_eq p kept)) [
  | inl e ↦ rw e (dedup_after-IsStrict kept ps (ground arith) k)
  | inr e ↦
      let (strict, rest) = dedup_after-IsStrict p ps above k in
      rw e (ground (arith, e, all-before kept p (dedup_after p ps)), (strict, rest))
]

dedup-IsStrict : (ps : List String) → IsSorted path_leb ps → IsStrict (dedup ps)
unfolding dedup
dedup-IsStrict [] h = tt
dedup-IsStrict (p ∷ ps) (above, h) = dedup_after-IsStrict p ps above h

all-dedup_after :
    (f : String → Bool) (kept : String) (ps : List String)
    → all f ps ≡ true
    → all f (dedup_after kept ps) ≡ true
unfolding dedup_after
all-dedup_after f kept [] h = refl
all-dedup_after f kept (p ∷ ps) h =
    ground (arith, all-dedup_after f (if path_eq p kept then kept else p) ps)

all-dedup : (f : String → Bool) (ps : List String) → all f ps ≡ true → all f (dedup ps) ≡ true
unfolding dedup
all-dedup f [] h = refl
all-dedup f (p ∷ ps) h = ground (arith, all-dedup_after f p ps)

-- A path that equals one of the list equals one that stays.
any-dedup_after :
    (q kept : String) (ps : List String)
    → any (path_eq q) (kept ∷ ps) ≡ true
    → any (path_eq q) (kept ∷ dedup_after kept ps) ≡ true
unfolding dedup_after
any-dedup_after q kept [] h = h
any-dedup_after q kept (p ∷ ps) h =
    ground (arith, path_eq-eq p kept q, any-dedup_after q kept ps, any-dedup_after q p ps)

any-dedup :
    (q : String) (ps : List String) → any (path_eq q) ps ≡ true → any (path_eq q) (dedup ps) ≡ true
unfolding dedup
any-dedup q [] h = h
any-dedup q (p ∷ ps) h = any-dedup_after q p ps h

pub any-append :
    (f : String → Bool) (xs ys : List String) → any f (xs ++ ys) ≡ (any f xs || any f ys)
any-append f [] ys = refl
any-append f (x ∷ xs) ys = ground (arith, any-append f xs ys)

-- A text of the list is a path of the list.
any_path : (q : String) (ps : List String) → any (λ p. p == q) ps ≡ true → any (path_eq q) ps ≡ true
any_path q [] h = h
any_path q (p ∷ ps) h = elim (Bool-cases (p == q)) [
  | inl e ↦ rw ((eq_iff p q).0 e, path_eq_refl q) refl
  | inr e ↦ ground (arith, e, any_path q ps)
]

-- A text that passes the test stays.
any-filter :
    (q : String) (keep : String → Bool) (ps : List String)
    → keep q ≡ true
    → any (λ p. p == q) ps ≡ true
    → any (λ p. p == q) (filter keep ps) ≡ true
any-filter q keep [] k h = h
any-filter q keep (p ∷ ps) k h = elim (Bool-cases (p == q)) [
  | inl e ↦ rw ((eq_iff p q).0 e, k, eq_refl q) refl
  | inr e ↦ ground (arith, e, any-filter q keep ps k)
]

all-filter : (keep : String → Bool) (ps : List String) → all keep (filter keep ps) ≡ true
all-filter keep [] = refl
all-filter keep (p ∷ ps) = ground (arith, all-filter keep ps)

pub or_left : (a b : Bool) → a ≡ true → (a || b) ≡ true
or_left a b h = rw h refl

pub or_right : (a b : Bool) → b ≡ true → (a || b) ≡ true
or_right true b h = refl
or_right false b h = h

-- The receipts dropped, the rest sorted and each path kept once.
abbrev pub finished : List String → List String
finished ps = dedup (sort_by path_leb (filter (λ p. not (is_receipt_path p)) ps))

pub finished-IsStrict :
    (ps : List String)
    → IsStrict (finished ps) × (all (λ p. not (is_receipt_path p)) (finished ps) ≡ true)
finished-IsStrict ps =
    let keep = λ (p : String). not (is_receipt_path p) in
    let sealable = filter keep ps in
    (
      dedup-IsStrict _ (sort_by-IsSorted path_leb path_leb_total path_leb_trans sealable),
      all-dedup keep _ (all-sort_by path_leb keep sealable ∙ all-filter keep ps),
    )

pub any-finished :
    (q : String) (ps : List String)
    → is_receipt_path q ≡ false
    → any (λ p. p == q) ps ≡ true
    → any (path_eq q) (finished ps) ≡ true
any-finished q ps kept h =
    let keep = λ (p : String). not (is_receipt_path p) in
    let sealable = filter keep ps in
    any-dedup q _ (
      any-sort_by path_leb (path_eq q) sealable
      ∙ any_path q sealable (any-filter q keep ps (rw kept refl) h))

-- A test that holds of every text that is in the list.
pub all_members :
    (f : String → Bool) (xs : List String)
    → ((q : String) → any (λ i. i == q) xs ≡ true → f q ≡ true)
    → all f xs ≡ true
all_members f [] h = refl
all_members f (x ∷ xs) h =
    let here = h x (rw (eq_refl x) refl) in
    let later = all_members f xs (λ q e. h q (or_right (x == q) _ e)) in rw (here, later) refl
