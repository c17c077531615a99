-- ===== src/Prelude/Sorting.antt =====
-- `sort_by` as insertion, with what makes it a sort, and the order of Rust's strings.
use Prim.Native.String.{String}
use mathlib.Core.Path.{◌≡◌, refl}
use mathlib.Core.Bool.{Bool, true, false, ◌&&◌, ◌||◌}
use mathlib.Core.List.{List, [], ◌∷◌}
use mathlib.Core.List.{Perm}
use mathlib.Core.List.Perm
use native.Mathlib.Omega.{arith}
use apohara_sealchain.Prelude.Tests.{Bytes, ltb, nat_eq, if◌then◌else◌, Bool-cases}
use apohara_sealchain.Prelude.Lists.{all, any}
use apohara_sealchain.Prelude.Texts.{into_bytes}
use mathlib.Core.Logic.{inl, inr}

unfoldable pub bytes_leb : Bytes → Bytes → Bool
bytes_leb [] ys = true
bytes_leb (x ∷ xs) [] = false
bytes_leb (x ∷ xs) (y ∷ ys) = ltb x y || (nat_eq x y && bytes_leb xs ys)

-- a <= b, by the UTF-8 bytes
unfoldable pub text_leb : String → String → Bool
unfolding bytes_leb into_bytes
text_leb a b = bytes_leb (into_bytes a) (into_bytes b)

pub bytes_leb_total : (a b : Bytes) → (bytes_leb a b || bytes_leb b a) ≡ true
unfolding bytes_leb
bytes_leb_total [] b = refl
bytes_leb_total (x ∷ a) [] = refl
bytes_leb_total (x ∷ a) (y ∷ b) = ground (arith, bytes_leb_total a b)

pub bytes_leb_trans :
    (a b d : Bytes) → bytes_leb a b ≡ true → bytes_leb b d ≡ true → bytes_leb a d ≡ true
unfolding bytes_leb
bytes_leb_trans [] b d h k = refl
bytes_leb_trans (x ∷ a) [] d h k = ground arith
bytes_leb_trans (x ∷ a) (y ∷ b) [] h k = ground arith
bytes_leb_trans (x ∷ a) (y ∷ b) (z ∷ d) h k = ground (arith, bytes_leb_trans a b d)

pub text_leb_total : (a b : String) → (text_leb a b || text_leb b a) ≡ true
unfolding text_leb
text_leb_total a b = bytes_leb_total (into_bytes a) (into_bytes b)

pub text_leb_trans :
    (a b d : String) → text_leb a b ≡ true → text_leb b d ≡ true → text_leb a d ≡ true
unfolding text_leb
text_leb_trans a b d = bytes_leb_trans (into_bytes a) (into_bytes b) (into_bytes d)

module _ {ℓ} {A : Type ℓ} (le : A → A → Bool) where
  unfoldable pub insert : A → List A → List A
  insert x [] = x ∷ []
  insert x (y ∷ ys) = let rest = insert x ys in if le x y then x ∷ (y ∷ ys) else y ∷ rest

  -- A stable sort, for an order that is total and transitive.
  unfoldable pub sort_by : List A → List A
  unfolding insert
  sort_by [] = []
  sort_by (x ∷ xs) = insert x (sort_by xs)

  -- Every element is below all later ones.
  abbrev pub IsSorted : List A → Type 0
  IsSorted [] = Unit {0}
  IsSorted (x ∷ xs) = (all (le x) xs ≡ true) × IsSorted xs

  insert-perm : (x : A) (xs : List A) → Perm (insert x xs) (x ∷ xs)
  unfolding insert
  insert-perm x [] = Perm.refl (x ∷ [])
  insert-perm x (y ∷ ys) = elim (Bool-cases (le x y)) [
    | inl e ↦ rw e (Perm.refl (x ∷ y ∷ ys))
    | inr e ↦ rw e (Perm.trans (Perm.cons y (insert-perm x ys)) (Perm.swap x y ys))
  ]

  -- The elements stay the same.
  pub sort_by-perm : (xs : List A) → Perm (sort_by xs) xs
  unfolding sort_by
  sort_by-perm [] = Perm.refl []
  sort_by-perm (x ∷ xs) = Perm.trans (insert-perm x (sort_by xs)) (Perm.cons x (sort_by-perm xs))

  all-insert : (f : A → Bool) (x : A) (xs : List A) → all f (insert x xs) ≡ (f x && all f xs)
  unfolding insert
  all-insert f x [] = refl
  all-insert f x (y ∷ ys) = ground (arith, all-insert f x ys)

  pub all-sort_by : (f : A → Bool) (xs : List A) → all f (sort_by xs) ≡ all f xs
  unfolding sort_by
  all-sort_by f [] = refl
  all-sort_by f (x ∷ xs) = ground (arith, all-insert f x (sort_by xs), all-sort_by f xs)

  any-insert : (f : A → Bool) (x : A) (xs : List A) → any f (insert x xs) ≡ (f x || any f xs)
  unfolding insert
  any-insert f x [] = refl
  any-insert f x (y ∷ ys) = ground (arith, any-insert f x ys)

  pub any-sort_by : (f : A → Bool) (xs : List A) → any f (sort_by xs) ≡ any f xs
  unfolding sort_by
  any-sort_by f [] = refl
  any-sort_by f (x ∷ xs) = ground (arith, any-insert f x (sort_by xs), any-sort_by f xs)

  module _ (total : (a b : A) → (le a b || le b a) ≡ true)
      (transitive : (a b d : A) → le a b ≡ true → le b d ≡ true → le a d ≡ true) where
    all_above :
        (a b : A) (xs : List A) → le a b ≡ true → all (le b) xs ≡ true → all (le a) xs ≡ true
    all_above a b [] h k = refl
    all_above a b (x ∷ xs) h k = ground (arith, transitive a b x, all_above a b xs)

    insert_above :
        (a x : A) (xs : List A)
        → le a x ≡ true
        → all (le a) xs ≡ true
        → all (le a) (insert x xs) ≡ true
    unfolding insert
    insert_above a x [] h k = ground arith
    insert_above a x (y ∷ ys) h k = ground (arith, insert_above a x ys)

    insert-IsSorted : (x : A) (xs : List A) → IsSorted xs → IsSorted (insert x xs)
    unfolding insert
    insert-IsSorted x [] h = (refl, tt)
    insert-IsSorted x (y ∷ ys) (h, k) = elim (Bool-cases (le x y)) [
      | inl e ↦ rw e (ground (arith, all_above x y ys), (h, k))
      | inr e ↦ rw e (insert_above y x ys (ground (arith, total x y)) h, insert-IsSorted x ys k)
    ]

    pub sort_by-IsSorted : (xs : List A) → IsSorted (sort_by xs)
    unfolding sort_by
    sort_by-IsSorted [] = tt
    sort_by-IsSorted (x ∷ xs) = insert-IsSorted x (sort_by xs) (sort_by-IsSorted xs)
