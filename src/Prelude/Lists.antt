-- ===== src/Prelude/Lists.antt =====
-- Lists measured by native numbers, Boolean searches, and predicates on all elements.
use Prim.Native.Nat.{ℕ, suc, ◌+◌}
use Prim.Native.String.{String}
use mathlib.Core.Path.{◌≡◌, refl}
use mathlib.Core.Logic.{◌↔◌, ◌⊎◌}
use mathlib.Core.Bool.{Bool, true, false, ◌&&◌, ◌||◌}
use mathlib.Core.Option.{Option, none, some}
use mathlib.Core.List.{List, [], ◌∷◌, ◌++◌}
use native.Mathlib.Omega.{arith}
use text.Mathlib.Text.{◌==◌}
use apohara_sealchain.Prelude.Tests.{if◌then◌else◌}

module _ {ℓ} {A : Type ℓ} where
  abbrev pub length : List A → ℕ
  length [] = 0
  length (x ∷ xs) = suc (length xs)

  -- `iter().any(f)` and `iter().all(f)`
  abbrev pub any : (A → Bool) → List A → Bool
  any f [] = false
  any f (x ∷ xs) = f x || any f xs

  abbrev pub all : (A → Bool) → List A → Bool
  all f [] = true
  all f (x ∷ xs) = f x && all f xs

  -- `iter().find(f)`
  abbrev pub find? : (A → Bool) → List A → Option A
  find? f [] = none
  find? f (x ∷ xs) = if f x then some x else find? f xs

  -- `iter().filter(f)`
  abbrev pub filter : (A → Bool) → List A → List A
  filter f [] = []
  filter f (x ∷ xs) = let rest = filter f xs in if f x then x ∷ rest else rest

  pub length-append : (xs ys : List A) → length (xs ++ ys) ≡ length xs + length ys
  length-append [] ys = omega arith
  length-append (x ∷ xs) ys = omega (arith, length-append xs ys)

abbrev pub All {ℓ κ} : {A : Type ℓ} → (A → Type κ) → List A → Type κ
All P [] = Unit
All P (x ∷ xs) = P x × All P xs

abbrev pub Some {ℓ} : {A : Type ℓ} → (A → Type 0) → List A → Type 0
Some P [] = ⊥
Some P (x ∷ xs) = P x ⊎ Some P xs

module _ {ℓ} {A : Type ℓ} where
  pub any_iff_Some : (f : A → Bool) (xs : List A) → (any f xs ≡ true) ↔ Some (λ x. f x ≡ true) xs
  any_iff_Some f [] = ground arith
  any_iff_Some f (x ∷ xs) = ground (arith, any_iff_Some f xs)

  pub all_iff_All : (f : A → Bool) (xs : List A) → (all f xs ≡ true) ↔ All (λ x. f x ≡ true) xs
  all_iff_All f [] = ground arith
  all_iff_All f (x ∷ xs) = ground (arith, all_iff_All f xs)

  pub all-append : (f : A → Bool) (xs ys : List A) → all f (xs ++ ys) ≡ (all f xs && all f ys)
  all-append f [] ys = refl
  all-append f (x ∷ xs) ys = ground (arith, all-append f xs ys)

-- `slice.contains(&s)` on strings
unfoldable pub contains : List String → String → Bool
contains [] s = false
contains (x ∷ xs) s = x == s || contains xs s

pub All-mono {ℓ κ μ} :
    {A : Type ℓ} {P : A → Type κ} {Q : A → Type μ}
    → ((a : A) → P a → Q a)
    → (xs : List A) → All P xs
    → All Q xs
All-mono f [] h = tt
All-mono f (x ∷ xs) (h, hs) = (f x h, All-mono f xs hs)
