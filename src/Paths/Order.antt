-- ===== src/Paths/Order.antt =====
-- How `std::path::Path` compares paths on Unix: component by component.
use Prim.Native.String.{String}
use mathlib.Core.Path.{◌≡◌, refl, ap}
use mathlib.Core.Bool.{Bool, true, false, ◌&&◌, ◌||◌, not}
use mathlib.Core.List.{List, [], ◌∷◌}
use native.Mathlib.Omega.{arith}
use text.Mathlib.Text.{◌==◌}
use apohara_sealchain.Prelude.{
  Bytes, bytes_eq, into_bytes, bytes_eq→eq, bytes_eq_refl, if◌then◌else◌,
}
use apohara_sealchain.Prelude.Sorting.{bytes_leb, bytes_leb_total, bytes_leb_trans}
use apohara_sealchain.Paths.{split_slashes}

-- A component in the order of `Component`: the root, `.`, `..`, and the names by their bytes.
component : String → Bytes
component s = if s == "." then 2 ∷ [] else if s == ".." then 3 ∷ [] else 4 ∷ into_bytes s

-- Empty parts and `.` are dropped, but for what stands first.
later_components : List String → List Bytes
unfolding component
later_components [] = []
later_components (p ∷ ps) =
    let rest = later_components ps in if p == "" || p == "." then rest else component p ∷ rest

first_component : List String → List Bytes
unfolding later_components
first_component [] = []
first_component (p ∷ []) = if p == "" then [] else component p ∷ []
first_component (p ∷ (q ∷ ps)) =
    (if p == "" then 1 ∷ [] else component p) ∷ later_components (q ∷ ps)

-- `path.components()`
unfoldable pub components : String → List Bytes
unfolding first_component split_slashes
components path = first_component (split_slashes path)

unfoldable pub components_leb : List Bytes → List Bytes → Bool
components_leb [] ys = true
components_leb (x ∷ xs) [] = false
components_leb (x ∷ xs) (y ∷ ys) = bytes_leb x y && (not (bytes_leb y x) || components_leb xs ys)

unfoldable pub components_eq : List Bytes → List Bytes → Bool
components_eq [] [] = true
components_eq [] (y ∷ ys) = false
components_eq (x ∷ xs) [] = false
components_eq (x ∷ xs) (y ∷ ys) = bytes_eq x y && components_eq xs ys

-- `a <= b` and `a == b` on paths
unfoldable pub path_leb : String → String → Bool
unfolding components_leb components
path_leb a b = components_leb (components a) (components b)

unfoldable pub path_eq : String → String → Bool
unfolding components_eq components
path_eq a b = components_eq (components a) (components b)

bytes_leb_antisymm :
    (a b : Bytes) → bytes_leb a b ≡ true → bytes_leb b a ≡ true → bytes_eq a b ≡ true
unfolding bytes_leb bytes_eq
bytes_leb_antisymm [] [] h k = refl
bytes_leb_antisymm [] (y ∷ b) h k = ground arith
bytes_leb_antisymm (x ∷ a) [] h k = ground arith
bytes_leb_antisymm (x ∷ a) (y ∷ b) h k = ground (arith, bytes_leb_antisymm a b)

components_leb_total : (a b : List Bytes) → (components_leb a b || components_leb b a) ≡ true
unfolding components_leb
components_leb_total [] b = refl
components_leb_total (x ∷ a) [] = refl
components_leb_total (x ∷ a) (y ∷ b) = ground (arith, bytes_leb_total x y, components_leb_total a b)

components_leb_trans :
    (a b d : List Bytes)
    → components_leb a b ≡ true
    → components_leb b d ≡ true
    → components_leb a d ≡ true
unfolding components_leb
components_leb_trans [] b d h k = refl
components_leb_trans (x ∷ a) [] d h k = ground arith
components_leb_trans (x ∷ a) (y ∷ b) [] h k = ground arith
components_leb_trans (x ∷ a) (y ∷ b) (z ∷ d) h k = ground (
  arith,
  bytes_leb_trans x y z,
  bytes_leb_trans y z x,
  bytes_leb_trans z x y,
  components_leb_trans a b d,
)

components_leb_antisymm :
    (a b : List Bytes)
    → components_leb a b ≡ true
    → components_leb b a ≡ true
    → components_eq a b ≡ true
unfolding components_leb components_eq
components_leb_antisymm [] [] h k = refl
components_leb_antisymm [] (y ∷ b) h k = ground arith
components_leb_antisymm (x ∷ a) [] h k = ground arith
components_leb_antisymm (x ∷ a) (y ∷ b) h k =
    ground (arith, bytes_leb_antisymm x y, components_leb_antisymm a b)

pub path_leb_total : (a b : String) → (path_leb a b || path_leb b a) ≡ true
unfolding path_leb
path_leb_total a b = components_leb_total (components a) (components b)

pub path_leb_trans :
    (a b d : String) → path_leb a b ≡ true → path_leb b d ≡ true → path_leb a d ≡ true
unfolding path_leb
path_leb_trans a b d = components_leb_trans (components a) (components b) (components d)

pub path_leb_antisymm :
    (a b : String) → path_leb a b ≡ true → path_leb b a ≡ true → path_eq a b ≡ true
unfolding path_leb path_eq
path_leb_antisymm a b = components_leb_antisymm (components a) (components b)

components_eq→eq : (a b : List Bytes) → components_eq a b ≡ true → a ≡ b
unfolding components_eq
components_eq→eq [] [] h = refl
components_eq→eq [] (y ∷ b) h = ground arith
components_eq→eq (x ∷ a) [] h = ground arith
components_eq→eq (x ∷ a) (y ∷ b) h = ground (arith, bytes_eq→eq x y, components_eq→eq a b)

components_eq_refl : (a : List Bytes) → components_eq a a ≡ true
unfolding components_eq
components_eq_refl [] = refl
components_eq_refl (x ∷ a) = ground (arith, bytes_eq_refl x, components_eq_refl a)

pub path_eq_refl : (a : String) → path_eq a a ≡ true
unfolding path_eq
path_eq_refl a = components_eq_refl (components a)

-- Equal paths stand in the same places.
pub path_eq-leb : (a b d : String) → path_eq a b ≡ true → path_leb a d ≡ path_leb b d
unfolding path_eq path_leb
path_eq-leb a b d h =
    ap (λ (x : List Bytes). components_leb x (components d))
      (components_eq→eq (components a) (components b) h)

pub path_eq-eq : (a b d : String) → path_eq a b ≡ true → path_eq d a ≡ path_eq d b
unfolding path_eq
path_eq-eq a b d h =
    ap (components_eq (components d)) (components_eq→eq (components a) (components b) h)

path_leb_test : (path_leb "a/b" "a.b" && not (path_eq "./a" "a") && path_eq "a//b/." "a/b") ≡ true
unfolding path_leb path_eq bytes_leb bytes_eq split_slashes into_bytes
path_leb_test = refl
