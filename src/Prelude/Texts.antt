-- ===== src/Prelude/Texts.antt =====
-- The `str` methods that the program uses, over the native texts.
use Prim.Native.Nat.{ℕ, zero, suc, ◌+◌, ◌-◌, ◌/◌, ◌%◌}
use mathlib.Core.List.{List, ◌++◌ as ◌append◌}
use Prim.Native.Char.{Char, code}
use Prim.Native.String.{String, [], ◌∷◌, ◌++◌}
use Prim.Native.String
use mathlib.Core.Path.{◌≡◌, refl}
use mathlib.Core.Bool.{Bool, true, false, ◌&&◌}
use mathlib.Core.Option.{Option, none, some}
use native.Mathlib.Omega.{arith}
use text.Mathlib.TextLemmas.{nil-append, cons-append}
use apohara_sealchain.Prelude.Tests.{nat_eq, nat_eq_refl, leb, ltb, if◌then◌else◌}

-- `s.strip_prefix(p)`
unfoldable pub strip_prefix : String → String → Option String
strip_prefix [] s = some s
strip_prefix (c ∷ p) [] = none
strip_prefix (c ∷ p) (d ∷ s) =
    let rest = strip_prefix p s in if nat_eq (code c) (code d) then rest else none

pub strip_prefix-append : (p s : String) → strip_prefix p (String.◌++◌ p s) ≡ some s
unfolding strip_prefix
strip_prefix-append [] s = rw nil-append refl
strip_prefix-append (c ∷ p) s =
    rw cons-append (ground (arith, strip_prefix-append p s, nat_eq_refl (code c)))

-- The code of a character after `to_ascii_lowercase`.
abbrev lower_code : ℕ → ℕ
lower_code c = if leb 65 c && leb c 90 then c + 32 else c

-- `a.eq_ignore_ascii_case(b)`
unfoldable pub eq_ignore_ascii_case : String → String → Bool
eq_ignore_ascii_case [] [] = true
eq_ignore_ascii_case [] (d ∷ t) = false
eq_ignore_ascii_case (c ∷ s) [] = false
eq_ignore_ascii_case (c ∷ s) (d ∷ t) =
    nat_eq (lower_code (code c)) (lower_code (code d)) && eq_ignore_ascii_case s t

pub eq_ignore_ascii_case_refl : (s : String) → eq_ignore_ascii_case s s ≡ true
unfolding eq_ignore_ascii_case
eq_ignore_ascii_case_refl [] = refl
eq_ignore_ascii_case_refl (c ∷ s) =
    ground (arith, nat_eq_refl (lower_code (code c)), eq_ignore_ascii_case_refl s)

digits : List String
digits = List.◌∷◌ "0" (
    List.◌∷◌ "1" (
      List.◌∷◌ "2" (
        List.◌∷◌ "3" (
          List.◌∷◌ "4"
            (List.◌∷◌ "5" (List.◌∷◌ "6" (List.◌∷◌ "7" (List.◌∷◌ "8" (List.◌∷◌ "9" List.[])))))))))

nth : List String → ℕ → Option String
nth List.[] i = none
nth (List.◌∷◌ x xs) zero = some x
nth (List.◌∷◌ x xs) (suc i) = nth xs i

digit : ℕ → String
unfolding digits nth
digit d = elim (nth digits d) [ some s ↦ s | none ↦ "" ]

-- `n.to_string()`: a number has at most n + 1 digits, which is the fuel.
show_from : ℕ → ℕ → String
show_from zero n = ""
show_from (suc f) n =
    let front = show_from f (n / 10) in if ltb n 10 then digit n else front ++ digit (n % 10)

unfoldable pub show : ℕ → String
unfolding show_from digit
show n = show_from (n + 1) n

show_test : show 3072 ≡ "3072"
unfolding show
show_test = refl

-- `s.into_bytes()`: the UTF-8 bytes of a character, then of a text.
utf8_char : ℕ → List ℕ
utf8_char c =
    if ltb c 128
    then List.◌∷◌ c List.[]
    else if ltb c 2048
    then List.◌∷◌ (192 + c / 64) (List.◌∷◌ (128 + c % 64) List.[])
    else if ltb c 65536
    then List.◌∷◌ (224 + c / 4096) (List.◌∷◌ (128 + c / 64 % 64) (List.◌∷◌ (128 + c % 64) List.[]))
    else List.◌∷◌ (240 + c / 262144) (
        List.◌∷◌ (128 + c / 4096 % 64)
          (List.◌∷◌ (128 + c / 64 % 64) (List.◌∷◌ (128 + c % 64) List.[])))

unfoldable pub into_bytes : String → List ℕ
unfolding utf8_char
into_bytes [] = List.[]
into_bytes (c ∷ s) = utf8_char (code c) append into_bytes s

char_at : String → ℕ → Char → Char
char_at [] i d = d
char_at (c ∷ s) zero d = c
char_at (c ∷ s) (suc i) d = char_at s i d

lower_char : Char → Char
unfolding char_at
lower_char c =
    if leb 65 (code c) && leb (code c) 90
    then char_at "abcdefghijklmnopqrstuvwxyz" (code c - 65) c
    else c

-- `s.to_ascii_lowercase()`
unfoldable pub to_ascii_lowercase : String → String
unfolding lower_char
to_ascii_lowercase [] = []
to_ascii_lowercase (c ∷ s) = lower_char c ∷ to_ascii_lowercase s

lowercase_test : to_ascii_lowercase "A1bZ" ≡ "a1bz"
unfolding to_ascii_lowercase
lowercase_test = refl
