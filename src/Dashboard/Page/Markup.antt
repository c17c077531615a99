-- ===== src/Dashboard/Page/Markup.antt =====
-- The markup of a text: its angle brackets and quotes.
use Prim.Native.String.{◌++◌}
use Prim.Native.Char.{code}
use mathlib.Core.List.{◌++◌ as ◌append◌}
use mathlib.Core.Option.{some-injective}
use text.Mathlib.TextLemmas.{nil-append, cons-append}
use apohara_sealchain.Prelude.{
  ℕ, ◌≡◌, refl, ap, String, false, List, ◌∙◌, [], ◌∷◌, Option, none, some, if◌then◌else◌, arith,
}
use apohara_sealchain.Schema.{map_option}
use apohara_sealchain.Dashboard.{esc}
use apohara_sealchain.Dashboard.Honest.{is_markup, has_markup, has_markup-esc}

-- The angle brackets and quotes of a text, in order.
unfoldable pub markup : String → List ℕ
markup String.[] = []
markup (String.◌∷◌ c s) = if is_markup (code c) then code c ∷ markup s else markup s

pub markup-append : (s t : String) → markup (s ++ t) ≡ (markup s append markup t)
unfolding markup
markup-append String.[] t = rw nil-append refl
markup-append (String.◌∷◌ c s) t = rw cons-append (ground (arith, markup-append s t))

pub markup-has_markup : (s : String) → has_markup s ≡ false → markup s ≡ []
unfolding markup has_markup
markup-has_markup String.[] h = refl
markup-has_markup (String.◌∷◌ c s) h = ground (arith, markup-has_markup s)

pub markup-esc : (s : String) → markup (esc s) ≡ []
markup-esc s = markup-has_markup (esc s) (has_markup-esc s)

-- First parts of the same markup, and rests of the same markup.
pub beside :
    (a b s t : String)
    → markup a ≡ markup b
    → markup s ≡ markup t
    → markup (a ++ s) ≡ markup (b ++ t)
beside a b s t g h = rw (markup-append a s, markup-append b t, g, h) refl

-- Texts of one markup stay so when functions that keep it are applied.
pub markup-map_option :
    (f f' : String → String)
    → ((s t : String) → markup s ≡ markup t → markup (f' s) ≡ markup (f t))
    → (m m' : Option String) (h : String)
    → ((r : String) → m ≡ some r → map_option markup m' ≡ some (markup r))
    → map_option f m ≡ some h
    → map_option markup (map_option f' m') ≡ some (markup h)
markup-map_option f f' keep none m' h same made = cc
markup-map_option f f' keep (some r) none h same made = let e = same r refl in absurd (ground arith)
markup-map_option f f' keep (some r) (some r') h same made =
    let e : f r ≡ h = some-injective _ _ made in
    ap some (keep r' r (some-injective _ _ (same r refl)) ∙ ap markup e)
