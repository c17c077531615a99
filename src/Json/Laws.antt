-- ===== src/Json/Laws.antt =====
-- Inversions of the accessors of JSON values.
use apohara_sealchain.Prelude.Int.{ℤ, pos, negsuc, IsI64}
use apohara_sealchain.Prelude.{arith, ◌≡◌, refl, String, true, Option, none, some}
use apohara_sealchain.Json.{
  Value, null, bool, number, string, array, object, Fields, get, get_field, as_str, as_object,
  and_then, is_some, as_i64, from_i64,
}

pub and_then-eq-some {ℓ κ} :
    {A : Type ℓ} {B : Type κ} (o : Option A) (f : A → Option B) {b : B}
    → and_then o f ≡ some b
    → (a : A) × (o ≡ some a) × (f a ≡ some b)
and_then-eq-some none f h = cc
and_then-eq-some (some a) f h = (a, refl, h)

pub as_object-eq-some : (v : Value) {fs : Fields} → as_object v ≡ some fs → v ≡ object fs
unfolding as_object
as_object-eq-some (object fs) h = cc
as_object-eq-some null h = cc
as_object-eq-some (bool b) h = cc
as_object-eq-some (number n) h = cc
as_object-eq-some (string s) h = cc
as_object-eq-some (array xs) h = cc

pub as_str-eq-some : (v : Value) {s : String} → as_str v ≡ some s → v ≡ string s
unfolding as_str
as_str-eq-some (string s) h = cc
as_str-eq-some null h = cc
as_str-eq-some (bool b) h = cc
as_str-eq-some (number n) h = cc
as_str-eq-some (array xs) h = cc
as_str-eq-some (object fs) h = cc

pub get-eq-some :
    (v : Value) (k : String) {w : Value}
    → get v k ≡ some w
    → (fs : Fields) × (v ≡ object fs) × (get_field fs k ≡ some w)
unfolding get
get-eq-some (object fs) k h = (fs, refl, h)
get-eq-some null k h = cc
get-eq-some (bool b) k h = cc
get-eq-some (number n) k h = cc
get-eq-some (string s) k h = cc
get-eq-some (array xs) k h = cc

pub is_some-eq-true {ℓ} : {A : Type ℓ} (o : Option A) → is_some o ≡ true → (a : A) × (o ≡ some a)
is_some-eq-true none h = cc
is_some-eq-true (some a) h = (a, refl)

pub as_i64-from_i64 : (n : ℤ) → IsI64 n → as_i64 (from_i64 n) ≡ some n
unfolding as_i64 from_i64
as_i64-from_i64 (pos n) h = ground arith
as_i64-from_i64 (negsuc n) h = refl
