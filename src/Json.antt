-- ===== src/Json.antt =====
-- `serde_json::Value` as the program uses it. A map's entries stand in iteration order; its keys are
-- distinct, which `HasDistinctKeys` states where a property needs it.
pub mod Laws
use apohara_sealchain.Prelude.Int.{ℤ, pos, negsuc}
use apohara_sealchain.Prelude.{
  ℕ, ◌^◌, ltb, String, Bool, true, false, Option, none, some, if◌then◌else◌, ◌==◌,
}

-- A number is an unsigned integer, a negative one (`negative n` is -(n + 1)), or a float by its bits.
pub data Number : Type 0 where
  positive : ℕ → Number
  negative : ℕ → Number
  float : ℕ → Number

mutual
  pub data Value : Type 0 where
    null : Value
    bool : Bool → Value
    number : Number → Value
    string : String → Value
    array : Items → Value
    object : Fields → Value

  pub data Items : Type 0 where
    nil : Items
    cons : Value → Items → Items

  pub data Fields : Type 0 where
    end : Fields
    field : String → Value → Fields → Fields

-- `map.get(key)`
unfoldable pub get_field : Fields → String → Option Value
get_field end k = none
get_field (field j v rest) k = if j == k then some v else get_field rest k

-- `value.get(key)`: `None` unless the value is an object.
unfoldable pub get : Value → String → Option Value
get (object fs) k = get_field fs k
get null k = none
get (bool b) k = none
get (number n) k = none
get (string s) k = none
get (array xs) k = none

unfoldable pub as_str : Value → Option String
as_str (string s) = some s
as_str null = none
as_str (bool b) = none
as_str (number n) = none
as_str (array xs) = none
as_str (object fs) = none

number_as_i64 : Number → Option ℤ
number_as_i64 (positive n) = if ltb n (2 ^ 63) then some (pos n) else none
number_as_i64 (negative n) = some (negsuc n)
number_as_i64 (float bits) = none

-- `Value::as_i64`, which is also how an `i64` is deserialized
unfoldable pub as_i64 : Value → Option ℤ
unfolding number_as_i64
as_i64 (number n) = number_as_i64 n
as_i64 null = none
as_i64 (bool b) = none
as_i64 (string s) = none
as_i64 (array xs) = none
as_i64 (object fs) = none

-- An `i64` as a value.
unfoldable pub from_i64 : ℤ → Value
from_i64 (pos n) = number (positive n)
from_i64 (negsuc n) = number (negative n)

unfoldable pub as_object : Value → Option Fields
as_object (object fs) = some fs
as_object null = none
as_object (bool b) = none
as_object (number n) = none
as_object (string s) = none
as_object (array xs) = none

-- `opt.and_then(f)`
abbrev pub and_then {ℓ κ} : {A : Type ℓ} {B : Type κ} → Option A → (A → Option B) → Option B
and_then none f = none
and_then (some a) f = f a

-- `value.get(key).and_then(Value::as_str)`
unfoldable pub get_str : Value → String → Option String
unfolding get as_str
get_str v k = and_then (get v k) as_str

-- `opt.unwrap_or(d)`
abbrev pub unwrap_or {ℓ} : {A : Type ℓ} → Option A → A → A
unwrap_or none d = d
unwrap_or (some a) d = a

-- `opt.is_some()`
abbrev pub is_some {ℓ} : {A : Type ℓ} → Option A → Bool
is_some none = false
is_some (some a) = true
