-- ===== src/Excluded/Laws.antt =====
-- What stripping removes and what it keeps.
use apohara_sealchain.Prelude.{
  ℕ, zero, suc, List, [], ◌∷◌, Bool, ◌||◌, ◌≡◌, ◌↔◌, refl, ap, subst, String, false, inl, inr,
  Option, none, some, arith, eq_iff, Bool-cases, if◌then◌else◌,
}
use apohara_sealchain.Json.{
  Value, null, bool, number, string, array, object, Items, nil, cons, Fields, end, field, get_field,
  get, and_then,
}
use apohara_sealchain.Excluded.{is_excluded, strip_excluded, strip_items, strip_fields}

-- No object in the value, at any depth, has a volatile key.
abbrev mutual
  pub IsClean : Value → Type 0
  IsClean (object map) = IsCleanFields map
  IsClean (array items) = IsCleanItems items
  IsClean null = Unit
  IsClean (bool b) = Unit
  IsClean (number n) = Unit
  IsClean (string s) = Unit

  pub IsCleanItems : Items → Type 0
  IsCleanItems nil = Unit
  IsCleanItems (cons v vs) = IsClean v × IsCleanItems vs

  pub IsCleanFields : Fields → Type 0
  IsCleanFields end = Unit
  IsCleanFields (field k v rest) = (is_excluded k ≡ false) × IsClean v × IsCleanFields rest

-- `opt.map(strip_excluded)`
abbrev pub map_value : Option Value → Option Value
map_value none = none
map_value (some v) = some (strip_excluded v)

mutual
  unfolding strip_excluded

  strip-IsClean : (v : Value) → IsClean (strip_excluded v)
  strip-IsClean (object map) = strip_fields-IsClean map
  strip-IsClean (array items) = strip_items-IsClean items
  strip-IsClean null = tt
  strip-IsClean (bool b) = tt
  strip-IsClean (number n) = tt
  strip-IsClean (string s) = tt

  strip_items-IsClean : (xs : Items) → IsCleanItems (strip_items xs)
  strip_items-IsClean nil = tt
  strip_items-IsClean (cons v vs) = (strip-IsClean v, strip_items-IsClean vs)

  strip_fields-IsClean : (fs : Fields) → IsCleanFields (strip_fields fs)
  strip_fields-IsClean end = tt
  strip_fields-IsClean (field k v rest) =
      let here = strip-IsClean v in
      let later = strip_fields-IsClean rest in
      elim (Bool-cases (is_excluded k)) [ inl e ↦ rw e later | inr e ↦ rw e (e, here, later) ]

mutual
  unfolding strip_excluded

  strip_of_IsClean : (v : Value) → IsClean v → strip_excluded v ≡ v
  strip_of_IsClean (object map) h = ap object (strip_fields_of_IsClean map h)
  strip_of_IsClean (array items) h = ap array (strip_items_of_IsClean items h)
  strip_of_IsClean null h = refl
  strip_of_IsClean (bool b) h = refl
  strip_of_IsClean (number n) h = refl
  strip_of_IsClean (string s) h = refl

  strip_items_of_IsClean : (xs : Items) → IsCleanItems xs → strip_items xs ≡ xs
  strip_items_of_IsClean nil h = refl
  strip_items_of_IsClean (cons v vs) (p, q) = cc (strip_of_IsClean v p, strip_items_of_IsClean vs q)

  strip_fields_of_IsClean : (fs : Fields) → IsCleanFields fs → strip_fields fs ≡ fs
  strip_fields_of_IsClean end h = refl
  strip_fields_of_IsClean (field k v rest) (e, p, q) =
      rw e (cc (strip_of_IsClean v p, strip_fields_of_IsClean rest q))

-- A stripped payload has no volatile key at any depth.
pub strip_excluded-IsClean : (v : Value) → IsClean (strip_excluded v)
strip_excluded-IsClean v = strip-IsClean v

-- Stripping leaves a payload as it is exactly when the payload has no volatile key at any depth; so
-- stripping twice is stripping once.
pub strip_excluded-iff_IsClean :
    (v : Value)
    → ((strip_excluded v ≡ v) ↔ IsClean v) × (strip_excluded (strip_excluded v) ≡ strip_excluded v)
strip_excluded-iff_IsClean v = (
  ((λ h. subst IsClean h (strip-IsClean v)), strip_of_IsClean v),
  strip_of_IsClean (strip_excluded v) (strip-IsClean v),
)

-- An entry of an object is kept, itself stripped, exactly when its key is not volatile.
pub get_field-strip_fields :
    (fs : Fields) (k : String)
    → get_field (strip_fields fs) k ≡ (if is_excluded k then none else map_value (get_field fs k))
unfolding strip_excluded get_field
get_field-strip_fields end k = ground arith
get_field-strip_fields (field j v rest) k =
    ground (arith, get_field-strip_fields rest k, eq_iff j k)

-- A step into a value: an entry of an object, or a place in an array.
pub data Step : Type 0 where
  entry : String → Step
  place : ℕ → Step

abbrev pub nth_item : Items → ℕ → Option Value
nth_item nil i = none
nth_item (cons v vs) zero = some v
nth_item (cons v vs) (suc i) = nth_item vs i

abbrev pub step_into : Step → Value → Option Value
step_into (entry k) v = get v k
step_into (place i) (array items) = nth_item items i
step_into (place i) (object map) = none
step_into (place i) null = none
step_into (place i) (bool b) = none
step_into (place i) (number n) = none
step_into (place i) (string s) = none

-- What stands in a value at the end of a path.
abbrev pub value_at : List Step → Value → Option Value
value_at [] v = some v
value_at (p ∷ ps) v = and_then (step_into p v) (value_at ps)

-- Some entry on the path has a volatile key.
abbrev pub passes_excluded : List Step → Bool
passes_excluded [] = false
passes_excluded (entry k ∷ ps) = is_excluded k || passes_excluded ps
passes_excluded (place i ∷ ps) = passes_excluded ps

-- The keys of an object, in order.
abbrev pub keys : Fields → List String
keys end = []
keys (field k v rest) = k ∷ keys rest

abbrev outcome_at : Bool → Option Value → Option Value
outcome_at dropped v = if dropped then none else map_value v
