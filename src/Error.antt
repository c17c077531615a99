-- ===== src/Error.antt =====
-- crates/apohara-sealchain-core/src/error.rs: the error taxonomy, and Rust's `Result` with `?`.
use Prim.Native.String.{◌++◌}
use apohara_sealchain.Prelude.{◌≡◌, refl, String, Bool, true, false, Option, none, some}

-- The text that each variant carries is the one interpolated into its message.
pub data SealError : Type 0 where
  malformed : String → SealError
  unsupported_schema_v3 : SealError
  invalid_preimage : String → SealError
  missing_public_key : SealError
  key_error : String → SealError
  decrypt : String → SealError
  canonicalization : String → SealError
  c2pa : String → SealError
  tsa : String → SealError
  rekor : String → SealError
  index : String → SealError

-- `#[error("..")]`
unfoldable pub to_string : SealError → String
to_string (malformed x) = "malformed record: " ++ x
to_string unsupported_schema_v3 = "unsupported legacy v3 schema"
to_string (invalid_preimage x) = "invalid preimage encoding: " ++ x
to_string missing_public_key = "ed25519 layer present but no public key provided"
to_string (key_error x) = "ed25519 key error: " ++ x
to_string (decrypt x) = "decrypt keystore: " ++ x
to_string (canonicalization x) = "canonicalization failed: " ++ x
to_string (c2pa x) = "c2pa error: " ++ x
to_string (tsa x) = "tsa error: " ++ x
to_string (rekor x) = "rekor error: " ++ x
to_string (index x) = "index error: " ++ x

pub data Result {ℓ κ} (E : Type ℓ) (A : Type κ) : Type (ℓ ⊔ κ) where
  ok : A → Result E A
  err : E → Result E A

infixl 5 ◌>>=◌ ◌>>◌
abbrev pub ◌>>=◌ {ℓ κ μ} :
    {E : Type ℓ} {A : Type κ} {B : Type μ} → Result E A → (A → Result E B) → Result E B
err e >>= k = err e
ok a >>= k = k a

abbrev pub ◌>>◌ {ℓ κ μ} :
    {E : Type ℓ} {A : Type κ} {B : Type μ} → Result E A → Result E B → Result E B
first >> second = first >>= λ _. second

-- `if !test { return Err(e) }`
abbrev pub ensure {ℓ} : {E : Type ℓ} → Bool → E → Result E (Unit {0})
ensure true e = ok tt
ensure false e = err e

-- `r.map_err(f)`
abbrev pub map_err {ℓ κ μ} :
    {E : Type ℓ} {F : Type κ} {A : Type μ} → (E → F) → Result E A → Result F A
map_err f (ok a) = ok a
map_err f (err e) = err (f e)

-- `o.ok_or(e)`
abbrev pub ok_or {ℓ κ} : {E : Type ℓ} {A : Type κ} → E → Option A → Result E A
ok_or e none = err e
ok_or e (some a) = ok a

-- `r.ok()`
abbrev pub to_option {ℓ κ} : {E : Type ℓ} {A : Type κ} → Result E A → Option A
to_option (ok a) = some a
to_option (err e) = none

pub ok_injective {ℓ κ} :
    {E : Type ℓ} {A : Type κ} {a b : A} → (let r : Result E A = ok a in r) ≡ ok b → a ≡ b
ok_injective h = cc

-- What a successful `?` has seen.
pub >>=-eq-ok {ℓ κ μ} :
    {E : Type ℓ} {A : Type κ} {B : Type μ} (m : Result E A) (k : A → Result E B) {b : B}
    → (m >>= k) ≡ ok b
    → (a : A) × (m ≡ ok a) × (k a ≡ ok b)
>>=-eq-ok (err e) k h = cc
>>=-eq-ok (ok a) k h = (a, refl, h)

pub map_err-eq-ok {ℓ κ μ} :
    {E : Type ℓ} {F : Type κ} {A : Type μ} (f : E → F) (r : Result E A) {a : A}
    → map_err f r ≡ ok a
    → r ≡ ok a
map_err-eq-ok f (ok a) h = cc
map_err-eq-ok f (err e) h = cc

pub ok_or-eq-ok {ℓ κ} :
    {E : Type ℓ} {A : Type κ} (e : E) (o : Option A) {a : A} → ok_or e o ≡ ok a → o ≡ some a
ok_or-eq-ok e none h = cc
ok_or-eq-ok e (some a) h = cc
