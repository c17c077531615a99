-- ===== src/Policy/Passed.antt =====
-- When a policy passes.
use apohara_sealchain.Prelude.Int.{ℤ, pos, negsuc, leb_int}
use apohara_sealchain.Prelude.{
  ℕ, ◌≤◌, ◌≡◌, ◌↔◌, refl, ap, sym, ◌∙◌, String, Bool, true, false, ◌&&◌, not, List, [], ◌∷◌,
  ◌++◌ as ◌append◌, any_iff_Some, contains, All, Some, Option, none, some, eq_iff,
  eq_ignore_ascii_case, if◌then◌else◌, Bool-cases, inl, inr, false≢true, arith,
}
use apohara_sealchain.Error.{Result, ok, err}
use apohara_sealchain.Json.{Value, get_str, unwrap_or}
use apohara_sealchain.Schema.{SealedRecord}
use apohara_sealchain.LayerResult.{LayerResult}
use apohara_sealchain.Index.{present_layers}
use apohara_sealchain.Policy.{
  Policy, Chrono, verified_ok, require_violations, forbid_violations, count_verified,
  min_violations, allowed_hosts, check_qualified_tsa, age_violations, age_of_parsed, check_max_age,
  is_empty, violations_of, evaluate,
}

is_empty-append : (xs ys : List String) → is_empty (xs append ys) ≡ (is_empty xs && is_empty ys)
is_empty-append [] ys = refl
is_empty-append (x ∷ xs) ys = refl

-- Some result under this name is a pass.
abbrev pub IsVerified : List LayerResult → String → Type 0
IsVerified results l = Some (λ (x : LayerResult). (x.name ≡ l) × (x.ok ≡ true)) results

abbrev pub IsCarried : SealedRecord → String → Type 0
IsCarried r l = contains (present_layers r) l ≡ true

verified_ok_iff :
    (results : List LayerResult) (l : String)
    → (contains (verified_ok results) l ≡ true) ↔ IsVerified results l
unfolding contains verified_ok
verified_ok_iff [] l = ((λ h. cc), λ h. absurd h)
verified_ok_iff (x ∷ xs) l = ground (arith, verified_ok_iff xs l, eq_iff x.name l)

require_iff :
    (r : SealedRecord) (results : List LayerResult) (ls : List String)
    → (is_empty (require_violations (present_layers r) (verified_ok results) ls) ≡ true)
      ↔ All (λ l. IsCarried r l × IsVerified results l) ls
unfolding require_violations
require_iff r results [] = ((λ h. tt), λ h. refl)
require_iff r results (l ∷ ls) = ground (arith, require_iff r results ls, verified_ok_iff results l)

forbid_iff :
    (r : SealedRecord) (ls : List String)
    → (is_empty (forbid_violations (present_layers r) ls) ≡ true)
      ↔ All (λ l. contains (present_layers r) l ≡ false) ls
unfolding forbid_violations
forbid_iff r [] = ((λ h. tt), λ h. refl)
forbid_iff r (l ∷ ls) = ground (arith, forbid_iff r ls)

-- At least so many of the layers carried are verified.
abbrev pub HasEnough : ℕ → Option ℕ → Type 0
HasEnough count none = Unit
HasEnough count (some least) = least ≤ count

min_iff :
    (present verified : List String) (least : Option ℕ)
    → (is_empty (min_violations present verified least) ≡ true)
      ↔ HasEnough (count_verified present verified) least
unfolding min_violations
min_iff present verified none = ((λ h. tt), λ h. refl)
min_iff present verified (some least) = ground arith

-- A timestamp is there, and its recorded authority is an allowed host, up to case.
abbrev pub IsQualified : Policy → Option Value → Type 0
IsQualified policy none = ⊥
IsQualified policy (some tsa) =
    Some (λ h. eq_ignore_ascii_case h (unwrap_or (get_str tsa "authority") "") ≡ true)
      (allowed_hosts policy)

IsQualified-iff :
    (policy : Policy) (tsa : Option Value)
    → (is_empty (check_qualified_tsa policy tsa) ≡ true) ↔ IsQualified policy tsa
unfolding check_qualified_tsa
IsQualified-iff policy none = ((λ h. cc), λ h. absurd h)
IsQualified-iff policy (some tsa) = ground (
  arith,
  any_iff_Some (λ h. eq_ignore_ascii_case h (unwrap_or (get_str tsa "authority") ""))
      (allowed_hosts policy),
)

-- What is asked for when a switch is on.
abbrev pub When : Bool → Type 0 → Type 0
When true P = P
When false P = Unit

module _ (chrono : Chrono) where
  -- The time reads, and lies no more than so many whole days before now, and no day after it.
  abbrev pub IsFresh : String → chrono.DateTime → Option ℤ → Type 0
  IsFresh sealed_at now none = Unit
  IsFresh sealed_at now (some max_days) =
      (t : chrono.DateTime) × (days : ℕ) × (chrono.parse_from_rfc3339 sealed_at ≡ ok t)
      × (chrono.num_days now t ≡ pos days)
      × (leb_int (pos days) max_days ≡ true)

  one_left : (b : Bool) (v w : String) → false ≡ is_empty (if b then v ∷ [] else w ∷ [])
  one_left true v w = refl
  one_left false v w = refl

  age_violations_iff :
      (sealed_at : String) (max_days age : ℤ)
      → (is_empty (age_violations chrono sealed_at max_days age) ≡ true)
        ↔ ((days : ℕ) × (age ≡ pos days) × (leb_int (pos days) max_days ≡ true))
  unfolding age_violations
  age_violations_iff sealed_at max_days (pos n) = elim (Bool-cases (leb_int (pos n) max_days)) [
    | inl le ↦ rw le ((λ h. (n, refl, le)), λ h. refl)
    | inr gt ↦ rw gt (
      (λ h. cc),
      λ (days, e, le). absurd (false≢true (sym gt ∙ ap (λ a. leb_int a max_days) e ∙ le)),
    )
  ]
  age_violations_iff sealed_at max_days (negsuc n) = (
    λ h. absurd (false≢true (one_left (not (leb_int (negsuc n) max_days)) _ _ ∙ h)),
    λ (days, e, le). cc,
  )

  parsed_iff :
      (sealed_at : String) (max_days : ℤ) (now : chrono.DateTime)
      (parsed : Result String chrono.DateTime)
      → (is_empty (age_of_parsed chrono sealed_at max_days now parsed) ≡ true) ↔ (
          (t : chrono.DateTime) × (days : ℕ) × (parsed ≡ ok t)
          × (chrono.num_days now t ≡ pos days)
          × (leb_int (pos days) max_days ≡ true))
  unfolding age_of_parsed
  parsed_iff sealed_at max_days now (err e) = ((λ h. cc), λ (t, days, h, a, l). cc)
  parsed_iff sealed_at max_days now (ok t) =
      let iff = age_violations_iff sealed_at max_days (chrono.num_days now t) in
      (
        λ h. let (days, age, le) = iff.0 h in (t, days, refl, age, le),
        λ (t', days, same, age, le).
            let e : t ≡ t' = cc in iff.1 (days, ap (chrono.num_days now) e ∙ age, le),
      )

  IsFresh-iff :
      (sealed_at : String) (limit : Option ℤ) (now : chrono.DateTime)
      → (is_empty (check_max_age chrono sealed_at limit now) ≡ true) ↔ IsFresh sealed_at now limit
  unfolding check_max_age
  IsFresh-iff sealed_at none now = ((λ h. tt), λ h. refl)
  IsFresh-iff sealed_at (some max_days) now =
      parsed_iff sealed_at max_days now (chrono.parse_from_rfc3339 sealed_at)

  -- Everything that a policy asks of a receipt and its verification results.
  abbrev pub Satisfies : Policy → SealedRecord → List LayerResult → chrono.DateTime → Type 0
  Satisfies policy r results now =
      All (λ l. IsCarried r l × IsVerified results l) policy.require_layers
      × All (λ l. contains (present_layers r) l ≡ false) policy.forbid_layers
      × HasEnough (count_verified (present_layers r) (verified_ok results)) policy.min_layers
      × When policy.require_qualified_tsa (IsQualified policy r.seal.tsa)
      × IsFresh r.seal.sealed_at now policy.max_age_days

  gate_iff :
      (on : Bool) (vs : List String) {P : Type 0}
      → (is_empty vs ≡ true) ↔ P
      → (is_empty (if on then vs else []) ≡ true) ↔ When on P
  gate_iff true vs iff = iff
  gate_iff false vs iff = ((λ h. tt), λ h. refl)

  five_iff :
      (a b c d f : List String)
      → (is_empty (a append (b append (c append (d append f)))) ≡ true) ↔ (
          (is_empty a ≡ true)
          × (is_empty b ≡ true)
          × (is_empty c ≡ true)
          × (is_empty d ≡ true)
          × (is_empty f ≡ true))
  five_iff a b c d f = rw (is_empty-append a (b append (c append (d append f)))) (
      rw (is_empty-append b (c append (d append f)))
        (rw (is_empty-append c (d append f)) (rw (is_empty-append d f) (ground arith))))

  -- A policy passes exactly when every required layer is carried and has a passing result, no
  -- forbidden layer is carried, enough of the carried layers are verified, a qualified timestamp that
  -- is asked for is there under an allowed host (whether or not the layer of the timestamp has a passing
  -- result), and the seal is fresh.
  pub evaluate_passed_iff :
      (policy : Policy) (r : SealedRecord) (results : List LayerResult) (now : chrono.DateTime)
      → ((evaluate chrono policy r results now).passed ≡ true) ↔ Satisfies policy r results now
  unfolding evaluate violations_of
  evaluate_passed_iff policy r results now =
      let present = present_layers r in
      let verified = verified_ok results in
      let a = require_iff r results policy.require_layers in
      let b = forbid_iff r policy.forbid_layers in
      let c = min_iff present verified policy.min_layers in
      let d =
        gate_iff policy.require_qualified_tsa (check_qualified_tsa policy r.seal.tsa)
          (IsQualified-iff policy r.seal.tsa) in
      let f = IsFresh-iff r.seal.sealed_at policy.max_age_days now in
      let all =
        five_iff (require_violations present verified policy.require_layers)
          (forbid_violations present policy.forbid_layers)
          (min_violations present verified policy.min_layers)
          (if policy.require_qualified_tsa then check_qualified_tsa policy r.seal.tsa else [])
          (check_max_age chrono r.seal.sealed_at policy.max_age_days now) in
      (
        λ h. let (h₁, h₂, h₃, h₄, h₅) = all.0 h in (a.0 h₁, b.0 h₂, c.0 h₃, d.0 h₄, f.0 h₅),
        λ (h₁, h₂, h₃, h₄, h₅). all.1 (a.1 h₁, b.1 h₂, c.1 h₃, d.1 h₄, f.1 h₅),
      )
