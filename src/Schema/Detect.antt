-- ===== src/Schema/Detect.antt =====
-- What `detect_schema` accepts and refuses.
use apohara_sealchain.Prelude.{
  sym, none, ◌≢◌, ◌≡◌, ◌↔◌, refl, ap, true, ◌∙◌, String, some, arith, Option-cases, inl, inr,
}
use apohara_sealchain.Error.{malformed, unsupported_schema_v3, SealError, Result, ok, err}
use apohara_sealchain.Json.{
  Value, null, bool, number, string, array, object, Fields, get, get_field, as_str, as_object,
  and_then, is_some,
}
use apohara_sealchain.Json.Laws.{
  and_then-eq-some, as_object-eq-some, as_str-eq-some, is_some-eq-true,
}
use apohara_sealchain.Schema.{
  v4, SchemaVersion, SealedRecord, seal_to_fields, record_to_value, seal_time, top_time,
  detect_object, detect_schema,
}

-- `v.seal.sealedAt` is a string; `v.sealedAt` is a string.
abbrev pub HasSealTime : Value → Type 0
HasSealTime v =
    (o : Fields) × (t : String) × (get v "seal" ≡ some (object o))
    × (get_field o "sealedAt" ≡ some (string t))

abbrev pub HasTopTime : Value → Type 0
HasTopTime v = (t : String) × (get v "sealedAt" ≡ some (string t))

none≢some : {v : Value} → none ≢ some v
none≢some h = cc

module _ (fs : Fields) where
  HasSealTime-of_seal_time : (t : String) → seal_time fs ≡ some t → HasSealTime (object fs)
  unfolding seal_time get
  HasSealTime-of_seal_time t h =
      let seal_at = and_then (get_field fs "seal") as_object in
      let (o, found, e) =
        and_then-eq-some seal_at (λ seal. and_then (get_field seal "sealedAt") as_str) h in
      let (w, at_seal, e') = and_then-eq-some (get_field fs "seal") as_object found in
      let (u, at_time, e'') = and_then-eq-some (get_field o "sealedAt") as_str e in
      (o, t, at_seal ∙ ap some (as_object-eq-some w e'), at_time ∙ ap some (as_str-eq-some u e''))

  seal_time_of_HasSealTime : (h : HasSealTime (object fs)) → seal_time fs ≡ some h.1
  unfolding seal_time get as_object as_str
  seal_time_of_HasSealTime (o, t, e, e') = rw e (rw e')

  HasTopTime-of_top_time : (t : String) → top_time fs ≡ some t → HasTopTime (object fs)
  unfolding top_time get
  HasTopTime-of_top_time t h =
      let (u, at_time, e) = and_then-eq-some (get_field fs "sealedAt") as_str h in
      (t, at_time ∙ ap some (as_str-eq-some u e))

  top_time_of_HasTopTime : (h : HasTopTime (object fs)) → top_time fs ≡ some h.0
  unfolding top_time get as_str
  top_time_of_HasTopTime (t, e) = rw e

  detect_v4 : (detect_object fs ≡ ok v4) ↔ HasSealTime (object fs)
  unfolding detect_object
  detect_v4 = (
    λ h.
        let found : is_some (seal_time fs) ≡ true = ground arith in
        let (t, e) = is_some-eq-true (seal_time fs) found in HasSealTime-of_seal_time t e,
    λ h. rw (seal_time_of_HasSealTime h),
  )

  detect_legacy :
      (detect_object fs ≡ err unsupported_schema_v3)
      ↔ ((¬ HasSealTime (object fs)) × HasTopTime (object fs))
  unfolding detect_object
  detect_legacy = (
    λ h.
        let found : is_some (top_time fs) ≡ true = ground arith in
        let (t, e) = is_some-eq-true (top_time fs) found in
        ((λ p. cc (h, detect_v4.1 p)), HasTopTime-of_top_time t e),
    λ (no_seal, top). elim (Option-cases (seal_time fs)) [
      | inl e ↦ rw e (rw (top_time_of_HasTopTime top))
      | inr (t, e) ↦ absurd (no_seal (HasSealTime-of_seal_time t e))
    ],
  )

  detect_malformed :
      ((text : String) × (detect_object fs ≡ err (malformed text)))
      ↔ ((¬ HasSealTime (object fs)) × (¬ HasTopTime (object fs)))
  unfolding detect_object
  detect_malformed = (
    λ (text, h). (
      (λ p. cc (h, detect_v4.1 p)),
      λ top. cc (h, detect_legacy.1 ((λ p. cc (h, detect_v4.1 p)), top)),
    ),
    λ (no_seal, no_top). elim (Option-cases (seal_time fs)) [
      | inr (t, e) ↦ absurd (no_seal (HasSealTime-of_seal_time t e))
      | inl e ↦ elim (Option-cases (top_time fs)) [
        | inr (t, e') ↦ absurd (no_top (HasTopTime-of_top_time t e'))
        | inl e' ↦ ("no seal.sealedAt and no top-level sealedAt", rw (e, e') refl)
      ]
    ],
  )

-- The three answers.
abbrev Answers : Value → Result SealError SchemaVersion → Type 0
Answers v answer =
    ((answer ≡ ok v4) ↔ HasSealTime v)
    × ((answer ≡ err unsupported_schema_v3) ↔ ((¬ HasSealTime v) × HasTopTime v))
    × (((text : String) × (answer ≡ err (malformed text))) ↔ ((¬ HasSealTime v) × (¬ HasTopTime v)))

-- A value without entries is malformed.
no_entries :
    (v : Value) (text : String) → ((k : String) → get v k ≡ none) → Answers v (err (malformed text))
no_entries v text none_at = (
  ((λ h. cc), λ (o, t, e, e'). absurd (none≢some (sym (none_at "seal") ∙ e))),
  ((λ h. cc), λ (n, (t, e)). absurd (none≢some (sym (none_at "sealedAt") ∙ e))),
  (
    (λ h. (
      (λ (o, t, e, e'). none≢some (sym (none_at "seal") ∙ e)),
      λ (t, e). none≢some (sym (none_at "sealedAt") ∙ e),
    )),
    λ h. (text, refl),
  ),
)

-- A record is taken as v4 exactly when `seal.sealedAt` is a string, is refused as legacy exactly when it
-- is not and the top-level `sealedAt` is a string, and is malformed exactly when neither is a string.
pub detect_schema_iff :
    (v : Value)
    → ((detect_schema v ≡ ok v4) ↔ HasSealTime v)
      × ((detect_schema v ≡ err unsupported_schema_v3) ↔ ((¬ HasSealTime v) × HasTopTime v))
      × (((text : String) × (detect_schema v ≡ err (malformed text)))
          ↔ ((¬ HasSealTime v) × (¬ HasTopTime v)))
unfolding detect_schema as_object get
detect_schema_iff (object fs) = (detect_v4 fs, detect_legacy fs, detect_malformed fs)
detect_schema_iff null = no_entries null _ (λ j. refl)
detect_schema_iff (bool b) = no_entries (bool b) _ (λ j. refl)
detect_schema_iff (number k) = no_entries (number k) _ (λ j. refl)
detect_schema_iff (string s) = no_entries (string s) _ (λ j. refl)
detect_schema_iff (array xs) = no_entries (array xs) _ (λ j. refl)

-- What the engine writes passes the gate.
pub detect_schema-record_to_value : (r : SealedRecord) → detect_schema (record_to_value r) ≡ ok v4
unfolding detect_schema seal_time record_to_value seal_to_fields get_field as_object as_str
detect_schema-record_to_value r = refl
