-- ===== src/Cli/Verdict.antt =====
-- The exit code of `verify`, and its precedence.
use apohara_sealchain.Prelude.{
  ℕ, ◌≤◌, ◌≡◌, ◌↔◌, refl, ap, String, Bytes, Bool, true, false, List, Option, none, some, ◌⊎◌, inl,
  inr, strip_prefix, arith,
}
use apohara_sealchain.Error.{
  SealError, Result, ok, err, ◌>>=◌, map_err, ok_or, >>=-eq-ok, map_err-eq-ok,
}
use apohara_sealchain.Schema.{SealedRecord}
use apohara_sealchain.LayerResult.{LayerResult}
use apohara_sealchain.Artifact.{Crates}
use apohara_sealchain.Artifact.Agrees.{all_ok}
use apohara_sealchain.Policy.{Policy, PolicyReport, Chrono, from_profile}
use apohara_sealchain.Cli.{
  exit_ok, exit_usage, exit_policy, schema_exit, Shell, VerifyArgs, key_spec, resolve_hmac_key,
  optional_key, read_receipt, verify_artifact, resolve_policy, report_of, verdict, checked, exit_of,
  run_verify,
}

-- An early return has one of the codes 2, 3 and 4.
abbrev IsEarly : {A : Type 0} → Result ℕ A → Type 0
IsEarly (ok a) = Unit
IsEarly (err code) = (2 ≤ code) × (code ≤ 4)

IsEarly->>= :
    {A B : Type 0} (m : Result ℕ A) (f : A → Result ℕ B)
    → IsEarly m
    → ((a : A) → IsEarly (f a))
    → IsEarly (m >>= f)
IsEarly->>= (ok a) f h k = k a
IsEarly->>= (err code) f h k = h

IsEarly-map_err :
    {E A : Type 0} (g : E → ℕ) (m : Result E A)
    → ((x : E) → (2 ≤ g x) × (g x ≤ 4))
    → IsEarly (map_err g m)
IsEarly-map_err g (ok a) h = tt
IsEarly-map_err g (err x) h = h x

schema_exit-IsEarly : (x : SealError) → (2 ≤ schema_exit x) × (schema_exit x ≤ 4)
unfolding schema_exit
schema_exit-IsEarly x = ground arith

module _ (e : Crates) (chrono : Chrono) (sh : Shell chrono) where
  key_spec-IsEarly :
      (spec : String) (file : Option String) → IsEarly (key_spec e chrono sh spec file)
  unfolding key_spec
  key_spec-IsEarly spec none = ground arith
  key_spec-IsEarly spec (some path) = ground arith

  optional_key-IsEarly : (spec : Option String) → IsEarly (optional_key e chrono sh spec)
  unfolding optional_key resolve_hmac_key
  optional_key-IsEarly none = tt
  optional_key-IsEarly (some spec) =
      IsEarly->>= (resolve_hmac_key e chrono sh spec) (λ key. ok (some key))
        (key_spec-IsEarly spec (strip_prefix "@" spec)) (λ key. tt)

  read_receipt-IsEarly : (path : String) → IsEarly (read_receipt e chrono sh path)
  unfolding read_receipt
  read_receipt-IsEarly path = ground arith

  IsEarly-ok_or : {A : Type 0} (o : Option A) → IsEarly (ok_or exit_usage o)
  IsEarly-ok_or none = (omega arith, omega arith)
  IsEarly-ok_or (some a) = tt

  resolve_policy-IsEarly :
      (policy profile : Option String) → IsEarly (resolve_policy e chrono sh policy profile)
  unfolding resolve_policy
  resolve_policy-IsEarly (some path) profile = ground arith
  resolve_policy-IsEarly none (some name) =
      IsEarly->>= (ok_or exit_usage (from_profile name)) _ (IsEarly-ok_or (from_profile name))
        (λ policy. tt)
  resolve_policy-IsEarly none none = tt

  checked-IsEarly : (args : VerifyArgs) → IsEarly (checked e chrono sh args)
  unfolding checked
  checked-IsEarly args =
      IsEarly->>= (optional_key e chrono sh args.hmac_key) _ (optional_key-IsEarly args.hmac_key)
        (λ key.
          IsEarly->>= (read_receipt e chrono sh args.receipt) _ (read_receipt-IsEarly args.receipt)
            (λ r.
              IsEarly->>= (map_err schema_exit (verify_artifact e chrono sh args.path r key)) _
                (IsEarly-map_err schema_exit (verify_artifact e chrono sh args.path r key)
                  schema_exit-IsEarly)
                (λ results.
                  IsEarly->>= (resolve_policy e chrono sh args.policy args.profile) _
                    (resolve_policy-IsEarly args.policy args.profile) (λ policy. tt))))

  -- The key, the receipt, its layer results and the policy are all obtained.
  abbrev pub Completes :
      VerifyArgs → SealedRecord → List LayerResult → Option (Policy × Option String) → Type 0
  Completes args r results policy =
      (key : Option Bytes) × (optional_key e chrono sh args.hmac_key ≡ ok key)
      × (read_receipt e chrono sh args.receipt ≡ ok r)
      × (verify_artifact e chrono sh args.path r key ≡ ok results)
      × (resolve_policy e chrono sh args.policy args.profile ≡ ok policy)

  checked_iff :
      (args : VerifyArgs) (code : ℕ)
      → (checked e chrono sh args ≡ ok code) ↔ (
          (r : SealedRecord) × (results : List LayerResult) × (policy : Option
            (Policy × Option String))
          × Completes args r results policy
          × (verdict e chrono sh (all_ok results) (report_of e chrono sh r results policy) ≡ code))
  unfolding checked
  checked_iff args code = (
    λ h.
        let (key, h₁, k₁) = >>=-eq-ok (optional_key e chrono sh args.hmac_key) _ h in
        let (r, h₂, k₂) = >>=-eq-ok (read_receipt e chrono sh args.receipt) _ k₁ in
        let (results, h₃, k₃) =
          >>=-eq-ok (map_err schema_exit (verify_artifact e chrono sh args.path r key)) _ k₂ in
        let (policy, h₄, k₄) =
          >>=-eq-ok (resolve_policy e chrono sh args.policy args.profile) _ k₃ in
        (
          r,
          results,
          policy,
          (key, h₁, h₂, map_err-eq-ok _ (verify_artifact e chrono sh args.path r key) h₃, h₄),
          cc,
        ),
    λ (r, results, policy, (key, h₁, h₂, h₃, h₄), same). rw h₁ (rw h₂ (rw h₃ (rw h₄ (ap ok same)))),
  )

  late :
      (m : Result ℕ ℕ) (code : ℕ)
      → IsEarly m
      → (code ≡ 0) ⊎ (code ≡ 5)
      → (exit_of e chrono sh m ≡ code) ↔ (m ≡ ok code)
  late (ok c) code h k = ((λ e. ap ok e), λ e. cc)
  late (err c) code h k = ((λ e. absurd (ground arith)), λ e. cc)

  -- The report, if a policy is set, is a pass.
  abbrev pub IsPassing : Option PolicyReport → Type 0
  IsPassing none = Unit
  IsPassing (some report) = report.passed ≡ true

  -- A policy is set, and the report is no pass.
  abbrev pub IsFailing : Option PolicyReport → Type 0
  IsFailing none = ⊥
  IsFailing (some report) = report.passed ≡ false

  verdict_iff :
      (good : Bool) (report : Option PolicyReport)
      → ((verdict e chrono sh good report ≡ 0) ↔ ((good ≡ true) × IsPassing report))
        × ((verdict e chrono sh good report ≡ 5) ↔ ((good ≡ true) × IsFailing report))
  unfolding verdict
  verdict_iff good report = ground arith

  -- `verify` exits 0 exactly when everything it reads is obtained, every layer result is a pass and
  -- the policy, if one is set, passes; it exits 5 exactly when everything is obtained, every result is
  -- a pass and the policy does not pass. So a failing layer never exits 0 or 5, nor does any error.
  pub run_verify_iff :
      (args : VerifyArgs)
      → ((run_verify e chrono sh args ≡ exit_ok) ↔ (
          (r : SealedRecord) × (results : List LayerResult) × (policy : Option
            (Policy × Option String))
          × Completes args r results policy
          × (all_ok results ≡ true)
          × IsPassing (report_of e chrono sh r results policy)))
        × ((run_verify e chrono sh args ≡ exit_policy) ↔ (
            (r : SealedRecord) × (results : List LayerResult) × (policy : Option
              (Policy × Option String))
            × Completes args r results policy
            × (all_ok results ≡ true)
            × IsFailing (report_of e chrono sh r results policy)))
  unfolding run_verify
  run_verify_iff args =
      let m = checked e chrono sh args in
      let early = checked-IsEarly args in
      let zero = late m 0 early (inl refl) in
      let five = late m 5 early (inr refl) in
      (
        (
          λ h.
              let (r, results, policy, done, same) = (checked_iff args 0).0 (zero.0 h) in
              let (good, passing) =
                (verdict_iff (all_ok results) (report_of e chrono sh r results policy)).0.0 same in
              (r, results, policy, done, good, passing),
          λ (r, results, policy, done, good, passing). zero.1 (
              (checked_iff args 0).1 (
                r,
                results,
                policy,
                done,
                (verdict_iff (all_ok results) (report_of e chrono sh r results policy)).0.1
                    (good, passing),
              )),
        ),
        (
          λ h.
              let (r, results, policy, done, same) = (checked_iff args 5).0 (five.0 h) in
              let (good, failing) =
                (verdict_iff (all_ok results) (report_of e chrono sh r results policy)).1.0 same in
              (r, results, policy, done, good, failing),
          λ (r, results, policy, done, good, failing). five.1 (
              (checked_iff args 5).1 (
                r,
                results,
                policy,
                done,
                (verdict_iff (all_ok results) (report_of e chrono sh r results policy)).1.1
                    (good, failing),
              )),
        ),
      )
