-- ===== src/Cli/Batch.antt =====
-- The exit code of a batch of seals, and where `--fail-fast` ends the batch.
use apohara_sealchain.Prelude.Slices.{take}
use apohara_sealchain.Prelude.{
  length, ℕ, ◌≡◌, refl, ap, ◌↔◌, String, Bool, true, false, List, [], ◌∷◌, ◌⊎◌, All, Some, arith,
}
use apohara_sealchain.Error.{Result, ok, err}
use apohara_sealchain.Cli.{
  FailureKind, usage, network, schema, kind_code, exit_loop, exit_code_for, seal_loop,
}

module _ {A : Type 0} where
  abbrev pub IsSealed : Result FailureKind A → Type 0
  IsSealed (ok sealed) = Unit
  IsSealed (err kind) = ⊥

  abbrev pub IsNetwork : Result FailureKind A → Type 0
  IsNetwork (ok sealed) = ⊥
  IsNetwork (err network) = Unit
  IsNetwork (err usage) = ⊥
  IsNetwork (err schema) = ⊥

  zero_iff :
      (code : ℕ) (os : List (Result FailureKind A))
      → (exit_loop code os ≡ 0) ↔ ((code ≡ 0) × All IsSealed os)
  unfolding exit_loop kind_code
  zero_iff code [] = ground arith
  zero_iff code (ok sealed ∷ os) = ground (arith, zero_iff code os)
  zero_iff code (err usage ∷ os) = ground (arith, zero_iff code os, zero_iff 2 os)
  zero_iff code (err network ∷ os) = ground (arith, zero_iff code os, zero_iff 1 os)
  zero_iff code (err schema ∷ os) = ground (arith, zero_iff code os, zero_iff 3 os)

  one_iff :
      (code : ℕ) (os : List (Result FailureKind A))
      → (exit_loop code os ≡ 1) ↔ ((code ≡ 1) ⊎ Some IsNetwork os)
  unfolding exit_loop kind_code
  one_iff code [] = ground arith
  one_iff code (ok sealed ∷ os) = ground (arith, one_iff code os)
  one_iff code (err usage ∷ os) = ground (arith, one_iff code os, one_iff 2 os)
  one_iff code (err network ∷ os) = ground (arith, one_iff code os, one_iff 1 os)
  one_iff code (err schema ∷ os) = ground (arith, one_iff code os, one_iff 3 os)

  -- A batch exits 0 exactly when every outcome is a seal, and 1 exactly when some outcome is a network
  -- failure, whatever other failures there are: a network failure outranks a usage error.
  pub exit_code_for_iff :
      (os : List (Result FailureKind A))
      → ((exit_code_for os ≡ 0) ↔ All IsSealed os) × ((exit_code_for os ≡ 1) ↔ Some IsNetwork os)
  unfolding exit_code_for
  exit_code_for_iff os = ground (arith, zero_iff 0 os, one_iff 0 os)

-- The outcomes up to the first failure, which is the last of them.
abbrev pub until_failure : {A : Type 0} → List (Result FailureKind A) → List (Result FailureKind A)
until_failure [] = []
until_failure (ok sealed ∷ os) = ok sealed ∷ until_failure os
until_failure (err kind ∷ os) = err kind ∷ []

module _ {S A : Type 0} (seal_one : S → String → S × Result FailureKind A) where
  abbrev run : Bool → S → List String → S × List (Result FailureKind A)
  run fail_fast s paths = seal_loop seal_one fail_fast s paths

  -- What holds of a run with `--fail-fast`.
  abbrev StopsAtFailure : S → List String → Type 0
  StopsAtFailure s paths =
      ((run true s paths).1 ≡ until_failure (run false s paths).1)
      × (run true s paths ≡ run false s (take (length (run true s paths).1) paths))

  round :
      (s : S) (p : String) (paths : List String) (m : S × Result FailureKind A)
      → seal_one s p ≡ m
      → ((s' : S) → StopsAtFailure s' paths)
      → StopsAtFailure s (p ∷ paths)
  unfolding seal_loop
  round s p paths (s', err kind) e h = rw e (refl, rw e refl)
  round s p paths (s', ok sealed) e h =
      let (same, over) = h s' in
      rw e (ap (◌∷◌ (ok sealed)) same, rw e (ap (λ r. (r.0, ok sealed ∷ r.1)) over))

  -- With `--fail-fast` the outcomes are those without it up to the first failure, and the run, with the state
  -- that it leaves, is the run without it over the artifacts that have outcomes: the later ones are not
  -- touched.
  pub seal_loop-until_failure :
      (s : S) (paths : List String)
      → ((seal_loop seal_one true s paths).1 ≡ until_failure (seal_loop seal_one false s paths).1)
        × (seal_loop seal_one true s paths
            ≡ seal_loop seal_one false s (take (length (seal_loop seal_one true s paths).1) paths))
  unfolding seal_loop
  seal_loop-until_failure s [] = (refl, refl)
  seal_loop-until_failure s (p ∷ paths) =
      round s p paths (seal_one s p) refl (λ s'. seal_loop-until_failure s' paths)
