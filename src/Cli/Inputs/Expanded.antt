-- ===== src/Cli/Inputs/Expanded.antt =====
-- crates/apohara-sealchain/src/cli.rs: what the expansion of the inputs gives.
use apohara_sealchain.Prelude.{
  ◌≡◌, refl, ◌∙◌, subst, ℕ, String, Bool, true, false, ◌&&◌, not, List, [], ◌∷◌, ◌++◌, all, any,
  All, Bool-cases, inl, inr, arith, eq_iff, eq_refl, ◌==◌,
}
use apohara_sealchain.Error.{Result, ok, err, ◌>>=◌, >>=-eq-ok, map_err, ok_injective}
use apohara_sealchain.Paths.Order.{path_eq}
use apohara_sealchain.Cli.{exit_usage}
use apohara_sealchain.Cli.Inputs.{
  Found, file, directory, nothing, is_file, Tree, is_glob_pattern, is_receipt_path, collect_dir,
  glob_files, expand_found, expand_all, expand_inputs,
}
use apohara_sealchain.Cli.Inputs.Distinct.{
  IsStrict, finished, finished-IsStrict, any-finished, any-append, or_left, or_right, all_members,
}

file_lem : (k : Found) → is_file k ≡ true → k ≡ file
file_lem file h = refl
file_lem (directory listing) h = cc
file_lem nothing h = cc

module _ (tree : Tree) (recursive : Bool) where
  -- A literal path at which there is nothing.
  abbrev pub IsMissing : String → Type 0
  IsMissing m = (tree.at m ≡ nothing) × (is_glob_pattern m ≡ false)

  All-append :
      (xs ys : List String) → All IsMissing xs → All IsMissing ys → All IsMissing (xs ++ ys)
  All-append [] ys h k = k
  All-append (x ∷ xs) ys (h, hs) k = (h, All-append xs ys hs k)

  only_artifacts :
      {A : Type 0} (r : Result ℕ A) (f : A → List String) (found : List String × List String)
      → (r >>= λ a. ok (f a, [])) ≡ ok found
      → All IsMissing found.1
  only_artifacts (ok a) f found h =
      subst (λ (x : List String × List String). All IsMissing x.1) (ok_injective h) tt
  only_artifacts (err e) f found h = cc

  expand_found-IsMissing :
      (input : String) (k : Found) (found : List String × List String)
      → tree.at input ≡ k
      → expand_found tree recursive input k ≡ ok found
      → All IsMissing found.1
  unfolding expand_found
  expand_found-IsMissing input file found e h =
      subst (λ (x : List String × List String). All IsMissing x.1) (ok_injective h) tt
  expand_found-IsMissing input (directory listing) found e h =
      only_artifacts (collect_dir recursive listing) (λ xs. xs) found h
  expand_found-IsMissing input nothing found e h = elim (Bool-cases (is_glob_pattern input)) [
    | inl glob ↦
        only_artifacts (map_err (λ x. exit_usage) (tree.glob input)) (glob_files tree) found
          (rw glob at h)
    | inr literal ↦
        subst (λ (x : List String × List String). All IsMissing x.1)
          (ok_injective (rw literal at h)) ((e, literal), tt)
  ]

  expand_all-IsMissing :
      (inputs : List String) (found : List String × List String)
      → expand_all tree recursive inputs ≡ ok found
      → All IsMissing found.1
  unfolding expand_all
  expand_all-IsMissing [] found h =
      subst (λ (x : List String × List String). All IsMissing x.1) (ok_injective h) tt
  expand_all-IsMissing (input ∷ inputs) found h =
      let (one, h₁, k₁) = >>=-eq-ok (expand_found tree recursive input (tree.at input)) _ h in
      let (more, h₂, k₂) = >>=-eq-ok (expand_all tree recursive inputs) _ k₁ in
      subst (λ (x : List String × List String). All IsMissing x.1) (ok_injective k₂)
        (All-append one.1 more.1 (expand_found-IsMissing input (tree.at input) one refl h₁)
          (expand_all-IsMissing inputs more h₂))

  at_file : (q : String) → is_file (tree.at q) ≡ true → tree.at q ≡ file
  at_file q h = file_lem (tree.at q) h

  expand_found-finds :
      (q input : String) (found : List String × List String)
      → tree.at q ≡ file
      → (input == q) ≡ true
      → expand_found tree recursive input (tree.at input) ≡ ok found
      → any (λ p. p == q) found.0 ≡ true
  unfolding expand_found
  expand_found-finds q input found at same h =
      let e = (eq_iff input q).0 same in
      let h' = rw (e, at) at h in
      subst (λ (x : List String × List String). any (λ p. p == q) x.0 ≡ true) (ok_injective h')
        (rw (eq_refl q) refl)

  expand_all-finds :
      (q : String) (inputs : List String) (found : List String × List String)
      → tree.at q ≡ file
      → any (λ i. i == q) inputs ≡ true
      → expand_all tree recursive inputs ≡ ok found
      → any (λ p. p == q) found.0 ≡ true
  unfolding expand_all
  expand_all-finds q [] found at h e = cc
  expand_all-finds q (input ∷ inputs) found at h e =
      let (one, h₁, k₁) = >>=-eq-ok (expand_found tree recursive input (tree.at input)) _ e in
      let (more, h₂, k₂) = >>=-eq-ok (expand_all tree recursive inputs) _ k₁ in
      subst (λ (x : List String × List String). any (λ p. p == q) x.0 ≡ true) (ok_injective k₂)
        (any-append (λ p. p == q) one.0 more.0 ∙ elim (Bool-cases (input == q)) [
          | inl same ↦ or_left _ _ (expand_found-finds q input one at same h₁)
          | inr other ↦ or_right _ _ (expand_all-finds q inputs more at (ground (arith, other)) h₂)
        ])

  -- The input is a file, no receipt, and not among the artifacts.
  abbrev pub lost : List String → String → Bool
  lost artifacts q =
      is_file (tree.at q) && not (is_receipt_path q) && not (any (path_eq q) artifacts)

  keeps_input :
      (q : String) (inputs : List String) (found : List String × List String)
      → expand_all tree recursive inputs ≡ ok found
      → any (λ i. i == q) inputs ≡ true
      → not (lost (finished found.0) q) ≡ true
  keeps_input q inputs found e h = elim (Bool-cases (is_receipt_path q)) [
    | inl receipt ↦ ground (arith, receipt)
    | inr kept ↦ elim (Bool-cases (is_file (tree.at q))) [
      | inl f ↦
          let mine =
            any-finished q found.0 kept (expand_all-finds q inputs found (at_file q f) h e) in
          ground (arith, mine)
      | inr other ↦ ground (arith, other)
    ]
  ]

  -- When the expansion succeeds, the artifacts stand in the order of paths with no path twice, none of
  -- them is a receipt, and no input that is a file and no receipt is lost; the missing paths are literal
  -- ones at which there is nothing.
  pub expand_inputs_lem :
      (inputs artifacts missing : List String)
      → expand_inputs tree recursive inputs ≡ ok (artifacts, missing)
      → IsStrict artifacts
        × (all (λ p. not (is_receipt_path p)) artifacts ≡ true)
        × (all (λ q. not (lost artifacts q)) inputs ≡ true)
        × All IsMissing missing
  unfolding expand_inputs
  expand_inputs_lem inputs artifacts missing e =
      let (found, h₁, k₁) = >>=-eq-ok (expand_all tree recursive inputs) _ e in
      let (strict, none) = finished-IsStrict found.0 in
      subst
        (λ (x : List String × List String).
          IsStrict x.0
          × (all (λ p. not (is_receipt_path p)) x.0 ≡ true)
          × (all (λ q. not (lost x.0 q)) inputs ≡ true)
          × All IsMissing x.1)
        (ok_injective k₁)
        (
          strict,
          none,
          all_members (λ q. not (lost (finished found.0) q)) inputs
              (λ q h. keeps_input q inputs found h₁ h),
          expand_all-IsMissing inputs found h₁,
        )
