-- ===== src/Cli/RunSeal/Verifies.antt =====
-- crates/apohara-sealchain/src/cli.rs: what `seal` has sealed, `verify` passes.
use apohara_sealchain.Prelude.{
  ◌≡◌, refl, ap, sym, subst, String, Bool, false, not, List, [], ◌∷◌, Option, none, some, All,
  All-mono, all, arith, Bool-cases, inl, inr,
}
use apohara_sealchain.Error.{ok}
use apohara_sealchain.Crypto.{CryptoLaws}
use apohara_sealchain.Schema.RoundTrip.{record_from_value-record_to_value}
use apohara_sealchain.Layers.C2pa.Binding.{MediaLaws}
use apohara_sealchain.Policy.{Chrono}
use apohara_sealchain.Artifact.{Crates}
use apohara_sealchain.Sealing.{Keys}
use apohara_sealchain.Cli.{
  exit_ok, VerifyArgs, optional_key, resolve_hmac_key, read_receipt, verify_artifact,
  resolve_policy, checked, run_verify,
}
use apohara_sealchain.Cli.Batch.{IsSealed, exit_code_for_iff}
use apohara_sealchain.Cli.Inputs.{expand_inputs}
use apohara_sealchain.Cli.Inputs.Expanded.{expand_inputs_lem}
use apohara_sealchain.Cli.RunSeal.{
  SealArgs, System, World, SealConfig, Sealed, shell, default_receipt_path, config_of,
  resolve_keys_for_seal, report_missing, seal_all, seal_batch, with_keys, with_inputs, run_seal,
}
use apohara_sealchain.Cli.RunSeal.Places.{AreApart-IsStrict}
use apohara_sealchain.Cli.RunSeal.Bundle.{resolve_keys_for_seal-IsBundle}
use apohara_sealchain.Cli.RunSeal.Kept.{SystemLaws, IsVerified, loop-IsVerified}

-- Without the network, without embedding, each receipt beside its artifact.
abbrev pub offline_args : SealArgs → SealArgs
offline_args args = record args { out = none; tsa = none; rekor = none; all = false; embed = false }

-- `verify <artifact> <receipt> --hmac-key <spec>`
abbrev pub verify_beside : String → String → VerifyArgs
verify_beside spec a = record {
  path = a;
  receipt = default_receipt_path a;
  hmac_key = some spec;
  policy = none;
  profile = none;
}

module _ (e : Crates) (chrono : Chrono) (sys : System e chrono) where
  -- A batch whose outcomes are all seals.
  seal_batch-sealed :
      (args : SealArgs) (cfg : SealConfig e chrono sys) (w w' : World e chrono sys)
      (artifacts missing : List String) (os : List (Sealed e chrono sys))
      → seal_batch e chrono sys args cfg w artifacts missing ≡ (w', os)
      → All IsSealed os
      → (missing ≡ []) × (seal_all e chrono sys args cfg w artifacts ≡ (w', os))
  unfolding seal_batch report_missing
  seal_batch-sealed args cfg w w' artifacts [] os h k = (refl, h)
  seal_batch-sealed args cfg w w' artifacts (m ∷ missing) os h k =
      elim (Bool-cases args.fail_fast) [
        | inl fast ↦ absurd (subst (All IsSealed) (sym (ap (λ x. x.1) (rw fast at h))) k).0
        | inr full ↦ absurd (subst (All IsSealed) (sym (ap (λ x. x.1) (rw full at h))) k).0
      ]

  with_keys-ok :
      (args : SealArgs) (w w₁ : World e chrono sys) (artifacts missing : List String)
      (keys : Keys e.crypto)
      → with_keys e chrono sys args artifacts missing (w, ok keys) ≡ (w₁, exit_ok)
      → (os : List (Sealed e chrono sys)) × (missing ≡ [])
        × (seal_all e chrono sys args (config_of e chrono sys args keys) w artifacts ≡ (w₁, os))
        × All IsSealed os
  unfolding with_keys
  with_keys-ok args w w₁ artifacts missing keys h =
      let batch =
        seal_batch e chrono sys args (config_of e chrono sys args keys) w artifacts missing in
      let sealed = (exit_code_for_iff batch.1).0.0 (ap (λ x. x.1) h) in
      let same : batch ≡ (w₁, batch.1) = ap (λ d. (d, batch.1)) (ap (λ x. x.0) h) in
      let (none_missing, all) =
        seal_batch-sealed args _ w w₁ artifacts missing batch.1 same sealed in
      (batch.1, none_missing, all, sealed)

  with_inputs-ok :
      (args : SealArgs) (w w' : World e chrono sys) (artifacts missing : List String)
      → with_inputs e chrono sys (offline_args args) w (ok (artifacts, missing)) ≡ (w', exit_ok)
      → with_keys e chrono sys
          (offline_args args)
          artifacts
          missing
          (resolve_keys_for_seal e chrono sys (offline_args args) w)
        ≡ (w', exit_ok)
  unfolding with_inputs
  with_inputs-ok args w w' [] [] h = absurd (omega (arith, ap (λ x. x.1) h))
  with_inputs-ok args w w' [] (m ∷ missing) h = h
  with_inputs-ok args w w' (a ∷ artifacts) missing h = h

  -- A receipt that verifies passes `verify`.
  run_verify-IsVerified :
      (files : SystemLaws e chrono sys) (keys : Keys e.crypto) (at : Option String)
      (with_c2pa ai no_index : Bool) (disk : sys.env.Disk) (spec a : String)
      → resolve_hmac_key e chrono (shell e chrono sys disk) spec ≡ ok keys.hmac
      → IsVerified e chrono sys keys at with_c2pa ai no_index disk a
      → run_verify e chrono (shell e chrono sys disk) (verify_beside spec a) ≡ exit_ok
  unfolding run_verify checked optional_key read_receipt verify_artifact resolve_policy
  run_verify-IsVerified files keys at with_c2pa ai no_index disk spec a keyed
        (b, r, text, results, held, stored, printed, writable, verified, good) =
      let (s, utf8, parsed) = files.parse-print r text printed in
      rw
        (
          keyed,
          stored,
          utf8,
          parsed,
          record_from_value-record_to_value r writable,
          held,
          verified,
          good,
        )
        refl

  module _ (laws : CryptoLaws e.crypto) (media_laws : MediaLaws e.crypto e.media)
      (files : SystemLaws e chrono sys) where
    -- Every artifact of an offline run that exits 0 has its receipt beside it.
    pub run_seal-IsVerified :
        (args : SealArgs) (w w₁ w' : World e chrono sys) (artifacts missing : List String)
        (keys : Keys e.crypto)
        → expand_inputs (sys.tree w.disk) args.recursive args.paths ≡ ok (artifacts, missing)
        → resolve_keys_for_seal e chrono sys (offline_args args) w ≡ (w₁, ok keys)
        → run_seal e chrono sys (offline_args args) w ≡ (w', exit_ok)
        → (missing ≡ [])
          × All
              (IsVerified e chrono sys keys args.sealed_at
                (not args.no_c2pa)
                args.ai_generated
                args.no_index
                w'.disk)
              artifacts
    unfolding run_seal seal_all config_of
    run_seal-IsVerified args w w₁ w' artifacts missing keys expanded resolved h =
        let (strict, plain, none_lost, absent) =
          expand_inputs_lem (sys.tree w.disk) args.recursive args.paths artifacts missing
            expanded in
        let ran = with_inputs-ok args w w' artifacts missing (rw expanded at h) in
        let (os, none_missing, looped, sealed) =
          with_keys-ok (offline_args args) w₁ w' artifacts missing keys (rw resolved at ran) in
        (
          none_missing,
          loop-IsVerified e chrono sys keys args.sealed_at (not args.no_c2pa) args.ai_generated
              args.no_index laws media_laws files
              (resolve_keys_for_seal-IsBundle e chrono sys (offline_args args) w w₁ resolved)
              args.fail_fast w₁ w' artifacts os (AreApart-IsStrict artifacts strict plain) looped
              sealed,
        )

    -- When `seal` exits 0 without the network, without embedding and with each receipt beside its
    -- artifact, no input was missing, and `verify` of every artifact with the receipt beside it and the
    -- key of the seal exits 0, all on the disk that the run leaves. The crates and the disk are assumed
    -- to keep their laws.
    pub run_verify-run_seal :
        (args : SealArgs) (w w₁ w' : World e chrono sys) (artifacts missing : List String)
        (keys : Keys e.crypto) (spec : String)
        → expand_inputs (sys.tree w.disk) args.recursive args.paths ≡ ok (artifacts, missing)
        → resolve_keys_for_seal e chrono sys (offline_args args) w ≡ (w₁, ok keys)
        → resolve_hmac_key e chrono (shell e chrono sys w'.disk) spec ≡ ok keys.hmac
        → run_seal e chrono sys (offline_args args) w ≡ (w', exit_ok)
        → (missing ≡ [])
          × All
              (λ a.
                run_verify e chrono (shell e chrono sys w'.disk) (verify_beside spec a) ≡ exit_ok)
              artifacts
    run_verify-run_seal args w w₁ w' artifacts missing keys spec expanded resolved keyed h =
        let (none_missing, verified) =
          run_seal-IsVerified args w w₁ w' artifacts missing keys expanded resolved h in
        (
          none_missing,
          All-mono
              (λ a.
                run_verify-IsVerified files keys args.sealed_at (not args.no_c2pa) args.ai_generated
                  args.no_index w'.disk spec a keyed)
              artifacts verified,
        )
