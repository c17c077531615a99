-- ===== src/Cli/RunSeal/Kept.antt =====
-- crates/apohara-sealchain/src/cli.rs: what the loop over the artifacts leaves on the disk.
use apohara_sealchain.Prelude.{
  ◌≡◌, refl, ap, sym, ◌∙◌, subst, String, Bytes, Bool, true, false, not, List, [], ◌∷◌, Option,
  some, ◌==◌, All, all, arith,
}
use apohara_sealchain.Error.{SealError, Result, ok, err}
use apohara_sealchain.Crypto.{CryptoLaws}
use apohara_sealchain.Schema.{SealedRecord, record_to_value}
use apohara_sealchain.Schema.RoundTrip.{IsWritable}
use apohara_sealchain.LayerResult.{LayerResult}
use apohara_sealchain.Layers.C2pa.Binding.{MediaLaws}
use apohara_sealchain.Policy.{Chrono}
use apohara_sealchain.Artifact.{Crates, verify_artifact_bytes}
use apohara_sealchain.Artifact.Agrees.{all_ok}
use apohara_sealchain.Sealing.{Keys, seal_artifact}
use apohara_sealchain.Sealing.Shape.{offline}
use apohara_sealchain.Sealing.Receipts.{verify-seal_artifact, seal_artifact-IsWritable}
use apohara_sealchain.Index.Store.{is_receipt_file}
use apohara_sealchain.Cli.{FailureKind, seal_next, seal_loop}
use apohara_sealchain.Cli.Batch.{IsSealed}
use apohara_sealchain.Cli.RunSeal.{
  System, World, SealConfig, Sealed, default_receipt_path, written, serialized, sealed_to, seal_one,
}
use apohara_sealchain.Cli.RunSeal.Places.{AreApart, receipt_apart, all_apart, all_receipts_apart}
use apohara_sealchain.Cli.RunSeal.Bundle.{IsBundle}

-- A file holds what was written to it last, and a write changes no other file: no two texts name one
-- file. What the JSON printer makes of a record is UTF-8, and is parsed back.
pub record SystemLaws (e : Crates) (chrono : Chrono) (sys : System e chrono) : Type 1 where
  pub read-write :
      (d d' : sys.env.Disk) (p : String) (b : Bytes)
      → sys.env.write d p b ≡ ok d'
      → sys.env.read d' p ≡ ok b
  pub read-write_other :
      (d d' : sys.env.Disk) (p q : String) (b : Bytes)
      → sys.env.write d p b ≡ ok d'
      → (p == q) ≡ false
      → sys.env.read d' q ≡ sys.env.read d q
  pub parse-print :
      (r : SealedRecord) (text : Bytes)
      → sys.to_string_pretty (record_to_value r) ≡ ok text
      → (s : String) × (sys.from_utf8 text ≡ ok s) × (sys.parse_json s ≡ ok (record_to_value r))

-- A round that is a seal.
seal_next-IsSealed :
    {S A : Type 0} (m : S × Result FailureKind A) (fail_fast : Bool)
    (f : S → S × List (Result FailureKind A)) (s' : S) (os : List (Result FailureKind A))
    → seal_next m fail_fast f ≡ (s', os)
    → All IsSealed os
    → (s : S) × (a : A) × (os' : List (Result FailureKind A)) × (m ≡ (s, ok a))
      × (f s ≡ (s', os'))
      × All IsSealed os'
unfolding seal_next
seal_next-IsSealed {A = A} (s, ok a) fail_fast f s' os h k =
    let first = ap (λ x. x.0) h in
    let later = ap (λ x. x.1) h in
    let all_later = subst (All IsSealed) (sym later) k in
    (s, a, (f s).1, refl, ap (λ t. (t, (f s).1)) first, all_later.1)
seal_next-IsSealed (s, err kind) true f s' os h k =
    absurd (subst (All IsSealed) (sym (ap (λ x. x.1) h)) k).0
seal_next-IsSealed (s, err kind) false f s' os h k =
    absurd (subst (All IsSealed) (sym (ap (λ x. x.1) h)) k).0

module _ (e : Crates) (chrono : Chrono) (sys : System e chrono) where
  written-ok :
      (cfg : SealConfig e chrono sys) (w w' : World e chrono sys) (out : String) (r : SealedRecord)
      (m : Result String sys.env.Disk) (x : String × List String)
      → written e chrono sys cfg w out r m ≡ (w', ok x)
      → m ≡ ok w'.disk
  unfolding written
  written-ok cfg w w' out r (err y) x h = cc
  written-ok cfg w w' out r (ok disk) x h = ap (λ v. ok v.0.disk) h

  serialized-ok :
      (cfg : SealConfig e chrono sys) (w w' : World e chrono sys) (out : String) (r : SealedRecord)
      (m : Result String Bytes) (x : String × List String)
      → serialized e chrono sys cfg w out r m ≡ (w', ok x)
      → (text : Bytes) × (m ≡ ok text) × (sys.env.write w.disk out text ≡ ok w'.disk)
  unfolding serialized
  serialized-ok cfg w w' out r (err y) x h = cc
  serialized-ok cfg w w' out r (ok text) x h =
      (text, refl, written-ok cfg w w' out r (sys.env.write w.disk out text) x h)

  sealed_to-ok :
      (cfg : SealConfig e chrono sys) (w w' : World e chrono sys) (out : String)
      (m : sys.env.Disk × Result SealError SealedRecord) (x : String × List String)
      → sealed_to e chrono sys cfg w out m ≡ (w', ok x)
      → (r : SealedRecord) × (text : Bytes) × (m.1 ≡ ok r)
        × (sys.to_string_pretty (record_to_value r) ≡ ok text)
        × (sys.env.write m.0 out text ≡ ok w'.disk)
  unfolding sealed_to
  sealed_to-ok cfg w w' out (disk, err y) x h = cc
  sealed_to-ok cfg w w' out (disk, ok r) x h =
      let (text, printed, h₁) =
        serialized-ok cfg (record w { disk = disk }) w' out r
          (sys.to_string_pretty (record_to_value r)) x h in
      (r, text, refl, printed, h₁)

  module _ (keys : Keys e.crypto) (at : Option String) (with_c2pa ai no_index : Bool) where
    -- A run without the network and without embedding.
    abbrev pub offline_config : SealConfig e chrono sys
    offline_config = record {
      keys = keys;
      options = offline at with_c2pa ai;
      network_requested = false;
      no_index = no_index;
    }

    abbrev pub seal_beside : World e chrono sys → String → World e chrono sys × Sealed e chrono sys
    seal_beside w a = seal_one e chrono sys offline_config w a (default_receipt_path a)

    -- The artifact is readable, and beside it is a receipt that verifies against it.
    abbrev pub IsVerified : sys.env.Disk → String → Type 0
    IsVerified disk a =
        (b : Bytes) × (r : SealedRecord) × (text : Bytes) × (results : List LayerResult)
        × (sys.env.read disk a ≡ ok b)
        × (sys.env.read disk (default_receipt_path a) ≡ ok text)
        × (sys.to_string_pretty (record_to_value r) ≡ ok text)
        × IsWritable r.seal
        × (verify_artifact_bytes e b r (some keys.hmac) ≡ ok results)
        × (all_ok results ≡ true)

    module _ (laws : CryptoLaws e.crypto) (media_laws : MediaLaws e.crypto e.media)
        (files : SystemLaws e chrono sys) (bundle : IsBundle e.crypto keys) where
      seal_beside-ok :
          (w w' : World e chrono sys) (a : String) (x : String × List String)
          → is_receipt_file a ≡ false
          → seal_beside w a ≡ (w', ok x)
          → IsVerified w'.disk a
            × (text : Bytes) × (sys.env.write w.disk (default_receipt_path a) text ≡ ok w'.disk)
      unfolding seal_one
      seal_beside-ok w w' a x plain h =
          let m = seal_artifact e sys.env keys w.disk a (offline at with_c2pa ai) in
          let (r, text, made, printed, put) =
            sealed_to-ok offline_config w w' (default_receipt_path a) m x h in
          let sealed : m ≡ (m.0, ok r) = ap (λ o. (m.0, o)) made in
          let (same, b, held, results, verified, good) =
            verify-seal_artifact e sys.env keys laws media_laws w.disk m.0 a at with_c2pa ai r
              bundle sealed in
          let put' = rw same at put in
          let kept =
            files.read-write_other w.disk w'.disk (default_receipt_path a) a text put'
              (receipt_apart a a plain) in
          (
            (
              b,
              r,
              text,
              results,
              kept ∙ held,
              files.read-write m.0 w'.disk (default_receipt_path a) text put,
              printed,
              seal_artifact-IsWritable e sys.env keys w.disk m.0 a at with_c2pa ai r sealed,
              verified,
              good,
            ),
            text,
            put',
          )

      abbrev loop :
          Bool → World e chrono sys → List String → World e chrono sys × List (Sealed e chrono sys)
      loop fail_fast w paths = seal_loop seal_beside fail_fast w paths

      -- A path that is none of the receipts keeps what it held.
      loop-read :
          (fail_fast : Bool) (w w' : World e chrono sys) (paths : List String)
          (os : List (Sealed e chrono sys)) (q : String)
          → AreApart paths
          → all (λ m. not (default_receipt_path m == q)) paths ≡ true
          → loop fail_fast w paths ≡ (w', os)
          → All IsSealed os
          → sys.env.read w'.disk q ≡ sys.env.read w.disk q
      unfolding seal_loop
      loop-read fail_fast w w' [] os q apart other h k =
          ap (λ (v : World e chrono sys × List (Sealed e chrono sys)). sys.env.read v.0.disk q)
            (sym h)
      loop-read fail_fast w w' (a ∷ more) os q (plain, differ, apart) other h k =
          let (w₁, x, os', one, rest, sealed) =
            seal_next-IsSealed (seal_beside w a) fail_fast _ w' os h k in
          let (verified, text, put) = seal_beside-ok w w₁ a x plain one in
          loop-read fail_fast w₁ w' more os' q apart (ground (arith, other)) rest sealed
          ∙ files.read-write_other w.disk w₁.disk (default_receipt_path a) q text put
              (ground (arith, other))

      IsVerified-read :
          (d d' : sys.env.Disk) (a : String)
          → sys.env.read d' a ≡ sys.env.read d a
          → sys.env.read d' (default_receipt_path a) ≡ sys.env.read d (default_receipt_path a)
          → IsVerified d a
          → IsVerified d' a
      IsVerified-read d d' a same same'
            (b, r, text, results, held, stored, printed, writable, verified, good) =
          (b, r, text, results, same ∙ held, same' ∙ stored, printed, writable, verified, good)

      pub loop-IsVerified :
          (fail_fast : Bool) (w w' : World e chrono sys) (paths : List String)
          (os : List (Sealed e chrono sys))
          → AreApart paths
          → loop fail_fast w paths ≡ (w', os)
          → All IsSealed os
          → All (IsVerified w'.disk) paths
      unfolding seal_loop
      loop-IsVerified fail_fast w w' [] os apart h k = tt
      loop-IsVerified fail_fast w w' (a ∷ more) os (plain, differ, apart) h k =
          let (w₁, x, os', one, rest, sealed) =
            seal_next-IsSealed (seal_beside w a) fail_fast _ w' os h k in
          let (verified, text, put) = seal_beside-ok w w₁ a x plain one in
          (
            IsVerified-read w₁.disk w'.disk a
                (loop-read fail_fast w₁ w' more os' a apart (all_apart a more plain) rest sealed)
                (loop-read fail_fast w₁ w' more os' (default_receipt_path a) apart
                  (all_receipts_apart a more differ) rest sealed)
                verified,
            loop-IsVerified fail_fast w₁ w' more os' apart rest sealed,
          )
