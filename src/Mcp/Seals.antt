-- ===== src/Mcp/Seals.antt =====
-- crates/apohara-sealchain/src/mcp.rs: what the tool `seal_artifact` has sealed, `verify_receipt` passes.
use apohara_sealchain.Prelude.{
  ◌≡◌, refl, ap, sym, ◌∙◌, subst, String, Bytes, Bool, true, false, List, none, some,
}
use apohara_sealchain.Error.{SealError, Result, ok, err, ok_injective}
use apohara_sealchain.Json.{Value, bool, object, field, end, get, get_field}
use apohara_sealchain.Crypto.{CryptoLaws}
use apohara_sealchain.Schema.{SealedRecord, record_to_value, record_from_value}
use apohara_sealchain.Schema.RoundTrip.{record_from_value-record_to_value}
use apohara_sealchain.LayerResult.{LayerResult}
use apohara_sealchain.Layers.C2pa.Binding.{MediaLaws}
use apohara_sealchain.Policy.{Chrono}
use apohara_sealchain.Artifact.{Crates, verify_artifact_bytes}
use apohara_sealchain.Artifact.Agrees.{all_ok}
use apohara_sealchain.Artifact.Keyless.{verify_artifact_bytes_keyless}
use apohara_sealchain.Sealing.{Keys, seal_artifact}
use apohara_sealchain.Sealing.Shape.{offline}
use apohara_sealchain.Sealing.Receipts.{verify-seal_artifact, seal_artifact-IsWritable}
use apohara_sealchain.Keystore.Operations.{load_or_generate}
use apohara_sealchain.Cli.{verify_artifact}
use apohara_sealchain.Cli.RunSeal.{System, World, shell, default_receipt_path}
use apohara_sealchain.Cli.RunSeal.Places.{own_receipt_apart}
use apohara_sealchain.Cli.RunSeal.Bundle.{IsBundle, opened-IsBundle}
use apohara_sealchain.Cli.RunSeal.Kept.{SystemLaws}
use apohara_sealchain.Mcp.{
  SealParams, VerifyParams, layers_json, read_record, verdict_with, verify_outcome, options_of,
  verify_written, answer_written, answer_serialized, answer_sealed, answer_with, seal_outcome,
}

-- Without the network and without embedding.
abbrev pub offline_params : SealParams → SealParams
offline_params params = record params { embed = false; tsa = none; rekor = none; all = false }

abbrev pub verify_beside : String → VerifyParams
verify_beside path = record { path = path; receipt = default_receipt_path path; profile = none }

module _ (e : Crates) (chrono : Chrono) (sys : System e chrono) where
  answer_written-ok :
      (path : String) (keys : Keys e.crypto) (r : SealedRecord) (w w' : World e chrono sys)
      (m : Result String sys.env.Disk) (out : Value)
      → answer_written e chrono sys path keys r w m ≡ (w', ok out)
      → (m ≡ ok w'.disk) × (verify_written e chrono sys path keys r w'.disk ≡ ok out)
  unfolding answer_written
  answer_written-ok path keys r w w' (err x) out h = cc
  answer_written-ok path keys r w w' (ok disk) out h =
      let same = ap (λ v. v.0.disk) h in
      (
        ap ok same,
        subst (λ d. verify_written e chrono sys path keys r d ≡ ok out) same (ap (λ v. v.1) h),
      )

  answer_serialized-ok :
      (path : String) (keys : Keys e.crypto) (r : SealedRecord) (w w' : World e chrono sys)
      (m : Result String Bytes) (out : Value)
      → answer_serialized e chrono sys path keys r w m ≡ (w', ok out)
      → (text : Bytes) × (m ≡ ok text)
        × (sys.env.write w.disk (default_receipt_path path) text ≡ ok w'.disk)
        × (verify_written e chrono sys path keys r w'.disk ≡ ok out)
  unfolding answer_serialized
  answer_serialized-ok path keys r w w' (err x) out h = cc
  answer_serialized-ok path keys r w w' (ok text) out h =
      let (put, checked) =
        answer_written-ok path keys r w w' (sys.env.write w.disk (default_receipt_path path) text)
          out h in
      (text, refl, put, checked)

  answer_sealed-ok :
      (path : String) (keys : Keys e.crypto) (w w' : World e chrono sys)
      (m : sys.env.Disk × Result SealError SealedRecord) (out : Value)
      → answer_sealed e chrono sys path keys w m ≡ (w', ok out)
      → (r : SealedRecord) × (text : Bytes) × (m.1 ≡ ok r)
        × (sys.to_string_pretty (record_to_value r) ≡ ok text)
        × (sys.env.write m.0 (default_receipt_path path) text ≡ ok w'.disk)
        × (verify_written e chrono sys path keys r w'.disk ≡ ok out)
  unfolding answer_sealed
  answer_sealed-ok path keys w w' (disk, err x) out h = cc
  answer_sealed-ok path keys w w' (disk, ok r) out h =
      let (text, printed, put, checked) =
        answer_serialized-ok path keys r (record w { disk = disk }) w'
          (sys.to_string_pretty (record_to_value r)) out h in
      (r, text, refl, printed, put, checked)

  answer_with-ok :
      (params : SealParams) (w w' : World e chrono sys) (m : Result SealError (Keys e.crypto))
      (out : Value)
      → answer_with e chrono sys params w m ≡ (w', ok out)
      → (keys : Keys e.crypto) × (m ≡ ok keys)
        × (answer_sealed e chrono sys params.path keys w
              (seal_artifact e sys.env keys w.disk params.path (options_of e chrono sys params))
            ≡ (w', ok out))
  unfolding answer_with
  answer_with-ok params w w' (err x) out h = cc
  answer_with-ok params w w' (ok keys) out h = (keys, refl, h)

  layers_lem :
      (path : String) (keys : Keys e.crypto) (r : SealedRecord) (disk : sys.env.Disk) (b : Bytes)
      (results : List LayerResult) (out : Value)
      → sys.env.read disk path ≡ ok b
      → verify_artifact_bytes e b r (some keys.hmac) ≡ ok results
      → verify_written e chrono sys path keys r disk ≡ ok out
      → get out "layers" ≡ some (layers_json results)
  unfolding verify_written verify_artifact get get_field
  layers_lem path keys r disk b results out held verified h =
      let made = ok_injective (rw (held, verified) at h) in ap (λ v. get v "layers") (sym made)

  module _ (laws : CryptoLaws e.crypto) (media_laws : MediaLaws e.crypto e.media)
      (files : SystemLaws e chrono sys) where
    -- The receipt that was written verifies without the secret.
    verify_beside_ok :
        (disk : sys.env.Disk) (path : String) (b text : Bytes) (r : SealedRecord)
        (results : List LayerResult)
        → sys.env.read disk path ≡ ok b
        → sys.env.read disk (default_receipt_path path) ≡ ok text
        → (s : String) × (sys.from_utf8 text ≡ ok s) × (sys.parse_json s ≡ ok (record_to_value r))
        → record_from_value (record_to_value r) ≡ ok r
        → verify_artifact_bytes e b r none ≡ ok results
        → all_ok results ≡ true
        → (answer : Value) × (verify_outcome e chrono (shell e chrono sys disk) (verify_beside path)
            ≡ ok answer)
          × (get answer "ok" ≡ some (bool true))
    unfolding verify_outcome read_record verify_artifact verdict_with get get_field
    verify_beside_ok disk path b text r results held stored (s, utf8, parsed) read verified good = (
      object (field "ok" (bool (all_ok results)) (field "layers" (layers_json results) end)),
      rw (stored, utf8, parsed, read, held, verified) refl,
      rw good refl,
    )

    sealed_outcome :
        (path : String) (keys : Keys e.crypto) (with_c2pa ai : Bool)
        → IsBundle e.crypto keys
        → (w w' : World e chrono sys) (out : Value)
        → answer_sealed e chrono sys path keys w
            (seal_artifact e sys.env keys w.disk path (offline none with_c2pa ai))
          ≡ (w', ok out)
        → (results : List LayerResult) × (get out "layers" ≡ some (layers_json results))
          × (all_ok results ≡ true)
          × (answer : Value) × (verify_outcome e chrono
                (shell e chrono sys w'.disk)
                (verify_beside path)
              ≡ ok answer)
          × (get answer "ok" ≡ some (bool true))
    sealed_outcome path keys with_c2pa ai bundle w w' out h =
        let m = seal_artifact e sys.env keys w.disk path (offline none with_c2pa ai) in
        let (r, text, made, printed, put, checked) = answer_sealed-ok path keys w w' m out h in
        let sealed : m ≡ (m.0, ok r) = ap (λ o. (m.0, o)) made in
        let (same, b, held, results, verified, good) =
          verify-seal_artifact e sys.env keys laws media_laws w.disk m.0 path none with_c2pa ai r
            bundle sealed in
        let kept =
          files.read-write_other m.0 w'.disk (default_receipt_path path) path text put
            (own_receipt_apart path)
          ∙ (ap (λ d. sys.env.read d path) same ∙ held) in
        let writable =
          seal_artifact-IsWritable e sys.env keys w.disk m.0 path none with_c2pa ai r sealed in
        let (others, without, fine) =
          verify_artifact_bytes_keyless e b r keys.hmac results verified good in
        let (answer, answered, passes) =
          verify_beside_ok w'.disk path b text r others kept
            (files.read-write m.0 w'.disk (default_receipt_path path) text put)
            (files.parse-print r text printed) (record_from_value-record_to_value r writable)
            without fine in
        (
          results,
          layers_lem path keys r w'.disk b results out kept verified checked,
          good,
          answer,
          answered,
          passes,
        )

    -- When the tool `seal_artifact` answers, without the network and without embedding, the layers of
    -- its answer are the results of a verification and are all passes, and on the disk that it leaves
    -- `verify_receipt` of the file with the receipt beside it answers that it is ok, without the
    -- secret. The crates and the disk are assumed to keep their laws.
    pub verify_outcome-seal_outcome :
        (params : SealParams) (w w' : World e chrono sys) (out : Value)
        → seal_outcome e chrono sys (offline_params params) w ≡ (w', ok out)
        → (results : List LayerResult) × (get out "layers" ≡ some (layers_json results))
          × (all_ok results ≡ true)
          × (answer : Value) × (verify_outcome e chrono
                (shell e chrono sys w'.disk)
                (verify_beside params.path)
              ≡ ok answer)
          × (get answer "ok" ≡ some (bool true))
    unfolding seal_outcome load_or_generate options_of
    verify_outcome-seal_outcome params w w' out h =
        let opened = load_or_generate e.crypto sys.keystore sys.faults sys.host sys.fresh w.keys in
        let (keys, found, h₁) =
          answer_with-ok (offline_params params) (record w { keys = opened.0 }) w' opened.1 out h in
        let bundle =
          opened-IsBundle e.crypto sys.keystore sys.faults sys.host none sys.fresh w.keys opened.0
            keys (ap (λ r. (opened.0, r)) found) in
        sealed_outcome params.path keys params.c2pa params.ai_generated bundle
          (record w { keys = opened.0 }) w' out h₁
