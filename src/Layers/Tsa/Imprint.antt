-- ===== src/Layers/Tsa/Imprint.antt =====
-- The pass bar of a timestamp is its imprint.
use apohara_sealchain.Prelude.{
  false≢true, ◌≡◌, ◌↔◌, refl, String, Bytes, true, Option, none, some, List,
}
use apohara_sealchain.Error.{Result, ok, err}
use apohara_sealchain.Layers.Tsa.{
  Token, verified, hash_mismatch, refused, TsaCrates, decode_roots, chain_result, with_roots,
  after_imprint, imprint_result, verify_token,
}

module _ (crates : TsaCrates) (der to_stamp : Bytes) where
  chain_passes : (t : Token) → (chain_result crates t).ok ≡ true
  unfolding chain_result
  chain_passes (verified time) = refl
  chain_passes (hash_mismatch e) = refl
  chain_passes (refused e) = refl

  with_roots_passes :
      (r : Result String (List crates.Root)) → (with_roots crates der to_stamp r).ok ≡ true
  unfolding with_roots
  with_roots_passes (ok roots) = chain_passes (crates.check_chain der to_stamp roots)
  with_roots_passes (err reason) = refl

  after_imprint_passes : (root : Option Bytes) → (after_imprint crates der to_stamp root).ok ≡ true
  unfolding after_imprint
  after_imprint_passes none = refl
  after_imprint_passes (some pem) = with_roots_passes (decode_roots crates pem)

  imprint_passes :
      (root : Option Bytes) (t : Token)
      → ((imprint_result crates der to_stamp root t).ok ≡ true)
        ↔ ((time : String) × (t ≡ verified time))
  unfolding imprint_result
  imprint_passes root (verified time) = ((λ h. (time, refl)), λ h. after_imprint_passes root)
  imprint_passes root (hash_mismatch e) = ((λ h. absurd (false≢true h)), λ (time, h). cc)
  imprint_passes root (refused e) = ((λ h. absurd (false≢true h)), λ (time, h). cc)

  -- A token passes exactly when the check without trust roots accepts it over the stamped bytes;
  -- whether roots are configured, and what the chain check over them says, never decides.
  pub verify_token_iff :
      (root : Option Bytes)
      → ((verify_token crates der to_stamp root).ok ≡ true)
        ↔ ((time : String) × (crates.check der to_stamp ≡ verified time))
  unfolding verify_token
  verify_token_iff root = imprint_passes root (crates.check der to_stamp)
