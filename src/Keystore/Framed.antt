-- ===== src/Keystore/Framed.antt =====
-- The blobs that decryption takes apart.
use apohara_sealchain.Prelude.Slices.{
  take, drop, slice, from_le_bytes, take-append, drop-append, take-drop, length-take, length-drop,
  drop-drop,
}
use apohara_sealchain.Prelude.{
  ℕ, ◌+◌, ◌-◌, ◌^◌, ◌≡◌, ◌≤◌, ◌<◌, ◌↔◌, refl, sym, ap, ◌∙◌, String, Bytes, Bool, true, ◌++◌, ◌&&◌,
  not, ltb, length, length-append, arith, some, bytes_eq, bytes_eq_iff, bytes_eq_refl, false,
  Option, none, [], ◌∷◌,
}
use apohara_sealchain.Error.{
  SealError, Result, ok, err, ensure, ok_or, map_err, >>=-eq-ok, ok_injective,
}
use apohara_sealchain.Crypto.{Crypto}
use apohara_sealchain.Keystore.RoundTrip.{decrypt_secret_parts}
use apohara_sealchain.Keystore.{
  KeystoreCrates, Secret, enc_magic, EncHeader, header_end_of, open_secret, decrypt_secret,
}

-- The magic, four bytes that hold the length of the header, the header, and the ciphertext.
abbrev pub framed : Bytes → Bytes → Bytes → Bytes
framed len header_json ciphertext = enc_magic ++ (len ++ (header_json ++ ciphertext))

-- A blob of which the first four bytes are the magic and whose header ends within it.
abbrev IsDelimited : Bytes → ℕ → Type 0
IsDelimited blob end =
    (take 4 blob ≡ enc_magic)
    × (8 ≤ length blob)
    × (end ≡ 8 + from_le_bytes (slice 4 8 blob))
    × (end ≤ length blob)

parts_of_IsDelimited :
    (blob : Bytes) (end : ℕ)
    → IsDelimited blob end
    → (blob ≡ framed (slice 4 8 blob) (slice 8 end blob) (drop end blob))
      × (length (slice 4 8 blob) ≡ 4)
      × (from_le_bytes (slice 4 8 blob) ≡ length (slice 8 end blob))
parts_of_IsDelimited blob end (magic, long, ends, within) =
    let after : drop 4 (drop 4 blob) ≡ drop 8 blob = drop-drop 4 4 blob in
    let back : 8 + (end - 8) ≡ end = omega (arith, ends) in
    let past : drop (end - 8) (drop 8 blob) ≡ drop end blob =
      drop-drop (end - 8) 8 blob ∙ ap (λ m. drop m blob) back in
    let inner : (slice 8 end blob ++ drop end blob) ≡ drop 8 blob =
      ap (λ t. slice 8 end blob ++ t) (sym past) ∙ take-drop (end - 8) (drop 8 blob) in
    let middle : (slice 4 8 blob ++ drop 8 blob) ≡ drop 4 blob =
      ap (λ t. slice 4 8 blob ++ t) (sym after) ∙ take-drop 4 (drop 4 blob) in
    let whole : framed (slice 4 8 blob) (slice 8 end blob) (drop end blob) ≡ blob =
      ap (λ t. enc_magic ++ (slice 4 8 blob ++ t)) inner
      ∙ ap (λ t. enc_magic ++ t) middle
      ∙ ap (λ t. t ++ drop 4 blob) (sym magic)
      ∙ take-drop 4 blob in
    let rest : end - 8 ≤ length (drop 8 blob) = omega (arith, within, length-drop 8 blob) in
    let size : length (slice 8 end blob) ≡ end - 8 = length-take (end - 8) (drop 8 blob) rest in
    (
      sym whole,
      length-take 4 (drop 4 blob) (omega (arith, long, length-drop 4 blob)),
      omega (arith, ends, size),
    )

header_end_of-some :
    (n size end : ℕ) → header_end_of n size ≡ some end → (end ≡ 8 + n) × (end ≤ size)
unfolding header_end_of
header_end_of-some n size end h = ground arith

header_end_of_fits :
    (n size : ℕ) → 8 + n ≤ size → size < 2 ^ 64 → header_end_of n size ≡ some (8 + n)
unfolding header_end_of
header_end_of_fits n size h k = ground arith

map_err-eq-ok :
    {E F A : Type 0} (f : E → F) (m : Result E A) (a : A) → map_err f m ≡ ok a → m ≡ ok a
map_err-eq-ok f (ok b) a h = ap ok (ok_injective h)
map_err-eq-ok f (err e) a h = cc

ok_or-eq-ok : {E A : Type 0} (e : E) (o : Option A) (a : A) → ok_or e o ≡ ok a → o ≡ some a
ok_or-eq-ok e none a h = cc
ok_or-eq-ok e (some b) a h = ap some (ok_injective h)

ensure-eq-ok : (b : Bool) (e : SealError) {u : Unit {0}} → ensure b e ≡ ok u → b ≡ true
ensure-eq-ok true e h = refl
ensure-eq-ok false e h = cc

four_bytes :
    (len : Bytes)
    → length len ≡ 4
    → (a : ℕ) × (b : ℕ) × (d : ℕ) × (f : ℕ) × (len ≡ (a ∷ b ∷ d ∷ f ∷ []))
four_bytes (a ∷ b ∷ d ∷ f ∷ []) h = (a, b, d, f, refl)
four_bytes [] h = absurd (omega (arith, h))
four_bytes (a ∷ []) h = absurd (omega (arith, h))
four_bytes (a ∷ b ∷ []) h = absurd (omega (arith, h))
four_bytes (a ∷ b ∷ d ∷ []) h = absurd (omega (arith, h))
four_bytes (a ∷ b ∷ d ∷ f ∷ (g ∷ rest)) h = absurd (omega (arith, h))

drop-framed :
    (a b d f : ℕ) (header_json ciphertext : Bytes) (n : ℕ)
    → drop (8 + n) (framed (a ∷ b ∷ d ∷ f ∷ []) header_json ciphertext)
      ≡ drop n (header_json ++ ciphertext)
drop-framed a b d f header_json ciphertext n = ground arith

module _ (c : Crypto) (k : KeystoreCrates c) where
  decrypted_parts :
      (blob : Bytes) (pass : String) (secret : Secret)
      → decrypt_secret c k blob pass ≡ ok secret
      → (end : ℕ) × (header : EncHeader) × IsDelimited blob end
        × (k.header_from_slice (slice 8 end blob) ≡ ok header)
        × (open_secret c k header (drop end blob) pass ≡ ok secret)
  unfolding decrypt_secret
  decrypted_parts blob pass secret h =
      let (u, checked, h₁) =
        >>=-eq-ok (ensure (not (ltb (length blob) 8) && bytes_eq (take 4 blob) enc_magic) _) _ h in
      let (end, delimited, h₂) =
        >>=-eq-ok (ok_or _ (header_end_of (from_le_bytes (slice 4 8 blob)) (length blob))) _ h₁ in
      let (header, read, h₃) =
        >>=-eq-ok (map_err _ (k.header_from_slice (slice 8 end blob))) _ h₂ in
      let good = ensure-eq-ok _ _ checked in
      let is_long : 8 ≤ length blob = ground (arith, good) in
      let is_magic : bytes_eq (take 4 blob) enc_magic ≡ true = ground (arith, good) in
      let (ends, within) = header_end_of-some (from_le_bytes (slice 4 8 blob)) (length blob) end (
        ok_or-eq-ok _ (header_end_of (from_le_bytes (slice 4 8 blob)) (length blob)) end
          delimited) in
      (
        end,
        header,
        ((bytes_eq_iff (take 4 blob) enc_magic).0 is_magic, is_long, ends, within),
        map_err-eq-ok _ (k.header_from_slice (slice 8 end blob)) header read,
        h₃,
      )

  decrypt_secret-framed :
      (a b d f : ℕ) (header_json ciphertext : Bytes) (header : EncHeader) (pass : String)
      → from_le_bytes (a ∷ b ∷ d ∷ f ∷ []) ≡ length header_json
      → length (framed (a ∷ b ∷ d ∷ f ∷ []) header_json ciphertext) < 2 ^ 64
      → k.header_from_slice header_json ≡ ok header
      → decrypt_secret c k (framed (a ∷ b ∷ d ∷ f ∷ []) header_json ciphertext) pass
        ≡ open_secret c k header ciphertext pass
  decrypt_secret-framed a b d f header_json ciphertext header pass size fits reads =
      let blob = framed (a ∷ b ∷ d ∷ f ∷ []) header_json ciphertext in
      let total : length blob ≡ 8 + (length header_json + length ciphertext) =
        omega (arith, length-append {0} header_json ciphertext) in
      let width : 8 + length header_json - 8 ≡ length header_json = omega arith in
      decrypt_secret_parts c k blob header_json ciphertext header pass (ground (arith, total))
        (bytes_eq_refl enc_magic) size
        (header_end_of_fits (length header_json) (length blob) (omega (arith, total)) fits)
        (rw width (take-append header_json ciphertext))
        (drop-framed a b d f header_json ciphertext (length header_json)
          ∙ drop-append header_json ciphertext)
        reads

  -- Decryption of a blob whose length is a `usize` gives a secret exactly when the blob is the magic, four
  -- bytes that hold the length of the header, a header that reads and a ciphertext, with no byte left over,
  -- and the header and the ciphertext open to the secret.
  pub decrypt_secret_iff :
      (blob : Bytes) (pass : String) (secret : Secret)
      → length blob < 2 ^ 64
      → (decrypt_secret c k blob pass ≡ ok secret) ↔ (
          (len : Bytes) × (header_json : Bytes) × (ciphertext : Bytes) × (header : EncHeader)
          × (blob ≡ framed len header_json ciphertext)
          × (length len ≡ 4)
          × (from_le_bytes len ≡ length header_json)
          × (k.header_from_slice header_json ≡ ok header)
          × (open_secret c k header ciphertext pass ≡ ok secret))
  decrypt_secret_iff blob pass secret fits = (
    λ h.
        let (end, header, delimited, read, opened) = decrypted_parts blob pass secret h in
        let (whole, width, size) = parts_of_IsDelimited blob end delimited in
        (slice 4 8 blob, slice 8 end blob, drop end blob, header, whole, width, size, read, opened),
    λ (len, header_json, ciphertext, header, whole, width, size, read, opened).
        let (a, b, d, f, bytes) = four_bytes len width in
        let same : blob ≡ framed (a ∷ b ∷ d ∷ f ∷ []) header_json ciphertext =
          whole ∙ ap (λ l. framed l header_json ciphertext) bytes in
        ap (λ x. decrypt_secret c k x pass) same
        ∙ decrypt_secret-framed a b d f header_json ciphertext header pass
            (ap from_le_bytes (sym bytes) ∙ size) (rw same at fits) read
        ∙ opened,
  )
