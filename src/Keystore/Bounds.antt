-- ===== src/Keystore/Bounds.antt =====
-- The length field of the blob, and the end of the header that it gives.
use apohara_sealchain.Prelude.Slices.{to_le_bytes, from_le_bytes}
use apohara_sealchain.Prelude.{ℕ, ◌+◌, ◌^◌, ◌≡◌, ◌≤◌, ◌<◌, refl, length, some, All, arith}
use apohara_sealchain.Keystore.{header_end_of}

-- The length field of a header shorter than 2 ^ 32 is four bytes, and reads back as the length.
pub to_le_bytes_lem :
    (n : ℕ)
    → n < 2 ^ 32
    → (length (to_le_bytes n) ≡ 4)
      × All (λ b. b < 256) (to_le_bytes n)
      × (from_le_bytes (to_le_bytes n) ≡ n)
unfolding to_le_bytes from_le_bytes
to_le_bytes_lem n h = (refl, omega arith, omega arith)

pub header_end_of_within :
    (n len : ℕ) → n < 2 ^ 32 → 8 + n ≤ len → header_end_of n len ≡ some (8 + n)
unfolding header_end_of
header_end_of_within n len h k = ground arith
