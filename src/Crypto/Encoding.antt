-- ===== src/Crypto/Encoding.antt =====
-- The byte encodings of signer.go and safety.go: big-endian words, and `big.Int`.
pub mod Laws
use d_hotsuff.Prelude.{
  ℕ, zero, suc, ◌+◌, ◌*◌, ◌/◌, ◌%◌, ◌^◌, Bytes, List, [], ◌∷◌, ◌++◌, nat_beq, if◌then◌else◌, length,
  take, drop,
}

-- byte(v >> 56), …, byte(v)
unfoldable pub be64 : ℕ → Bytes
be64 v =
    (v / 2 ^ 56 % 256)
    ∷ (v / 2 ^ 48 % 256)
    ∷ (v / 2 ^ 40 % 256)
    ∷ (v / 2 ^ 32 % 256)
    ∷ (v / 2 ^ 24 % 256)
    ∷ (v / 2 ^ 16 % 256)
    ∷ (v / 2 ^ 8 % 256)
    ∷ (v % 256)
    ∷ []

-- big.Int.SetBytes: the number that big-endian bytes stand for
unfoldable pub from_bytes : ℕ → Bytes → ℕ
from_bytes acc [] = acc
from_bytes acc (b ∷ bs) = from_bytes (acc * 256 + b) bs

-- big.Int.Bytes: the big-endian bytes with no leading zero. A number is below 2 to its own power,
-- so as many rounds as the number suffice.
unfoldable pub to_bytes_from : ℕ → ℕ → Bytes → Bytes
to_bytes_from zero n out = out
to_bytes_from (suc fuel) n out =
    let rest = to_bytes_from fuel (n / 256) ((n % 256) ∷ out) in if nat_beq n 0 then out else rest

unfoldable pub to_bytes : ℕ → Bytes
unfolding to_bytes_from
to_bytes n = to_bytes_from n n []

-- copy(dst[at:], src), where `src` fits
unfoldable pub copy_at : ℕ → Bytes → Bytes → Bytes
copy_at at src dst = take at dst ++ src ++ drop (at + length src) dst
