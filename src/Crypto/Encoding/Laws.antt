-- ===== src/Crypto/Encoding/Laws.antt =====
-- The encodings of signer.go, read back.
use d_hotsuff.Prelude.{
  ℕ, zero, suc, ◌+◌, ◌*◌, ◌/◌, ◌%◌, ◌^◌, ◌≤◌, ◌<◌, ◌≡◌, refl, ap, ◌∙◌, sym, Bytes, [], ◌∷◌, ◌++◌,
  nat_beq, Bool-cases, inl, inr, length, u64, arith,
}
use native.Mathlib.Nat.{pow-suc}
use d_hotsuff.Crypto.Encoding.{be64, from_bytes, to_bytes_from, to_bytes}

-- A 64-bit word is read back from its eight bytes.
pub from_bytes-be64 : (v : ℕ) → v < u64 → from_bytes 0 (be64 v) ≡ v
unfolding from_bytes be64
from_bytes-be64 v h = omega arith

pub be64-injective : (v w : ℕ) → v < u64 → w < u64 → be64 v ≡ be64 w → v ≡ w
be64-injective v w h h' e = sym (from_bytes-be64 v h) ∙ ap (from_bytes 0) e ∙ from_bytes-be64 w h'

pub length-be64 : (v : ℕ) → length (be64 v) ≡ 8
unfolding be64
length-be64 v = refl

from_bytes-append :
    (acc : ℕ) (bs cs : Bytes) → from_bytes acc (bs ++ cs) ≡ from_bytes (from_bytes acc bs) cs
unfolding from_bytes
from_bytes-append acc [] cs = refl
from_bytes-append acc (b ∷ bs) cs = from_bytes-append (acc * 256 + b) bs cs

-- `out` are the low bytes already written.
from_bytes-to_bytes_from :
    (fuel n : ℕ) (out : Bytes)
    → n ≤ fuel
    → from_bytes 0 (to_bytes_from fuel n out) ≡ from_bytes n out
unfolding to_bytes_from from_bytes
from_bytes-to_bytes_from zero n out h = let e : n ≡ 0 = omega arith in rw e refl
from_bytes-to_bytes_from (suc fuel) n out h = elim (Bool-cases (nat_beq n 0)) [
  | inl done ↦ let e : n ≡ 0 = ground arith in rw done (rw e refl)
  | inr more ↦
      let e : n / 256 * 256 + n % 256 ≡ n = omega arith in
      let rest = from_bytes-to_bytes_from fuel (n / 256) ((n % 256) ∷ out) (ground arith) in
      rw more (rest ∙ ap (λ (m : ℕ). from_bytes m out) e)
]

-- A number is read back from its bytes.
pub from_bytes-to_bytes : (n : ℕ) → from_bytes 0 (to_bytes n) ≡ n
unfolding to_bytes from_bytes
from_bytes-to_bytes n = from_bytes-to_bytes_from n n [] (omega arith)

length-to_bytes_from-le :
    (k fuel n : ℕ) (out : Bytes) → n < 256 ^ k → length (to_bytes_from fuel n out) ≤ k + length out
unfolding to_bytes_from
length-to_bytes_from-le k zero n out h = omega arith
length-to_bytes_from-le zero (suc fuel) n out h = ground arith
length-to_bytes_from-le (suc k) (suc fuel) n out h =
    ground (arith, pow-suc 256 k, length-to_bytes_from-le k fuel (n / 256) ((n % 256) ∷ out))

-- A number below 256 ^ k has at most k bytes.
pub length-to_bytes-le : (k n : ℕ) → n < 256 ^ k → length (to_bytes n) ≤ k
unfolding to_bytes
length-to_bytes-le k n h = omega (arith, length-to_bytes_from-le k n n [] h)
