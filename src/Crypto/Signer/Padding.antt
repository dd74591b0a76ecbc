-- ===== src/Crypto/Signer/Padding.antt =====
-- The zero-padded layout of a signature.
use d_hotsuff.Prelude.{
  ℕ, zero, suc, ◌+◌, ◌-◌, ◌≤◌, ◌≡◌, refl, ap, Bytes, List, [], ◌∷◌, ◌++◌, length, length-append,
  length-replicate, take, drop, replicate, arith,
}
use mathlib.Core.List.{append_assoc}
use d_hotsuff.Crypto.Encoding.{copy_at, from_bytes}

module _ {ℓ} {A : Type ℓ} where
  pub take-append_add :
      (xs ys : List A) (k n : ℕ) → n ≡ length xs + k → take n (xs ++ ys) ≡ xs ++ take k ys
  take-append_add [] ys k n e = rw e (ap (λ (m : ℕ). take m ys) (omega arith))
  take-append_add (x ∷ xs) ys k zero e = absurd (omega arith)
  take-append_add (x ∷ xs) ys k (suc n) e = ap (◌∷◌ x) (take-append_add xs ys k n (omega arith))

  pub drop-append_add :
      (xs ys : List A) (k n : ℕ) → n ≡ length xs + k → drop n (xs ++ ys) ≡ drop k ys
  drop-append_add [] ys k n e = rw e (ap (λ (m : ℕ). drop m ys) (omega arith))
  drop-append_add (x ∷ xs) ys k zero e = absurd (omega arith)
  drop-append_add (x ∷ xs) ys k (suc n) e = drop-append_add xs ys k n (omega arith)

  take-replicate : (i n : ℕ) (a : A) → i ≤ n → take i (replicate n a) ≡ replicate i a
  take-replicate zero n a h = refl
  take-replicate (suc i) zero a h = absurd (omega arith)
  take-replicate (suc i) (suc n) a h = ap (◌∷◌ a) (take-replicate i n a (omega arith))

  drop-replicate : (i n k : ℕ) (a : A) → n ≡ i + k → drop i (replicate n a) ≡ replicate k a
  drop-replicate zero n k a h = ap (λ (m : ℕ). replicate m a) (omega arith)
  drop-replicate (suc i) zero k a h = absurd (omega arith)
  drop-replicate (suc i) (suc n) k a h = drop-replicate i n k a (omega arith)

-- Zeros in front, up to a width.
abbrev pub padded : ℕ → Bytes → Bytes
padded width bs = replicate (width - length bs) 0 ++ bs

pub length-padded : (width : ℕ) (bs : Bytes) → length bs ≤ width → length (padded width bs) ≡ width
length-padded width bs h = omega (
  arith,
  length-append (replicate (width - length bs) 0) bs,
  length-replicate (width - length bs) (◌+◌ 0 0),
)

from_bytes-zeros : (n : ℕ) (bs : Bytes) → from_bytes 0 (replicate n 0 ++ bs) ≡ from_bytes 0 bs
unfolding from_bytes
from_bytes-zeros zero bs = refl
from_bytes-zeros (suc n) bs = from_bytes-zeros n bs

pub from_bytes-padded : (width : ℕ) (bs : Bytes) → from_bytes 0 (padded width bs) ≡ from_bytes 0 bs
from_bytes-padded width bs = from_bytes-zeros (width - length bs) bs

-- Copying to the end of a field of zeros pads the bytes.
pub copy_at-zeros :
    (width rest total at : ℕ) (front bs : Bytes)
    → length bs ≤ width
    → total ≡ width + rest
    → at + length bs ≡ length front + width
    → copy_at at bs (front ++ replicate total 0) ≡ (front ++ padded width bs) ++ replicate rest 0
unfolding copy_at
copy_at-zeros width rest total at front bs h t e =
    let gap = width - length bs in
    rw (
      take-append_add front (replicate total 0) gap at (omega arith),
      take-replicate gap total (◌+◌ 0 0) (omega arith),
      drop-append_add front (replicate total 0) width (at + length bs) e,
      drop-replicate width total rest (◌+◌ 0 0) t,
      append_assoc front (replicate gap 0) bs,
    )
