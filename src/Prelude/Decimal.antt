-- ===== src/Prelude/Decimal.antt =====
-- The verb %d of Go's fmt, for numbers that are not negative.
use Prim.Native.Nat.{ℕ, zero, suc, ◌+◌, ◌-◌, ◌*◌, ◌/◌, ◌%◌, ◌≤◌, ◌<◌}
use mathlib.Core.Path.{◌≡◌, refl, sym, ap, ◌∙◌}
use mathlib.Core.List.{[], ◌∷◌}
use native.Mathlib.Omega.{arith}
use d_hotsuff.Prelude.Bools.{ltb, ltb→lt, if◌then◌else◌, Bool-cases}
use mathlib.Core.Logic.{inl, inr}
use mathlib.Core.Bool.{true, false}
use d_hotsuff.Prelude.ByteStrings.{Bytes}
use d_hotsuff.Prelude.Lists.{All}

-- The digits, from the last to the first; a number exceeds the count of its digits less one.
decimal_from : ℕ → ℕ → Bytes → Bytes
decimal_from zero n tail = tail
decimal_from (suc rounds) n tail =
    let more = decimal_from rounds (n / 10) ((b'0' + n % 10) ∷ tail) in
    if ltb n 10 then (b'0' + n) ∷ tail else more

unfoldable pub decimal : ℕ → Bytes
unfolding decimal_from
decimal n = decimal_from (suc n) n []

-- The number that digits stand for, after those read before.
unfoldable pub reading : ℕ → Bytes → ℕ
reading acc [] = acc
reading acc (c ∷ cs) = reading (acc * 10 + (c - b'0')) cs

reading-decimal_from :
    (rounds n : ℕ) (tail : Bytes)
    → n < rounds
    → reading 0 (decimal_from rounds n tail) ≡ reading n tail
unfolding reading decimal_from
reading-decimal_from zero n tail h = absurd (omega arith)
reading-decimal_from (suc rounds) n tail h = ground (
  arith,
  reading-decimal_from rounds (n / 10) ((b'0' + n % 10) ∷ tail),
  ap (λ (m : ℕ). reading m tail) (last_digit n),
)
  where
    last_digit : (n : ℕ) → (n / 10) * 10 + (b'0' + n % 10 - b'0') ≡ n
    last_digit n = omega arith

reading-decimal : (n : ℕ) → reading 0 (decimal n) ≡ n
unfolding decimal reading
reading-decimal n = reading-decimal_from (suc n) n [] (omega arith)

-- Different numbers are written differently.
pub decimal-injective : (n m : ℕ) → decimal n ≡ decimal m → n ≡ m
decimal-injective n m e = sym (reading-decimal n) ∙ ap (reading 0) e ∙ reading-decimal m

le-reading : (acc : ℕ) (cs : Bytes) → acc ≤ reading acc cs
unfolding reading
le-reading acc [] = omega arith
le-reading acc (c ∷ cs) = omega (arith, le-reading (acc * 10 + (c - b'0')) cs)

-- Two digits or more.
decimal_from-two :
    (rounds n : ℕ) (d : ℕ) (tail : Bytes)
    → 0 < rounds
    → (c : ℕ) × (e : ℕ) × (more : Bytes) × (decimal_from rounds n (d ∷ tail) ≡ c ∷ e ∷ more)
unfolding decimal_from
decimal_from-two zero n d tail h = absurd (omega arith)
decimal_from-two (suc zero) n d tail h = elim (Bool-cases (ltb n 10)) [
  | inl few ↦ (b'0' + n, d, tail, rw few refl)
  | inr many ↦ (b'0' + n % 10, d, tail, rw many refl)
]
decimal_from-two (suc (suc rounds)) n d tail h = elim (Bool-cases (ltb n 10)) [
  | inl few ↦ (b'0' + n, d, tail, rw few refl)
  | inr many ↦
      let (c, e, more, eq) =
        decimal_from-two (suc rounds) (n / 10) (b'0' + n % 10) (d ∷ tail) (omega arith) in
      (c, e, more, rw many eq)
]

-- Digits put before those of a number of at least 10 count a hundredfold.
pub reading-decimal_ge : (acc n : ℕ) → 10 ≤ n → acc * 100 ≤ reading acc (decimal n)
unfolding decimal decimal_from reading
reading-decimal_ge acc zero h = absurd (omega arith)
reading-decimal_ge acc (suc n) h =
    let many : ltb (suc n) 10 ≡ false = ground arith in
    let (c, e, more, eq) =
      decimal_from-two (suc n) (suc n / 10) (b'0' + suc n % 10) [] (omega arith) in
    rw (many, eq) (omega (arith, le-reading ((acc * 10 + (c - b'0')) * 10 + (e - b'0')) more))

-- Put before one digit, they count tenfold.
pub reading-decimal_lt : (acc n : ℕ) → n < 10 → reading acc (decimal n) ≡ acc * 10 + n
unfolding decimal decimal_from reading
reading-decimal_lt acc n h = let few : ltb n 10 ≡ true = ground arith in rw few (omega arith)

decimal_from-All :
    (P : ℕ → Type 0) (rounds n : ℕ) (tail : Bytes)
    → ((d : ℕ) → d < 10 → P (b'0' + d))
    → All P tail
    → All P (decimal_from rounds n tail)
unfolding decimal_from
decimal_from-All P zero n tail digit h = h
decimal_from-All P (suc rounds) n tail digit h = elim (Bool-cases (ltb n 10)) [
  | inl few ↦ rw few (digit n (ltb→lt n 10 few), h)
  | inr many ↦ rw many (
      decimal_from-All P rounds (n / 10) ((b'0' + n % 10) ∷ tail) digit
        (digit (n % 10) (omega arith), h))
]

-- Whatever holds of the ten digits holds of every byte that is written.
pub decimal-All : (P : ℕ → Type 0) (n : ℕ) → ((d : ℕ) → d < 10 → P (b'0' + d)) → All P (decimal n)
unfolding decimal
decimal-All P n digit = decimal_from-All P (suc n) n [] digit tt
