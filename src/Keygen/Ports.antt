-- ===== src/Keygen/Ports.antt =====
-- The ports in the addresses that keygen prints.
use native.Mathlib.Decide.{dec_lt}
use d_hotsuff.Prelude.{ℕ, ◌≤◌, ◌<◌, ◌↔◌, Bytes, drop, arith}
use d_hotsuff.Prelude.Decimal.{reading, reading-decimal_ge, reading-decimal_lt}
use d_hotsuff.Keygen.{address_of}

-- The number that the text of an address has behind its colon.
abbrev pub port_of : Bytes → ℕ
port_of address = reading 0 (drop 10 address)

-- The port in the i-th address that keygen prints is at most 65535 exactly if i is below 10.
pub port_valid_iff : (i : ℕ) → (port_of (address_of i) ≤ 65535) ↔ (i < 10)
unfolding address_of reading
port_valid_iff i = elim (dec_lt i 10) [
  | yes few ↦ (λ _. few, λ _. omega (arith, reading-decimal_lt 800 i few))
  | no many ↦ (
    λ small. absurd (omega (arith, reading-decimal_ge 800 i (omega arith))),
    λ few. absurd (many few),
  )
]
