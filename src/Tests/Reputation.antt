-- ===== src/Tests/Reputation.antt =====
-- The choice of a leader by score, with scores that are natural numbers.
use d_hotsuff.Prelude.{◌+◌, ◌*◌, ◌/◌, ◌≡◌, ◌≢◌, bytes_eq, not, some, [], ◌∷◌, ltb, nat_beq, arith}
use d_hotsuff.Prelude.Table.{lookup}
use d_hotsuff.Reputation.{Floats, Float64, score, Store, Scored, scored, select}
use d_hotsuff.Reputation.Selection.{IsOrdered, Among, Highest, select-Highest}
use d_hotsuff.Tests.Fixtures.{four}

abbrev naturals : Floats
naturals = record {
  from_u64 = λ n. n;
  plus = λ a b. a + b;
  times = λ a b. a * b;
  divide = λ a b. a / b;
  greater = λ a b. ltb b a;
  differs = λ a b. not (nat_beq a b);
  one = 1;
  low = 1;
  high = 1;
  default_alpha = 1;
  default_beta = 0;
}

-- Every pattern but 1000 is a number.
abbrev IsNatural : Float64 → Type 0
IsNatural a = a ≢ 1000

naturals-IsOrdered : IsOrdered naturals IsNatural
naturals-IsOrdered = record {
  irrefl = λ a n. ground arith;
  trans = λ a b c n m o h k. ground (arith, h, k);
  cotrans = λ a b c n m o h. ground (arith, h);
  differs_iff = λ a b n m. ground arith;
}

-- Replica 3 has led to a commit in every round, replica 1 in none.
abbrev led : Store
led = record {
  stats =
      (
        1 ∷ [],
        record { rounds_as_leader = 4; committed_as_leader = 0; timeouts = 4; last_led_height = 0 },
      )
      ∷ (
        3 ∷ [],
        record { rounds_as_leader = 4; committed_as_leader = 8; timeouts = 0; last_led_height = 9 },
      )
      ∷ [];
  alpha = 1;
  beta = 0;
}

select-Highest_example :
    (chosen : Scored) × (select naturals led four 9 ≡ some chosen.r)
    × Among chosen (scored naturals led 9 four.replicas)
    × Highest naturals chosen (scored naturals led 9 four.replicas)
unfolding score lookup bytes_eq
select-Highest_example =
    select-Highest naturals IsNatural led four 9 naturals-IsOrdered (omega arith) (
      λ e. absurd (omega (arith, e)),
      (
        λ e. absurd (omega (arith, e)),
        (λ e. absurd (omega (arith, e)), (λ e. absurd (omega (arith, e)), tt)),
      ),
    )
