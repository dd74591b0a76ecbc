-- ===== src/Prelude/Outcome.antt =====
-- A computation that may panic, fail with an error, or return a value.
use mathlib.Core.Path.{◌≡◌, refl}
use mathlib.Core.Option.{Option, none, some}
use d_hotsuff.Prelude.Errors.{Error, Result, ok, err}

pub data Outcome {ℓ} (V : Type ℓ) : Type ℓ where
  panicked : Outcome V
  failed : Error → Outcome V
  done : V → Outcome V

infixl 5 ◌>>=◌
abbrev pub ◌>>=◌ {ℓ κ} : {V : Type ℓ} {W : Type κ} → Outcome V → (V → Outcome W) → Outcome W
panicked >>= k = panicked
failed e >>= k = failed e
done v >>= k = k v

-- A value that a panic leaves out.
abbrev pub present {ℓ} : {V : Type ℓ} → Option V → Outcome V
present none = panicked
present (some v) = done v

-- The result of a function that may also panic.
abbrev pub outcome_of {ℓ} : {V : Type ℓ} → Result (Option V) → Outcome V
outcome_of (err e) = failed e
outcome_of (ok v) = present v

-- To split on a computed outcome and keep the equation.
pub data View {ℓ} {V : Type ℓ} (o : Outcome V) : Type ℓ where
  is_panicked : o ≡ panicked → View o
  is_failed : (e : Error) → o ≡ failed e → View o
  is_done : (v : V) → o ≡ done v → View o

pub Outcome-cases {ℓ} : {V : Type ℓ} (o : Outcome V) → View o
Outcome-cases panicked = is_panicked refl
Outcome-cases (failed e) = is_failed e refl
Outcome-cases (done v) = is_done v refl
