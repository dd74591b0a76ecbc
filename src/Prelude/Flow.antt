-- ===== src/Prelude/Flow.antt =====
-- The control flow of a handler: a panic, an early return with the state then reached, or the
-- state with which the handler goes on.
use mathlib.Core.Path.{◌≡◌, refl, subst}
use mathlib.Core.Option.{Option, none, some}

pub data Flow {ℓ} (S : Type ℓ) : Type ℓ where
  panic : Flow S
  returned : S → Flow S
  next : S → Flow S

infixl 5 ◌>>=◌
abbrev pub ◌>>=◌ {ℓ} : {S : Type ℓ} → Flow S → (S → Flow S) → Flow S
panic >>= f = panic
returned s >>= f = returned s
next s >>= f = f s

-- A computation that panics on `none`.
abbrev pub demand {ℓ κ} : {A : Type ℓ} {S : Type κ} → Option A → (A → Flow S) → Flow S
demand none f = panic
demand (some a) f = f a

-- A property of whatever state a handler leaves; a panic leaves none.
abbrev pub Leaves {ℓ κ} : {S : Type ℓ} → (S → Type κ) → Flow S → Type κ
Leaves P panic = Unit
Leaves P (returned s) = P s
Leaves P (next s) = P s

pub Leaves-bind {ℓ κ} :
    {S : Type ℓ} (P : S → Type κ) (m : Flow S) (f : S → Flow S)
    → Leaves P m
    → ((s : S) → P s → Leaves P (f s))
    → Leaves P (m >>= f)
Leaves-bind P panic f h k = tt
Leaves-bind P (returned s) f h k = h
Leaves-bind P (next s) f h k = k s h

pub Leaves-demand {ℓ κ μ} :
    {A : Type ℓ} {S : Type κ} (P : S → Type μ) (o : Option A) (f : A → Flow S)
    → ((a : A) → o ≡ some a → Leaves P (f a))
    → Leaves P (demand o f)
Leaves-demand P none f h = tt
Leaves-demand P (some a) f h = h a refl

pub Leaves-map {ℓ κ μ} :
    {S : Type ℓ} (P : S → Type κ) (Q : S → Type μ) (m : Flow S)
    → Leaves P m
    → ((s : S) → P s → Q s)
    → Leaves Q m
Leaves-map P Q panic h k = tt
Leaves-map P Q (returned s) h k = k s h
Leaves-map P Q (next s) h k = k s h

-- What a handler is known to leave holds of the state that it returns.
pub Leaves-returned {ℓ κ} :
    {S : Type ℓ} (P : S → Type κ) (m : Flow S) (s : S) → Leaves P m → m ≡ returned s → P s
Leaves-returned P m s h e = subst (Leaves P) e h

pub Leaves-next {ℓ κ} :
    {S : Type ℓ} (P : S → Type κ) (m : Flow S) (s : S) → Leaves P m → m ≡ next s → P s
Leaves-next P m s h e = subst (Leaves P) e h

-- One property of a state returned early, and another of a state that the handler goes on with.
abbrev pub Ends {ℓ κ} : {S : Type ℓ} → (S → Type κ) → (S → Type κ) → Flow S → Type κ
Ends R N panic = Unit
Ends R N (returned s) = R s
Ends R N (next s) = N s

pub Ends-bind {ℓ κ} :
    {S : Type ℓ} (R N : S → Type κ) (m : Flow S) (f : S → Flow S)
    → Ends R N m
    → ((s : S) → N s → Leaves R (f s))
    → Leaves R (m >>= f)
Ends-bind R N panic f h k = tt
Ends-bind R N (returned s) f h k = h
Ends-bind R N (next s) f h k = k s h

pub Ends-demand {ℓ κ μ} :
    {A : Type ℓ} {S : Type κ} (R N : S → Type μ) (o : Option A) (f : A → Flow S)
    → ((a : A) → o ≡ some a → Ends R N (f a))
    → Ends R N (demand o f)
Ends-demand R N none f h = tt
Ends-demand R N (some a) f h = h a refl

pub Ends-map {ℓ κ} :
    {S : Type ℓ} (R R' N : S → Type κ) (m : Flow S)
    → Ends R N m
    → ((s : S) → R s → R' s)
    → Ends R' N m
Ends-map R R' N panic h k = tt
Ends-map R R' N (returned s) h k = k s h
Ends-map R R' N (next s) h k = h
