-- ===== src/Prelude/Distinct.antt =====
-- Sets of values as lists: membership as a test, lists without repetition, and the counting
-- argument behind quorum intersection.
use d_hotsuff.Prelude.Bools.{Eq, ◌==◌, if◌then◌else◌, Bool-cases}
use d_hotsuff.Prelude.Lists.{length, filter}
use Prim.Native.Nat.{◌+◌, ◌≤◌}
use mathlib.Core.Path.{◌≡◌, refl}
use mathlib.Core.Logic.{inl, inr}
use mathlib.Core.Bool.{Bool, true, false, ◌||◌, not}
use mathlib.Core.List.{List, [], ◌∷◌, ◌++◌}
use native.Mathlib.Omega.{arith}

module _ {ℓ} {A : Type ℓ} ⦃e : Eq A⦄ where
  -- seen[a], for a map that only ever holds `true`
  unfoldable pub seen : A → List A → Bool
  seen a [] = false
  seen a (x ∷ xs) = (x == a) || seen a xs

  abbrev pub Distinct : List A → Type 0
  Distinct [] = Unit
  Distinct (x ∷ xs) = (seen x xs ≡ false) × Distinct xs

  -- Every element of the first list is in the second.
  abbrev pub Within : List A → List A → Type ℓ
  Within xs zs = (a : A) → seen a xs ≡ true → seen a zs ≡ true

  -- The elements of the first list that are in the second.
  abbrev pub common : List A → List A → List A
  common xs ys = filter (λ x. seen x ys) xs

  abbrev apart : List A → List A → List A
  apart xs ys = filter (λ x. not (seen x ys)) xs

  remove : A → List A → List A
  remove a [] = []
  remove a (x ∷ xs) = if x == a then xs else x ∷ remove a xs

  length-remove : (a : A) (xs : List A) → seen a xs ≡ true → length (remove a xs) + 1 ≡ length xs
  unfolding seen remove
  length-remove a [] h = ground arith
  length-remove a (x ∷ xs) h = ground (arith, length-remove a xs)

  seen-remove :
      (a b : A) (xs : List A) → (a == b) ≡ false → seen b xs ≡ true → seen b (remove a xs) ≡ true
  unfolding seen remove
  seen-remove a b [] n h = h
  seen-remove a b (x ∷ xs) n h =
      ground (arith, seen-remove a b xs, e.beq_iff x a, e.beq_iff x b, e.beq_iff a b)

  pub seen-cons_ne :
      (a b : A) (xs : List A) → seen a xs ≡ false → seen b xs ≡ true → (a == b) ≡ false
  seen-cons_ne a b xs n h = ground (arith, e.beq_iff a b)

  pub seen-nil : (a : A) → seen a [] ≡ false
  unfolding seen
  seen-nil a = refl

  pub seen-head : (a : A) (xs : List A) → seen a (a ∷ xs) ≡ true
  unfolding seen
  seen-head a xs = ground (arith, e.beq_iff a a)

  pub seen-tail : (a x : A) (xs : List A) → seen a xs ≡ true → seen a (x ∷ xs) ≡ true
  unfolding seen
  seen-tail a x xs h = ground arith

  pub Within-cons : (a : A) (xs zs : List A) → seen a zs ≡ true → Within xs zs → Within (a ∷ xs) zs
  unfolding seen
  Within-cons a xs zs h w b k = ground (arith, w b, e.beq_iff a b)

  -- A list without repetition is no longer than a list that holds its elements.
  pub length-le_of_Within : (xs zs : List A) → Distinct xs → Within xs zs → length xs ≤ length zs
  length-le_of_Within [] zs d w = omega arith
  length-le_of_Within (x ∷ xs) zs d w =
      let rest =
        length-le_of_Within xs (remove x zs) d.1
          λ a h. seen-remove x a zs (seen-cons_ne x a xs d.0 h) (w a (seen-tail a x xs h)) in
      omega (arith, rest, length-remove x zs (w x (seen-head x xs)))

  pub seen-append : (a : A) (xs ys : List A) → seen a (xs ++ ys) ≡ (seen a xs || seen a ys)
  unfolding seen
  seen-append a [] ys = refl
  seen-append a (x ∷ xs) ys = ground (arith, seen-append a xs ys)

  seen-apart : (a : A) (xs ys : List A) → seen a (apart xs ys) ≡ true → seen a xs ≡ true
  unfolding seen
  seen-apart a [] ys h = h
  seen-apart a (x ∷ xs) ys h = ground (arith, seen-apart a xs ys)

  seen-apart_none : (a : A) (xs ys : List A) → seen a xs ≡ false → seen a (apart xs ys) ≡ false
  unfolding seen
  seen-apart_none a [] ys h = h
  seen-apart_none a (x ∷ xs) ys h = ground (arith, seen-apart_none a xs ys)

  union-Distinct : (xs ys : List A) → Distinct xs → Distinct ys → Distinct (apart xs ys ++ ys)
  union-Distinct [] ys d d' = d'
  union-Distinct (x ∷ xs) ys d d' = elim (Bool-cases (seen x ys)) [
    | inl old ↦ rw old (union-Distinct xs ys d.1 d')
    | inr new ↦ rw new (
      ground (arith, seen-append x (apart xs ys) ys, seen-apart_none x xs ys d.0),
      union-Distinct xs ys d.1 d',
    )
  ]

  length-union :
      (xs ys : List A) → length (apart xs ys ++ ys) + length (common xs ys) ≡ length xs + length ys
  length-union [] ys = omega arith
  length-union (x ∷ xs) ys = ground (arith, length-union xs ys)

  -- Two lists without repetition inside a third overlap by at least what they exceed it by.
  pub length-common :
      (xs ys zs : List A)
      → Distinct xs
      → Distinct ys
      → Within xs zs
      → Within ys zs
      → length xs + length ys ≤ length zs + length (common xs ys)
  length-common xs ys zs dx dy wx wy = omega (
    arith,
    length-union xs ys,
    length-le_of_Within (apart xs ys ++ ys) zs (union-Distinct xs ys dx dy)
        λ (a : A) (h : seen a (apart xs ys ++ ys) ≡ true).
          ground (arith, seen-append a (apart xs ys) ys, seen-apart a xs ys, wx a, wy a),
  )

  pub seen-common :
      (a : A) (xs ys : List A)
      → seen a (common xs ys) ≡ true
      → (seen a xs ≡ true) × (seen a ys ≡ true)
  unfolding seen
  seen-common a [] ys h = absurd (ground arith)
  seen-common a (x ∷ xs) ys h = ground (arith, seen-common a xs ys, e.beq_iff x a)

  pub common-Distinct : (xs ys : List A) → Distinct xs → Distinct (common xs ys)
  common-Distinct [] ys d = tt
  common-Distinct (x ∷ xs) ys d = elim (Bool-cases (seen x ys)) [
    | inl both ↦ rw both (ground (arith, seen-common x xs ys), common-Distinct xs ys d.1)
    | inr alone ↦ rw alone (common-Distinct xs ys d.1)
  ]
