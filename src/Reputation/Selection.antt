-- ===== src/Reputation/Selection.antt =====
-- Select of internal/reputation/store.go, against the order that it sorts by.
use d_hotsuff.Prelude.{
  ℕ, ◌<◌, ◌≡◌, ◌⊎◌, inl, inr, refl, subst, true, false, ◌||◌, some, List, [], ◌∷◌, length, arith,
  All, All-map, Bool-cases,
}
use d_hotsuff.Membership.Committee.{Replica, Committee, size}
use d_hotsuff.Reputation.Identities.{bytes_lt_irrefl, bytes_lt_trans, bytes_lt_cotrans}
use d_hotsuff.Reputation.{
  Floats, Float64, Store, Scored, bytes_lt, score, ranks_before, best_of, first_ranked, scored,
  select,
}

-- `>` and `!=` as IEEE 754 has them on the bit patterns that are numbers, not NaN.
pub record IsOrdered (f : Floats) (IsNumber : Float64 → Type 0) : Type 0 where
  pub irrefl : (a : Float64) → IsNumber a → f.greater a a ≡ false
  pub trans :
      (a b c : Float64)
      → IsNumber a
      → IsNumber b
      → IsNumber c
      → f.greater a b ≡ true
      → f.greater b c ≡ true
      → f.greater a c ≡ true
  pub cotrans :
      (a b c : Float64)
      → IsNumber a
      → IsNumber b
      → IsNumber c
      → f.greater a c ≡ true
      → (f.greater a b ≡ true) ⊎ (f.greater b c ≡ true)
  pub differs_iff :
      (a b : Float64) → IsNumber a → IsNumber b → f.differs a b ≡ f.greater a b || f.greater b a

-- No candidate ranks before the chosen one.
abbrev Unbeaten : Floats → Scored → List Scored → Type 0
Unbeaten f chosen cs = All (λ (c : Scored). ranks_before f c chosen ≡ false) cs

-- No candidate has a greater score, and none of an equal score has a smaller identity.
abbrev pub Highest : Floats → Scored → List Scored → Type 0
Highest f chosen cs =
    All
      (λ (c : Scored).
        (f.greater c.points chosen.points ≡ false)
        × ((f.greater chosen.points c.points ≡ true) ⊎ (bytes_lt c.r.id chosen.r.id ≡ false)))
      cs

abbrev pub Among : Scored → List Scored → Type 0
Among chosen [] = ⊥
Among chosen (c ∷ cs) = (chosen ≡ c) ⊎ Among chosen cs

module _ (f : Floats) (IsNumber : Float64 → Type 0) (o : IsOrdered f IsNumber) where
  ranks_before_irrefl : (a : Scored) → IsNumber a.points → ranks_before f a a ≡ false
  unfolding ranks_before
  ranks_before_irrefl a n =
      ground
        (arith, o.differs_iff a.points a.points n n, o.irrefl a.points n, bytes_lt_irrefl a.r.id)

  ranks_before_trans :
      (a b c : Scored)
      → IsNumber a.points
      → IsNumber b.points
      → IsNumber c.points
      → ranks_before f a b ≡ true
      → ranks_before f b c ≡ true
      → ranks_before f a c ≡ true
  unfolding ranks_before
  ranks_before_trans a b c na nb nc h k = ground (
    arith,
    o.differs_iff a.points b.points na nb,
    o.differs_iff b.points c.points nb nc,
    o.differs_iff a.points c.points na nc,
    o.trans a.points b.points c.points na nb nc,
    o.cotrans a.points b.points c.points na nb nc,
    o.cotrans c.points b.points a.points nc nb na,
    o.cotrans b.points a.points c.points nb na nc,
    o.cotrans a.points c.points b.points na nc nb,
    o.cotrans c.points a.points b.points nc na nb,
    o.cotrans b.points c.points a.points nb nc na,
    bytes_lt_trans a.r.id b.r.id c.r.id,
    h,
    k,
  )

  ranks_before_cotrans :
      (a b c : Scored)
      → IsNumber a.points
      → IsNumber b.points
      → IsNumber c.points
      → ranks_before f a c ≡ true
      → (ranks_before f a b ≡ true) ⊎ (ranks_before f b c ≡ true)
  unfolding ranks_before
  ranks_before_cotrans a b c na nb nc h = ground (
    arith,
    o.differs_iff a.points b.points na nb,
    o.differs_iff b.points c.points nb nc,
    o.differs_iff a.points c.points na nc,
    o.trans a.points b.points c.points na nb nc,
    o.cotrans a.points b.points c.points na nb nc,
    o.cotrans c.points b.points a.points nc nb na,
    o.cotrans b.points a.points c.points nb na nc,
    o.cotrans a.points c.points b.points na nc nb,
    o.cotrans c.points a.points b.points nc na nb,
    o.cotrans b.points c.points a.points nb nc na,
    bytes_lt_cotrans a.r.id b.r.id c.r.id,
    h,
  )

  abbrev AreNumbers : List Scored → Type 0
  AreNumbers cs = All (λ (c : Scored). IsNumber c.points) cs

  best_of-Unbeaten :
      (best : Scored) (cs : List Scored)
      → AreNumbers (best ∷ cs)
      → Unbeaten f (best_of f best cs) (best ∷ cs)
        × Among (best_of f best cs) (best ∷ cs)
        × IsNumber (best_of f best cs).points
  unfolding best_of
  best_of-Unbeaten best [] n = ((ranks_before_irrefl best n.0, tt), inl refl, n.0)
  best_of-Unbeaten best (c ∷ cs) n = elim (Bool-cases (ranks_before f c best)) [
    | inl earlier ↦
        let (unbeaten, among, number) = best_of-Unbeaten c cs n.1 in
        let chosen : best_of f c cs ≡ best_of f best (c ∷ cs) = rw earlier refl in
        subst
          (λ (r : Scored).
            Unbeaten f r (best ∷ c ∷ cs) × Among r (best ∷ c ∷ cs) × IsNumber r.points)
          chosen
          (
            (
              ground (
                arith,
                ranks_before_trans c best (best_of f c cs) n.1.0 n.0 number,
                earlier,
                unbeaten.0,
              ),
              unbeaten,
            ),
            inr among,
            number,
          )
    | inr later ↦
        let (unbeaten, among, number) = best_of-Unbeaten best cs (n.0, n.1.1) in
        let chosen : best_of f best cs ≡ best_of f best (c ∷ cs) = rw later refl in
        subst
          (λ (r : Scored).
            Unbeaten f r (best ∷ c ∷ cs) × Among r (best ∷ c ∷ cs) × IsNumber r.points)
          chosen
          (
            (
              unbeaten.0,
              (
                ground (
                  arith,
                  ranks_before_cotrans c best (best_of f best cs) n.1.0 n.0 number,
                  later,
                  unbeaten.0,
                ),
                unbeaten.1,
              ),
            ),
            elim among [ inl first ↦ inl first | inr rest ↦ inr (inr rest) ],
            number,
          )
  ]

  -- What is not outranked has no smaller score, and on equal scores no greater identity.
  Unbeaten-Highest :
      (chosen : Scored) (cs : List Scored)
      → IsNumber chosen.points
      → AreNumbers cs
      → Unbeaten f chosen cs
      → Highest f chosen cs
  unfolding ranks_before
  Unbeaten-Highest chosen [] n ns u = tt
  Unbeaten-Highest chosen (c ∷ cs) n ns u = (
    (
      ground (arith, u.0, o.differs_iff c.points chosen.points ns.0 n),
      elim (Bool-cases (f.greater chosen.points c.points)) [
        | inl higher ↦ inl higher
        | inr same ↦ inr (ground (arith, u.0, o.differs_iff c.points chosen.points ns.0 n))
      ],
    ),
    Unbeaten-Highest chosen cs n ns.1 u.1,
  )

  first_ranked-Highest :
      (cs : List Scored)
      → 0 < length cs
      → AreNumbers cs
      → (chosen : Scored) × (first_ranked f cs ≡ some chosen.r)
        × Among chosen cs
        × Highest f chosen cs
  unfolding first_ranked
  first_ranked-Highest [] h ns = absurd (omega arith)
  first_ranked-Highest (c ∷ cs) h ns =
      let (unbeaten, among, number) = best_of-Unbeaten c cs ns in
      (best_of f c cs, refl, among, Unbeaten-Highest (best_of f c cs) (c ∷ cs) number ns unbeaten)

scored-pos :
    (f : Floats) (s : Store) (current_height : ℕ) (rs : List Replica)
    → 0 < length rs
    → 0 < length (scored f s current_height rs)
unfolding scored
scored-pos f s current_height [] h = h
scored-pos f s current_height (r ∷ rs) h = omega arith

-- If > and != order the bit patterns of numbers, and the scores of the members are numbers, then
-- for a committee with members Select returns a replica of it such that none has a greater score,
-- and none of an equal score has a smaller identity.
pub select-Highest :
    (f : Floats) (IsNumber : Float64 → Type 0) (s : Store) (mc : Committee) (current_height : ℕ)
    → IsOrdered f IsNumber
    → 0 < size mc
    → All (λ (r : Replica). IsNumber (score f s r.id current_height)) mc.replicas
    → let candidates = scored f s current_height mc.replicas in
      (chosen : Scored) × (select f s mc current_height ≡ some chosen.r)
      × Among chosen candidates
      × Highest f chosen candidates
unfolding select scored
select-Highest f IsNumber s mc current_height o h ns =
    first_ranked-Highest f IsNumber o (scored f s current_height mc.replicas)
      (scored-pos f s current_height mc.replicas h)
      (All-map (λ (r : Replica). IsNumber (score f s r.id current_height))
        (λ (c : Scored). IsNumber c.points)
        (λ (r : Replica). record { r = r; points = score f s r.id current_height }) mc.replicas ns
        (λ r n. n))

first_ranked-scored :
    (f : Floats) (s : Store) (current_height : ℕ) (rs : List Replica)
    → 0 < length rs
    → (r : Replica) × (first_ranked f (scored f s current_height rs) ≡ some r)
unfolding first_ranked scored
first_ranked-scored f s current_height [] h = absurd (omega arith)
first_ranked-scored f s current_height (r ∷ rs) h = (_, refl)

-- A committee with members has a selected leader, whatever the scores are.
pub select_total :
    (f : Floats) (s : Store) (mc : Committee) (current_height : ℕ)
    → 0 < size mc
    → (r : Replica) × (select f s mc current_height ≡ some r)
unfolding select
select_total f s mc current_height = first_ranked-scored f s current_height mc.replicas
