-- ===== src/StateTransfer/Syncer/Updates.antt =====
-- The block that RequestUpdate of internal/statetransfer/syncer.go accepts.
use d_hotsuff.Prelude.{
  ℕ, zero, suc, ◌+◌, ◌-◌, ◌≤◌, ◌<◌, ◌≡◌, ◌⊎◌, inl, inr, refl, ap, subst, Option, none, some, List,
  [], ◌∷◌, map, take, leb, ltb, Result, ok, err, Error, All, arith, Bool-cases, cancelled,
  no_quorum,
}
use d_hotsuff.Proto.{Block}
use d_hotsuff.Membership.Committee.{Replica, Committee, size}
use d_hotsuff.StateTransfer.Syncer.{
  RpcPool, update_of, better, enough, or_error, drain_updates, request_update,
}

abbrev pub Answer : Type 0
Answer = Result (Option Block)

-- How many answers are not errors.
abbrev pub good_answers : List Answer → ℕ
good_answers [] = 0
good_answers (err e ∷ answers) = good_answers answers
good_answers (ok b ∷ answers) = suc (good_answers answers)

abbrev pub HoldsAtMost : ℕ → Answer → Type 0
HoldsAtMost h (ok (some b)) = b.height ≤ h
HoldsAtMost h (ok none) = Unit
HoldsAtMost h (err e) = Unit

abbrev pub HoldsNone : Answer → Type 0
HoldsNone (ok (some b)) = ⊥
HoldsNone (ok none) = Unit
HoldsNone (err e) = Unit

abbrev pub Among : Block → List Answer → Type 0
Among b [] = ⊥
Among b (a ∷ answers) = (a ≡ ok (some b)) ⊎ Among b answers

abbrev Starts : Option Block → Block → List Answer → Type 0
Starts best b answers = (best ≡ some b) ⊎ Among b answers

abbrev AtMost : Option Block → ℕ → Type 0
AtMost none h = Unit
AtMost (some b) h = b.height ≤ h

-- What is returned from `good` answers and `best` on: a block that one of the first `n` answers
-- holds, or `best`, no lower than the others of these, with enough of these not errors; or an error,
-- when too few of all the answers are not errors, or none holds a block.
abbrev pub Drained : ℕ → List Answer → ℕ → Option Block → Result Block → Type 0
Drained needed answers good best (ok b) =
    (n : ℕ) × (needed ≤ good + good_answers (take n answers))
    × Starts best b (take n answers)
    × AtMost best b.height
    × All (HoldsAtMost b.height) (take n answers)
Drained needed answers good best (err e) =
    (good + good_answers answers < needed) ⊎ ((best ≡ none) × All HoldsNone answers)

Drained-stop :
    (needed good : ℕ) (answers : List Answer) (best : Option Block) (r : Result Block)
    → Drained needed answers good best r
    → Drained needed answers good best (or_error (enough needed good best) r)
unfolding enough or_error
Drained-stop needed good answers none r d = d
Drained-stop needed good answers (some b) r d = elim (Bool-cases (leb needed good)) [
  | inl reached ↦ rw reached ((0, ground arith, inl refl, omega arith, tt))
  | inr short ↦ rw short d
]

Drained-end :
    (needed good : ℕ) (best : Option Block) (e : Error)
    → Drained needed [] good best (or_error (enough needed good best) (err e))
unfolding enough or_error
Drained-end needed good none e = inr (refl, tt)
Drained-end needed good (some b) e = elim (Bool-cases (leb needed good)) [
  | inl reached ↦ rw reached ((0, ground arith, inl refl, omega arith, tt))
  | inr short ↦ rw short (inl (ground arith))
]

-- An answer with an error changes neither the count nor the best block.
Drained-error :
    (needed good : ℕ) (answers : List Answer) (best : Option Block) (e : Error) (r : Result Block)
    → Drained needed answers good best r
    → Drained needed (err e ∷ answers) good best r
Drained-error needed good answers best e (ok b) (n, enough_good, starts, least, most) =
    (suc n, enough_good, elim starts [ inl s ↦ inl s | inr a ↦ inr (inr a) ], least, (tt, most))
Drained-error needed good answers best e (err f) d = elim d [
  | inl few ↦ inl few
  | inr (nothing, none_held) ↦ inr (nothing, (tt, none_held))
]

Starts-better :
    (best c : Option Block) (b : Block) (answers : List Answer)
    → Starts (better best c) b answers
    → AtMost (better best c) b.height
    → Starts best b (ok c ∷ answers) × AtMost best b.height × HoldsAtMost b.height (ok c)
unfolding better
Starts-better best none b answers s h = (elim s [ inl e ↦ inl e | inr a ↦ inr (inr a) ], h, tt)
Starts-better none (some c) b answers s h =
    (elim s [ inl e ↦ inr (inl (ap ok e)) | inr a ↦ inr (inr a) ], tt, h)
Starts-better (some d) (some c) b answers s h = elim (Bool-cases (ltb d.height c.height)) [
  | inl higher ↦
      let is : better (some d) (some c) ≡ some c = rw higher refl in
      let at_most = subst (λ (o : Option Block). AtMost o b.height) is h in
      (
        elim (subst (λ (o : Option Block). Starts o b answers) is s) [
          | inl e ↦ inr (inl (ap ok e))
          | inr a ↦ inr (inr a)
        ],
        ground (arith, at_most),
        at_most,
      )
  | inr lower ↦
      let is : better (some d) (some c) ≡ some d = rw lower refl in
      let at_most = subst (λ (o : Option Block). AtMost o b.height) is h in
      (
        elim (subst (λ (o : Option Block). Starts o b answers) is s) [
          | inl e ↦ inl e
          | inr a ↦ inr (inr a)
        ],
        at_most,
        ground (arith, at_most),
      )
]

better-none : (best c : Option Block) → better best c ≡ none → (best ≡ none) × HoldsNone (ok c)
unfolding better
better-none best none h = (h, tt)
better-none none (some c) h = cc
better-none (some d) (some c) h = elim (Bool-cases (ltb d.height c.height)) [
  | inl higher ↦ ground (arith, h)
  | inr lower ↦ ground (arith, h)
]

Drained-good :
    (needed good : ℕ) (answers : List Answer) (best c : Option Block) (r : Result Block)
    → Drained needed answers (good + 1) (better best c) r
    → Drained needed (ok c ∷ answers) good best r
Drained-good needed good answers best c (ok b) (n, enough_good, starts, least, most) =
    let (starts', least', held) = Starts-better best c b (take n answers) starts least in
    (suc n, omega (arith, enough_good), starts', least', (held, most))
Drained-good needed good answers best c (err f) d = elim d [
  | inl few ↦ inl (omega (arith, few))
  | inr (nothing, none_held) ↦
      let (empty, held) = better-none best c nothing in inr (empty, (held, none_held))
]

pub drain_updates-Drained :
    (needed left : ℕ) (answers : List Answer) (good : ℕ) (best : Option Block)
    → Drained needed (take left answers) good best (drain_updates needed left answers good best)
unfolding drain_updates
drain_updates-Drained needed zero answers good best = Drained-end needed good best no_quorum
drain_updates-Drained needed (suc left) [] good best = Drained-end needed good best cancelled
drain_updates-Drained needed (suc left) (err e ∷ answers) good best =
    Drained-error needed good (take left answers) best e _
      (drain_updates-Drained needed left answers good best)
drain_updates-Drained needed (suc left) (ok c ∷ answers) good best =
    Drained-good needed good (take left answers) best c _ (
      Drained-stop needed (good + 1) (take left answers) (better best c) _
        (drain_updates-Drained needed left answers (good + 1) (better best c)))

-- RequestUpdate returns a highest block of a prefix of the answers of which nc-fc are no errors,
-- and fails only if there are fewer such answers or no block.
pub request_update_lem :
    (pool : RpcPool) (mc : Committee) (arrivals : List Replica)
    → Drained
        (size mc - mc.fault_cap)
        (take (size mc) (map (update_of pool) arrivals))
        0
        none
        (request_update pool mc arrivals)
unfolding request_update
request_update_lem pool mc arrivals =
    drain_updates-Drained (size mc - mc.fault_cap) (size mc) (map (update_of pool) arrivals) 0 none
