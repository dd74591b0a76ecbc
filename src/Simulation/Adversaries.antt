-- ===== src/Simulation/Adversaries.antt =====
-- The adversary of the worst case: whom it corrupts, and that it keeps to the delay bound.
use d_hotsuff.Prelude.{
  ℕ, zero, suc, ◌≤◌, ◌≡◌, refl, ap, ◌∙◌, inr, Bytes, bytes_instance, bytes_eq, bytes_eq_iff, true,
  false, ◌||◌, List, [], ◌∷◌, length, length-take, take, min, arith,
}
use d_hotsuff.Prelude.Distinct.{seen, Distinct, Within, seen-nil}
use d_hotsuff.Simulation.{
  NetSim, AdversaryModel, place_string, sort_strings, corrupted, new_worst_case_adversary,
}
use d_hotsuff.Simulation.Delivery.{IsTimely}

seen-place_string :
    (a s : Bytes) (ts : List Bytes) → seen a (place_string s ts) ≡ (bytes_eq s a || seen a ts)
unfolding seen place_string
seen-place_string a s [] = refl
seen-place_string a s (t ∷ ts) = ground (arith, seen-place_string a s ts)

place_string-Distinct :
    (s : Bytes) (ts : List Bytes) → Distinct ts → seen s ts ≡ false → Distinct (place_string s ts)
unfolding seen place_string
place_string-Distinct s [] d n = (refl, tt)
place_string-Distinct s (t ∷ ts) d n = ground (
  arith,
  place_string-Distinct s ts d.1,
  seen-place_string t s ts,
  bytes_eq_iff s t,
  bytes_eq_iff t s,
)

length-place_string : (s : Bytes) (ts : List Bytes) → length (place_string s ts) ≡ suc (length ts)
unfolding place_string
length-place_string s [] = refl
length-place_string s (t ∷ ts) = ground (arith, length-place_string s ts)

seen-sort_strings : (a : Bytes) (ss : List Bytes) → seen a (sort_strings ss) ≡ seen a ss
unfolding seen sort_strings
seen-sort_strings a [] = refl
seen-sort_strings a (s ∷ ss) =
    seen-place_string a s (sort_strings ss) ∙ ap (◌||◌ (bytes_eq s a)) (seen-sort_strings a ss)

sort_strings-Distinct : (ss : List Bytes) → Distinct ss → Distinct (sort_strings ss)
unfolding sort_strings
sort_strings-Distinct [] d = tt
sort_strings-Distinct (s ∷ ss) d =
    place_string-Distinct s (sort_strings ss) (sort_strings-Distinct ss d.1)
      (seen-sort_strings s ss ∙ d.0)

length-sort_strings : (ss : List Bytes) → length (sort_strings ss) ≡ length ss
unfolding sort_strings
length-sort_strings [] = refl
length-sort_strings (s ∷ ss) =
    length-place_string s (sort_strings ss) ∙ ap suc (length-sort_strings ss)

seen-take : (n : ℕ) (a : Bytes) (ts : List Bytes) → seen a (take n ts) ≡ true → seen a ts ≡ true
unfolding seen
seen-take zero a ts h = absurd (ground arith)
seen-take (suc n) a [] h = h
seen-take (suc n) a (t ∷ ts) h = ground (arith, seen-take n a ts)

take-Distinct : (n : ℕ) (ts : List Bytes) → Distinct ts → Distinct (take n ts)
take-Distinct zero ts d = tt
take-Distinct (suc n) [] d = tt
take-Distinct (suc n) (t ∷ ts) d = (ground (arith, seen-take n t ts), take-Distinct n ts d.1)

seen-corrupted :
    (a : Bytes) (ids marked : List Bytes)
    → seen a (corrupted ids marked) ≡ (seen a ids || seen a marked)
unfolding seen corrupted
seen-corrupted a [] marked = refl
seen-corrupted a (id ∷ ids) marked =
    ground
      (arith, seen-corrupted a ids marked, seen-corrupted a ids (id ∷ marked), bytes_eq_iff id a)

-- The worst-case adversary corrupts fc different replicas of the list, or all if there are fewer.
pub worst_case_lem :
    (ids : List Bytes) (fc max_delay : ℕ)
    → Distinct ids
    → (bad : List Bytes) × Distinct bad
      × Within bad ids
      × (length bad ≡ min fc (length ids))
      × ((id : Bytes) → (new_worst_case_adversary ids fc max_delay).is_byzantine id ≡ seen id bad)
unfolding new_worst_case_adversary
worst_case_lem ids fc max_delay d = (
  take fc (sort_strings ids),
  take-Distinct fc (sort_strings ids) (sort_strings-Distinct ids d),
  λ a h. ground (arith, seen-take fc a (sort_strings ids), seen-sort_strings a ids),
  omega (arith, length-take fc (sort_strings ids), length-sort_strings ids),
  λ id. ground (arith, seen-corrupted id (take fc (sort_strings ids)) [], seen-nil id),
)

-- The network of the worst case delivers in time in both phases.
pub worst_case-IsTimely :
    (n : NetSim) (ids : List Bytes) (fc max_delay : ℕ) (from to msg : Bytes)
    → n.adversary ≡ new_worst_case_adversary ids fc max_delay
    → max_delay ≤ n.max_delay
    → IsTimely n from to msg
unfolding new_worst_case_adversary
worst_case-IsTimely n ids fc max_delay from to msg e le =
    let decision = ap (λ (a : AdversaryModel). a.intercept_msg from to msg) e in
    inr (ground (arith, decision), ground (arith, decision))
