-- ===== src/Bench/Blocks/Ancestry.antt =====
-- What the two loops of Extends decide, and that 1024 rounds are enough for fewer blocks.
use d_hotsuff.Prelude.{
  ℕ, zero, suc, ◌+◌, ◌<◌, ◌≡◌, ◌↔◌, inl, inr, refl, sym, ap, ◌∙◌, Bool-cases, Option-cases, Bytes,
  bytes_eq, bytes_instance, bytes_eq_iff, bytes_eq_refl, true, false, Option, none, some, List, [],
  ◌∷◌, length, map, length-map, arith,
}
use d_hotsuff.Prelude.Distinct.{seen, Distinct, Within, seen-nil, Within-cons, length-le_of_Within}
use d_hotsuff.Prelude.Table.{lookup}
use d_hotsuff.Proto.{Block}
use d_hotsuff.Bench.Blocks.{
  MemBlockchain, get, climb, max_rounds, extends, climb_unmarked, extends_unmarked,
}

-- The hash reached by following so many parent hashes through the stored blocks.
unfoldable pub ancestor : MemBlockchain → ℕ → Bytes → Option Bytes
ancestor m zero h = some h
ancestor m (suc k) h = elim (get m h) [ none ↦ none | some b ↦ ancestor m k b.parent_hash ]

ancestor-zero : (m : MemBlockchain) {h target : Bytes} → h ≡ target → ancestor m 0 h ≡ some target
unfolding ancestor
ancestor-zero m e = ap some e

-- A run of parent hashes of fewer steps than the bound.
abbrev pub ReachesWithin : MemBlockchain → Bytes → ℕ → Bytes → Type 0
ReachesWithin m target n cur = (k : ℕ) × (k < n) × (ancestor m k cur ≡ some target)

climb_unmarked_sound :
    (m : MemBlockchain) (target : Bytes) (n : ℕ) (cur : Bytes)
    → climb_unmarked m target n cur ≡ true
    → ReachesWithin m target n cur
unfolding climb_unmarked ancestor
climb_unmarked_sound m target zero cur h = absurd (cc)
climb_unmarked_sound m target (suc n) cur h = elim (Bool-cases (bytes_eq cur target)) [
  | inl e ↦ (0, omega arith, ground (arith, bytes_eq_iff cur target))
  | inr ne ↦ elim (Option-cases (get m cur)) [
    | inl gone ↦ absurd (ground arith)
    | inr (b, e) ↦
        let (k, lt, a) = climb_unmarked_sound m target n b.parent_hash (ground arith) in
        (suc k, omega arith, ground arith)
  ]
]

climb_unmarked_complete :
    (m : MemBlockchain) (target : Bytes) (n k : ℕ) (cur : Bytes)
    → k < n
    → ancestor m k cur ≡ some target
    → climb_unmarked m target n cur ≡ true
unfolding climb_unmarked ancestor
climb_unmarked_complete m target zero k cur lt a = absurd (omega arith)
climb_unmarked_complete m target (suc n) zero cur lt a = ground (arith, bytes_eq_refl target)
climb_unmarked_complete m target (suc n) (suc k) cur lt a = elim (Option-cases (get m cur)) [
  | inl gone ↦ absurd (ground arith)
  | inr (b, e) ↦ ground (arith, climb_unmarked_complete m target n k b.parent_hash (omega arith))
]

-- The keys marked so far are a run of parent hashes up to `cur` that misses the target.
record Trail (m : MemBlockchain) (target : Bytes) (visited : List Bytes) (cur : Bytes)
    : Type 0 where
  misses : (a : Bytes) → seen a visited ≡ true → bytes_eq a target ≡ false
  goes_on :
      (a : Bytes)
      → seen a visited ≡ true
      → (b : Block) × (get m a ≡ some b) × (seen b.parent_hash (cur ∷ visited) ≡ true)

-- From a trail that returns into itself the target is never reached.
closed-misses :
    (m : MemBlockchain) (target : Bytes) (visited : List Bytes) (cur : Bytes)
    → Trail m target visited cur
    → seen cur visited ≡ true
    → (n : ℕ) (a : Bytes) → seen a visited ≡ true
    → climb_unmarked m target n a ≡ false
unfolding climb_unmarked seen
closed-misses m target visited cur t back zero a h = refl
closed-misses m target visited cur t back (suc n) a h =
    let (b, e, on) = t.goes_on a h in
    ground (
      arith,
      t.misses a h,
      closed-misses m target visited cur t back n b.parent_hash,
      bytes_eq_iff cur b.parent_hash,
    )

Trail-step :
    (m : MemBlockchain) (target : Bytes) (visited : List Bytes) (cur : Bytes) (b : Block)
    → Trail m target visited cur
    → bytes_eq cur target ≡ false
    → get m cur ≡ some b
    → Trail m target (cur ∷ visited) b.parent_hash
unfolding seen
Trail-step m target visited cur b t ne e = record {
  misses = λ a h. ground (arith, t.misses a, bytes_eq_iff cur a);
  goes_on = λ a h. elim (Bool-cases (bytes_eq cur a)) [
    | inl same ↦
        (b, ground (arith, bytes_eq_iff cur a), ground (arith, bytes_eq_refl b.parent_hash))
    | inr other ↦ let (b', e', on) = t.goes_on a (ground arith) in (b', e', ground arith)
  ];
}

-- Marking what was visited changes no answer.
climb-climb_unmarked :
    (m : MemBlockchain) (target : Bytes) (n : ℕ) (visited : List Bytes) (cur : Bytes)
    → Trail m target visited cur
    → climb m target n visited cur ≡ climb_unmarked m target n cur
unfolding climb climb_unmarked
climb-climb_unmarked m target zero visited cur t = refl
climb-climb_unmarked m target (suc n) visited cur t = elim (Bool-cases (bytes_eq cur target)) [
  | inl e ↦ ground arith
  | inr ne ↦ elim (Bool-cases (seen cur visited)) [
    | inl back ↦ ground (arith, closed-misses m target visited cur t back (suc n) cur back)
    | inr new ↦ elim (Option-cases (get m cur)) [
      | inl gone ↦ ground arith
      | inr (b, e) ↦ ground (
        arith,
        climb-climb_unmarked m target n (cur ∷ visited) b.parent_hash
            (Trail-step m target visited cur b t ne e),
      )
    ]
  ]
]

nil-Trail : (m : MemBlockchain) (target cur : Bytes) → Trail m target [] cur
nil-Trail m target cur = record {
  misses = λ a h. absurd (ground (arith, seen-nil a));
  goes_on = λ a h. absurd (ground (arith, seen-nil a));
}

extends-climb_unmarked :
    (m : MemBlockchain) (child target : Bytes)
    → (extends m child target ≡ climb_unmarked m target max_rounds child)
      × (extends_unmarked m child target ≡ climb_unmarked m target max_rounds child)
unfolding extends extends_unmarked
extends-climb_unmarked m child target = elim (Bool-cases (bytes_eq child target)) [
  | inl e ↦
      let reached =
        climb_unmarked_complete m target max_rounds 0 child (omega arith)
          (ancestor-zero m ((bytes_eq_iff child target).0 e)) in
      rw e (sym reached, sym reached)
  | inr ne ↦
      rw ne (climb-climb_unmarked m target max_rounds [] child (nil-Trail m target child), refl)
]

-- Extends of benchutil, which stops at a block that it has visited, and Extends of repbench,
-- which does not, give the same answer on every store, cyclic ones included.
pub extends-extends_unmarked :
    (m : MemBlockchain) (child target : Bytes)
    → extends m child target ≡ extends_unmarked m child target
extends-extends_unmarked m child target =
    let (marked, unmarked) = extends-climb_unmarked m child target in marked ∙ sym unmarked

-- Extends finds exactly the ancestors of fewer than 1024 generations.
pub extends_iff :
    (m : MemBlockchain) (child target : Bytes)
    → (extends m child target ≡ true) ↔ ReachesWithin m target max_rounds child
extends_iff m child target =
    let e = (extends-climb_unmarked m child target).0 in
    (
      λ h. climb_unmarked_sound m target max_rounds child (sym e ∙ h),
      λ (k, lt, a). e ∙ climb_unmarked_complete m target max_rounds k child lt a,
    )

keys : MemBlockchain → List Bytes
keys = map (λ (entry : Bytes × Block). entry.0)

get-seen : (m : MemBlockchain) (h : Bytes) (b : Block) → get m h ≡ some b → seen h (keys m) ≡ true
unfolding get lookup keys seen
get-seen [] h b e = absurd (ground arith)
get-seen ((j, v) ∷ m) h b e = ground (arith, get-seen m h b, bytes_eq_iff j h)

-- Rounds for each stored block that is not marked yet are as good as any number of rounds.
climb-fewer :
    (m : MemBlockchain) (target : Bytes) (n rounds : ℕ) (visited : List Bytes) (cur : Bytes)
    → Distinct visited
    → Within visited (keys m)
    → length (keys m) < rounds + length visited
    → climb m target n visited cur ≡ true
    → climb m target rounds visited cur ≡ true
unfolding climb
climb-fewer m target zero rounds visited cur d w f h = absurd (cc)
climb-fewer m target (suc n) zero visited cur d w f h =
    absurd (omega (arith, length-le_of_Within visited (keys m) d w))
climb-fewer m target (suc n) (suc rounds) visited cur d w f h =
    elim (Bool-cases (bytes_eq cur target)) [
      | inl e ↦ ground arith
      | inr ne ↦ elim (Bool-cases (seen cur visited)) [
        | inl back ↦ absurd (ground arith)
        | inr new ↦ elim (Option-cases (get m cur)) [
          | inl gone ↦ absurd (ground arith)
          | inr (b, e) ↦ ground (
            arith,
            climb-fewer m target n rounds (cur ∷ visited) b.parent_hash (new, d)
                (Within-cons cur visited (keys m) (get-seen m cur b e) w) (omega arith),
          )
        ]
      ]
    ]

-- On a store of fewer than 1024 blocks, cycles included, Extends answers true exactly if the
-- second hash is reached from the first by following parent hashes, however often.
pub extends_complete :
    (m : MemBlockchain) (child target : Bytes)
    → length m < max_rounds
    → (extends m child target ≡ true) ↔ ((k : ℕ) × (ancestor m k child ≡ some target))
unfolding keys
extends_complete m child target few =
    let fewer = λ (n : ℕ) (reached : climb_unmarked m target n child ≡ true).
      climb-fewer m target n max_rounds [] child tt (λ a h. absurd (ground (arith, seen-nil a)))
        (omega (arith, length-map (λ (entry : Bytes × Block). entry.0) m))
        (climb-climb_unmarked m target n [] child (nil-Trail m target child) ∙ reached) in
    (
      λ h. let (k, lt, a) = (extends_iff m child target).0 h in (k, a),
      λ (k, a).
          (extends-climb_unmarked m child target).0
          ∙ sym (climb-climb_unmarked m target max_rounds [] child (nil-Trail m target child))
          ∙ fewer (suc k) (climb_unmarked_complete m target (suc k) k child (omega arith) a),
    )
