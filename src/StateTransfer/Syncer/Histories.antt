-- ===== src/StateTransfer/Syncer/Histories.antt =====
-- The history that RequestHistory of internal/statetransfer/syncer.go accepts.
use d_hotsuff.Prelude.{
  ℕ, zero, suc, ◌+◌, ◌*◌, ◌≤◌, ◌<◌, ◌≡◌, inl, inr, refl, subst, Bytes, bytes_eq, bytes_eq_iff,
  bytes_eq_refl, bytes_instance, false, some, List, [], ◌∷◌, map, take, leb, if◌then◌else◌, Result,
  ok, err, arith, Bool-cases, Option-cases,
}
use d_hotsuff.Prelude.Table.{Table, lookup, get_or, table_laws, lookup-insert}
use d_hotsuff.External.{External}
use d_hotsuff.Membership.Committee.{Replica, Committee, size}
use d_hotsuff.StateTransfer.History.{ExecutionHistory, hash}
use d_hotsuff.StateTransfer.Syncer.{
  RpcPool, history_of, Tally, count, tally_hist, tallied, drain_histories, request_history,
}

-- How many of the answers are histories with the given hash.
abbrev pub agreeing : External → Bytes → List (Result ExecutionHistory) → ℕ
agreeing x k [] = 0
agreeing x k (err e ∷ answers) = agreeing x k answers
agreeing x k (ok h ∷ answers) =
    let rest = agreeing x k answers in if bytes_eq (hash x h) k then suc rest else rest

-- The first history stored for a hash has that hash.
abbrev IsKeyed : External → Table Bytes ExecutionHistory → Type 0
IsKeyed x t = (k : Bytes) (h : ExecutionHistory) → lookup k t ≡ some h → hash x h ≡ k

count-tallied :
    (x : External) (t : Tally) (h : ExecutionHistory) (k : Bytes)
    → count (tallied x t h).hash_count k
      ≡ (if bytes_eq (hash x h) k then suc (count t.hash_count k) else count t.hash_count k)
unfolding count tallied get_or
count-tallied x t h k = simp table_laws (ground (arith, bytes_eq_iff (hash x h) k))

tallied_cases :
    (x : External) (t : Tally) (h : ExecutionHistory)
    → IsKeyed x t.hash_hist
    → IsKeyed x (tallied x t h).hash_hist
      × ((first : ExecutionHistory) × (lookup (hash x h) (tallied x t h).hash_hist ≡ some first)
          × (hash x first ≡ hash x h))
unfolding tallied tally_hist
tallied_cases x t h keyed = elim (Option-cases (lookup (hash x h) t.hash_hist)) [
  | inl missing ↦ rw missing (
    (λ k h' e. grind (
      arith,
      lookup-insert (hash x h) k h t.hash_hist,
      bytes_eq_iff (hash x h) k,
      keyed k h',
      e,
    )),
    (
      h,
      rw (lookup-insert (hash x h) (hash x h) h t.hash_hist, bytes_eq_refl (hash x h)) refl,
      refl,
    ),
  )
  | inr (first, found) ↦ rw found (keyed, (first, found, keyed (hash x h) first found))
]

-- A hash that was short of answers still is, unless it is the one that now has enough.
tallied-below :
    (x : External) (needed : ℕ) (t : Tally) (h : ExecutionHistory)
    → leb needed (count (tallied x t h).hash_count (hash x h)) ≡ false
    → ((k : Bytes) → count t.hash_count k < needed)
    → (k : Bytes) → count (tallied x t h).hash_count k < needed
tallied-below x needed t h short below k = elim (Bool-cases (bytes_eq (hash x h) k)) [
  | inl same ↦
      subst (λ (j : Bytes). count (tallied x t h).hash_count j < needed)
        ((bytes_eq_iff (hash x h) k).0 same) (ground arith)
  | inr differs ↦ ground (arith, count-tallied x t h k, below k, differs)
]

-- What the loop returns: a history whose hash enough answers agree on, or an error when no hash
-- has enough.
abbrev pub Drained :
    External → ℕ → List (Result ExecutionHistory) → Table Bytes ℕ → Result ExecutionHistory → Type 0
Drained x needed answers counts (ok h) =
    needed ≤ count counts (hash x h) + agreeing x (hash x h) answers
Drained x needed answers counts (err e) =
    (k : Bytes) → count counts k + agreeing x k answers < needed

Drained-tallied :
    (x : External) (needed : ℕ) (answers : List (Result ExecutionHistory)) (t : Tally)
    (h : ExecutionHistory) (r : Result ExecutionHistory)
    → Drained x needed answers (tallied x t h).hash_count r
    → Drained x needed (ok h ∷ answers) t.hash_count r
Drained-tallied x needed answers t h (ok g) d = ground (arith, d, count-tallied x t h (hash x g))
Drained-tallied x needed answers t h (err e) d = λ k. ground (arith, d k, count-tallied x t h k)

drain_histories-Drained :
    (x : External) (needed left : ℕ) (answers : List (Result ExecutionHistory)) (t : Tally)
    → IsKeyed x t.hash_hist
    → ((k : Bytes) → count t.hash_count k < needed)
    → Drained x needed (take left answers) t.hash_count (drain_histories x needed left answers t)
unfolding drain_histories
drain_histories-Drained x needed zero answers t keyed below = λ k. omega (arith, below k)
drain_histories-Drained x needed (suc left) [] t keyed below = λ k. omega (arith, below k)
drain_histories-Drained x needed (suc left) (err e ∷ answers) t keyed below =
    drain_histories-Drained x needed left answers t keyed below
drain_histories-Drained x needed (suc left) (ok h ∷ answers) t keyed below =
    let (keyed', (first, found, same)) = tallied_cases x t h keyed in
    elim (Bool-cases (leb needed (count (tallied x t h).hash_count (hash x h)))) [
      | inl reached ↦
          rw (reached, found, same)
            (ground (arith, count-tallied x t h (hash x h), bytes_eq_refl (hash x h), reached))
      | inr short ↦ rw short (
          Drained-tallied x needed (take left answers) t h _ (
            drain_histories-Drained x needed left answers (tallied x t h) keyed'
              (tallied-below x needed t h short below)))
    ]

-- RequestHistory returns a history whose hash 2fc+1 of the answers waited for share, and fails
-- only if no hash is shared by as many.
pub request_history_lem :
    (x : External) (pool : RpcPool) (mc : Committee) (arrivals : List Replica)
    → Drained x
        (2 * mc.fault_cap + 1)
        (take (size mc) (map (history_of pool) arrivals))
        []
        (request_history x pool mc arrivals)
unfolding request_history count lookup get_or
request_history_lem x pool mc arrivals =
    drain_histories-Drained x (2 * mc.fault_cap + 1) (size mc) (map (history_of pool) arrivals) _
      (λ k h e. cc) λ k. omega arith
