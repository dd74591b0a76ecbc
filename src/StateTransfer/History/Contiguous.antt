-- ===== src/StateTransfer/History/Contiguous.antt =====
-- The heights of the blocks of a history (internal/statetransfer/history.go).
use d_hotsuff.Prelude.{
  ℕ, zero, suc, ◌+◌, ◌≤◌, ◌≡◌, ◌⊎◌, inl, inr, ◌≢◌, refl, subst, sym, ◌∙◌, nat_instance, nat_beq,
  List, [], ◌∷◌, ◌++◌, length, drop, filter, leb, ok, err, arith, out_of_order, non_contiguous,
  Bool-cases,
}
use d_hotsuff.Proto.{Block}
use d_hotsuff.StateTransfer.History.{
  ExecutionHistory, append, since, contiguous_from, history_from_proto,
}

-- The blocks' heights count up from `i`.
abbrev pub Heights : ℕ → List Block → Type 0
Heights i [] = Unit
Heights i (b ∷ bs) = (b.height ≡ i) × Heights (suc i) bs

abbrev pub IsContiguous : ExecutionHistory → Type 0
IsContiguous h = Heights 0 h.blocks

Heights-append :
    (i : ℕ) (bs : List Block) (b : Block)
    → Heights i bs
    → b.height ≡ i + length bs
    → Heights i (bs ++ b ∷ [])
Heights-append i [] b h e = (omega arith, tt)
Heights-append i (c ∷ bs) b h e = (h.0, Heights-append (suc i) bs b h.1 (omega arith))

-- Append takes the block whose height is the number of blocks kept, and no other, and a history
-- whose blocks stand at their heights stays one.
pub append-IsContiguous :
    (h : ExecutionHistory) (b : Block)
    → IsContiguous h
    → ((b.height ≡ length h.blocks)
        × (append h b ≡ ok (record { blocks = h.blocks ++ b ∷ [] }))
        × IsContiguous (record { blocks = h.blocks ++ b ∷ [] }))
      ⊎ ((b.height ≢ length h.blocks) × (append h b ≡ err out_of_order))
unfolding append
append-IsContiguous h b wf = elim (Bool-cases (nat_beq b.height (length h.blocks))) [
  | inr differs ↦ inr (ground arith, rw differs refl)
  | inl equal ↦
      let same : b.height ≡ length h.blocks = ground arith in
      inl (same, rw equal refl, Heights-append 0 h.blocks b wf (omega arith))
]

Heights-above :
    (i k : ℕ) (bs : List Block)
    → Heights i bs
    → k ≤ i
    → filter (λ (b : Block). leb k b.height) bs ≡ bs
Heights-above i k [] h le = refl
Heights-above i k (b ∷ bs) h le = ground (arith, h.0, Heights-above (suc i) k bs h.1 (omega arith))

drop_none : (k : ℕ) (bs : List Block) → length bs ≤ k → drop k bs ≡ []
drop_none zero [] h = refl
drop_none (suc k) [] h = refl
drop_none zero (b ∷ bs) h = absurd (omega arith)
drop_none (suc k) (b ∷ bs) h = drop_none k bs (omega arith)

drop_lem :
    (i k : ℕ) (bs : List Block)
    → Heights i bs
    → drop k bs ≡ filter (λ (b : Block). leb (i + k) b.height) bs
drop_lem i zero [] h = refl
drop_lem i (suc k) [] h = refl
drop_lem i zero (b ∷ bs) h = sym (Heights-above i (i + zero) (b ∷ bs) h (omega arith))
drop_lem i (suc k) (b ∷ bs) h = drop_lem (suc i) k bs h.1 ∙ ground (arith, h.0)

-- Since returns the blocks at the given height and above.
pub since_lem :
    (h : ExecutionHistory) (k : ℕ)
    → IsContiguous h
    → since h k ≡ filter (λ (b : Block). leb k b.height) h.blocks
unfolding since
since_lem h k wf =
    let tail : drop k h.blocks ≡ filter (λ (b : Block). leb k b.height) h.blocks =
      subst (λ (i : ℕ). drop k h.blocks ≡ filter (λ (b : Block). leb i b.height) h.blocks)
        (omega arith) (drop_lem 0 k h.blocks wf) in
    elim (Bool-cases (leb (length h.blocks) k)) [
      | inl past ↦ rw past (sym (drop_none k h.blocks (ground arith)) ∙ tail)
      | inr within ↦ rw within tail
    ]

contiguous_from_lem :
    (i : ℕ) (bs : List Block)
    → (Heights i bs × (contiguous_from i bs ≡ ok bs))
      ⊎ (¬ Heights i bs × (contiguous_from i bs ≡ err non_contiguous))
unfolding contiguous_from
contiguous_from_lem i [] = inl (tt, refl)
contiguous_from_lem i (b ∷ bs) = elim (Bool-cases (nat_beq b.height i)) [
  | inr differs ↦ inr ((λ w. ground (arith, w.0)), rw differs refl)
  | inl equal ↦ elim (contiguous_from_lem (suc i) bs) [
    | inl (w, e) ↦ inl ((ground arith, w), rw (equal, e) refl)
    | inr (n, e) ↦ inr ((λ w. n w.1), rw (equal, e) refl)
  ]
]

-- HistoryFromProto gives back the blocks of a response whose heights count up from 0, and rejects
-- every other response.
pub history_from_proto_lem :
    (h : ExecutionHistory)
    → (IsContiguous h × (history_from_proto h.blocks ≡ ok h))
      ⊎ (¬ IsContiguous h × (history_from_proto h.blocks ≡ err non_contiguous))
unfolding history_from_proto
history_from_proto_lem h = elim (contiguous_from_lem 0 h.blocks) [
  | inl (w, e) ↦ inl (w, rw e refl)
  | inr (n, e) ↦ inr (n, rw e refl)
]
