-- ===== src/Bench/Window/Chained.antt =====
-- A window whose blocks are a chain of parent hashes releases from the fifth block on.
use d_hotsuff.Prelude.{
  ℕ, zero, suc, ◌≤◌, ◌<◌, ◌≡◌, refl, sym, Bytes, bytes_eq_iff, true, Option, none, some, List, [],
  ◌∷◌, ◌++◌, arith,
}
use d_hotsuff.Proto.{Block}
use d_hotsuff.External.{External}
use d_hotsuff.Consensus.Chain.{hash_block, certifies}
use d_hotsuff.Consensus.Pipeline.{PipelineState, empty_window}
use d_hotsuff.Bench.Window.{released, advance}

-- The slots, from the newest to the oldest.
abbrev pub slots : PipelineState → List (Option Block)
slots p = p.newest ∷ p.newer ∷ p.older ∷ p.oldest ∷ []

-- After `k` blocks with the property P: the newest has the given hash and each the next one as its
-- parent, and the slots that none has reached are empty.
abbrev pub Chained : External → (Block → Type 0) → Bytes → List (Option Block) → ℕ → Type 0
Chained x P last [] k = Unit
Chained x P last (s ∷ ss) zero = (s ≡ none) × Chained x P last ss zero
Chained x P last (s ∷ ss) (suc k) =
    (b : Block) × (s ≡ some b) × (hash_block x b ≡ last) × P b × Chained x P b.parent_hash ss k

pub empty_window-Chained :
    (x : External) (P : Block → Type 0) (last : Bytes) → Chained x P last (slots empty_window) 0
empty_window-Chained x P last = (refl, (refl, (refl, (refl, tt))))

certifies_of_eq :
    (x : External) (b parent : Block)
    → hash_block x parent ≡ b.parent_hash
    → certifies x b parent ≡ true
unfolding certifies
certifies_of_eq x b parent e = (bytes_eq_iff b.parent_hash (hash_block x parent)).1 (sym e)

-- Nothing is released by the first four blocks, and a block of the chain by each later one.
abbrev pub Releases : (Block → Type 0) → ℕ → Option Block → Type 0
Releases P k to_commit =
    (k < 4 → to_commit ≡ none) × (4 ≤ k → (c : Block) × (to_commit ≡ some c) × P c)

Chained-drop_last :
    (x : External) (P : Block → Type 0) (last : Bytes) (ss : List (Option Block)) (s : Option Block)
    (k : ℕ)
    → Chained x P last (ss ++ s ∷ []) k
    → Chained x P last ss k
Chained-drop_last x P last [] s k c = tt
Chained-drop_last x P last (a ∷ ss) s zero c = (c.0, Chained-drop_last x P last ss s zero c.1)
Chained-drop_last x P last (a ∷ ss) s (suc k) (b, e, h, good, c) =
    (b, e, h, good, Chained-drop_last x P b.parent_hash ss s k c)

released_of_empty :
    (x : External) (p : PipelineState)
    → p.oldest ≡ none
    → released x p.oldest p.older p.newer p.newest ≡ none
unfolding released
released_of_empty x p e = rw e

module _ (x : External) (P : Block → Type 0) (b : Block) (good : P b) where
  pub advance-slots :
      (p : PipelineState) (k : ℕ)
      → Chained x P b.parent_hash (slots p) k
      → Chained x P (hash_block x b) (slots (advance x p b).0) (suc k)
  unfolding advance
  advance-slots p k c = (
    b,
    refl,
    refl,
    good,
    Chained-drop_last x P b.parent_hash (p.newest ∷ p.newer ∷ p.older ∷ []) p.oldest k c,
  )

  pub advance-Releases :
      (p : PipelineState) (k : ℕ)
      → Chained x P b.parent_hash (slots p) k
      → Releases P k (advance x p b).1
  unfolding advance
  advance-Releases p zero c = (λ _. released_of_empty x p c.1.1.1.0, λ h. absurd (omega arith))
  advance-Releases p (suc zero) c =
      (λ _. released_of_empty x p c.4.1.1.0, λ h. absurd (omega arith))
  advance-Releases p (suc (suc zero)) c =
      (λ _. released_of_empty x p c.4.4.1.0, λ h. absurd (omega arith))
  advance-Releases p (suc (suc (suc zero))) c =
      (λ _. released_of_empty x p c.4.4.4.0, λ h. absurd (omega arith))
  advance-Releases p (suc (suc (suc (suc k)))) c =
      let (b3, e3, _, _, (b2, e2, h2, _, (b1, e1, h1, _, (b0, e0, h0, p0, _)))) = c in
      (
        λ h. absurd (omega arith),
        λ _. (
          b0,
          ground (
            arith,
            certifies_of_eq x b3 b2 h2,
            certifies_of_eq x b2 b1 h1,
            certifies_of_eq x b1 b0 h0,
          ),
          p0,
        ),
      )
