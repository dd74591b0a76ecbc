-- ===== src/Consensus/Pipeline/Commits.antt =====
-- When Advance of internal/consensus/pipeline.go releases a block.
use d_hotsuff.Prelude.{◌≡◌, ◌&&◌, none, some, List, [], ◌∷◌, arith, if◌then◌else◌}
use d_hotsuff.Proto.{Block}
use d_hotsuff.External.{External}
use d_hotsuff.Consensus.Chain.{certifies}
use d_hotsuff.Consensus.Pipeline.{PipelineState, advance, reset}

-- The window after a run of proposals.
abbrev pub after : External → PipelineState → List Block → PipelineState
after x p [] = p
after x p (b ∷ bs) = after x (advance x p b).0 bs

-- After any four proposals, from any window, the next Advance releases the first of them exactly
-- if the four are a chain of parent hashes, and nothing otherwise, whatever the fifth proposal
-- is.
pub advance_releases :
    (x : External) (p : PipelineState) (b b_prime b_double b_star next : Block)
    → (advance x (after x p (b ∷ b_prime ∷ b_double ∷ b_star ∷ [])) next).1 ≡ (
        if certifies x b_star b_double && certifies x b_double b_prime && certifies x b_prime b
        then some b
        else none)
unfolding advance
advance_releases x p b b_prime b_double b_star next = ground arith

-- After a view change resets the window, no proposal releases a block before the fifth.
pub reset_releases :
    (x : External) (p : PipelineState) (b1 b2 b3 b4 : Block)
    → let q = reset p in
      ((advance x q b1).1 ≡ none)
      × ((advance x (after x q (b1 ∷ [])) b2).1 ≡ none)
      × ((advance x (after x q (b1 ∷ b2 ∷ [])) b3).1 ≡ none)
      × ((advance x (after x q (b1 ∷ b2 ∷ b3 ∷ [])) b4).1 ≡ none)
unfolding advance reset
reset_releases x p b1 b2 b3 b4 = ground arith
