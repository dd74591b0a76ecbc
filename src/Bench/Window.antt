-- ===== src/Bench/Window.antt =====
-- pipelineWindow of internal/benchutil/cluster.go, with the slots of the consensus package's
-- window: slots[0] is the oldest.
pub mod Chained
use d_hotsuff.Prelude.{◌≡◌, ◌&&◌, Option, none, some, arith, if◌then◌else◌}
use d_hotsuff.Proto.{Block}
use d_hotsuff.External.{External}
use d_hotsuff.Consensus.Chain.{certifies}
use d_hotsuff.Consensus.Pipeline
use d_hotsuff.Consensus.Pipeline.{PipelineState, empty_window}

-- the tests after the shift: the candidate, bPrime, bDouble and bStar
pub released : External → Option Block → Option Block → Option Block → Option Block → Option Block
released x (some candidate) (some b_prime) (some b_double) (some b_star) =
    if certifies x b_star b_double
      && (certifies x b_double b_prime && certifies x b_prime candidate)
    then some candidate
    else none
released x _ _ _ _ = none

unfoldable pub advance : External → PipelineState → Block → PipelineState × Option Block
unfolding released
advance x p b =
    let shifted : PipelineState = record {
      oldest = p.older;
      older = p.newer;
      newer = p.newest;
      newest = some b;
    } in
    (shifted, released x p.oldest shifted.oldest shifted.older shifted.newer)

unfoldable pub reset : PipelineState → PipelineState
reset p = empty_window

-- The window of the benchmarks slides and releases as the window of the consensus package does.
pub advance-advance :
    (x : External) (p : PipelineState) (b : Block) → advance x p b ≡ Pipeline.advance x p b
unfolding advance Pipeline.advance
advance-advance x p b = ground arith
