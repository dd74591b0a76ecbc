-- ===== src/Consensus/Pipeline.antt =====
-- internal/consensus/pipeline.go: the sliding window of proposals.
pub mod Commits
use d_hotsuff.Prelude.{Bool, true, false, ◌&&◌, Option, none, some, if◌then◌else◌}
use d_hotsuff.Proto.{Block}
use d_hotsuff.External.{External}
use d_hotsuff.Consensus.Chain.{certifies}

-- Window[0] to Window[3].
pub record PipelineState : Type 0 where
  pub oldest : Option Block
  pub older : Option Block
  pub newer : Option Block
  pub newest : Option Block

abbrev pub empty_window : PipelineState
empty_window = record { oldest = none; older = none; newer = none; newest = none }

unfoldable pub is_set : Option Block → Bool
is_set none = false
is_set (some b) = true

unfoldable pub can_commit : PipelineState → Bool
unfolding is_set
can_commit p = is_set p.oldest && is_set p.older && is_set p.newer && is_set p.newest

-- the guard of Advance and its chain test, on the slots after the shift
pub committed :
    External → Bool → Option Block → Option Block → Option Block → Option Block → Option Block
committed x full (some candidate) (some b_prime) (some b_double) (some b_star) =
    if full
      && (certifies x b_star b_double
          && certifies x b_double b_prime
          && certifies x b_prime candidate)
    then some candidate
    else none
committed x full _ _ _ _ = none

-- the window after the shift, and the block to deliver
unfoldable pub advance : External → PipelineState → Block → PipelineState × Option Block
unfolding committed can_commit
advance x p new_block =
    let shifted : PipelineState = record {
      oldest = p.older;
      older = p.newer;
      newer = p.newest;
      newest = some new_block;
    } in
    (shifted, committed x (can_commit shifted) p.oldest shifted.oldest shifted.older shifted.newer)

unfoldable pub reset : PipelineState → PipelineState
reset p = empty_window
