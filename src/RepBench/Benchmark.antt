-- ===== src/RepBench/Benchmark.antt =====
-- RunBenchmark of internal/repbench/cluster.go: the rounds and what it reports of them. Times and
-- rates are not modelled.
use d_hotsuff.Prelude.{ℕ, zero, suc, ◌+◌, List, length, ltb, if◌then◌else◌}
use d_hotsuff.Prelude.Outcome.{Outcome, panicked, failed, done}
use d_hotsuff.Proto.{MembershipRequest}
use d_hotsuff.External.{External}
use d_hotsuff.Reputation.{Floats}
use d_hotsuff.RepBench.{LeaderMode, RepBenchCluster, RoundResult, run_round}

pub record Consecutive : Type 0 where
  pub cur_consec : ℕ
  pub max_consec : ℕ

-- the counters of consecutive timeouts
unfoldable pub count_round : RoundResult → Consecutive → Consecutive
count_round r k =
    if r.was_timeout
    then (record {
      cur_consec = k.cur_consec + 1;
      max_consec = if ltb k.max_consec (k.cur_consec + 1) then k.cur_consec + 1 else k.max_consec;
    })
    else record k { cur_consec = 0 }

-- the loop of RunBenchmark
unfoldable pub run_loop :
    External
    → Floats
    → ℕ
    → List MembershipRequest
    → Consecutive
    → RepBenchCluster
    → RepBenchCluster × Outcome Consecutive
unfolding count_round
run_loop x f zero batch k c = (c, done k)
run_loop x f (suc rounds) batch k c =
    let (c', result) = run_round x f c batch in
    elim result [
      | panicked ↦ (c', panicked)
      | failed e ↦ (c', failed e)
      | done r ↦ run_loop x f rounds batch (count_round r k) c'
    ]

pub record BenchResult : Type 0 where
  pub mode : LeaderMode
  pub n : ℕ
  pub num_byzantine : ℕ
  pub total_rounds : ℕ
  pub success_rounds : ℕ
  pub view_changes : ℕ
  pub tx_delivered : ℕ
  pub max_consec_fails : ℕ

unfoldable pub reported : ℕ → RepBenchCluster → Outcome Consecutive → Outcome BenchResult
reported rounds c panicked = panicked
reported rounds c (failed e) = failed e
reported rounds c (done k) = done (record {
  mode = c.mode;
  n = c.n;
  num_byzantine = length c.byzantine_ids;
  total_rounds = rounds;
  success_rounds = c.success_round;
  view_changes = c.view_changes;
  tx_delivered = c.delivered;
  max_consec_fails = k.max_consec;
})

unfoldable pub run_benchmark :
    External
    → Floats
    → ℕ
    → List MembershipRequest
    → RepBenchCluster
    → RepBenchCluster × Outcome BenchResult
unfolding run_loop reported
run_benchmark x f rounds batch c =
    let (c', k) = run_loop x f rounds batch (record { cur_consec = 0; max_consec = 0 }) c in
    (c', reported rounds c' k)
