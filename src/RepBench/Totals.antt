-- ===== src/RepBench/Totals.antt =====
-- What RunBenchmark reports of a new cluster, in both modes.
use d_hotsuff.Prelude.{
  ℕ, zero, suc, ◌+◌, ◌-◌, ◌*◌, ◌≤◌, ◌≡◌, refl, ◌∙◌, bytes_instance, false, List, length, ltb, arith,
}
use d_hotsuff.Prelude.Distinct.{Distinct}
use d_hotsuff.Prelude.Outcome.{Outcome, done}
use d_hotsuff.Proto.{MembershipRequest}
use d_hotsuff.External.{External}
use d_hotsuff.Membership.Committee.{Committee, quorum_size, ids, size, new_committee}
use d_hotsuff.Reputation.{Floats}
use d_hotsuff.Consensus.Chain.{hash_block}
use d_hotsuff.Bench.Members.{Keygen, keys_of, replicas_of}
use d_hotsuff.Bench.Members.Identities.{Works}
use d_hotsuff.Bench.Members.Quorums.{AreQuorate, make_members-AreQuorate}
use d_hotsuff.Bench.Window.Chained.{empty_window-Chained}
use d_hotsuff.Bench.Round.{genesis}
use d_hotsuff.RepBench.{
  RepBenchCluster, run_round, LeaderMode, new_rep_bench_cluster, fresh_cluster,
}
use d_hotsuff.RepBench.Benchmark.{
  Consecutive, count_round, run_loop, run_benchmark, BenchResult, reported,
}
use d_hotsuff.RepBench.Rounds.{Carries, Running, Timed, by_timeout, by_consensus, round-Ran}

module _ (x : External) (f : Floats) (mc : Committee) (batch : List MembershipRequest) where
  -- The state behind a run of `n` rounds, which started with `before` rounds behind it.
  pub record Totals (n before : ℕ) (c c' : RepBenchCluster) (k : Consecutive) : Type 0 where
    pub successes : ℕ
    pub running : Running x f mc batch successes c'
    pub rounds : successes + c'.view_changes ≡ n + before
    pub same_mode : c'.mode ≡ c.mode
    pub same_n : c'.n ≡ c.n
    pub same_byzantine : c'.byzantine_ids ≡ c.byzantine_ids
    pub current : k.cur_consec ≤ c'.view_changes
    pub longest : k.max_consec ≤ c'.view_changes

  one_more :
      (n before k : ℕ) (c c1 c2 : RepBenchCluster) (last : Consecutive)
      → Timed x f mc batch k c c1
      → Totals n (suc before) c1 c2 last
      → Totals (suc n) before c c2 last
  one_more n before k c c1 c2 last timed t = record {
    successes = t.successes;
    running = t.running;
    rounds = omega (arith, t.rounds);
    same_mode = t.same_mode ∙ timed.same_mode;
    same_n = t.same_n ∙ timed.same_n;
    same_byzantine = t.same_byzantine ∙ timed.same_byzantine;
    current = t.current;
    longest = t.longest;
  }

  pub loop_lem :
      (n k before : ℕ) (run : Consecutive) (c : RepBenchCluster)
      → Distinct (ids mc.replicas)
      → quorum_size mc ≤ size mc
      → Running x f mc batch k c
      → k + c.view_changes ≡ before
      → run.cur_consec ≤ c.view_changes
      → run.max_consec ≤ c.view_changes
      → (out : Consecutive) × ((run_loop x f n batch run c).1 ≡ done out)
        × Totals n before c (run_loop x f n batch run c).0 out
  unfolding run_loop count_round
  loop_lem zero k before run c distinct inside r e cur max = (
    run,
    refl,
    record {
      successes = k;
      running = r;
      rounds = omega arith;
      same_mode = refl;
      same_n = refl;
      same_byzantine = refl;
      current = cur;
      longest = max;
    },
  )
  loop_lem (suc n) k before run c distinct inside r e cur max =
      elim (round-Ran x f mc batch k c distinct inside r) [
        | by_timeout l res led bad out late timed more ↦
            let c1 = (run_round x f c batch).0 in
            let (last, end, t) =
              loop_lem n k (suc before) (count_round res run) c1 distinct inside timed.running
                (omega arith) (ground arith) (ground arith) in
            (
              last,
              rw (out, run_loop) end,
              rw (out, run_loop) (one_more n before k c c1 _ last timed t),
            )
        | by_consensus l res led good out late timed same ↦
            let c1 = (run_round x f c batch).0 in
            let (last, end, t) =
              loop_lem n (suc k) (suc before) (count_round res run) c1 distinct inside timed.running
                (omega arith) (ground arith) (ground arith) in
            (
              last,
              rw (out, run_loop) end,
              rw (out, run_loop) (one_more n before (suc k) c c1 _ last timed t),
            )
      ]

-- The cluster of a new benchmark, and that no round of it has been run.
pub new_cluster-Running :
    (x : External) (f : Floats) (generate : Keygen) (n : ℕ) (mode : LeaderMode) (indices : List ℕ)
    (batch : List MembershipRequest)
    → Works generate
    → 4 ≤ n
    → (c : RepBenchCluster) × (new_rep_bench_cluster x f generate n mode indices ≡ done c)
      × (c.mode ≡ mode)
      × (c.n ≡ n)
      × (c.cur_view ≡ 1)
      × (c.view_changes ≡ 0)
      × AreQuorate c.keys c.mc
      × Running x f c.mc batch 0 c
unfolding new_rep_bench_cluster
new_cluster-Running x f generate n mode indices batch w four =
    let (members, made, q) = make_members-AreQuorate generate n w four in
    let large : ltb n 4 ≡ false = ground arith in
    (
      fresh_cluster x f n mode indices (keys_of members) (new_committee 0 (replicas_of members)),
      rw (large, made) refl,
      refl,
      refl,
      refl,
      refl,
      q,
      record {
        committee = refl;
        sign = q.sign;
        enough = q.enough;
        chained = empty_window-Chained x (Carries batch) (hash_block x genesis);
        successes = refl;
        counted = omega arith;
      },
    )

-- The result that RunBenchmark makes of the counts.
abbrev pub reported_by : RepBenchCluster → ℕ → ℕ → ℕ → ℕ → ℕ → BenchResult
reported_by c rounds each s t m = record {
  mode = c.mode;
  n = c.n;
  num_byzantine = length c.byzantine_ids;
  total_rounds = rounds;
  success_rounds = s;
  view_changes = t;
  tx_delivered = (s - 4) * each;
  max_consec_fails = m;
}

reported_lem :
    (c c' : RepBenchCluster) (rounds each s : ℕ) (k : Consecutive)
    → c'.mode ≡ c.mode
    → c'.n ≡ c.n
    → c'.byzantine_ids ≡ c.byzantine_ids
    → c'.success_round ≡ s
    → c'.delivered ≡ (s - 4) * each
    → reported rounds c' (done k) ≡ done (reported_by c rounds each s c'.view_changes k.max_consec)
unfolding reported
reported_lem c c' rounds each s k at_mode at_n byzantine successes delivered = λ i. done (record {
  mode = at_mode i;
  n = at_n i;
  num_byzantine = length (byzantine i);
  total_rounds = rounds;
  success_rounds = successes i;
  view_changes = c'.view_changes;
  tx_delivered = delivered i;
  max_consec_fails = k.max_consec;
})

-- The result of a run from the start, where `t` of the rounds time out.
pub record IsReport (c : RepBenchCluster) (rounds each t : ℕ) (r : Outcome BenchResult)
    : Type 0 where
  pub successes : ℕ
  pub longest : ℕ
  pub total : successes + t ≡ rounds
  pub bounded : longest ≤ t
  pub result : r ≡ done (reported_by c rounds each successes t longest)

abbrev pub no_run : Consecutive
no_run = record { cur_consec = 0; max_consec = 0 }

pub run_benchmark-IsReport :
    (x : External) (f : Floats) (rounds : ℕ) (batch : List MembershipRequest) (c : RepBenchCluster)
    → AreQuorate c.keys c.mc
    → c.view_changes ≡ 0
    → Running x f c.mc batch 0 c
    → IsReport c rounds
        (length batch)
        (run_loop x f rounds batch no_run c).0.view_changes
        (run_benchmark x f rounds batch c).1
unfolding run_benchmark
run_benchmark-IsReport x f rounds batch c q none_yet run =
    let (out, end, t) =
      loop_lem x f c.mc batch rounds 0 0 no_run c q.distinct q.inside run (omega arith)
        (omega arith) (omega arith) in
    record {
      successes = t.successes;
      longest = out.max_consec;
      total = omega (arith, t.rounds);
      bounded = t.longest;
      result = rw end (
          reported_lem c (run_loop x f rounds batch no_run c).0 rounds (length batch) t.successes
            out t.same_mode t.same_n t.same_byzantine t.running.successes t.running.counted);
    }
