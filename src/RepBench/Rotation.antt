-- ===== src/RepBench/Rotation.antt =====
-- How many view changes a benchmark with leaders by rotation has.
use d_hotsuff.Prelude.{
  ℕ, zero, suc, ◌+◌, ◌≤◌, ◌≡◌, refl, ap, sym, ◌∙◌, subst, Bytes, bytes_instance, Bool, false,
  Option, none, some, List, length, arith, if◌then◌else◌, inc64,
}
use d_hotsuff.Prelude.Distinct.{seen, Distinct}
use d_hotsuff.Prelude.Outcome.{done}
use d_hotsuff.Proto.{MembershipRequest}
use d_hotsuff.External.{External}
use d_hotsuff.Membership.Committee
use d_hotsuff.Membership.Committee.{Committee, Replica, quorum_size, ids, size}
use d_hotsuff.Reputation.{Floats}
use d_hotsuff.Bench.Members.{Keygen}
use d_hotsuff.Bench.Members.Identities.{Works}
use d_hotsuff.RepBench.{
  RepBenchCluster, leader_by, select_leader, run_round, round_robin, new_rep_bench_cluster,
}
use d_hotsuff.RepBench.Benchmark.{Consecutive, count_round, run_loop, run_benchmark}
use d_hotsuff.RepBench.Rounds.{Running, by_timeout, by_consensus, round-Ran}
use d_hotsuff.RepBench.Totals.{IsReport, new_cluster-Running, run_benchmark-IsReport, no_run}

abbrev pub marked : List Bytes → Option Replica → Bool
marked bad none = false
marked bad (some r) = seen r.id bad

-- The views among the next `n` whose leader is Byzantine, one by one.
abbrev pub bad_views : Committee → List Bytes → ℕ → ℕ → ℕ
bad_views mc bad zero view = 0
bad_views mc bad (suc n) view =
    (if marked bad (Committee.leader mc view) then 1 else 0) + bad_views mc bad n (inc64 view)

leader_by-rotation :
    (f : Floats) (c : RepBenchCluster) (mc : Committee)
    → c.mode ≡ round_robin
    → c.mc ≡ mc
    → select_leader f c ≡ Committee.leader mc c.cur_view
unfolding select_leader leader_by
leader_by-rotation f c mc by_turns same =
    λ i. leader_by f (by_turns i) c.rep_store (same i) c.cur_view

module _ (x : External) (f : Floats) (mc : Committee) (batch : List MembershipRequest) where
  -- the count over one round and what follows it
  views_step :
      (n k : ℕ) (c c1 : RepBenchCluster) (r : Replica)
      → c.mode ≡ round_robin
      → Running x f mc batch k c
      → select_leader f c ≡ some r
      → c1.cur_view ≡ inc64 c.cur_view
      → c1.byzantine_ids ≡ c.byzantine_ids
      → bad_views mc c.byzantine_ids (suc n) c.cur_view
        ≡ (if seen r.id c.byzantine_ids then 1 else 0) + bad_views mc c1.byzantine_ids n c1.cur_view
  views_step n k c c1 r by_turns run led at same =
      let leads : Committee.leader mc c.cur_view ≡ some r =
        sym (leader_by-rotation f c mc by_turns run.committee) ∙ led in
      rw (leads, at, same) refl

  rotation_lem :
      (n k : ℕ) (run : Consecutive) (c : RepBenchCluster)
      → Distinct (ids mc.replicas)
      → quorum_size mc ≤ size mc
      → c.mode ≡ round_robin
      → Running x f mc batch k c
      → (run_loop x f n batch run c).0.view_changes
        ≡ c.view_changes + bad_views mc c.byzantine_ids n c.cur_view
  unfolding run_loop
  rotation_lem zero k run c distinct inside by_turns r = omega arith
  rotation_lem (suc n) k run c distinct inside by_turns r =
      let c1 = (run_round x f c batch).0 in
      elim (round-Ran x f mc batch k c distinct inside r) [
        | by_timeout l res led bad out late timed more ↦
            rw (out, run_loop)
              (ground (
                arith,
                bad,
                more,
                rotation_lem n k (count_round res run) c1 distinct inside
                    (timed.same_mode ∙ by_turns) timed.running,
                views_step n k c c1 l by_turns r led timed.view timed.same_byzantine,
              ))
        | by_consensus l res led good out late timed same ↦
            rw (out, run_loop)
              (ground (
                arith,
                good,
                same,
                rotation_lem n (suc k) (count_round res run) c1 distinct inside
                    (timed.same_mode ∙ by_turns) timed.running,
                views_step n k c c1 l by_turns r led timed.view timed.same_byzantine,
              ))
      ]

-- If keys are generated and sign, RunBenchmark on a new cluster of at least four replicas with
-- leaders by rotation returns a result for any number of rounds: it reports a view change for
-- each of the views from 1 on whose leader is Byzantine, a success for every other round, the
-- batches of all successes but the last four, and at most as many failures in a row as view
-- changes.
pub rotation_totals :
    (x : External) (f : Floats) (generate : Keygen) (n rounds : ℕ) (indices : List ℕ)
    (batch : List MembershipRequest)
    → Works generate
    → 4 ≤ n
    → (c : RepBenchCluster) × (new_rep_bench_cluster x f generate n round_robin indices ≡ done c)
      × IsReport c rounds
          (length batch)
          (bad_views c.mc c.byzantine_ids rounds 1)
          (run_benchmark x f rounds batch c).1
rotation_totals x f generate n rounds indices batch w four =
    let (c, made, at_mode, _, first, none_yet, q, run) =
      new_cluster-Running x f generate n round_robin indices batch w four in
    let counted = rotation_lem x f c.mc batch rounds 0 no_run c q.distinct q.inside at_mode run in
    let views : c.view_changes + bad_views c.mc c.byzantine_ids rounds c.cur_view
        ≡ bad_views c.mc c.byzantine_ids rounds 1 =
      omega (arith, ap (bad_views c.mc c.byzantine_ids rounds) first) in
    (
      c,
      made,
      subst (λ t. IsReport c rounds (length batch) t (run_benchmark x f rounds batch c).1)
          (counted ∙ views) (run_benchmark-IsReport x f rounds batch c q none_yet run),
    )
