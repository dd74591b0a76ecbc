-- ===== src/RepBench/Timeouts.antt =====
-- The timeouts that RunBenchmark counts, in both modes of choosing leaders.
use d_hotsuff.Prelude.{
  ℕ, zero, suc, ◌+◌, ◌≤◌, ◌≡◌, refl, ap, sym, ◌∙◌, subst, bytes_instance, Bool, true, false, List,
  [], ◌∷◌, length, ltb, arith, if◌then◌else◌,
}
use d_hotsuff.Prelude.Distinct.{Distinct}
use d_hotsuff.Prelude.Outcome.{Outcome, done}
use d_hotsuff.Proto.{MembershipRequest}
use d_hotsuff.External.{External}
use d_hotsuff.Membership.Committee.{Committee, quorum_size, ids, size}
use d_hotsuff.Reputation.{Floats}
use d_hotsuff.Bench.Members.{Keygen}
use d_hotsuff.Bench.Members.Identities.{Works}
use d_hotsuff.RepBench.{
  RepBenchCluster, RoundResult, LeaderMode, new_rep_bench_cluster, run_round, select_leader,
}
use d_hotsuff.RepBench.Benchmark.{
  Consecutive, count_round, run_loop, run_benchmark, BenchResult, reported,
}
use d_hotsuff.RepBench.Rounds.{Running, by_timeout, by_consensus, round-Ran}
use d_hotsuff.RepBench.Rotation.{marked}
use d_hotsuff.RepBench.Totals.{IsReport, new_cluster-Running, run_benchmark-IsReport, no_run}

-- How many of the rounds are marked.
abbrev pub marks : List Bool → ℕ
marks [] = 0
marks (b ∷ bs) = (if b then 1 else 0) + marks bs

-- How many rounds are marked before the first that is not.
abbrev pub leading : List Bool → ℕ
leading [] = 0
leading (b ∷ bs) = if b then 1 + leading bs else 0

abbrev pub larger : ℕ → ℕ → ℕ
larger a b = if ltb a b then b else a

-- The longest run of marked rounds, wherever it starts.
abbrev pub longest_run : List Bool → ℕ
longest_run [] = 0
longest_run (b ∷ bs) = larger (leading (b ∷ bs)) (longest_run bs)

leading-le-longest_run : (bs : List Bool) → leading bs ≤ longest_run bs
leading-le-longest_run [] = omega arith
leading-le-longest_run (b ∷ bs) = ground arith

-- A timeout makes the runs longer that include it.
count_timeout :
    (res : RoundResult) (run : Consecutive) (lead rest : ℕ)
    → res.was_timeout ≡ true
    → larger
        (count_round res run).max_consec
        (larger ((count_round res run).cur_consec + lead) rest)
      ≡ larger run.max_consec (larger (run.cur_consec + (1 + lead)) (larger (1 + lead) rest))
unfolding count_round
count_timeout res run lead rest late = rw late (ground arith)

-- A success ends the run.
count_success :
    (res : RoundResult) (run : Consecutive) (lead rest : ℕ)
    → res.was_timeout ≡ false
    → lead ≤ rest
    → run.cur_consec ≤ run.max_consec
    → larger
        (count_round res run).max_consec
        (larger ((count_round res run).cur_consec + lead) rest)
      ≡ larger run.max_consec (larger (run.cur_consec + 0) (larger 0 rest))
unfolding count_round
count_success res run lead rest late first le = rw late (ground arith)

cur_consec-le :
    (res : RoundResult) (run : Consecutive)
    → run.cur_consec ≤ run.max_consec
    → (count_round res run).cur_consec ≤ (count_round res run).max_consec
unfolding count_round
cur_consec-le res run le = ground arith

module _ (x : External) (f : Floats) (batch : List MembershipRequest) where
  -- Whether the leader is Byzantine, in each of the next `n` rounds.
  abbrev pub bad_rounds : ℕ → RepBenchCluster → List Bool
  bad_rounds zero c = []
  bad_rounds (suc n) c =
      marked c.byzantine_ids (select_leader f c) ∷ bad_rounds n (run_round x f c batch).0

  -- The counters of a run that is under way, over the rounds that follow.
  counted_lem :
      (mc : Committee) (n k : ℕ) (run : Consecutive) (c : RepBenchCluster)
      → Distinct (ids mc.replicas)
      → quorum_size mc ≤ size mc
      → Running x f mc batch k c
      → run.cur_consec ≤ run.max_consec
      → (out : Consecutive) × ((run_loop x f n batch run c).1 ≡ done out)
        × ((run_loop x f n batch run c).0.view_changes ≡ c.view_changes + marks (bad_rounds n c))
        × (out.max_consec
            ≡ larger run.max_consec
                (larger (run.cur_consec + leading (bad_rounds n c)) (longest_run (bad_rounds n c))))
  unfolding run_loop
  counted_lem mc zero k run c distinct inside r le = (run, refl, omega arith, ground arith)
  counted_lem mc (suc n) k run c distinct inside r le =
      let c1 = (run_round x f c batch).0 in
      let first = leading-le-longest_run (bad_rounds n c1) in
      elim (round-Ran x f mc batch k c distinct inside r) [
        | by_timeout l res led bad out late timed more ↦
            let (last, end, views, max) =
              counted_lem mc n k (count_round res run) c1 distinct inside timed.running
                (cur_consec-le res run le) in
            (
              last,
              rw (out, run_loop) end,
              rw (out, run_loop, led, bad) (omega (arith, views, more)),
              rw (led, bad)
                  (max
                    ∙ count_timeout res run (leading (bad_rounds n c1))
                        (longest_run (bad_rounds n c1)) late),
            )
        | by_consensus l res led good out late timed same ↦
            let (last, end, views, max) =
              counted_lem mc n (suc k) (count_round res run) c1 distinct inside timed.running
                (cur_consec-le res run le) in
            (
              last,
              rw (out, run_loop) end,
              rw (out, run_loop, led, good) (omega (arith, views, same)),
              rw (led, good)
                  (max
                    ∙ count_success res run (leading (bad_rounds n c1))
                        (longest_run (bad_rounds n c1)) late first le),
            )
      ]

abbrev fails_of : Outcome BenchResult → ℕ
fails_of (done r) = r.max_consec_fails
fails_of _ = 0

longest_lem :
    (x : External) (f : Floats) (rounds t : ℕ) (batch : List MembershipRequest)
    (c : RepBenchCluster) (out : Consecutive)
    → (run_loop x f rounds batch no_run c).1 ≡ done out
    → (report : IsReport c rounds (length batch) t (run_benchmark x f rounds batch c).1)
    → report.longest ≡ out.max_consec
unfolding run_benchmark reported
longest_lem x f rounds t batch c out end report = sym (ap fails_of report.result) ∙ rw end refl

-- If keys are generated and sign, RunBenchmark on a new cluster of at least four replicas returns
-- a result in each mode, for any number of rounds: it reports a view change for each round whose
-- selected leader is Byzantine and a success for every other round, the batches of all successes
-- but the last four, and as MaxConsecFails the length of the longest run of consecutive rounds
-- with a Byzantine leader.
pub new_cluster_totals :
    (x : External) (f : Floats) (generate : Keygen) (n rounds : ℕ) (mode : LeaderMode)
    (indices : List ℕ) (batch : List MembershipRequest)
    → Works generate
    → 4 ≤ n
    → (c : RepBenchCluster) × (new_rep_bench_cluster x f generate n mode indices ≡ done c)
      × (c.mode ≡ mode)
      × (let bad = bad_rounds x f batch rounds c in
          (report : IsReport c rounds
            (length batch)
            (marks bad)
            (run_benchmark x f rounds batch c).1)
          × (report.longest ≡ longest_run bad))
new_cluster_totals x f generate n rounds mode indices batch w four =
    let (c, made, at_mode, _, _, none_yet, q, run) =
      new_cluster-Running x f generate n mode indices batch w four in
    let bad = bad_rounds x f batch rounds c in
    let (out, end, views, max) =
      counted_lem x f batch c.mc rounds 0 no_run c q.distinct q.inside run (omega arith) in
    let first = leading-le-longest_run bad in
    let report : IsReport c rounds (length batch) (marks bad) (run_benchmark x f rounds batch c).1 =
      subst (λ t. IsReport c rounds (length batch) t (run_benchmark x f rounds batch c).1)
        (omega (arith, views, none_yet))
        (run_benchmark-IsReport x f rounds batch c q none_yet run) in
    (
      c,
      made,
      at_mode,
      (
        report,
        longest_lem x f rounds (marks bad) batch c out end report ∙ max ∙ ground (arith, first),
      ),
    )
