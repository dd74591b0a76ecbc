-- ===== src/Tests/Benchmarks.antt =====
-- The benchmark clusters of internal/benchutil and internal/repbench.
use d_hotsuff.Prelude.{
  ℕ, ◌-◌, ◌*◌, ◌≡◌, ◌↔◌, refl, bytes_eq, ok, true, some, List, [], ◌∷◌, length, All, arith,
}
use d_hotsuff.Prelude.Outcome.{done}
use d_hotsuff.External.{PrivateKey}
use d_hotsuff.Proto.{MembershipRequest, QuorumCert, regular}
use d_hotsuff.Consensus.Chain.{hash_block}
use d_hotsuff.Consensus.Chain.Readers.{IsLawful}
use d_hotsuff.Bench.Blocks.{MemBlockchain, put, reader, extends, extends_unmarked}
use d_hotsuff.Bench.Blocks.Ancestry.{ancestor, extends_complete, extends-extends_unmarked}
use d_hotsuff.Bench.Members.{Keygen}
use d_hotsuff.Bench.Members.Identities.{Works}
use d_hotsuff.Membership.Committee.{quorum_size}
use d_hotsuff.Prelude.Distinct.{seen}
use d_hotsuff.Membership.ConfigStore.{latest, new_config_store}
use d_hotsuff.Membership.Quorum.{validate_qc}
use d_hotsuff.Bench.Round.Accepted.{verifier, Matches}
use d_hotsuff.Bench.Cluster.Certified.{validate_qc-run_round}
use d_hotsuff.Bench.Cluster.{
  run_round, proposal, BenchCluster, new_bench_cluster, run_rounds, fresh_cluster,
}
use d_hotsuff.Bench.Cluster.Rounds.{new_cluster_delivers}
use d_hotsuff.Bench.Cluster.Locks.{LockedBehind, new_cluster_locks}
use d_hotsuff.Bench.Cluster.Stores.{run_rounds-IsLawful, fresh_cluster-IsKeyed}
use d_hotsuff.RepBench.{RepBenchCluster, new_rep_bench_cluster, round_robin, reputation}
use d_hotsuff.RepBench.Benchmark.{run_benchmark}
use d_hotsuff.RepBench.Totals.{IsReport}
use d_hotsuff.RepBench.Timeouts.{marks, longest_run, bad_rounds, new_cluster_totals}
use d_hotsuff.RepBench.Rotation.{bad_views, rotation_totals}
use d_hotsuff.Tests.Fixtures.{external, key, floats, request, root, child, four}

-- Every key signs with the same two numbers.
abbrev one_key : PrivateKey
one_key = record { public_key = key; ecdsa_sign = λ digest. some (1, 2) }

abbrev generate : Keygen
generate = λ i. some one_key

generate-Works : Works generate
generate-Works i = (one_key, refl, λ digest. (1, 2, refl, omega arith, omega arith))

abbrev batch : List MembershipRequest
batch = request regular 1 ∷ request regular 2 ∷ []

abbrev certifying : BenchCluster
certifying = fresh_cluster external 4 (one_key ∷ one_key ∷ one_key ∷ one_key ∷ []) four

one_key-Matches : Matches external one_key
one_key-Matches digest = (1, 2, refl, refl, omega arith, omega arith)

validate_qc-run_round_example :
    let (c', result) = run_round external certifying batch in
    (n : ℕ) × (qc : QuorumCert) × (result ≡ done n)
    × (c'.generic_qc ≡ some qc)
    × (c'.last_hash ≡ hash_block external (proposal certifying four batch))
    × (qc.block_hash ≡ c'.last_hash)
    × (qc.view_number ≡ 1)
    × (validate_qc qc four (verifier external 1 0) ≡ ok tt)
unfolding quorum_size seen bytes_eq latest new_config_store
validate_qc-run_round_example =
    validate_qc-run_round external certifying four batch refl
      (
        one_key-Matches,
        refl,
        (one_key-Matches, refl, (one_key-Matches, refl, (one_key-Matches, refl, tt))),
      )
      (refl, (refl, (refl, (refl, tt)))) (omega arith)

new_cluster_delivers_example :
    (c : BenchCluster) × (new_bench_cluster external generate 4 ≡ done c)
    × ((run_rounds external 6 batch 0 c).1 ≡ done ((6 - 4) * length batch))
new_cluster_delivers_example =
    new_cluster_delivers external generate 4 6 batch generate-Works (omega arith) (refl, (refl, tt))

new_cluster_locks_example :
    (c : BenchCluster) × (new_bench_cluster external generate 4 ≡ done c)
    × All (LockedBehind 2) (run_rounds external 3 batch 0 c).0.safety
new_cluster_locks_example =
    new_cluster_locks external generate 4 2 batch generate-Works (omega arith) (refl, (refl, tt))
      (omega arith)

-- The first and the third of five replicas are Byzantine.
rotation_totals_example :
    (c : RepBenchCluster) × (new_rep_bench_cluster external floats generate 5 round_robin
        (0 ∷ 2 ∷ [])
      ≡ done c)
    × IsReport c 10
        (length batch)
        (bad_views c.mc c.byzantine_ids 10 1)
        (run_benchmark external floats 10 batch c).1
rotation_totals_example =
    rotation_totals external floats generate 5 10 (0 ∷ 2 ∷ []) batch generate-Works (omega arith)

new_cluster_totals_example :
    (c : RepBenchCluster) × (new_rep_bench_cluster external floats generate 5 reputation (0 ∷ [])
      ≡ done c)
    × (c.mode ≡ reputation)
    × (let bad = bad_rounds external floats batch 10 c in
        (report : IsReport c 10
          (length batch)
          (marks bad)
          (run_benchmark external floats 10 batch c).1)
        × (report.longest ≡ longest_run bad))
new_cluster_totals_example =
    new_cluster_totals external floats generate 5 10 reputation (0 ∷ []) batch generate-Works
      (omega arith)

abbrev chain : MemBlockchain
chain = put external (child root) (put external root [])

extends_complete_example :
    (extends chain (hash_block external (child root)) (hash_block external root) ≡ true) ↔ (
      (k : ℕ) × (ancestor chain k (hash_block external (child root))
        ≡ some (hash_block external root)))
unfolding put
extends_complete_example =
    extends_complete chain (hash_block external (child root)) (hash_block external root)
      (omega arith)

-- A block that is its own parent.
abbrev cyclic : MemBlockchain
cyclic = (hash_block external root, record root { parent_hash = hash_block external root }) ∷ []

extends-extends_unmarked_example :
    extends cyclic (hash_block external root) []
    ≡ extends_unmarked cyclic (hash_block external root) []
extends-extends_unmarked_example = extends-extends_unmarked cyclic (hash_block external root) []

run_rounds-IsLawful_example :
    IsLawful external (
      reader (run_rounds external 3 batch 0 (fresh_cluster external 4 (one_key ∷ []) four)).0.chain)
run_rounds-IsLawful_example =
    run_rounds-IsLawful external 3 batch 0 (fresh_cluster external 4 (one_key ∷ []) four)
      (fresh_cluster-IsKeyed external 4 (one_key ∷ []) four)
