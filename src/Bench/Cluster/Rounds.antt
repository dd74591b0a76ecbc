-- ===== src/Bench/Cluster/Rounds.antt =====
-- The rounds of a new cluster (NewBenchCluster, RunRound, RunRounds).
use d_hotsuff.Prelude.{
  ℕ, zero, suc, ◌+◌, ◌-◌, ◌*◌, ◌≤◌, ◌<◌, ◌≡◌, refl, ap, ◌∙◌, inl, inr, Bool-cases, bytes_instance,
  false, Option, none, some, List, [], ◌∷◌, length, filter, All, ltb, leb, leb→le, arith,
  if◌then◌else◌,
}
use d_hotsuff.Prelude.Distinct.{Distinct}
use d_hotsuff.Prelude.Outcome.{done}
use d_hotsuff.Proto.{Block, MembershipRequest, regular}
use d_hotsuff.External.{External, PrivateKey}
use d_hotsuff.Membership.Committee.{Committee, quorum_size, ids, new_committee, size}
use d_hotsuff.Membership.ConfigStore.{latest, new_config_store}
use d_hotsuff.Consensus.Chain.{hash_block}
use d_hotsuff.Bench.Counter
use d_hotsuff.Bench.Counter.{DeliverCounter, is_not_regular}
use d_hotsuff.Bench.Window.Chained.{
  Chained, slots, Releases, empty_window-Chained, advance-slots, advance-Releases,
}
use d_hotsuff.Bench.Window
use d_hotsuff.Bench.Members.{Keygen, keys_of, replicas_of}
use d_hotsuff.Bench.Members.Identities.{CanSign, Works}
use d_hotsuff.Bench.Members.Quorums.{AreQuorate, make_members-AreQuorate}
use d_hotsuff.Bench.Round.{genesis}
use d_hotsuff.Bench.Round.Certificates.{certify_block_lem}
use d_hotsuff.Bench.Cluster.{
  BenchCluster, proposal, commit, run_round, run_rounds, new_bench_cluster, fresh_cluster,
}

abbrev pub AreRegular : List MembershipRequest → Type 0
AreRegular = All (λ (req : MembershipRequest). req.type ≡ regular)

filter-AreRegular :
    (batch : List MembershipRequest)
    → AreRegular batch
    → filter (λ (req : MembershipRequest). is_not_regular req.type) batch ≡ []
filter-AreRegular [] r = refl
filter-AreRegular (req ∷ batch) r = rw (r.0, filter-AreRegular batch r.1) refl

sum_rounds :
    (each n k total : ℕ)
    → total + (if leb 4 k then each else 0) + (n + suc k - 4 - (suc k - 4)) * each
      ≡ total + (suc n + k - 4 - (k - 4)) * each
sum_rounds each n k total = elim (Bool-cases (leb 4 k)) [
  | inl late ↦
      let le = leb→le 4 k late in
      let before : n + suc k - 4 - (suc k - 4) ≡ n = omega arith in
      let after : suc n + k - 4 - (k - 4) ≡ n + 1 = omega arith in
      rw (late, before, after) (grind arith)
  | inr early ↦
      let lt : k < 4 = ground arith in
      let same : n + suc k - 4 - (suc k - 4) ≡ suc n + k - 4 - (k - 4) = omega arith in
      rw (early, same) (omega arith)
]

-- A block of the benchmark, which no membership change rides on.
abbrev pub Plain : List MembershipRequest → Block → Type 0
Plain batch b = (b.batch ≡ batch) × (b.conf_number ≡ 0)

module _ (x : External) (mc : Committee) (batch : List MembershipRequest) where
  pub record Running (k : ℕ) (c : BenchCluster) : Type 0 where
    pub current : latest c.dlv.configs ≡ some mc
    pub sign : All CanSign c.keys
    pub enough : quorum_size mc ≤ length c.keys
    pub chained : Chained x (Plain batch) c.last_hash (slots c.pipeline) k

  -- what the round after `k` others commits
  abbrev pub committed_after : ℕ → ℕ
  committed_after k = if leb 4 k then length batch else 0

  commit_lem :
      (d : DeliverCounter) (k : ℕ) (to_commit : Option Block)
      → AreRegular batch
      → Releases (Plain batch) k to_commit
      → ((commit x d to_commit).0.configs ≡ d.configs)
        × ((commit x d to_commit).1 ≡ committed_after k)
  unfolding commit Counter.deliver
  commit_lem d k none reg r = elim (Bool-cases (leb 4 k)) [
    | inl late ↦ absurd (ground (arith, r.1))
    | inr early ↦ (refl, rw early refl)
  ]
  commit_lem d k (some b) reg r = elim (Bool-cases (leb 4 k)) [
    | inl late ↦
        let (c, same, plain) = r.1 (leb→le 4 k late) in
        let whole : b.batch ≡ batch = ground arith in
        (
          Counter.deliver-plain x d b (rw whole (filter-AreRegular batch reg)),
          rw late (ap (λ (reqs : List MembershipRequest). length reqs) whole),
        )
    | inr early ↦ absurd (ground (arith, r.0))
  ]

  -- One more round: what it commits, and what holds after it.
  pub round_lem :
      (k : ℕ) (c : BenchCluster)
      → mc.number ≡ 0
      → Distinct (ids mc.replicas)
      → quorum_size mc ≤ size mc
      → AreRegular batch
      → Running k c
      → ((run_round x c batch).1 ≡ done (committed_after k))
        × Running (suc k) (run_round x c batch).0
  unfolding run_round
  round_lem k c zero_number distinct inside reg run =
      let block = proposal c mc batch in
      let (qc, made, _) =
        certify_block_lem x c.cur_view mc.number (hash_block x block) c.keys mc run.sign distinct
          run.enough inside in
      let released =
        advance-Releases x (Plain batch) block (refl, zero_number) c.pipeline k run.chained in
      let (kept, counted) = commit_lem c.dlv k (Window.advance x c.pipeline block).1 reg released in
      rw (run.current, made)
        (
          ap done counted,
          record {
            current = ap latest kept ∙ run.current;
            sign = run.sign;
            enough = run.enough;
            chained =
                advance-slots x (Plain batch) block (refl, zero_number) c.pipeline k run.chained;
          },
        )

  -- TxDelivered of `n` rounds behind `k` others, which starts at `total`.
  rounds_lem :
      (n k total : ℕ) (c : BenchCluster)
      → mc.number ≡ 0
      → Distinct (ids mc.replicas)
      → quorum_size mc ≤ size mc
      → AreRegular batch
      → Running k c
      → (run_rounds x n batch total c).1 ≡ done (total + (n + k - 4 - (k - 4)) * length batch)
  unfolding run_rounds
  rounds_lem zero k total c zero_number distinct inside reg run = ap done (grind arith)
  rounds_lem (suc n) k total c zero_number distinct inside reg run =
      let (counted, next) = round_lem k c zero_number distinct inside reg run in
      rw (counted, run_rounds)
        (rounds_lem n (suc k) (total + committed_after k) (run_round x c batch).0 zero_number
            distinct inside reg next
          ∙ ap done (sum_rounds (length batch) n k total))

-- If keys are generated and sign, there is a new cluster, its committee fits the keys, and no round
-- has been run.
pub new_cluster-Running :
    (x : External) (generate : Keygen) (n : ℕ) (batch : List MembershipRequest)
    → Works generate
    → 4 ≤ n
    → (keys : List PrivateKey) × (mc : Committee) × (new_bench_cluster x generate n
        ≡ done (fresh_cluster x n keys mc))
      × (mc.number ≡ 0)
      × AreQuorate keys mc
      × Running x mc batch 0 (fresh_cluster x n keys mc)
unfolding new_bench_cluster latest new_config_store
new_cluster-Running x generate n batch w four =
    let (members, made, q) = make_members-AreQuorate generate n w four in
    let large : ltb n 4 ≡ false = ground arith in
    (
      keys_of members,
      new_committee 0 (replicas_of members),
      rw (large, made) refl,
      refl,
      q,
      record {
        current = refl;
        sign = q.sign;
        enough = q.enough;
        chained = empty_window-Chained x (Plain batch) (hash_block x genesis);
      },
    )

-- If keys are generated and sign, a new benchmark cluster of at least four replicas runs rounds
-- of regular requests without a panic or an error, and commits the batch of every round but the
-- last four.
pub new_cluster_delivers :
    (x : External) (generate : Keygen) (n rounds : ℕ) (batch : List MembershipRequest)
    → Works generate
    → 4 ≤ n
    → AreRegular batch
    → (c : BenchCluster) × (new_bench_cluster x generate n ≡ done c)
      × ((run_rounds x rounds batch 0 c).1 ≡ done ((rounds - 4) * length batch))
new_cluster_delivers x generate n rounds batch w four reg =
    let (keys, mc, made, number, q, run) = new_cluster-Running x generate n batch w four in
    let all : rounds + 0 - 4 - (0 - 4) ≡ rounds - 4 = omega arith in
    (
      fresh_cluster x n keys mc,
      made,
      rounds_lem x mc batch rounds 0 0 (fresh_cluster x n keys mc) number q.distinct q.inside reg
            run
          ∙ ap done (omega (arith, ap (λ (k : ℕ). k * length batch) all)),
    )
