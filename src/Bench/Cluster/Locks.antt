-- ===== src/Bench/Cluster/Locks.antt =====
-- The safety variables of the replicas of a cluster, from round to round.
use d_hotsuff.Prelude.{
  ℕ, zero, suc, ◌+◌, ◌≤◌, ◌<◌, ◌≡◌, ◌⊎◌, refl, ap, subst, sym, ◌∙◌, inl, inr, Bool-cases, Bytes,
  bytes_eq, bytes_instance, bytes_eq_iff, bytes_eq_refl, true, Option, none, some, List, All,
  All-map, arith, inc64, u64,
}
use d_hotsuff.Prelude.Distinct.{Distinct}
use d_hotsuff.Prelude.Outcome.{done}
use d_hotsuff.Proto.{Block, MembershipRequest, QuorumCert, view_of}
use d_hotsuff.External.{External}
use d_hotsuff.Membership.Committee.{Committee, quorum_size, ids, size}
use d_hotsuff.Consensus.Chain.{hash_block, certifies}
use d_hotsuff.Consensus.Safety.{SafetyState, safe_node}
use d_hotsuff.Consensus.Safety.Voting.{MayVote, safe_node_iff}
use d_hotsuff.Bench.Blocks.{MemBlockchain, new_mem_blockchain, put, get, reader}
use d_hotsuff.Bench.Blocks.Keys.{get-put}
use d_hotsuff.Bench.Round.Certificates.{certify_block_lem}
use d_hotsuff.Bench.Members.{Keygen}
use d_hotsuff.Bench.Members.Identities.{Works}
use d_hotsuff.Bench.Cluster.{
  BenchCluster, proposal, settle_round, run_round, run_rounds, new_bench_cluster, fresh_cluster,
}
use d_hotsuff.Bench.Cluster.Rounds.{
  AreRegular, Running, round_lem, committed_after, new_cluster-Running,
}
use d_hotsuff.Bench.Round.{update_safety, genesis, genesis_qc, fresh_safety}

-- The certificate of the last view is held, and nothing newer than the one before is locked.
abbrev pub HoldsView : Option QuorumCert → ℕ → SafetyState → Type 0
HoldsView held v s =
    (s.generic_qc ≡ held)
    × ((s.locked_qc ≡ none) ⊎ ((l : QuorumCert) × (s.locked_qc ≡ some l) × (l.view_number < v)))

-- The block is stored under a hash that is its own.
abbrev pub Stored : External → MemBlockchain → Bytes → Type 0
Stored x m h = (b : Block) × (get m h ≡ some b) × (hash_block x b ≡ h)

Stored-put :
    (x : External) (m : MemBlockchain) (b : Block) (h : Bytes)
    → Stored x m h
    → Stored x (put x b m) h
Stored-put x m b h (c, e, own) = elim (Bool-cases (bytes_eq (hash_block x b) h)) [
  | inl same ↦ (b, get-put x b m h ∙ rw same refl, (bytes_eq_iff (hash_block x b) h).0 same)
  | inr other ↦ (c, get-put x b m h ∙ rw other e, own)
]

put-Stored : (x : External) (m : MemBlockchain) (b : Block) → Stored x (put x b m) (hash_block x b)
put-Stored x m b =
    (b, get-put x b m (hash_block x b) ∙ rw (bytes_eq_refl (hash_block x b)) refl, refl)

HoldsView-MayVote :
    (m : MemBlockchain) (block : Block) (justify : QuorumCert) (v : ℕ) (s : SafetyState)
    → block.justify ≡ some justify
    → justify.view_number ≡ v
    → HoldsView (some justify) v s
    → MayVote (reader m) s.locked_qc block block.justify
HoldsView-MayVote m block justify v s j at (held, inl unlocked) = rw unlocked tt
HoldsView-MayVote m block justify v s j at (held, inr (l, e, lt)) =
    rw e (inl (omega (arith, ap (λ (q : Option QuorumCert). view_of q) j)))

-- A replica that holds a view takes the certificate, and locks the one that the block carries.
update_safety_lem :
    (x : External) (m : MemBlockchain) (block : Block) (qc justify : QuorumCert) (v : ℕ)
    (s : SafetyState)
    → block.justify ≡ some justify
    → justify.view_number ≡ v
    → Stored x m block.parent_hash
    → HoldsView (some justify) v s
    → update_safety x m block qc s ≡ record { locked_qc = some justify; generic_qc = some qc }
unfolding update_safety certifies
update_safety_lem x m block qc justify v s j at (parent, e, own) h =
    let safe : safe_node s block block.justify (reader m) ≡ true =
      (safe_node_iff s block block.justify (reader m)).1
        (HoldsView-MayVote m block justify v s j at h) in
    let chain = (bytes_eq_iff block.parent_hash (hash_block x parent)).1 (sym own) in
    ground (arith, safe, e, chain)

-- How every replica stands after the round of view `v + 1`.
abbrev pub LockedBehind : ℕ → SafetyState → Type 0
LockedBehind v s =
    (g : QuorumCert) × (l : QuorumCert) × (s.generic_qc ≡ some g)
    × (g.view_number ≡ suc v)
    × (s.locked_qc ≡ some l)
    × (l.view_number ≡ v)

module _ (x : External) (mc : Committee) (batch : List MembershipRequest) where
  -- The replicas of the cluster are in step, with the certificate of view `v`.
  record InStep (v : ℕ) (c : BenchCluster) : Type 0 where
    view : c.cur_view ≡ suc v
    qc : QuorumCert
    held : c.generic_qc ≡ some qc
    of_view : qc.view_number ≡ v
    stored : Stored x c.chain c.last_hash
    replicas : All (HoldsView (some qc) v) c.safety

  round-InStep :
      (k v : ℕ) (c : BenchCluster)
      → mc.number ≡ 0
      → Distinct (ids mc.replicas)
      → quorum_size mc ≤ size mc
      → Running x mc batch k c
      → suc (suc v) < u64
      → InStep v c
      → InStep (suc v) (run_round x c batch).0 × All (LockedBehind v) (run_round x c batch).0.safety
  unfolding run_round settle_round
  round-InStep k v c number distinct inside run lt st =
      let block = proposal c mc batch in
      let (qc, made, at_view) =
        certify_block_lem x c.cur_view mc.number (hash_block x block) c.keys mc run.sign distinct
          run.enough inside in
      let m = put x block c.chain in
      let stored = Stored-put x c.chain block c.last_hash st.stored in
      let updated = λ (s : SafetyState) (h : HoldsView (some st.qc) v s).
        update_safety_lem x m block qc st.qc v s st.held st.of_view stored h in
      rw (run.current, made)
        (
          record {
            view = ap inc64 st.view ∙ omega arith;
            qc = qc;
            held = refl;
            of_view = at_view ∙ st.view;
            stored = put-Stored x c.chain block;
            replicas =
                All-map (HoldsView (some st.qc) v) (HoldsView (some qc) (suc v))
                  (update_safety x m block qc) c.safety st.replicas
                  λ s h. rw (updated s h) (refl, inr (st.qc, refl, omega (arith, st.of_view)));
          },
          All-map (HoldsView (some st.qc) v) (LockedBehind v) (update_safety x m block qc) c.safety
              st.replicas
              λ s h. rw (updated s h) (qc, st.qc, refl, at_view ∙ st.view, refl, st.of_view),
        )

  rounds-LockedBehind :
      (n k v total : ℕ) (c : BenchCluster)
      → mc.number ≡ 0
      → Distinct (ids mc.replicas)
      → quorum_size mc ≤ size mc
      → AreRegular batch
      → Running x mc batch k c
      → n + v + 2 < u64
      → InStep v c
      → All (LockedBehind (n + v)) (run_rounds x (suc n) batch total c).0.safety
  unfolding run_rounds
  rounds-LockedBehind zero k v total c number distinct inside reg run lt st =
      let (counted, _) = round_lem x mc batch k c number distinct inside reg run in
      let (_, locked) = round-InStep k v c number distinct inside run (omega arith) st in
      let at : 0 + v ≡ v = omega arith in rw (counted, run_rounds, at) locked
  rounds-LockedBehind (suc n) k v total c number distinct inside reg run lt st =
      let (counted, next) = round_lem x mc batch k c number distinct inside reg run in
      let (step, _) = round-InStep k v c number distinct inside run (omega arith) st in
      let at : suc n + v ≡ n + suc v = omega arith in
      rw (counted, run_rounds, at)
        (rounds-LockedBehind n (suc k) (suc v) (total + committed_after x mc batch k)
          (run_round x c batch).0 number distinct inside reg next (omega arith) step)

fresh-HoldsView :
    (x : External) (n : ℕ) → All (HoldsView (some (genesis_qc x)) 0) (fresh_safety x n)
fresh-HoldsView x zero = tt
fresh-HoldsView x (suc n) = ((refl, inl refl), fresh-HoldsView x n)

-- If keys are generated and sign, then for n below 2^64 - 2, after n + 1 rounds of regular
-- requests every replica of a new benchmark cluster of at least four holds a certificate of view
-- n + 1 and is locked on one of view n.
pub new_cluster_locks :
    (x : External) (generate : Keygen) (n rounds : ℕ) (batch : List MembershipRequest)
    → Works generate
    → 4 ≤ n
    → AreRegular batch
    → rounds + 2 < u64
    → (c : BenchCluster) × (new_bench_cluster x generate n ≡ done c)
      × All (LockedBehind rounds) (run_rounds x (suc rounds) batch 0 c).0.safety
new_cluster_locks x generate n rounds batch w four reg lt =
    let (keys, mc, made, number, q, run) = new_cluster-Running x generate n batch w four in
    let start : InStep x mc batch 0 (fresh_cluster x n keys mc) = record {
      view = refl;
      qc = genesis_qc x;
      held = refl;
      of_view = refl;
      stored = put-Stored x new_mem_blockchain genesis;
      replicas = fresh-HoldsView x n;
    } in
    let end : rounds + 0 ≡ rounds = omega arith in
    (
      fresh_cluster x n keys mc,
      made,
      subst
          (λ r.
            All (LockedBehind r)
              (run_rounds x (suc rounds) batch 0 (fresh_cluster x n keys mc)).0.safety)
          end
          (rounds-LockedBehind x mc batch rounds 0 0 0 (fresh_cluster x n keys mc) number q.distinct
            q.inside reg run (omega arith) start),
    )
