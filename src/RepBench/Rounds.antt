-- ===== src/RepBench/Rounds.antt =====
-- The rounds of a RepBenchCluster and the totals that RunBenchmark reports.
use d_hotsuff.Prelude.{
  ℕ, zero, suc, ◌+◌, ◌-◌, ◌*◌, ◌≤◌, ◌<◌, ◌≡◌, refl, ap, ◌∙◌, inl, inr, Bool-cases, bytes_instance,
  true, false, Option, none, some, List, [], ◌∷◌, length, All, leb, leb→le, arith, inc64,
}
use d_hotsuff.Prelude.Distinct.{seen, Distinct}
use d_hotsuff.Prelude.Outcome.{done}
use d_hotsuff.Proto.{Block, MembershipRequest}
use d_hotsuff.External.{External, PrivateKey}
use d_hotsuff.Membership.Committee.{Committee, Replica, quorum_size, ids, size}
use d_hotsuff.Membership.Committee.Bounds.{quorum_size_pos}
use d_hotsuff.Membership.Committee.Leaders.{leader_total}
use d_hotsuff.Reputation.{Floats, Store}
use d_hotsuff.Reputation.Selection.{select_total}
use d_hotsuff.Consensus.Chain.{hash_block}
use d_hotsuff.Bench.Window
use d_hotsuff.Bench.Window.Chained.{Chained, slots, Releases, advance-slots, advance-Releases}
use d_hotsuff.Bench.Members.Identities.{CanSign}
use d_hotsuff.Bench.Round.{certify_block}
use d_hotsuff.Bench.Round.Certificates.{sign_lem, certify_block_lem}
use d_hotsuff.RepBench.{
  RepBenchCluster, RoundResult, select_leader, sign_dummies, dummy_hash, proposal, tx_of, run_round,
  round_by, leader_by, LeaderMode, round_robin, reputation,
}

sign_dummies_lem :
    (x : External) (view rounds : ℕ) (keys : List PrivateKey)
    → All CanSign keys
    → sign_dummies x view rounds keys ≡ done tt
unfolding sign_dummies
sign_dummies_lem x view zero keys can = refl
sign_dummies_lem x view (suc rounds) [] can = refl
sign_dummies_lem x view (suc rounds) (key ∷ keys) can =
    let (sig, e) = sign_lem x key view 0 dummy_hash can.0 in
    rw e (sign_dummies_lem x view rounds keys can.1)

-- A block of the benchmark.
abbrev pub Carries : List MembershipRequest → Block → Type 0
Carries batch b = b.batch ≡ batch

tx_of_lem :
    (batch : List MembershipRequest) (k : ℕ) (to_commit : Option Block)
    → Releases (Carries batch) k to_commit
    → (k - 4) * length batch + tx_of to_commit ≡ (suc k - 4) * length batch
tx_of_lem batch k none r = elim (Bool-cases (leb 4 k)) [
  | inl late ↦ absurd (ground (arith, r.1))
  | inr early ↦
      let none_yet : k < 4 = ground arith in
      let before : k - 4 ≡ 0 = omega arith in
      let after : suc k - 4 ≡ 0 = omega arith in rw (before, after) (omega arith)
]
tx_of_lem batch k (some b) r = elim (Bool-cases (leb 4 k)) [
  | inl late ↦
      let le = leb→le 4 k late in
      let (c, same, whole) = r.1 le in
      let after : suc k - 4 ≡ k - 4 + 1 = omega arith in
      let full : length b.batch ≡ length batch = ground (arith, whole) in
      rw (after, full) (grind arith)
  | inr early ↦ absurd (ground (arith, r.0))
]

module _ (x : External) (f : Floats) (mc : Committee) (batch : List MembershipRequest) where
  -- After `k` rounds with an honest leader.
  pub record Running (k : ℕ) (c : RepBenchCluster) : Type 0 where
    pub committee : c.mc ≡ mc
    pub sign : All CanSign c.keys
    pub enough : quorum_size mc ≤ length c.keys
    pub chained : Chained x (Carries batch) c.last_hash (slots c.pipeline) k
    pub successes : c.success_round ≡ k
    pub counted : c.delivered ≡ (k - 4) * length batch

  -- What a round led by the given replica changes.
  pub record Timed (k : ℕ) (c c' : RepBenchCluster) : Type 0 where
    pub running : Running k c'
    pub same_mode : c'.mode ≡ c.mode
    pub same_n : c'.n ≡ c.n
    pub same_byzantine : c'.byzantine_ids ≡ c.byzantine_ids
    pub view : c'.cur_view ≡ inc64 c.cur_view

  timeout_round :
      (k : ℕ) (c : RepBenchCluster) (r : Replica)
      → Running k c
      → seen r.id c.byzantine_ids ≡ true
      → ((round_by x c batch (some r)).1
          ≡ done (record { leader = r.id; was_timeout = true; tx_delivered = 0 }))
        × Timed k c (round_by x c batch (some r)).0
        × ((round_by x c batch (some r)).0.view_changes ≡ c.view_changes + 1)
  unfolding round_by
  timeout_round k c r run bad =
      let signed = sign_dummies_lem x c.cur_view (quorum_size c.mc) c.keys run.sign in
      rw (bad, signed)
        (
          refl,
          record {
            running = record {
              committee = run.committee;
              sign = run.sign;
              enough = run.enough;
              chained = run.chained;
              successes = run.successes;
              counted = run.counted;
            };
            same_mode = refl;
            same_n = refl;
            same_byzantine = refl;
            view = refl;
          },
          refl,
        )

  honest_round :
      (k : ℕ) (c : RepBenchCluster) (r : Replica)
      → Distinct (ids mc.replicas)
      → quorum_size mc ≤ size mc
      → Running k c
      → seen r.id c.byzantine_ids ≡ false
      → ((n : ℕ) × ((round_by x c batch (some r)).1
            ≡ done (record { leader = r.id; was_timeout = false; tx_delivered = n })))
        × Timed (suc k) c (round_by x c batch (some r)).0
        × ((round_by x c batch (some r)).0.view_changes ≡ c.view_changes)
  unfolding round_by
  honest_round k c r distinct inside run good =
      let block = proposal c batch in
      let (qc, made, _) =
        certify_block_lem x c.cur_view 0 (hash_block x block) c.keys mc run.sign distinct run.enough
          inside in
      let (_, to_commit) = Window.advance x c.pipeline block in
      let released = advance-Releases x (Carries batch) block refl c.pipeline k run.chained in
      let made' : certify_block x c.cur_view 0 (hash_block x block) c.keys c.mc ≡ done qc =
        ap (λ (m : Committee). certify_block x c.cur_view 0 (hash_block x block) c.keys m)
          run.committee
        ∙ made in
      rw (good, made')
        (
          (tx_of to_commit, refl),
          record {
            running = record {
              committee = run.committee;
              sign = run.sign;
              enough = run.enough;
              chained = advance-slots x (Carries batch) block refl c.pipeline k run.chained;
              successes = omega (arith, run.successes);
              counted =
                  ap (λ (n : ℕ). n + tx_of to_commit) run.counted
                  ∙ tx_of_lem batch k to_commit released;
            };
            same_mode = refl;
            same_n = refl;
            same_byzantine = refl;
            view = refl;
          },
          refl,
        )

leader_by-some :
    (f : Floats) (mode : LeaderMode) (store : Option Store) (mc : Committee) (view : ℕ)
    → 0 < size mc
    → (r : Replica) × (leader_by f mode store mc view ≡ some r)
unfolding leader_by
leader_by-some f round_robin store mc view = leader_total mc view
leader_by-some f reputation none mc view = leader_total mc view
leader_by-some f reputation (some store) mc view = select_total f store mc view

select_leader-some :
    (f : Floats) (c : RepBenchCluster)
    → 0 < size c.mc
    → (r : Replica) × (select_leader f c ≡ some r)
unfolding select_leader
select_leader-some f c = leader_by-some f c.mode c.rep_store c.mc c.cur_view

-- What a round changes, by whether its leader is Byzantine.
pub data Ran (x : External) (f : Floats) (mc : Committee) (batch : List MembershipRequest) (k : ℕ)
    (c : RepBenchCluster) : Type 0 where
  by_timeout :
      (r : Replica) (res : RoundResult)
      → select_leader f c ≡ some r
      → seen r.id c.byzantine_ids ≡ true
      → (run_round x f c batch).1 ≡ done res
      → res.was_timeout ≡ true
      → Timed x f mc batch k c (run_round x f c batch).0
      → (run_round x f c batch).0.view_changes ≡ c.view_changes + 1
      → Ran x f mc batch k c
  by_consensus :
      (r : Replica) (res : RoundResult)
      → select_leader f c ≡ some r
      → seen r.id c.byzantine_ids ≡ false
      → (run_round x f c batch).1 ≡ done res
      → res.was_timeout ≡ false
      → Timed x f mc batch (suc k) c (run_round x f c batch).0
      → (run_round x f c batch).0.view_changes ≡ c.view_changes
      → Ran x f mc batch k c

pub round-Ran :
    (x : External) (f : Floats) (mc : Committee) (batch : List MembershipRequest) (k : ℕ)
    (c : RepBenchCluster)
    → Distinct (ids mc.replicas)
    → quorum_size mc ≤ size mc
    → Running x f mc batch k c
    → Ran x f mc batch k c
unfolding run_round
round-Ran x f mc batch k c distinct inside run =
    let pos : 0 < size c.mc =
      omega (arith, quorum_size_pos mc, ap (λ (m : Committee). length m.replicas) run.committee) in
    let (r, e) = select_leader-some f c pos in
    elim (Bool-cases (seen r.id c.byzantine_ids)) [
      | inl bad ↦
          let (out, timed, more) = timeout_round x f mc batch k c r run bad in
          by_timeout r (record { leader = r.id; was_timeout = true; tx_delivered = 0 }) e bad
            (rw e out) refl (rw e timed) (rw e more)
      | inr good ↦
          let ((n, out), timed, same) = honest_round x f mc batch k c r distinct inside run good in
          by_consensus r (record { leader = r.id; was_timeout = false; tx_delivered = n }) e good
            (rw e out) refl (rw e timed) (rw e same)
    ]
