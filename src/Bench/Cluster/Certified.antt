-- ===== src/Bench/Cluster/Certified.antt =====
-- What RunRound of internal/benchutil/cluster.go leaves in GenericQC.
use d_hotsuff.Prelude.{ℕ, ◌≤◌, ◌≡◌, refl, bytes_instance, some, List, ok}
use d_hotsuff.Prelude.Distinct.{Distinct}
use d_hotsuff.Prelude.Outcome.{done}
use d_hotsuff.Proto.{MembershipRequest, QuorumCert}
use d_hotsuff.External.{External}
use d_hotsuff.Membership.Committee.{Committee, quorum_size, size, ids}
use d_hotsuff.Membership.ConfigStore.{latest}
use d_hotsuff.Membership.Quorum.{validate_qc}
use d_hotsuff.Consensus.Chain.{hash_block}
use d_hotsuff.Bench.Round.Accepted.{verifier, AreKeys, validate_qc-certify_block}
use d_hotsuff.Bench.Cluster.{BenchCluster, proposal, run_round, settle_round}

-- If the private keys of a benchmark cluster belong to the replicas of its latest configuration,
-- in order, with different identities and no fewer replicas than a quorum, and ecdsa.Verify takes
-- what they sign, with numbers below 2^256, then RunRound ends without a panic or an error, the
-- last hash is that of the block that it proposed, and the certificate that it leaves in
-- GenericQC names that block and the view of the round, and is accepted by ValidateQC with Verify
-- for that view and configuration.
pub validate_qc-run_round :
    (x : External) (c : BenchCluster) (mc : Committee) (batch : List MembershipRequest)
    → latest c.dlv.configs ≡ some mc
    → AreKeys x c.keys mc.replicas
    → Distinct (ids mc.replicas)
    → quorum_size mc ≤ size mc
    → let (c', result) = run_round x c batch in
      (n : ℕ) × (qc : QuorumCert) × (result ≡ done n)
      × (c'.generic_qc ≡ some qc)
      × (c'.last_hash ≡ hash_block x (proposal c mc batch))
      × (qc.block_hash ≡ c'.last_hash)
      × (qc.view_number ≡ c.cur_view)
      × (validate_qc qc mc (verifier x c.cur_view mc.number) ≡ ok tt)
unfolding run_round settle_round
validate_qc-run_round x c mc batch current keys distinct inside =
    let (qc, made, view, hash, valid) =
      validate_qc-certify_block x c.cur_view (hash_block x (proposal c mc batch)) c.keys mc keys
        distinct inside in
    rw (current, made) (_, qc, refl, refl, refl, hash, view, valid)
