-- ===== src/Membership/Quorum/Intersection.antt =====
-- The signers that two certificates of one committee share (ValidateQC of quorum.go).
use d_hotsuff.Prelude.{
  ◌<◌, ◌≡◌, Bytes, bytes_instance, List, [], ◌∷◌, length, length-map, arith, ok, bytes_eq_iff,
}
use d_hotsuff.Prelude.Distinct.{seen, Within, common, length-common}
use d_hotsuff.Proto.{QuorumCert}
use d_hotsuff.Membership.Committee.{Replica, Committee, size, ids}
use d_hotsuff.Membership.Committee.Lookup.{seen-replica_by_id}
use d_hotsuff.Membership.Committee.Bounds.{IsFaultBound, quorum_size_bounds}
use d_hotsuff.Membership.Quorum.{Verifier, validate_qc}
use d_hotsuff.Membership.Quorum.Certificates.{AllSigned, validate_qc_iff}

pub signers-Within :
    (verify : Verifier) (h : Bytes) (c : Committee) (signers sigs : List Bytes)
    → length sigs ≡ length signers
    → AllSigned verify h c signers sigs
    → Within signers (ids c.replicas)
unfolding seen
signers-Within verify h c [] sigs e s = λ a k. absurd (ground arith)
signers-Within verify h c (id ∷ signers) [] e s = absurd (omega arith)
signers-Within verify h c (id ∷ signers) (sig ∷ sigs) e s = λ a k. ground (
  arith,
  seen-replica_by_id c id s.0.0 s.0.1,
  signers-Within verify h c signers sigs (omega arith) s.1 a,
  bytes_eq_iff id a,
)

-- Two certificates that ValidateQC accepts for one committee with members, whose fault bound is
-- computed from its size, have more than fc signers in common, whatever they certify.
pub quorum_intersection :
    (qc qc' : QuorumCert) (c : Committee) (verify : Verifier)
    → IsFaultBound c
    → 0 < size c
    → validate_qc qc c verify ≡ ok tt
    → validate_qc qc' c verify ≡ ok tt
    → c.fault_cap < length (common qc.signer_ids qc'.signer_ids)
quorum_intersection qc qc' c verify w pos h h' =
    let v = (validate_qc_iff qc c verify).0 h in
    let v' = (validate_qc_iff qc' c verify).0 h' in
    omega (
      arith,
      length-common qc.signer_ids qc'.signer_ids (ids c.replicas) v.distinct v'.distinct
          (signers-Within verify qc.block_hash c _ _ v.paired v.signed)
          (signers-Within verify qc'.block_hash c _ _ v'.paired v'.signed),
      quorum_size_bounds c w pos,
      length-map (λ (r : Replica). r.id) c.replicas,
      v.enough,
      v.paired,
      v'.enough,
      v'.paired,
    )
