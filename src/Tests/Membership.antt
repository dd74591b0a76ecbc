-- ===== src/Tests/Membership.antt =====
-- Committees, their log and their certificates.
use d_hotsuff.Prelude.{
  bytes_instance, bytes_eq, bytes_eq_iff, Bool, not, ◌<◌, ◌≡◌, ◌↔◌, refl, Bytes, some, [], ◌∷◌,
  length, inc64, arith, ok,
}
use d_hotsuff.Prelude.Distinct.{common, seen, length-le_of_Within}
use d_hotsuff.Proto.{QuorumCert, add, remove}
use d_hotsuff.External.{parse_ecdsa}
use d_hotsuff.Membership.Committee.{Committee, replica_by_id, contains, apply, fault_cap_of}
use d_hotsuff.Membership.Committee.Bounds.{IsFaultBound}
use d_hotsuff.Membership.Committee.Members.{
  apply-member, apply-accepts, member_after_all, accepts_all, is_ok,
}
use d_hotsuff.Membership.Quorum.{Verifier, validate_qc}
use d_hotsuff.Membership.Quorum.Certificates.{IsCertificate, validate_qc_iff}
use d_hotsuff.Membership.Quorum.Intersection.{quorum_intersection}
use d_hotsuff.Membership.Quorum.Agreement.{Tolerates, certificates_agree}
use d_hotsuff.Tests.Fixtures.{replica_at, key, external, accept_all, four, request, certificate}

abbrev first_qc : QuorumCert
first_qc = certificate 1 (8 ∷ []) ((1 ∷ []) ∷ (2 ∷ []) ∷ (3 ∷ []) ∷ [])

abbrev second_qc : QuorumCert
second_qc = certificate 2 (9 ∷ []) ((2 ∷ []) ∷ (3 ∷ []) ∷ (4 ∷ []) ∷ [])

four-IsFaultBound : IsFaultBound four
unfolding fault_cap_of
four-IsFaultBound = record { computed = refl }

quorum_intersection_example : 1 < length (common first_qc.signer_ids second_qc.signer_ids)
unfolding validate_qc seen replica_by_id bytes_eq
quorum_intersection_example =
    quorum_intersection first_qc second_qc four accept_all four-IsFaultBound (omega arith) refl refl

validate_qc_iff_example :
    (validate_qc first_qc four accept_all ≡ ok tt) ↔ IsCertificate first_qc four accept_all
validate_qc_iff_example = validate_qc_iff first_qc four accept_all

abbrev five : Committee
five = record {
  number = 1;
  replicas =
      replica_at 1
      ∷ replica_at 2
      ∷ replica_at 3
      ∷ replica_at 4
      ∷ record { id = 5 ∷ []; addr = []; pub_key = some key }
      ∷ [];
  fault_cap = 1;
}

apply-member_example :
    (1 ≡ inc64 four.number)
    × (contains five (5 ∷ [])
        ≡ member_after_all (request add 5 ∷ []) (5 ∷ []) (contains four (5 ∷ [])))
unfolding apply parse_ecdsa
apply-member_example = apply-member external four five (request add 5 ∷ []) (5 ∷ []) refl

apply-accepts_example :
    is_ok (apply external four (request remove 9 ∷ []))
    ≡ accepts_all external (request remove 9 ∷ []) (contains four)
apply-accepts_example = apply-accepts external four (request remove 9 ∷ [])

-- Member 4 may sign anything; the signatures that verify are over one hash.
abbrev takes_eight : Verifier
takes_eight = λ k h sig. bytes_eq h (8 ∷ [])

abbrev not_four : Bytes → Bool
not_four id = not (bytes_eq id (4 ∷ []))

four-Tolerates : Tolerates takes_eight not_four four
unfolding seen
four-Tolerates = record {
  few = λ bad d inside faulty.
      length-le_of_Within bad ((4 ∷ []) ∷ []) d
        λ a k. ground (arith, faulty a k, bytes_eq_iff a (4 ∷ []), bytes_eq_iff (4 ∷ []) a);
  once = λ id h h' sig sig' good (r, found, v) (r', found', v').
      ground (arith, bytes_eq_iff h (8 ∷ []), bytes_eq_iff h' (8 ∷ []));
}

abbrev third_qc : QuorumCert
third_qc = certificate 1 (8 ∷ []) ((2 ∷ []) ∷ (3 ∷ []) ∷ (4 ∷ []) ∷ [])

certificates_agree_example : first_qc.block_hash ≡ third_qc.block_hash
unfolding validate_qc seen replica_by_id bytes_eq
certificates_agree_example =
    certificates_agree first_qc third_qc four takes_eight not_four four-IsFaultBound (omega arith)
      four-Tolerates refl refl
