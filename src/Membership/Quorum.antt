-- ===== src/Membership/Quorum.antt =====
-- internal/membership/quorum.go: the validation of quorum certificates and the choice of a quorum.
pub mod Certificates
pub mod FirstVotes
pub mod Intersection
pub mod Agreement
pub mod Selection
use d_hotsuff.Prelude.{
  ℕ, Bytes, bytes_instance, Bool, true, false, Option, none, some, List, [], ◌∷◌, ◌++◌, length, ltb,
  leb, nat_beq, not, if◌then◌else◌, Result, ok, err, insufficient_signatures, duplicate_signer,
  unknown_signer, bad_signature,
}
use d_hotsuff.Prelude.Distinct.{seen}
use d_hotsuff.Proto.{QuorumCert, VoteMsg}
use d_hotsuff.External.{PublicKey}
use d_hotsuff.Membership.Committee.{Replica, Committee, quorum_size, replica_by_id}

-- SignatureVerifier.Verify(pubKey, blockHash, sig), which the caller injects.
abbrev pub Verifier : Type 0
Verifier = Option PublicKey → Bytes → Bytes → Bool

-- steps 3 to 5 for one signer
check_signer : Verifier → Bytes → Committee → List Bytes → Bytes → Bytes → Result (Unit {0})
check_signer verify block_hash c before id sig =
    if seen id before then err duplicate_signer else elim (replica_by_id c id) [
      | none ↦ err unknown_signer
      | some replica ↦ if verify replica.pub_key block_hash sig then ok tt else err bad_signature
    ]

check_next : Result (Unit {0}) → Result (Unit {0}) → Result (Unit {0})
check_next (ok _) rest = rest
check_next (err e) rest = err e

-- the loop of ValidateQC; `before` holds the keys of the map `seen`. Signatures and identities are
-- walked together, which the length test before the loop allows.
unfoldable pub check_signers :
    Verifier → Bytes → Committee → List Bytes → List Bytes → List Bytes → Result (Unit {0})
unfolding check_signer check_next
check_signers verify block_hash c before (id ∷ ids) (sig ∷ sigs) =
    let rest = check_signers verify block_hash c (id ∷ before) ids sigs in
    check_next (check_signer verify block_hash c before id sig) rest
check_signers verify block_hash c before _ _ = ok tt

unfoldable pub validate_qc : QuorumCert → Committee → Verifier → Result (Unit {0})
unfolding check_signers quorum_size
validate_qc qc c verify =
    if ltb (length qc.signatures) (quorum_size c)
    then err insufficient_signatures
    else if not (nat_beq (length qc.signatures) (length qc.signer_ids))
    then err insufficient_signatures
    else check_signers verify qc.block_hash c [] qc.signer_ids qc.signatures

-- the loop of QuorumOf; `quorum` holds the votes taken so far
unfoldable pub collect : ℕ → List Bytes → List VoteMsg → List VoteMsg → List VoteMsg × Bool
collect q_size before quorum [] = (quorum, false)
collect q_size before quorum (v ∷ votes) =
    let skipped = collect q_size before quorum votes in
    let taken = quorum ++ v ∷ [] in
    let more = collect q_size (v.signer_id ∷ before) taken votes in
    if seen v.signer_id before
    then skipped
    else if leb q_size (length taken)
    then (taken, true)
    else more

unfoldable pub quorum_of : List VoteMsg → Committee → List VoteMsg × Bool
unfolding collect quorum_size
quorum_of votes c = collect (quorum_size c) [] [] votes
