-- ===== src/Crypto/Votes.antt =====
-- internal/crypto/ecdsa_qc.go: quorum certificates from votes.
pub mod Buffer
pub mod Counting
pub mod Certify
pub mod Hashes
use d_hotsuff.Prelude.{
  ℕ, Bytes, bytes_eq, bytes_instance, Bool, true, false, Option, none, some, List, [], ◌∷◌, ◌++◌,
  length, ltb, leb, if◌then◌else◌, Result, ok, err, not_enough_votes,
}
use d_hotsuff.Prelude.Distinct.{seen}
use d_hotsuff.Proto.{VoteMsg, QuorumCert}
use d_hotsuff.Membership.Committee.{Committee, quorum_size}

-- the loop of AggregateVotes: whether a vote of the signer is there
has_signer : Bytes → List VoteMsg → Bool
has_signer id [] = false
has_signer id (v ∷ votes) = if bytes_eq v.signer_id id then true else has_signer id votes

unfoldable pub aggregate_votes : List VoteMsg → VoteMsg → List VoteMsg
unfolding has_signer
aggregate_votes existing incoming =
    if has_signer incoming.signer_id existing then existing else existing ++ incoming ∷ []

-- seen[id] = true
mark : Bytes → List Bytes → List Bytes
mark id keys = if seen id keys then keys else id ∷ keys

-- the loop of HasQuorum
count_signers : ℕ → List Bytes → List VoteMsg → Bool
count_signers q keys [] = false
count_signers q keys (v ∷ votes) =
    let marked = mark v.signer_id keys in
    let rest = count_signers q marked votes in if leb q (length marked) then true else rest

unfoldable pub has_quorum : List VoteMsg → Committee → Bool
unfolding count_signers mark
has_quorum votes c = count_signers (quorum_size c) [] votes

-- the loop of CreateQC: the signatures and the identities
pub gather : ℕ → List Bytes → List Bytes → List Bytes → List VoteMsg → List Bytes × List Bytes
gather q keys sigs ids [] = (sigs, ids)
gather q keys sigs ids (v ∷ votes) =
    let skipped = gather q keys sigs ids votes in
    let sigs' = sigs ++ v.signature ∷ [] in
    let ids' = ids ++ v.signer_id ∷ [] in
    let more = gather q (v.signer_id ∷ keys) sigs' ids' votes in
    if seen v.signer_id keys then skipped else if leb q (length sigs') then (sigs', ids') else more

-- `votes[0]` is read after the length tests; a panic, `none`, would need an empty slice there.
certificate : List VoteMsg → List Bytes × List Bytes → Option QuorumCert
certificate [] gathered = none
certificate (ref ∷ votes) (sigs, ids) = some (record {
  type = [];
  view_number = ref.view_number;
  conf_number = ref.conf_number;
  block_hash = ref.block_hash;
  signatures = sigs;
  signer_ids = ids;
})

unfoldable pub create_qc : List VoteMsg → Committee → Result (Option QuorumCert)
unfolding gather certificate
create_qc votes c =
    if ltb (length votes) (quorum_size c)
    then err not_enough_votes
    else let gathered = gather (quorum_size c) [] [] [] votes in
      if ltb (length gathered.0) (quorum_size c)
      then err not_enough_votes
      else ok (certificate votes gathered)
