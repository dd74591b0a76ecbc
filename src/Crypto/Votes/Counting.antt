-- ===== src/Crypto/Votes/Counting.antt =====
-- HasQuorum, CreateQC and AggregateVotes against the first vote of each signer.
use d_hotsuff.Prelude.{
  ℕ, zero, suc, ◌+◌, ◌<◌, ◌≡◌, Bytes, bytes_instance, List, [], ◌∷◌, ◌++◌, map, length,
  length-append, take, leb, arith,
}
use mathlib.Core.List.{append-nil, append_assoc}
use d_hotsuff.Proto.{VoteMsg}
use d_hotsuff.Membership.Committee.{Committee, quorum_size}
use d_hotsuff.Membership.Quorum.FirstVotes.{first_votes, signers}
use d_hotsuff.Crypto.Votes.{mark, count_signers, has_quorum, gather}

count_signers_lem :
    (q : ℕ) (keys : List Bytes) (votes : List VoteMsg)
    → length keys < q
    → count_signers q keys votes ≡ leb q (length keys + length (first_votes keys votes))
unfolding count_signers mark
count_signers_lem q keys [] h = ground arith
count_signers_lem q keys (v ∷ votes) h =
    ground (arith, count_signers_lem q keys votes h, count_signers_lem q (v.signer_id ∷ keys) votes)

-- HasQuorum says whether there are at least a quorum of different signers.
pub has_quorum_lem :
    (votes : List VoteMsg) (c : Committee)
    → 0 < quorum_size c
    → has_quorum votes c ≡ leb (quorum_size c) (length (first_votes [] votes))
unfolding has_quorum
has_quorum_lem votes c h = ground (arith, count_signers_lem (quorum_size c) [] votes h)

abbrev pub signatures : List VoteMsg → List Bytes
signatures = map (λ (v : VoteMsg). v.signature)

pub gather_lem :
    (q k : ℕ) (keys sigs ids : List Bytes) (votes : List VoteMsg)
    → length sigs + suc k ≡ q
    → gather q keys sigs ids votes ≡ (
      sigs ++ signatures (take (suc k) (first_votes keys votes)),
      ids ++ signers (take (suc k) (first_votes keys votes)),
    )
unfolding gather
gather_lem q k keys sigs ids [] h = ground (arith, append-nil sigs, append-nil ids)
gather_lem q zero keys sigs ids (v ∷ votes) h =
    ground (arith, gather_lem q zero keys sigs ids votes h, length-append sigs (v.signature ∷ []))
gather_lem q (suc k) keys sigs ids (v ∷ votes) h =
    let longer = length-append sigs (v.signature ∷ []) in
    let rest = take (suc k) (first_votes (v.signer_id ∷ keys) votes) in
    ground (
      arith,
      longer,
      gather_lem q (suc k) keys sigs ids votes h,
      gather_lem q k (v.signer_id ∷ keys) (sigs ++ v.signature ∷ []) (ids ++ v.signer_id ∷ []) votes
          (omega (arith, longer)),
      append_assoc sigs (v.signature ∷ []) (signatures rest),
      append_assoc ids (v.signer_id ∷ []) (signers rest),
    )
