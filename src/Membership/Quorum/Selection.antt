-- ===== src/Membership/Quorum/Selection.antt =====
-- QuorumOf of quorum.go, against the first votes of distinct signers.
use d_hotsuff.Prelude.{
  ℕ, zero, suc, ◌+◌, ◌<◌, ◌≡◌, Bytes, bytes_instance, List, [], ◌∷◌, ◌++◌, length, length-append,
  take, leb, arith,
}
use mathlib.Core.List.{append-nil, append_assoc}
use d_hotsuff.Proto.{VoteMsg}
use d_hotsuff.Membership.Committee.{Committee, quorum_size}
use d_hotsuff.Membership.Quorum.{collect, quorum_of}
use d_hotsuff.Membership.Quorum.FirstVotes.{first_votes}

-- `k + 1` votes are wanted beyond those taken.
collect_lem :
    (q k : ℕ) (before : List Bytes) (quorum votes : List VoteMsg)
    → length quorum + suc k ≡ q
    → collect q before quorum votes ≡ (
      quorum ++ take (suc k) (first_votes before votes),
      leb q (length quorum + length (first_votes before votes)),
    )
unfolding collect
collect_lem q k before quorum [] h = ground (arith, append-nil quorum)
collect_lem q zero before quorum (v ∷ votes) h =
    ground (arith, collect_lem q zero before quorum votes h, length-append quorum (v ∷ []))
collect_lem q (suc k) before quorum (v ∷ votes) h =
    let longer = length-append quorum (v ∷ []) in
    ground (
      arith,
      longer,
      collect_lem q (suc k) before quorum votes h,
      collect_lem q k (v.signer_id ∷ before) (quorum ++ v ∷ []) votes (omega (arith, longer)),
      append_assoc quorum (v ∷ []) (take (suc k) (first_votes (v.signer_id ∷ before) votes)),
    )

collect_from_start :
    (q : ℕ) (votes : List VoteMsg)
    → 0 < q
    → collect q [] [] votes ≡ (take q (first_votes [] votes), leb q (length (first_votes [] votes)))
collect_from_start zero votes h = absurd (omega arith)
collect_from_start (suc k) votes h = ground (arith, collect_lem (suc k) k [] [] votes (omega arith))

-- The result is the first vote of each signer, in order, cut at the quorum's size, and the flag
-- says whether there are that many signers.
pub quorum_of_lem :
    (votes : List VoteMsg) (c : Committee)
    → 0 < quorum_size c
    → quorum_of votes c ≡ (
      take (quorum_size c) (first_votes [] votes),
      leb (quorum_size c) (length (first_votes [] votes)),
    )
unfolding quorum_of
quorum_of_lem votes c h = collect_from_start (quorum_size c) votes h
