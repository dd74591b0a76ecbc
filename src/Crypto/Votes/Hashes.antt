-- ===== src/Crypto/Votes/Hashes.antt =====
-- The votes' block hashes in CreateQC of ecdsa_qc.go.
use d_hotsuff.Prelude.{ℕ, ◌≡◌, refl, Bytes, List, [], ◌∷◌, map, length-map, ◌++◌}
use d_hotsuff.Proto.{VoteMsg}
use d_hotsuff.Membership.Committee.{Committee, quorum_size}
use d_hotsuff.Crypto.Votes.{gather, certificate, create_qc}

-- The same vote for another block.
abbrev pub for_block : Bytes → VoteMsg → VoteMsg
for_block h v = record v { block_hash = h }

gather-map :
    (h : Bytes) (q : ℕ) (keys sigs ids : List Bytes) (votes : List VoteMsg)
    → gather q keys sigs ids (map (for_block h) votes) ≡ gather q keys sigs ids votes
unfolding gather
gather-map h q keys sigs ids [] = refl
gather-map h q keys sigs ids (v ∷ votes) =
    rw
      (
        gather-map h q keys sigs ids votes,
        gather-map h q (v.signer_id ∷ keys) (sigs ++ v.signature ∷ []) (ids ++ v.signer_id ∷ [])
            votes,
      )
      refl

-- The blocks that the votes after the first are for make no difference to CreateQC: with all of
-- them set to any one block hash, it returns the same.
pub create_qc_any_block :
    (h : Bytes) (v : VoteMsg) (votes : List VoteMsg) (c : Committee)
    → create_qc (v ∷ map (for_block h) votes) c ≡ create_qc (v ∷ votes) c
unfolding create_qc gather certificate
create_qc_any_block h v votes c =
    rw
      (
        length-map (for_block h) votes,
        gather-map h (quorum_size c) [] [] [] votes,
        gather-map h (quorum_size c) (v.signer_id ∷ []) (v.signature ∷ []) (v.signer_id ∷ []) votes,
      )
      refl
