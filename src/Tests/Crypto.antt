-- ===== src/Tests/Crypto.antt =====
-- Signatures, digests and votes.
use d_hotsuff.Prelude.{
  map, bytes_eq, ◌≡◌, ◌⊎◌, ◌↔◌, refl, true, false, some, [], ◌∷◌, arith, ok, err, not_enough_votes,
}
use d_hotsuff.Proto.{QuorumCert}
use d_hotsuff.Prelude.Distinct.{seen}
use d_hotsuff.Membership.Committee.{replica_by_id, quorum_size}
use d_hotsuff.Membership.Quorum.{validate_qc}
use d_hotsuff.Crypto.Votes.{create_qc, has_quorum}
use d_hotsuff.Crypto.Votes.Hashes.{for_block, create_qc_any_block}
use d_hotsuff.Crypto.Votes.Certify.{IsMadeOf, create_qc-has_quorum, validate_qc-create_qc}
use d_hotsuff.Consensus.Chain.{hash_block}
use d_hotsuff.Consensus.Chain.Hash.{hash_block_iff}
use d_hotsuff.Tests.Fixtures.{external, accept_all, four, vote_by, root}

create_qc-has_quorum_example :
    ((has_quorum (vote_by 1 ∷ vote_by 2 ∷ vote_by 3 ∷ []) four ≡ true)
      × ((qc : QuorumCert) × (create_qc (vote_by 1 ∷ vote_by 2 ∷ vote_by 3 ∷ []) four
            ≡ ok (some qc))
          × IsMadeOf qc (vote_by 1 ∷ vote_by 2 ∷ vote_by 3 ∷ []) four))
    ⊎ ((has_quorum (vote_by 1 ∷ vote_by 2 ∷ vote_by 3 ∷ []) four ≡ false)
        × (create_qc (vote_by 1 ∷ vote_by 2 ∷ vote_by 3 ∷ []) four ≡ err not_enough_votes))
unfolding quorum_size
create_qc-has_quorum_example =
    create_qc-has_quorum (vote_by 1 ∷ vote_by 2 ∷ vote_by 3 ∷ []) four (omega arith)

abbrev made : QuorumCert
made = record {
  type = [];
  view_number = 0;
  conf_number = 0;
  block_hash = 8 ∷ [];
  signatures = (vote_by 1).signature ∷ (vote_by 2).signature ∷ (vote_by 3).signature ∷ [];
  signer_ids = (1 ∷ []) ∷ (2 ∷ []) ∷ (3 ∷ []) ∷ [];
}

validate_qc-create_qc_example : validate_qc made four accept_all ≡ ok tt
unfolding create_qc quorum_size seen bytes_eq replica_by_id
validate_qc-create_qc_example =
    validate_qc-create_qc (vote_by 1 ∷ vote_by 2 ∷ vote_by 3 ∷ []) four accept_all made
      (omega arith) ((_, refl, refl), ((_, refl, refl), ((_, refl, refl), tt))) refl

hash_block_iff_example :
    (hash_block external root ≡ hash_block external (record root { batch = [] }))
    ↔ ((root.parent_hash ≡ root.parent_hash) × (root.height ≡ root.height))
hash_block_iff_example =
    hash_block_iff external root (record root { batch = [] }) (λ a b h. h) (omega arith)
      (omega arith)

create_qc_any_block_example :
    create_qc (vote_by 1 ∷ map (for_block (9 ∷ [])) (vote_by 2 ∷ vote_by 3 ∷ [])) four
    ≡ create_qc (vote_by 1 ∷ vote_by 2 ∷ vote_by 3 ∷ []) four
create_qc_any_block_example =
    create_qc_any_block (9 ∷ []) (vote_by 1) (vote_by 2 ∷ vote_by 3 ∷ []) four
