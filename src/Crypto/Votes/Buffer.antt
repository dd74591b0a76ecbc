-- ===== src/Crypto/Votes/Buffer.antt =====
-- The buffer of votes that AggregateVotes keeps.
use d_hotsuff.Prelude.{
  ◌<◌, ◌≡◌, refl, Bytes, bytes_eq_iff, bytes_instance, true, false, List, [], ◌∷◌, ◌++◌, length,
  leb, if◌then◌else◌, arith, ap,
}
use d_hotsuff.Prelude.Distinct.{seen, Distinct, seen-append, seen-nil}
use d_hotsuff.Proto.{VoteMsg}
use d_hotsuff.Membership.Committee.{Committee, quorum_size}
use d_hotsuff.Membership.Quorum.FirstVotes.{signers, first_votes_of_Distinct}
use d_hotsuff.Crypto.Votes.{has_signer, aggregate_votes, has_quorum}
use d_hotsuff.Crypto.Votes.Counting.{has_quorum_lem}

has_signer-seen :
    (id : Bytes) (votes : List VoteMsg) → has_signer id votes ≡ seen id (signers votes)
unfolding has_signer seen
has_signer-seen id [] = refl
has_signer-seen id (v ∷ votes) = ground (arith, has_signer-seen id votes)

signers-append :
    (votes : List VoteMsg) (v : VoteMsg)
    → signers (votes ++ v ∷ []) ≡ signers votes ++ v.signer_id ∷ []
signers-append [] v = refl
signers-append (x ∷ votes) v = ap (◌∷◌ x.signer_id) (signers-append votes v)

Distinct-append :
    (votes : List VoteMsg) (v : VoteMsg)
    → Distinct (signers votes)
    → seen v.signer_id (signers votes) ≡ false
    → Distinct (signers (votes ++ v ∷ []))
unfolding seen
Distinct-append [] v d n = (refl, tt)
Distinct-append (x ∷ votes) v d n = ground (
  arith,
  Distinct-append votes v d.1,
  signers-append votes v,
  seen-append x.signer_id (signers votes) (v.signer_id ∷ []),
  bytes_eq_iff x.signer_id v.signer_id,
  bytes_eq_iff v.signer_id x.signer_id,
)

-- A buffer built by AggregateVotes has at most one vote of each signer; a second vote of a signer
-- changes nothing, and the first one is added at the end.
pub aggregate_votes-Distinct :
    (votes : List VoteMsg) (v : VoteMsg)
    → Distinct (signers votes)
    → Distinct (signers (aggregate_votes votes v))
      × (aggregate_votes votes v
          ≡ (if seen v.signer_id (signers votes) then votes else votes ++ v ∷ []))
unfolding aggregate_votes
aggregate_votes-Distinct votes v d =
    ground (arith, has_signer-seen v.signer_id votes, Distinct-append votes v d)

-- On such a buffer HasQuorum is a comparison of lengths.
pub has_quorum-length :
    (votes : List VoteMsg) (c : Committee)
    → 0 < quorum_size c
    → Distinct (signers votes)
    → has_quorum votes c ≡ leb (quorum_size c) (length votes)
has_quorum-length votes c pos d = ground (
  arith,
  has_quorum_lem votes c pos,
  first_votes_of_Distinct [] votes d
      (λ (a : Bytes) (h : seen a (signers votes) ≡ true). seen-nil a),
)
