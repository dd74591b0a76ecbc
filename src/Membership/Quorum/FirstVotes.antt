-- ===== src/Membership/Quorum/FirstVotes.antt =====
-- The specification of vote counting: the first vote of each signer.
use d_hotsuff.Prelude.{
  ◌≡◌, refl, Bytes, bytes_instance, bytes_eq_iff, true, false, not, ◌&&◌, List, [], ◌∷◌, map, arith,
  if◌then◌else◌,
}
use d_hotsuff.Prelude.Distinct.{seen, Distinct, seen-head, seen-tail, seen-cons_ne}
use d_hotsuff.Proto.{VoteMsg}

-- The votes whose signer is neither in `before` nor the signer of an earlier vote.
abbrev pub first_votes : List Bytes → List VoteMsg → List VoteMsg
first_votes before [] = []
first_votes before (v ∷ votes) =
    let skipped = first_votes before votes in
    let more = first_votes (v.signer_id ∷ before) votes in
    if seen v.signer_id before then skipped else v ∷ more

abbrev pub signers : List VoteMsg → List Bytes
signers = map (λ (v : VoteMsg). v.signer_id)

-- The signers of the first votes are the signers of the votes that are not excluded.
pub seen-first_votes :
    (a : Bytes) (before : List Bytes) (votes : List VoteMsg)
    → seen a (signers (first_votes before votes)) ≡ (seen a (signers votes) && not (seen a before))
unfolding seen
seen-first_votes a before [] = refl
seen-first_votes a before (v ∷ votes) = ground (
  arith,
  seen-first_votes a before votes,
  seen-first_votes a (v.signer_id ∷ before) votes,
  bytes_eq_iff v.signer_id a,
)

pub first_votes-Distinct :
    (before : List Bytes) (votes : List VoteMsg) → Distinct (signers (first_votes before votes))
unfolding seen
first_votes-Distinct before [] = tt
first_votes-Distinct before (v ∷ votes) = ground (
  arith,
  first_votes-Distinct before votes,
  first_votes-Distinct (v.signer_id ∷ before) votes,
  seen-first_votes v.signer_id (v.signer_id ∷ before) votes,
  bytes_eq_iff v.signer_id v.signer_id,
)

-- Votes of different signers are all first votes.
pub first_votes_of_Distinct :
    (before : List Bytes) (votes : List VoteMsg)
    → Distinct (signers votes)
    → ((a : Bytes) → seen a (signers votes) ≡ true → seen a before ≡ false)
    → first_votes before votes ≡ votes
unfolding seen
first_votes_of_Distinct before [] d n = refl
first_votes_of_Distinct before (v ∷ votes) d n = ground (
  arith,
  n v.signer_id (seen-head v.signer_id (signers votes)),
  first_votes_of_Distinct (v.signer_id ∷ before) votes d.1
      λ (a : Bytes) (h : seen a (signers votes) ≡ true). ground (
        arith,
        n a (seen-tail a v.signer_id (signers votes) h),
        seen-cons_ne v.signer_id a (signers votes) d.0 h,
      ),
)
