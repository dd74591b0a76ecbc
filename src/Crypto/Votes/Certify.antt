-- ===== src/Crypto/Votes/Certify.antt =====
-- What CreateQC builds: its agreement with HasQuorum, and with ValidateQC.
use native.Mathlib.Decide.{dec_lt}
use d_hotsuff.Prelude.{
  ◌⊎◌, inl, inr, Bool-cases, subst, ℕ, zero, suc, ◌≤◌, ◌<◌, ◌≡◌, refl, Bytes, bytes_instance, true,
  false, some, List, [], ◌∷◌, length, length-map, length-take, take, arith, ok, err,
  not_enough_votes, All,
}
use d_hotsuff.Prelude.Distinct.{seen, Distinct}
use d_hotsuff.Proto.{VoteMsg, QuorumCert}
use d_hotsuff.Membership.Committee.{Committee, quorum_size}
use d_hotsuff.Membership.Quorum.{Verifier, validate_qc}
use d_hotsuff.Membership.Quorum.Certificates.{SignedBy, AllSigned, IsCertificate, validate_qc_iff}
use d_hotsuff.Membership.Quorum.FirstVotes.{first_votes, signers, first_votes-Distinct}
use d_hotsuff.Crypto.Votes.{has_quorum, gather, create_qc}
use d_hotsuff.Crypto.Votes.Counting.{has_quorum_lem, gather_lem, signatures}

-- The votes that CreateQC uses.
abbrev pub used : List VoteMsg → Committee → List VoteMsg
used votes c = take (quorum_size c) (first_votes [] votes)

length-first_votes-le :
    (before : List Bytes) (votes : List VoteMsg) → length (first_votes before votes) ≤ length votes
length-first_votes-le before [] = omega arith
length-first_votes-le before (v ∷ votes) =
    ground (
      arith,
      length-first_votes-le before votes,
      length-first_votes-le (v.signer_id ∷ before) votes,
    )

gather_all :
    (q : ℕ) (votes : List VoteMsg)
    → 0 < q
    → gather q [] [] [] votes
      ≡ (signatures (take q (first_votes [] votes)), signers (take q (first_votes [] votes)))
gather_all zero votes h = absurd (omega arith)
gather_all (suc k) votes h = gather_lem (suc k) k [] [] [] votes (omega arith)

-- The fields of a certificate made of the used votes, for the proposal of the first vote.
pub record IsMadeOf (qc : QuorumCert) (votes : List VoteMsg) (c : Committee) : Type 0 where
  pub ids : qc.signer_ids ≡ signers (used votes c)
  pub sigs : qc.signatures ≡ signatures (used votes c)
  pub size : length qc.signer_ids ≡ quorum_size c
  pub paired : length qc.signatures ≡ length qc.signer_ids
  pub head :
      (v : VoteMsg) × (rest : List VoteMsg) × (votes ≡ v ∷ rest)
      × (qc.view_number ≡ v.view_number)
      × (qc.conf_number ≡ v.conf_number)
      × (qc.block_hash ≡ v.block_hash)

create_qc_enough :
    (v : VoteMsg) (rest : List VoteMsg) (c : Committee)
    → 0 < quorum_size c
    → quorum_size c ≤ length (first_votes [] (v ∷ rest))
    → (qc : QuorumCert) × (create_qc (v ∷ rest) c ≡ ok (some qc)) × IsMadeOf qc (v ∷ rest) c
unfolding create_qc
create_qc_enough v rest c pos h = (
  record {
    type = [];
    view_number = v.view_number;
    conf_number = v.conf_number;
    block_hash = v.block_hash;
    signatures = signatures (used (v ∷ rest) c);
    signer_ids = signers (used (v ∷ rest) c);
  },
  ground (
    arith,
    gather_all (quorum_size c) (v ∷ rest) pos,
    length-map (λ (v : VoteMsg). v.signature) (used (v ∷ rest) c),
    length-take (quorum_size c) (first_votes [] (v ∷ rest)),
    length-first_votes-le [] (v ∷ rest),
  ),
  record {
    ids = refl;
    sigs = refl;
    size = omega (
      arith,
      length-map (λ (v : VoteMsg). v.signer_id) (used (v ∷ rest) c),
      length-take (quorum_size c) (first_votes [] (v ∷ rest)),
    );
    paired = omega (
      arith,
      length-map (λ (v : VoteMsg). v.signature) (used (v ∷ rest) c),
      length-map (λ (v : VoteMsg). v.signer_id) (used (v ∷ rest) c),
    );
    head = (v, rest, refl, refl, refl, refl);
  },
)

create_qc_short :
    (votes : List VoteMsg) (c : Committee)
    → 0 < quorum_size c
    → length (first_votes [] votes) < quorum_size c
    → create_qc votes c ≡ err not_enough_votes
unfolding create_qc
create_qc_short votes c pos h = ground (
  arith,
  gather_all (quorum_size c) votes pos,
  length-map (λ (v : VoteMsg). v.signature) (used votes c),
  length-take (quorum_size c) (first_votes [] votes),
)

-- For a quorum that is not empty, CreateQC succeeds exactly when HasQuorum holds, with the first
-- votes of a quorum of different signers, for the proposal that the first vote names; otherwise
-- it fails for lack of votes.
pub create_qc-has_quorum :
    (votes : List VoteMsg) (c : Committee)
    → 0 < quorum_size c
    → (has_quorum votes c ≡ true)
        × ((qc : QuorumCert) × (create_qc votes c ≡ ok (some qc)) × IsMadeOf qc votes c)
      ⊎ (has_quorum votes c ≡ false) × (create_qc votes c ≡ err not_enough_votes)
create_qc-has_quorum votes c pos = elim (dec_lt (length (first_votes [] votes)) (quorum_size c)) [
  | yes few ↦ inr (ground (arith, has_quorum_lem votes c pos), create_qc_short votes c pos few)
  | no enough ↦ inl (ground (arith, has_quorum_lem votes c pos), made votes (omega arith))
]
  where
    made :
        (vs : List VoteMsg)
        → quorum_size c ≤ length (first_votes [] vs)
        → (qc : QuorumCert) × (create_qc vs c ≡ ok (some qc)) × IsMadeOf qc vs c
    made [] h = absurd (omega arith)
    made (v ∷ rest) h = create_qc_enough v rest c pos h

abbrev pub Signed : Verifier → Bytes → Committee → VoteMsg → Type 0
Signed verify h c v = SignedBy verify h c v.signer_id v.signature

All-first_votes :
    (P : VoteMsg → Type 0) (before : List Bytes) (votes : List VoteMsg)
    → All P votes
    → All P (first_votes before votes)
All-first_votes P before [] a = tt
All-first_votes P before (v ∷ votes) a = elim (Bool-cases (seen v.signer_id before)) [
  | inl old ↦ rw old (All-first_votes P before votes a.1)
  | inr new ↦ rw new (a.0, All-first_votes P (v.signer_id ∷ before) votes a.1)
]

seen-take :
    (a : Bytes) (n : ℕ) (votes : List VoteMsg)
    → seen a (signers votes) ≡ false
    → seen a (signers (take n votes)) ≡ false
unfolding seen
seen-take a zero votes h = refl
seen-take a (suc n) [] h = refl
seen-take a (suc n) (v ∷ votes) h = ground (arith, seen-take a n votes)

AllSigned-take :
    (verify : Verifier) (h : Bytes) (c : Committee) (n : ℕ) (votes : List VoteMsg)
    → All (Signed verify h c) votes
    → AllSigned verify h c (signers (take n votes)) (signatures (take n votes))
AllSigned-take verify h c zero votes a = tt
AllSigned-take verify h c (suc n) [] a = tt
AllSigned-take verify h c (suc n) (v ∷ votes) a = (a.0, AllSigned-take verify h c n votes a.1)

Distinct-take :
    (n : ℕ) (votes : List VoteMsg) → Distinct (signers votes) → Distinct (signers (take n votes))
Distinct-take zero votes d = tt
Distinct-take (suc n) [] d = tt
Distinct-take (suc n) (v ∷ votes) d = (seen-take v.signer_id n votes d.0, Distinct-take n votes d.1)

-- For a quorum that is not empty, the certificate that CreateQC makes of votes by members whose
-- signatures verify over the hash in the certificate is accepted by ValidateQC.
pub validate_qc-create_qc :
    (votes : List VoteMsg) (c : Committee) (verify : Verifier) (qc : QuorumCert)
    → 0 < quorum_size c
    → All (Signed verify qc.block_hash c) votes
    → create_qc votes c ≡ ok (some qc)
    → validate_qc qc c verify ≡ ok tt
validate_qc-create_qc votes c verify qc pos signed made = elim (create_qc-has_quorum votes c pos) [
  | inr (_, failed) ↦ absurd (ground arith)
  | inl (_, (qc', made', w)) ↦
      let same : qc' ≡ qc = ground arith in
      (validate_qc_iff qc c verify).1 (certify (subst (λ q. IsMadeOf q votes c) same w))
]
  where
    certify : IsMadeOf qc votes c → IsCertificate qc c verify
    certify w = record {
      enough = omega (arith, w.size, w.paired);
      paired = w.paired;
      distinct =
          rw w.ids
            (Distinct-take (quorum_size c) (first_votes [] votes) (first_votes-Distinct [] votes));
      signed =
          rw (w.ids, w.sigs)
            (AllSigned-take verify qc.block_hash c (quorum_size c) (first_votes [] votes)
              (All-first_votes (Signed verify qc.block_hash c) [] votes signed));
    }
