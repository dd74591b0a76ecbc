-- ===== src/Consensus/Replica/Votes/Buffers.antt =====
-- The buffers of votes that HandleVote keeps, and the certificate that it holds as the highest.
use d_hotsuff.Prelude.{
  ℕ, ◌≤◌, ◌<◌, ◌≡◌, ◌⊎◌, inl, inr, refl, subst, bytes_instance, none, some, List, [], ◌∷◌, arith,
  if◌then◌else◌, nat_instance, nat_beq, nat_beq_iff, Bool-cases, All, All-append,
}
use d_hotsuff.Prelude.Distinct.{seen, Distinct}
use d_hotsuff.Prelude.Flow.{Leaves, Leaves-map}
use d_hotsuff.Prelude.Table.{lookup, get_or, table_laws}
use d_hotsuff.Proto.{QuorumCert, VoteMsg, view_of}
use d_hotsuff.Membership.Committee.{Committee, quorum_size}
use d_hotsuff.Membership.ConfigStore.{latest}
use d_hotsuff.Membership.Quorum.FirstVotes.{signers}
use d_hotsuff.Crypto.Votes.Buffer.{aggregate_votes-Distinct}
use d_hotsuff.Consensus.Safety.{SafetyState}
use d_hotsuff.Consensus.Replica.{Environment, DHotStuff}
use d_hotsuff.Consensus.Replica.Votes.{buffered, raise_generic, handle_vote}
use d_hotsuff.Consensus.Replica.Votes.Outcomes.{Outcome, with_vote, stored, handle_vote-Outcome}

-- One vote of each signer, all for the view.
abbrev pub IsBuffer : ℕ → List VoteMsg → Type 0
IsBuffer view votes = Distinct (signers votes) × All (λ (v : VoteMsg). v.view_number ≡ view) votes

pub record IsBuffered (d : DHotStuff) : Type 0 where
  pub at : (view : ℕ) → IsBuffer view (buffered d view)

with_vote-IsBuffer :
    (d : DHotStuff) (vote : VoteMsg) → IsBuffered d → IsBuffer vote.view_number (with_vote d vote)
with_vote-IsBuffer d vote w =
    let (distinct, same_view) = w.at vote.view_number in
    let (d', e) = aggregate_votes-Distinct (buffered d vote.view_number) vote distinct in
    (
      d',
      rw e (elim (Bool-cases (seen vote.signer_id (signers (buffered d vote.view_number)))) [
        | inl old ↦ rw old same_view
        | inr new ↦
            rw new (All-append _ (buffered d vote.view_number) (vote ∷ []) same_view (refl, tt))
      ]),
    )

pub IsBuffer-if :
    (view v : ℕ) (now before : List VoteMsg)
    → IsBuffer view now
    → IsBuffer v before
    → IsBuffer v (if nat_beq view v then now else before)
IsBuffer-if view v now before h k = elim (Bool-cases (nat_beq view v)) [
  | inl same ↦ rw same (subst (λ (n : ℕ). IsBuffer n now) ((nat_beq_iff view v).0 same) h)
  | inr other ↦ rw other k
]

buffered-stored :
    (d : DHotStuff) (vote : VoteMsg) (v : ℕ)
    → buffered (stored d vote) v
      ≡ (if nat_beq vote.view_number v then with_vote d vote else buffered d v)
unfolding buffered get_or
buffered-stored d vote v = simp table_laws (ground arith)

pub buffered_of_lookup :
    (d d' : DHotStuff) (view v : ℕ)
    → lookup v d'.votes_buf ≡ (if nat_beq view v then none else lookup v d.votes_buf)
    → buffered d' v ≡ (if nat_beq view v then [] else buffered d v)
unfolding buffered get_or
buffered_of_lookup d d' view v e = rw e (ground arith)

-- With a latest configuration whose quorum is not empty, HandleVote, unless it panics, keeps at
-- most one vote of each signer in each buffer, all for the view of the buffer.
pub handle_vote-IsBuffered :
    (e : Environment) (mc : Committee) (vote : VoteMsg) (d : DHotStuff)
    → latest d.deliverer.configs ≡ some mc
    → 0 < quorum_size mc
    → IsBuffered d
    → Leaves IsBuffered (handle_vote e vote d)
handle_vote-IsBuffered e mc vote d current pos w =
    Leaves-map (Outcome e mc vote d) IsBuffered (handle_vote e vote d)
      (handle_vote-Outcome e mc vote d current pos) keeps
  where
    keeps : (d' : DHotStuff) → Outcome e mc vote d d' → IsBuffered d'
    keeps d' (inl (_, same)) = rw same w
    keeps d' (inr (inl (_, few, same))) = rw same (record {
      at = λ v.
          rw (buffered-stored d vote v)
            (IsBuffer-if vote.view_number v _ _ (with_vote-IsBuffer d vote w) (w.at v));
    })
    keeps d' (inr (inr (_, enough, c))) = record {
      at = λ v.
          rw (buffered_of_lookup d d' vote.view_number v (c.buffers v))
            (IsBuffer-if vote.view_number v [] _ (tt, tt) (w.at v));
    }

-- The highest certificate never loses to an older one, and the lock stays.
pub raise_generic_lem :
    (qc : QuorumCert) (s : SafetyState)
    → (view_of s.generic_qc ≤ view_of (raise_generic qc s).generic_qc)
      × (qc.view_number ≤ view_of (raise_generic qc s).generic_qc)
      × (((raise_generic qc s).generic_qc ≡ s.generic_qc)
          ⊎ ((raise_generic qc s).generic_qc ≡ some qc))
      × ((raise_generic qc s).locked_qc ≡ s.locked_qc)
unfolding raise_generic
raise_generic_lem qc s = ground arith
