-- ===== src/Tests/Handlers.antt =====
-- The handlers of a replica.
use d_hotsuff.Prelude.{
  ◌≡◌, ◌∙◌, sym, refl, Bytes, bytes_eq, bytes_eq_iff, false, none, some, ◌++◌, if◌then◌else◌,
  Bool-cases, inl, inr, [], ◌∷◌, arith,
}
use d_hotsuff.Prelude.Flow.{returned}
use d_hotsuff.Proto.{NewViewMsg, VoteMsg}
use d_hotsuff.Membership.Committee.{replica_by_id}
use d_hotsuff.Membership.ConfigStore.{latest, new_config_store}
use d_hotsuff.Crypto.Encoding.{be64}
use d_hotsuff.Crypto.Signer.{hash_tuple}
use d_hotsuff.Consensus.Chain.{hash_block}
use d_hotsuff.Consensus.Safety.{safe_node}
use d_hotsuff.Consensus.ViewChange.{unicast, vote_msg}
use d_hotsuff.Consensus.Replica.{Environment, DHotStuff, new_d_hotstuff}
use d_hotsuff.Consensus.Replica.Reachable.{IsSound, here, after, resets, reachable-IsSound}
use d_hotsuff.Consensus.Replica.Handlers.{handle_vote_lem, handle_new_view_lem, handle_timeout_lem}
use d_hotsuff.Consensus.Replica.Proposals.{handle_propose}
use d_hotsuff.Consensus.Replica.Proposals.Commits
use d_hotsuff.Consensus.Replica.Votes.{handle_vote}
use d_hotsuff.Consensus.Replica.Votes.Outcomes
use d_hotsuff.Consensus.Replica.Votes.Signatures.{SignsFor, vote_dropped}
use d_hotsuff.Consensus.Replica.NewViews.{handle_new_view}
use d_hotsuff.Consensus.Replica.NewViews.Quorums
use d_hotsuff.Consensus.Replica.NewViews.Quorums.{Entered, repeated_message}
use d_hotsuff.Consensus.Replica.Timeouts.{end_timeout, handle_timeout}
use d_hotsuff.Consensus.Replica.Timeouts.Views.{TimedOut}
use d_hotsuff.Tests.Fixtures.{
  key, external, four, root, signature, vote_by, environment, replica_at, replica_in,
}

-- A replica of view 0 with the votes of two others.
abbrev voted : DHotStuff
voted = record (replica_in 0) { votes_buf = (0, vote_by 2 ∷ vote_by 3 ∷ []) ∷ [] }

handle_vote_lem_example :
    (d' : DHotStuff) × (handle_vote environment (vote_by 4) voted ≡ returned d')
    × Outcomes.Outcome environment four (vote_by 4) voted d'
unfolding latest
handle_vote_lem_example = handle_vote_lem environment four (vote_by 4) voted (omega arith) refl

abbrev message : NewViewMsg
message = record { view_number = 5; conf_number = 0; generic_qc = none }

handle_new_view_lem_example :
    (d' : DHotStuff) × (handle_new_view environment message (replica_in 0) ≡ returned d')
    × Quorums.Outcome environment four message (replica_in 0) d'
unfolding latest
handle_new_view_lem_example =
    handle_new_view_lem environment four message (replica_in 0) (omega arith) refl

abbrev told_twice : DHotStuff
told_twice = record (replica_in 0) { new_view_buf = (5, message ∷ message ∷ []) ∷ [] }

handle_timeout_lem_example :
    (d' : DHotStuff) × (handle_timeout environment false voted ≡ returned d') × TimedOut voted d'
unfolding latest
handle_timeout_lem_example = handle_timeout_lem environment four false voted (omega arith) refl

-- The one digest that the next environment signs.
abbrev signed_digest : Bytes
signed_digest = hash_tuple external 0 0 (hash_block external root)

abbrev strict : Environment
strict = record environment {
  external = record external { ecdsa_verify = λ k digest r s. bytes_eq digest signed_digest };
  sign_fn = λ view conf h.
      if bytes_eq (hash_tuple external view conf h) signed_digest then some signature else none;
}

strict-SignsFor : SignsFor strict key
unfolding hash_tuple hash_block
strict-SignsFor view conf h sig e other good =
    elim (Bool-cases (bytes_eq (hash_tuple external view conf h) signed_digest)) [
      | inl same ↦
          (bytes_eq_iff other signed_digest).0 good
          ∙ sym ((bytes_eq_iff (hash_tuple external view conf h) signed_digest).0 same)
      | inr differs ↦ let clash : none ≡ some sig = rw differs at e in absurd (cc)
    ]

vote_dropped_example :
    (sender' : DHotStuff) × (addr : Bytes) × (vote : VoteMsg) × (handle_propose strict root
        (replica_in 7)
      ≡ returned sender')
    × (sender'.sent ≡ (replica_in 7).sent ++ unicast addr (vote_msg vote) ∷ [])
    × (handle_vote strict vote (replica_in 3) ≡ returned (replica_in 3))
unfolding latest replica_by_id bytes_eq hash_tuple hash_block safe_node be64
vote_dropped_example =
    vote_dropped strict strict (replica_in 7) (replica_in 3) four root signature (replica_at 1) key
      refl (λ a b h. h) strict-SignsFor (omega arith) (omega arith) (omega arith) refl refl refl
      refl (omega arith) refl refl (λ h. absurd (omega (arith, h)))

-- A new replica, after a timeout's last step.
abbrev fresh : DHotStuff
fresh = new_d_hotstuff (1 ∷ []) (new_config_store four) 10 none

reachable-IsSound_example : IsSound (end_timeout 0 fresh)
reachable-IsSound_example =
    reachable-IsSound environment (1 ∷ []) four 10 none (end_timeout 0 fresh) refl
      (after here (resets fresh 0))
