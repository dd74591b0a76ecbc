-- ===== src/Consensus/Replica/Votes/Signatures.antt =====
-- The signature of a vote: what HandlePropose signs against what HandleVote verifies.
use d_hotsuff.Prelude.{
  ℕ, ◌<◌, ◌≤◌, ap, ◌++◌, [], ◌∷◌, ◌≡◌, ◌≢◌, refl, Bytes, true, false, some, u64, arith, Bool-cases,
  inl, inr, ◌∙◌,
}
use d_hotsuff.Prelude.Flow.{returned}
use d_hotsuff.Proto.{Block, VoteMsg}
use d_hotsuff.External.{External, PublicKey}
use d_hotsuff.Membership.Committee.{Replica, Committee, replica_by_id, size}
use d_hotsuff.Membership.ConfigStore.{latest}
use d_hotsuff.Crypto.Signer.{hash_tuple, decode_rs, verify}
use d_hotsuff.Crypto.Signer.Binding.{IsCollisionFree, hash_tuple-injective}
use d_hotsuff.Consensus.Chain.{hash_block}
use d_hotsuff.Consensus.Replica.{Environment, DHotStuff}
use d_hotsuff.Consensus.Safety.{safe_node}
use d_hotsuff.Consensus.ViewChange.{unicast, vote_msg}
use d_hotsuff.Consensus.Replica.Proposals.{vote_for, handle_propose}
use d_hotsuff.Consensus.Replica.Proposals.Commits.{ignored, given_up, processed}
use d_hotsuff.Consensus.Replica.Handlers.{handle_propose_lem}
use d_hotsuff.Consensus.Replica.Votes.{admissible, handle_vote}

-- The signature verifies, under the key, over one digest only.
abbrev pub SignsOnly : External → PublicKey → Bytes → Bytes → Type 0
SignsOnly x key sig digest =
    (other : Bytes)
    → x.ecdsa_verify key other (decode_rs sig).0 (decode_rs sig).1 ≡ true
    → other ≡ digest

verify-other :
    (x : External) (key : PublicKey) (view view' conf : ℕ) (h sig : Bytes)
    → IsCollisionFree x
    → view < u64
    → view' < u64
    → conf < u64
    → SignsOnly x key sig (hash_tuple x view conf h)
    → view' ≢ view
    → verify x key view' conf h sig ≡ false
unfolding verify
verify-other x key view view' conf h sig free b b' c only differs =
    elim (Bool-cases
      (x.ecdsa_verify key (hash_tuple x view' conf h) (decode_rs sig).0 (decode_rs sig).1)) [
        | inl good ↦ absurd (
            differs (hash_tuple-injective x view' view conf conf h h free b' b c c (only _ good)).0)
        | inr bad ↦ ground arith
      ]

admissible-member :
    (x : External) (mc : Committee) (vote : VoteMsg) (r : Replica) (key : PublicKey)
    → replica_by_id mc vote.signer_id ≡ some r
    → r.pub_key ≡ some key
    → admissible x mc vote
      ≡ verify x key vote.view_number vote.conf_number vote.block_hash vote.signature
unfolding admissible
admissible-member x mc vote r key member has_key = rw member (rw has_key refl)

handle_vote-drop :
    (e : Environment) (mc : Committee) (vote : VoteMsg) (d : DHotStuff)
    → latest d.deliverer.configs ≡ some mc
    → admissible e.external mc vote ≡ false
    → handle_vote e vote d ≡ returned d
unfolding handle_vote
handle_vote-drop e mc vote d current bad = rw current (rw bad refl)

handle_vote-vote_for :
    (e : Environment) (x : External) (sender receiver : DHotStuff) (mc : Committee) (conf : ℕ)
    (h sig : Bytes) (r : Replica) (key : PublicKey)
    → e.external ≡ x
    → IsCollisionFree x
    → sender.cur_view < u64
    → conf < u64
    → mc.number < u64
    → latest receiver.deliverer.configs ≡ some mc
    → replica_by_id mc sender.my_id ≡ some r
    → r.pub_key ≡ some key
    → SignsOnly x key sig (hash_tuple x conf mc.number h)
    → sender.cur_view ≢ conf
    → handle_vote e (vote_for sender mc h sig) receiver ≡ returned receiver
unfolding vote_for
handle_vote-vote_for e x sender receiver mc conf h sig r key same free bs bb bm current member
      has_key only differs =
    let vote = vote_for sender mc h sig in
    handle_vote-drop e mc vote receiver current (
      ap (λ (y : External). admissible y mc vote) same
      ∙ admissible-member x mc vote r key member has_key
      ∙ verify-other x key conf sender.cur_view mc.number h sig free bb bs bm only differs)

-- Whatever the signer makes for a view, a configuration and a hash verifies for that digest only.
abbrev pub SignsFor : Environment → PublicKey → Type 0
SignsFor e key =
    (view conf : ℕ) (h sig : Bytes)
    → e.sign_fn view conf h ≡ some sig
    → SignsOnly e.external key sig (hash_tuple e.external view conf h)

-- Without collisions of SHA-256, with 64-bit numbers, and with a signer whose signatures verify
-- under the key of the replica for no digest but the one that was signed: if the view of a
-- replica is not the configuration number of a block that SafeNode admits and that gets signed,
-- and that number is none of a later configuration, then HandlePropose sends one vote, and
-- HandleVote leaves any receiver unchanged by it that has the same latest configuration, with the
-- sender as a member with that key.
pub vote_dropped :
    (e e' : Environment) (sender receiver : DHotStuff) (mc : Committee) (block : Block)
    (sig : Bytes) (r : Replica) (key : PublicKey)
    → e'.external ≡ e.external
    → IsCollisionFree e.external
    → SignsFor e key
    → sender.cur_view < u64
    → mc.number < u64
    → 0 < size mc
    → latest sender.deliverer.configs ≡ some mc
    → latest receiver.deliverer.configs ≡ some mc
    → replica_by_id mc sender.my_id ≡ some r
    → r.pub_key ≡ some key
    → block.conf_number ≤ mc.number
    → safe_node sender.safety block block.justify e.blockchain ≡ true
    → e.sign_fn block.conf_number mc.number (hash_block e.external block) ≡ some sig
    → sender.cur_view ≢ block.conf_number
    → (sender' : DHotStuff) × (addr : Bytes) × (vote : VoteMsg) × (handle_propose e block sender
        ≡ returned sender')
      × (sender'.sent ≡ sender.sent ++ unicast addr (vote_msg vote) ∷ [])
      × (handle_vote e' vote receiver ≡ returned receiver)
vote_dropped e e' sender receiver mc block sig r key same free signs bs bm members ahead current
      member has_key known safe signed differs =
    let (d', ran, outcome) = handle_propose_lem e mc block sender members ahead in
    elim outcome [
      | ignored early _ ↦ absurd (omega arith)
      | given_up _ u ↦ let clash = u.unsigned in absurd (cc)
      | processed _ p ↦ elim p.vote [
        | inl (refused, _) ↦ absurd (cc)
        | inr (_, (leader, sig', _, signed', sent)) ↦
            let h = hash_block e.external block in
            (
              d',
              leader.addr,
              vote_for sender mc h sig',
              ran,
              sent,
              handle_vote-vote_for e' e.external sender receiver mc block.conf_number h sig' r key
                  same free bs (omega arith) bm current member has_key
                  (signs block.conf_number mc.number h sig' signed') differs,
            )
      ]
    ]
