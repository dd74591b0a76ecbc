-- ===== src/Consensus/Replica/Proposals/Keeps.antt =====
-- The fields that the stages of HandlePropose leave alone.
use d_hotsuff.Prelude.{
  ℕ, ◌≡◌, ◌⊎◌, Bytes, refl, Option, none, some, List, [], ◌∷◌, ◌++◌, if◌then◌else◌, Bool-cases, inl,
  inr, true, false,
}
use d_hotsuff.Prelude.Flow.{Ends, Ends-demand}
use d_hotsuff.Prelude.Table.{Table}
use d_hotsuff.Proto.{Block, MembershipRequest, VoteMsg, NewViewMsg}
use d_hotsuff.Membership.Committee.{Replica, Committee}
use d_hotsuff.Reputation.{Store}
use d_hotsuff.Consensus.Chain.{hash_block}
use d_hotsuff.Consensus.Safety.{safe_node}
use d_hotsuff.Consensus.ViewChange.{ViewChanger, Sent, unicast, vote_msg}
use d_hotsuff.Consensus.Deliver.{Deliverer, deliver, check_three_chain}
use d_hotsuff.Consensus.Replica.{Environment, DHotStuff, select_leader}
use d_hotsuff.Consensus.Replica.Proposals.{
  vote_for, signed_vote, cast_vote, vote_if_safe, deliver_logged, record_leader, three_chain,
}

-- What no stage of HandlePropose touches.
pub record Views : Type 0 where
  pub my_id : Bytes
  pub cur_view : ℕ
  pub vc : ViewChanger
  pub request_q : List MembershipRequest
  pub votes_buf : Table ℕ (List VoteMsg)
  pub new_view_buf : Table ℕ (List NewViewMsg)

abbrev pub views_of : DHotStuff → Views
views_of d = record {
  my_id = d.my_id;
  cur_view = d.cur_view;
  vc = d.vc;
  request_q = d.request_q;
  votes_buf = d.votes_buf;
  new_view_buf = d.new_view_buf;
}

-- The delivery of a block that may be nil.
abbrev pub delivered_by : Environment → Option Block → Deliverer → Deliverer
delivered_by e none dl = dl
delivered_by e (some b) dl = (deliver e.external e.execute dl b).0

-- No vote if the voting rule refuses the block; otherwise one vote to the leader, with the
-- signature that was made.
abbrev pub VoteSentTo : Environment → Committee → Block → DHotStuff → List Sent → Type 0
VoteSentTo e mc b d sent' =
    ((safe_node d.safety b b.justify e.blockchain ≡ false) × (sent' ≡ d.sent))
    ⊎ ((safe_node d.safety b b.justify e.blockchain ≡ true)
        × ((leader : Replica) × (sig : Bytes) × (select_leader e d mc ≡ some leader)
            × (e.sign_fn b.conf_number mc.number (hash_block e.external b) ≡ some sig)
            × (sent'
                ≡ d.sent
                  ++ unicast leader.addr (vote_msg (vote_for d mc (hash_block e.external b) sig))
                    ∷ [])))

-- The voting rule admits the block, and it is not signed.
pub record Unsigned (e : Environment) (mc : Committee) (b : Block) (d d' : DHotStuff) : Type 0 where
  pub safe : safe_node d.safety b b.justify e.blockchain ≡ true
  pub unsigned : e.sign_fn b.conf_number mc.number (hash_block e.external b) ≡ none
  pub same : d' ≡ d

abbrev pub VoteSent : Environment → Committee → Block → DHotStuff → DHotStuff → Type 0
VoteSent e mc b d d' = VoteSentTo e mc b d d'.sent

pub record Voted (e : Environment) (mc : Committee) (b : Block) (d d' : DHotStuff) : Type 0 where
  pub views : views_of d' ≡ views_of d
  pub safety : d'.safety ≡ d.safety
  pub deliverer : d'.deliverer ≡ d.deliverer
  pub pipeline : d'.pipeline ≡ d.pipeline
  pub vote : VoteSent e mc b d d'

signed_vote-Voted :
    (e : Environment) (mc : Committee) (b : Block) (d : DHotStuff) (sig : Option Bytes)
    → safe_node d.safety b b.justify e.blockchain ≡ true
    → e.sign_fn b.conf_number mc.number (hash_block e.external b) ≡ sig
    → Ends (Unsigned e mc b d) (Voted e mc b d) (signed_vote e mc (hash_block e.external b) sig d)
unfolding signed_vote
signed_vote-Voted e mc b d none may signed = record { safe = may; unsigned = signed; same = refl }
signed_vote-Voted e mc b d (some sig) may signed =
    Ends-demand _ (Voted e mc b d) (select_leader e d mc) _ λ leader led. record {
      views = refl;
      safety = refl;
      deliverer = refl;
      pipeline = refl;
      vote = inr (may, (leader, sig, led, signed, refl));
    }

pub vote_if_safe-Voted :
    (e : Environment) (mc : Committee) (b : Block) (d : DHotStuff)
    → Ends (Unsigned e mc b d) (Voted e mc b d) (vote_if_safe e mc b d)
unfolding vote_if_safe cast_vote
vote_if_safe-Voted e mc b d = elim (Bool-cases (safe_node d.safety b b.justify e.blockchain)) [
  | inl safe ↦ rw safe (signed_vote-Voted e mc b d _ safe refl)
  | inr refused ↦ rw refused (record {
    views = refl;
    safety = refl;
    deliverer = refl;
    pipeline = refl;
    vote = inl (refused, refl);
  })
]

-- The block that the three-chain rule commits.
abbrev pub committed_by :
    Environment → Block → Option Block → Option Block → Option Block → Option Block
committed_by e b_star (some b_double) (some b_prime) (some b) =
    if check_three_chain e.external b_star b_double b_prime b then some b else none
committed_by e b_star _ _ _ = none

-- The state after the three-chain rule: the committed block, if any, was delivered.
pub record Committed (e : Environment) (block : Option Block) (d d' : DHotStuff) : Type 0 where
  pub views : views_of d' ≡ views_of d
  pub sent : d'.sent ≡ d.sent
  pub safety : d'.safety ≡ d.safety
  pub pipeline : d'.pipeline ≡ d.pipeline
  pub deliverer : d'.deliverer ≡ delivered_by e block d.deliverer

record_leader-Committed :
    (e : Environment) (mc : Committee) (b : Block) (store : Option Store) (d d' : DHotStuff)
    (block : Option Block)
    → Committed e block d d'
    → Ends (λ _. ⊥) (Committed e block d) (record_leader e mc b store d')
unfolding record_leader
record_leader-Committed e mc b none d d' block c = c
record_leader-Committed e mc b (some store) d d' block c =
    Ends-demand _ (Committed e block d) (select_leader e d' mc) _ λ leader _. record {
      views = c.views;
      sent = c.sent;
      safety = c.safety;
      pipeline = c.pipeline;
      deliverer = c.deliverer;
    }

delivered-Committed :
    (e : Environment) (b : Block) (d : DHotStuff) → Committed e (some b) d (deliver_logged e b d)
unfolding deliver_logged
delivered-Committed e b d = record {
  views = refl;
  sent = refl;
  safety = refl;
  pipeline = refl;
  deliverer = refl;
}

pub three_chain-Committed :
    (e : Environment) (mc : Committee) (b_star : Block) (b_double b_prime b : Option Block)
    (d : DHotStuff)
    → Ends
        (λ _. ⊥)
        (Committed e (committed_by e b_star b_double b_prime b) d)
        (three_chain e mc b_star b_double b_prime b d)
unfolding three_chain
three_chain-Committed e mc b_star (some b_double) (some b_prime) (some b) d =
    elim (Bool-cases (check_three_chain e.external b_star b_double b_prime b)) [
      | inl chained ↦ rw chained (
          record_leader-Committed e mc b d.rep_store d (deliver_logged e b d) (some b)
            (delivered-Committed e b d))
      | inr broken ↦
          rw broken
            (record { views = refl; sent = refl; safety = refl; pipeline = refl; deliverer = refl })
    ]
three_chain-Committed e mc b_star _ _ _ d = record {
  views = refl;
  sent = refl;
  safety = refl;
  pipeline = refl;
  deliverer = refl;
}
