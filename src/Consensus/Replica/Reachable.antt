-- ===== src/Consensus/Replica/Reachable.antt =====
-- The states that a replica of internal/consensus/dhotstuff.go reaches. Each critical section is a
-- step, so that the three steps of HandleTimeout interleave with the other handlers.
use d_hotsuff.Prelude.{
  ℕ, ◌≡◌, inl, inr, refl, sym, ap, Bytes, Bool, Option, none, some, [], ◌∷◌, ltb, length, ◌++◌,
  Bool-cases,
}
use d_hotsuff.Prelude.Flow.{returned, next, Leaves, Leaves-demand, Leaves-returned, Leaves-next}
use d_hotsuff.Prelude.Table.{lookup, lookup-delete, get_or}
use d_hotsuff.Proto.{Block, MembershipRequest, NewViewMsg, VoteMsg}
use d_hotsuff.Membership.Committee.{Committee}
use d_hotsuff.Membership.Committee.Bounds.{quorum_size_pos}
use d_hotsuff.Membership.ConfigStore.{new_config_store, latest}
use d_hotsuff.Membership.ConfigStore.Log.{IsNumbered, latest_lem, new_config_store-IsNumbered}
use d_hotsuff.Reputation.{Store}
use d_hotsuff.Consensus.ViewChange.{on_timeout}
use d_hotsuff.Consensus.Replica.{
  Environment, DHotStuff, new_d_hotstuff, submit_request, select_leader,
}
use d_hotsuff.Consensus.Replica.Proposals.{handle_propose}
use d_hotsuff.Consensus.Replica.Proposals.Keeps.{Views}
use d_hotsuff.Consensus.Replica.Proposals.Commits.{
  Processed, ignored, given_up, processed, handle_propose-Outcome, handle_propose-IsNumbered,
}
use d_hotsuff.Consensus.Replica.Votes.{buffered, handle_vote}
use d_hotsuff.Consensus.Replica.Votes.Outcomes.{handle_vote-Outcome}
use d_hotsuff.Consensus.Replica.Votes.Buffers.{
  IsBuffered, IsBuffer-if, buffered_of_lookup, handle_vote-IsBuffered,
}
use d_hotsuff.Consensus.Replica.NewViews.{handle_new_view}
use d_hotsuff.Consensus.Replica.NewViews.Quorums.{handle_new_view-Outcome}
use d_hotsuff.Consensus.Replica.Timeouts.{
  record_leader_timeout, begin_timeout, view_change, end_timeout,
}

-- One critical section, or one request that enters the queue. The last steps of HandleTimeout may
-- be those of a timeout of any earlier view.
pub data Step (e : Environment) : DHotStuff → DHotStuff → Type 0 where
  submits :
      {d d' : DHotStuff} (req : MembershipRequest) → submit_request d req ≡ some d' → Step e d d'
  proposes : {d d' : DHotStuff} (b : Block) → handle_propose e b d ≡ returned d' → Step e d d'
  votes : {d d' : DHotStuff} (vote : VoteMsg) → handle_vote e vote d ≡ returned d' → Step e d d'
  tells :
      {d d' : DHotStuff} (msg : NewViewMsg) → handle_new_view e msg d ≡ returned d' → Step e d d'
  times_out : {d d' : DHotStuff} → begin_timeout e d ≡ next d' → Step e d d'
  changes_view :
      {d d' : DHotStuff} (ctx_done : Bool) → view_change e ctx_done d ≡ next d' → Step e d d'
  resets : (d : DHotStuff) (timed_out_view : ℕ) → Step e d (end_timeout timed_out_view d)

pub data Reach (e : Environment) (start : DHotStuff) : DHotStuff → Type 0 where
  here : Reach e start start
  after : {d d' : DHotStuff} → Reach e start d → Step e d d' → Reach e start d'

-- The log of configurations is numbered, and each buffer has one vote of each signer for its view.
pub record IsSound (d : DHotStuff) : Type 0 where
  pub numbered : IsNumbered d.deliverer.configs
  pub buffers : IsBuffered d

-- A step that keeps the deliverer and the votes.
abbrev Kept : DHotStuff → DHotStuff → Type 0
Kept d d' = (d'.deliverer ≡ d.deliverer) × (d'.votes_buf ≡ d.votes_buf)

Kept-IsSound : (d d' : DHotStuff) → Kept d d' → IsSound d → IsSound d'
unfolding buffered
Kept-IsSound d d' (deliverer, same_votes) s = record {
  numbered = rw deliverer s.numbered;
  buffers = record { at = λ view. rw same_votes (s.buffers.at view) };
}

submit-Kept :
    (d d' : DHotStuff) (req : MembershipRequest) → submit_request d req ≡ some d' → Kept d d'
unfolding submit_request
submit-Kept d d' req h = elim (Bool-cases (ltb (length d.request_q) d.queue_size)) [
  | inl room ↦
      let queued : DHotStuff = record d { request_q = d.request_q ++ req ∷ [] } in
      let h' : some queued ≡ some d' = rw room at h in
      let same : queued ≡ d' = cc in
      (
        sym (ap (λ (t : DHotStuff). t.deliverer) same),
        sym (ap (λ (t : DHotStuff). t.votes_buf) same),
      )
  | inr full ↦ let h' : none ≡ some d' = rw full at h in absurd (cc)
]

leader_timeout-Kept :
    (e : Environment) (store : Option Store) (d : DHotStuff)
    → Leaves (Kept d) (record_leader_timeout e store d)
unfolding record_leader_timeout
leader_timeout-Kept e none d = (refl, refl)
leader_timeout-Kept e (some s) d =
    Leaves-demand (Kept d) (latest d.deliverer.configs) _
      λ mc _. Leaves-demand (Kept d) (select_leader e d mc) _ λ leader _. (refl, refl)

view_change-Kept :
    (e : Environment) (ctx_done : Bool) (d : DHotStuff) → Leaves (Kept d) (view_change e ctx_done d)
unfolding view_change
view_change-Kept e ctx_done d =
    Leaves-demand (Kept d) (on_timeout e.network ctx_done d.vc d.safety d.deliverer.configs) _
      λ r _. (refl, refl)

end_timeout-IsSound : (view : ℕ) (d : DHotStuff) → IsSound d → IsSound (end_timeout view d)
unfolding end_timeout
end_timeout-IsSound view d s = record {
  numbered = s.numbered;
  buffers = record {
    at = λ v.
        rw (buffered_of_lookup d (end_timeout view d) view v (lookup-delete view v d.votes_buf))
          (IsBuffer-if view v [] _ (tt, tt) (s.buffers.at v));
  };
}

Processed-IsBuffered :
    (e : Environment) (mc : Committee) (b : Block) (d d' : DHotStuff)
    → Processed e mc b d d'
    → IsBuffered d
    → IsBuffered d'
unfolding buffered
Processed-IsBuffered e mc b d d' p s =
    let same : d'.votes_buf ≡ d.votes_buf = ap (λ (v : Views). v.votes_buf) p.views in
    record { at = λ view. rw same (s.at view) }

propose-IsSound :
    (e : Environment) (mc : Committee) (b : Block) (d d' : DHotStuff)
    → latest d.deliverer.configs ≡ some mc
    → handle_propose e b d ≡ returned d'
    → IsSound d
    → IsSound d'
propose-IsSound e mc b d d' current h s = record {
  numbered =
      Leaves-returned (λ (t : DHotStuff). IsNumbered t.deliverer.configs) _ d'
        (handle_propose-IsNumbered e mc b d current s.numbered) h;
  buffers = elim (Leaves-returned _ _ d' (handle_propose-Outcome e mc b d current) h) [
    | ignored _ same ↦ rw same s.buffers
    | given_up _ u ↦ rw u.same s.buffers
    | processed _ p ↦ Processed-IsBuffered e mc b d d' p s.buffers
  ];
}

vote-IsSound :
    (e : Environment) (mc : Committee) (vote : VoteMsg) (d d' : DHotStuff)
    → latest d.deliverer.configs ≡ some mc
    → handle_vote e vote d ≡ returned d'
    → IsSound d
    → IsSound d'
vote-IsSound e mc vote d d' current h s =
    let pos = quorum_size_pos mc in
    record {
      numbered = elim (Leaves-returned _ _ d' (handle_vote-Outcome e mc vote d current pos) h) [
        | inl (_, same) ↦ rw same s.numbered
        | inr rest ↦ elim rest [
          | inl (_, _, same) ↦ rw same s.numbered
          | inr (_, _, c) ↦ rw c.deliverer s.numbered
        ]
      ];
      buffers =
          Leaves-returned IsBuffered _ d' (handle_vote-IsBuffered e mc vote d current pos s.buffers)
            h;
    }

tell-Kept :
    (e : Environment) (mc : Committee) (msg : NewViewMsg) (d d' : DHotStuff)
    → latest d.deliverer.configs ≡ some mc
    → handle_new_view e msg d ≡ returned d'
    → Kept d d'
tell-Kept e mc msg d d' current h =
    elim (Leaves-returned _ _ d' (handle_new_view-Outcome e mc msg d current) h) [
      | inl (_, same) ↦ rw same (refl, refl)
      | inr (_, entered) ↦ (entered.proposed.core.deliverer, entered.proposed.core.votes_buf)
    ]

Step-IsSound : {e : Environment} {d d' : DHotStuff} → Step e d d' → IsSound d → IsSound d'
unfolding begin_timeout
Step-IsSound {e = e} {d = d} {d' = d'} (submits req h) s =
    Kept-IsSound d d' (submit-Kept d d' req h) s
Step-IsSound {e = e} {d = d} {d' = d'} (proposes b h) s =
    let (mc, current, _, _) = latest_lem d.deliverer.configs s.numbered in
    propose-IsSound e mc b d d' current h s
Step-IsSound {e = e} {d = d} {d' = d'} (votes vote h) s =
    let (mc, current, _, _) = latest_lem d.deliverer.configs s.numbered in
    vote-IsSound e mc vote d d' current h s
Step-IsSound {e = e} {d = d} {d' = d'} (tells msg h) s =
    let (mc, current, _, _) = latest_lem d.deliverer.configs s.numbered in
    Kept-IsSound d d' (tell-Kept e mc msg d d' current h) s
Step-IsSound {e = e} {d = d} {d' = d'} (times_out h) s =
    Kept-IsSound d d' (Leaves-next (Kept d) _ d' (leader_timeout-Kept e d.rep_store d) h) s
Step-IsSound {e = e} {d = d} {d' = d'} (changes_view ctx_done h) s =
    Kept-IsSound d d' (Leaves-next (Kept d) _ d' (view_change-Kept e ctx_done d) h) s
Step-IsSound (resets d view) s = end_timeout-IsSound view d s

new-IsSound :
    (my_id : Bytes) (genesis : Committee) (queue_size : ℕ) (store : Option Store)
    → genesis.number ≡ 0
    → IsSound (new_d_hotstuff my_id (new_config_store genesis) queue_size store)
unfolding new_d_hotstuff buffered lookup get_or
new-IsSound my_id genesis queue_size store first = record {
  numbered = new_config_store-IsNumbered genesis first;
  buffers = record { at = λ view. (tt, tt) };
}

Reach-IsSound :
    {e : Environment} {start d : DHotStuff} → IsSound start → Reach e start d → IsSound d
Reach-IsSound s here = s
Reach-IsSound s (after r step) = Step-IsSound step (Reach-IsSound s r)

-- In every state that a new replica with a genesis configuration of number 0 reaches by requests,
-- handlers and the three steps of timeouts, in any order, the log of configurations is numbered,
-- and each buffer has at most one vote of each signer, all for the view of the buffer.
pub reachable-IsSound :
    (e : Environment) (my_id : Bytes) (genesis : Committee) (queue_size : ℕ) (store : Option Store)
    (d : DHotStuff)
    → genesis.number ≡ 0
    → Reach e (new_d_hotstuff my_id (new_config_store genesis) queue_size store) d
    → IsSound d
reachable-IsSound e my_id genesis queue_size store d first r =
    Reach-IsSound (new-IsSound my_id genesis queue_size store first) r
