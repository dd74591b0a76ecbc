-- ===== src/Consensus/Replica/Running.antt =====
-- Panics of the handlers of internal/consensus/dhotstuff.go: where they come from.
use d_hotsuff.Prelude.{
  ℕ, ◌<◌, ◌≡◌, inl, inr, refl, sym, Bytes, ◌++◌, Bool, Option, none, some, List, [], ◌∷◌, length,
  arith, ltb, Bool-cases, ok,
}
use d_hotsuff.Prelude.Flow.{Flow, panic, returned, next, demand, ◌>>=◌}
use d_hotsuff.Proto.{Block, NewViewMsg, VoteMsg, QuorumCert}
use d_hotsuff.Membership.Committee.{Replica, Committee, size, quorum_size}
use d_hotsuff.Membership.Committee.Bounds.{quorum_size_pos}
use d_hotsuff.Membership.Committee.Leaders.{leader_total}
use d_hotsuff.Membership.ConfigStore.{latest}
use d_hotsuff.Crypto.Votes.{aggregate_votes}
use d_hotsuff.Crypto.Votes.Certify.{create_qc-has_quorum}
use d_hotsuff.Reputation
use d_hotsuff.Reputation.{Floats, Store, scored}
use d_hotsuff.Consensus.ViewChange.{on_new_view_messages}
use d_hotsuff.Consensus.ViewChange.Timeouts.{on_timeout_lem}
use d_hotsuff.Consensus.Deliver.{check_three_chain}
use d_hotsuff.Consensus.Safety.{safe_node}
use d_hotsuff.Consensus.Replica.{Environment, DHotStuff, leader_by, select_leader, propose}
use d_hotsuff.Consensus.Replica.Proposals.{
  signed_vote, cast_vote, vote_if_safe, record_leader, three_chain, process_block, handle_propose,
}
use d_hotsuff.Consensus.Replica.Votes.{
  admissible, buffered, certified_view, finish_qc, count_vote, handle_vote,
}
use d_hotsuff.Consensus.Replica.NewViews.{new_views, enter_view, handle_new_view}
use d_hotsuff.Consensus.Replica.Timeouts.{
  record_leader_timeout, begin_timeout, view_change, handle_timeout,
}

abbrev pub Returns : Flow DHotStuff → Type 0
Returns panic = ⊥
Returns (returned s) = Unit
Returns (next s) = ⊥

abbrev Runs : Flow DHotStuff → Type 0
Runs panic = ⊥
Runs (returned s) = Unit
Runs (next s) = Unit

Runs-bind :
    (m : Flow DHotStuff) (f : DHotStuff → Flow DHotStuff)
    → Runs m
    → ((d : DHotStuff) → Returns (f d))
    → Returns (m >>= f)
Runs-bind panic f h k = h
Runs-bind (returned d) f h k = tt
Runs-bind (next d) f h k = k d

Runs-demand :
    {A : Type 0} (o : Option A) (a : A) (f : A → Flow DHotStuff)
    → o ≡ some a
    → Runs (f a)
    → Runs (demand o f)
Runs-demand o a f e h = rw e h

Returns-demand :
    {A : Type 0} (o : Option A) (a : A) (f : A → Flow DHotStuff)
    → o ≡ some a
    → Returns (f a)
    → Returns (demand o f)
Returns-demand o a f e h = rw e h

first_ranked-total :
    (f : Floats) (s : Store) (mc : Committee) (view : ℕ) (rs : List Replica)
    → rs ≡ mc.replicas
    → 0 < length rs
    → (r : Replica) × (Reputation.select f s mc view ≡ some r)
unfolding Reputation.select
first_ranked-total f s mc view [] same h = absurd (omega arith)
first_ranked-total f s mc view (r ∷ rs) same h = rw (sym same) (_, refl)

leader_by-total :
    (f : Floats) (store : Option Store) (mc : Committee) (view : ℕ)
    → 0 < size mc
    → (r : Replica) × (leader_by f store mc view ≡ some r)
unfolding leader_by
leader_by-total f none mc view h = leader_total mc view h
leader_by-total f (some s) mc view h = first_ranked-total f s mc view mc.replicas refl h

select_leader-total :
    (e : Environment) (d : DHotStuff) (mc : Committee)
    → 0 < size mc
    → (r : Replica) × (select_leader e d mc ≡ some r)
unfolding select_leader
select_leader-total e d mc h = leader_by-total e.floats d.rep_store mc d.cur_view h

propose-Returns :
    (e : Environment) (mc : Committee) (justify : Option QuorumCert) (d : DHotStuff)
    → 0 < size mc
    → latest d.deliverer.configs ≡ some mc
    → Returns (propose e justify d)
unfolding propose
propose-Returns e mc justify d h current =
    let (r, e1) = select_leader-total e d mc h in
    Returns-demand (latest d.deliverer.configs) mc _ current
      (Returns-demand (select_leader e d mc) r _ e1 tt)

signed_vote-Runs :
    (e : Environment) (mc : Committee) (block_hash : Bytes) (sig : Option Bytes) (d : DHotStuff)
    → 0 < size mc
    → Runs (signed_vote e mc block_hash sig d)
unfolding signed_vote
signed_vote-Runs e mc block_hash none d h = tt
signed_vote-Runs e mc block_hash (some sig) d h =
    let (r, e1) = select_leader-total e d mc h in Runs-demand (select_leader e d mc) r _ e1 tt

vote_if_safe-Runs :
    (e : Environment) (mc : Committee) (b : Block) (d : DHotStuff)
    → 0 < size mc
    → Runs (vote_if_safe e mc b d)
unfolding vote_if_safe cast_vote
vote_if_safe-Runs e mc b d h = elim (Bool-cases (safe_node d.safety b b.justify e.blockchain)) [
  | inl safe ↦ rw safe (signed_vote-Runs e mc _ _ d h)
  | inr refused ↦ rw refused tt
]

record_leader-Runs :
    (e : Environment) (mc : Committee) (b : Block) (store : Option Store) (d : DHotStuff)
    → 0 < size mc
    → Runs (record_leader e mc b store d)
unfolding record_leader
record_leader-Runs e mc b none d h = tt
record_leader-Runs e mc b (some s) d h =
    let (r, e1) = select_leader-total e d mc h in Runs-demand (select_leader e d mc) r _ e1 tt

three_chain-Runs :
    (e : Environment) (mc : Committee) (b_star : Block) (b_double b_prime b : Option Block)
    (d : DHotStuff)
    → 0 < size mc
    → Runs (three_chain e mc b_star b_double b_prime b d)
unfolding three_chain
three_chain-Runs e mc b_star (some b2) (some b1) (some b) d h =
    elim (Bool-cases (check_three_chain e.external b_star b2 b1 b)) [
      | inl chain ↦ rw chain (record_leader-Runs e mc b _ _ h)
      | inr no_chain ↦ rw no_chain tt
    ]
three_chain-Runs e mc b_star _ _ _ d h = tt

pub handle_propose-Returns :
    (e : Environment) (mc : Committee) (b : Block) (d : DHotStuff)
    → 0 < size mc
    → latest d.deliverer.configs ≡ some mc
    → Returns (handle_propose e b d)
unfolding handle_propose process_block
handle_propose-Returns e mc b d h current =
    rw current (elim (Bool-cases (ltb mc.number b.conf_number)) [
      | inl ahead ↦ rw ahead tt
      | inr known ↦ rw known (
          Runs-bind (vote_if_safe e mc b d) _ (vote_if_safe-Runs e mc b d h) λ d1.
            Runs-bind (three_chain e mc b _ _ _ _) _ (three_chain-Runs e mc b _ _ _ _ h) λ d2. tt)
    ])

finish_qc-Returns :
    (e : Environment) (mc : Committee) (view : ℕ) (qc : QuorumCert) (d : DHotStuff)
    → 0 < size mc
    → latest d.deliverer.configs ≡ some mc
    → Returns (finish_qc e view (ok (some qc)) d)
unfolding finish_qc certified_view
finish_qc-Returns e mc view qc d h current =
    propose-Returns e mc (some qc) (certified_view view qc d) h current

pub handle_vote-Returns :
    (e : Environment) (mc : Committee) (vote : VoteMsg) (d : DHotStuff)
    → 0 < size mc
    → latest d.deliverer.configs ≡ some mc
    → Returns (handle_vote e vote d)
unfolding handle_vote count_vote finish_qc
handle_vote-Returns e mc vote d h current =
    rw current (elim (Bool-cases (admissible e.external mc vote)) [
      | inr refused ↦ rw refused tt
      | inl admitted ↦
          rw admitted
            (elim (create_qc-has_quorum (aggregate_votes (buffered d vote.view_number) vote) mc
              (quorum_size_pos mc)) [
                | inl (enough, (qc, made, _)) ↦
                    rw (enough, made) (finish_qc-Returns e mc vote.view_number qc _ h current)
                | inr (few, _) ↦ rw few tt
              ])
    ])

pub handle_new_view-Returns :
    (e : Environment) (mc : Committee) (msg : NewViewMsg) (d : DHotStuff)
    → 0 < size mc
    → latest d.deliverer.configs ≡ some mc
    → Returns (handle_new_view e msg d)
unfolding handle_new_view on_new_view_messages enter_view
handle_new_view-Returns e mc msg d h current =
    rw current
      (elim (Bool-cases (ltb (length (new_views d msg.view_number ++ msg ∷ [])) (quorum_size mc))) [
        | inl few ↦ rw few tt
        | inr many ↦ rw many (propose-Returns e mc _ _ h current)
      ])

record_leader_timeout-next :
    (e : Environment) (mc : Committee) (store : Option Store) (d : DHotStuff)
    → 0 < size mc
    → latest d.deliverer.configs ≡ some mc
    → (begun : DHotStuff) × (record_leader_timeout e store d ≡ next begun)
      × (latest begun.deliverer.configs ≡ some mc)
unfolding record_leader_timeout
record_leader_timeout-next e mc none d h current = (d, refl, current)
record_leader_timeout-next e mc (some s) d h current =
    let (r, chosen) = select_leader-total e d mc h in rw (current, chosen) (_, refl, current)

pub handle_timeout-Returns :
    (e : Environment) (mc : Committee) (ctx_done : Bool) (d : DHotStuff)
    → 0 < size mc
    → latest d.deliverer.configs ≡ some mc
    → Returns (handle_timeout e ctx_done d)
unfolding handle_timeout begin_timeout view_change
handle_timeout-Returns e mc ctx_done d h current =
    let (begun, started, current') = record_leader_timeout-next e mc d.rep_store d h current in
    let (_, _, moved) =
      on_timeout_lem e.network ctx_done begun.vc begun.safety begun.deliverer.configs mc current'
        h in
    rw (started, moved) tt
