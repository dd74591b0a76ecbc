-- ===== src/Consensus/Replica.antt =====
-- internal/consensus/dhotstuff.go: the state of a replica, the choice of a leader and proposals.
-- The handlers are in the modules below. A handler holds the mutex from its first to its last
-- statement, so it is one step, except for HandleTimeout.
pub mod Proposing
pub mod Proposals
pub mod Votes
pub mod NewViews
pub mod Timeouts
pub mod Running
pub mod Handlers
pub mod Reachable
use d_hotsuff.Prelude.{
  ℕ, zero, suc, Bytes, Bool, true, false, Option, none, some, List, [], ◌∷◌, ◌++◌, length, ltb,
  if◌then◌else◌, inc64,
}
use d_hotsuff.Prelude.Flow.{Flow, panic, returned, next, demand, ◌>>=◌}
use d_hotsuff.Prelude.Table.{Table}
use d_hotsuff.Proto.{Block, MembershipRequest, NewViewMsg, QuorumCert, VoteMsg, hash_of}
use d_hotsuff.External.{External}
use d_hotsuff.Membership.Committee
use d_hotsuff.Membership.Committee.{Replica, Committee}
use d_hotsuff.Membership.ConfigStore.{ConfigStore, latest, new_config_store}
use d_hotsuff.Reputation.{Floats, Store, record_leader_round}
use d_hotsuff.Reputation
use d_hotsuff.Consensus.Chain.{BlockchainReader}
use d_hotsuff.Consensus.Safety.{SafetyState}
use d_hotsuff.Consensus.Pipeline.{PipelineState, empty_window}
use d_hotsuff.Consensus.Deliver.{Executor, Deliverer, new_deliverer}
use d_hotsuff.Consensus.ViewChange.{
  Network, Sent, broadcast, block_msg, ViewChanger, new_view_changer,
}

-- What a replica is wired to.
pub record Environment : Type 0 where
  pub external : External
  pub floats : Floats
  pub blockchain : BlockchainReader
  pub network : Network
  pub execute : Executor
  -- signFn(viewNum, confNum, blockHash); `none` is an error
  pub sign_fn : ℕ → ℕ → Bytes → Option Bytes

-- The committees are in the store of the deliverer, the one store that all parts share. `sent`
-- records what was handed to the network, oldest first.
pub record DHotStuff : Type 0 where
  pub my_id : Bytes
  pub cur_view : ℕ
  pub cur_conf : ℕ
  pub safety : SafetyState
  pub pipeline : PipelineState
  pub deliverer : Deliverer
  pub vc : ViewChanger
  pub rep_store : Option Store
  pub request_q : List MembershipRequest
  pub queue_size : ℕ
  pub votes_buf : Table ℕ (List VoteMsg)
  pub new_view_buf : Table ℕ (List NewViewMsg)
  pub sent : List Sent

unfoldable pub new_d_hotstuff : Bytes → ConfigStore → ℕ → Option Store → DHotStuff
new_d_hotstuff my_id configs queue_size rep_store = record {
  my_id = my_id;
  cur_view = 0;
  cur_conf = 0;
  safety = record { locked_qc = none; generic_qc = none };
  pipeline = empty_window;
  deliverer = new_deliverer configs;
  vc = new_view_changer 0;
  rep_store = rep_store;
  request_q = [];
  queue_size = queue_size;
  votes_buf = [];
  new_view_buf = [];
  sent = [];
}

-- d.requestQ <- req: `none` while the channel is full, where the caller blocks
unfoldable pub submit_request : DHotStuff → MembershipRequest → Option DHotStuff
submit_request d req =
    if ltb (length d.request_q) d.queue_size
    then some (record d { request_q = d.request_q ++ req ∷ [] })
    else none

leader_by : Floats → Option Store → Committee → ℕ → Option Replica
leader_by f none mc view = Committee.leader mc view
leader_by f (some store) mc view = Reputation.select f store mc view

-- `none` is a panic, of Leader or of the use of a nil replica; both mean an empty committee
unfoldable pub select_leader : Environment → DHotStuff → Committee → Option Replica
unfolding leader_by
select_leader e d mc = leader_by e.floats d.rep_store mc d.cur_view

-- if d.repStore != nil { … }
abbrev pub with_store : (Store → Store) → DHotStuff → DHotStuff
with_store f d = record d { rep_store = elim d.rep_store [ none ↦ none | some s ↦ some (f s) ] }

-- NetworkSender: an error of the network is only logged
abbrev pub send : Sent → DHotStuff → DHotStuff
send message d = record d { sent = d.sent ++ message ∷ [] }

-- the loop of non-blocking receives: the batch, and what stays queued
unfoldable pub drain : ℕ → List MembershipRequest → List MembershipRequest × List MembershipRequest
drain zero queue = ([], queue)
drain (suc rounds) [] = ([], [])
drain (suc rounds) (req ∷ queue) = let (batch, rest) = drain rounds queue in (req ∷ batch, rest)

abbrev pub batch_size : ℕ
batch_size = 100

height_above : Option Block → ℕ
height_above none = 0
height_above (some parent) = inc64 parent.height

parent_height : BlockchainReader → Option QuorumCert → ℕ
unfolding height_above
parent_height bc none = 0
parent_height bc (some qc) = height_above (bc.get qc.block_hash)

-- the block that `propose` builds
unfoldable pub next_block :
    BlockchainReader → Option QuorumCert → List MembershipRequest → Committee → Block
unfolding parent_height
next_block bc justify batch mc = record {
  parent_hash = hash_of justify;
  batch = batch;
  justify = justify;
  height = parent_height bc justify;
  conf_number = mc.number;
}

-- The replica does not check that it is the leader.
unfoldable pub propose : Environment → Option QuorumCert → DHotStuff → Flow DHotStuff
propose e justify d = demand (latest d.deliverer.configs) λ mc.
    demand (select_leader e d mc) λ leader.
      let (batch, rest) = drain batch_size d.request_q in
      let block = next_block e.blockchain justify batch mc in
      let recorded = with_store (λ s. record_leader_round s leader.id) d in
      returned (send (broadcast mc (block_msg block)) (record recorded { request_q = rest }))
