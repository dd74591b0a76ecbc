-- ===== src/StateTransfer/Syncer.antt =====
-- internal/statetransfer/syncer.go: history and best block of a committee's replicas.
pub mod Histories
pub mod Updates
use d_hotsuff.Prelude.{
  ℕ, zero, suc, ◌+◌, ◌-◌, ◌*◌, Bytes, bytes_instance, Bool, ◌&&◌, false, true, Option, none, some,
  List, [], ◌∷◌, leb, ltb, if◌then◌else◌, Result, ok, err, ◌>>=◌, cancelled, no_quorum, map,
}
use d_hotsuff.Prelude.Table.{Table, lookup, insert, get_or}
use d_hotsuff.Proto.{Block}
use d_hotsuff.External.{External}
use d_hotsuff.Membership.Committee.{Replica, Committee, size}
use d_hotsuff.StateTransfer.History.{ExecutionHistory, hash, history_from_proto, to_proto}

-- RPCPool and the two RPCs of the clients that it returns, by the replica's address.
pub record RpcPool : Type 0 where
  pub get_client : Bytes → Result (Unit {0})
  pub request_history_rpc : Bytes → Result (List Block)
  pub request_update_rpc : Bytes → Result (Option Block)

-- what the goroutine of one replica puts on the channel of RequestHistory
unfoldable pub history_of : RpcPool → Replica → Result ExecutionHistory
history_of pool r = do
  client ← pool.get_client r.addr
  resp ← pool.request_history_rpc r.addr
  history_from_proto resp

-- hashCount and hashHist
pub record Tally : Type 0 where
  pub hash_count : Table Bytes ℕ
  pub hash_hist : Table Bytes ExecutionHistory

first_or : ExecutionHistory → Option ExecutionHistory → ExecutionHistory
first_or h none = h
first_or h (some first) = first

unfoldable pub count : Table Bytes ℕ → Bytes → ℕ
count t k = get_or 0 (lookup k t)

first_kept :
    Table Bytes ExecutionHistory
    → Bytes
    → ExecutionHistory
    → Option ExecutionHistory
    → Table Bytes ExecutionHistory
first_kept t k h none = insert k h t
first_kept t k h (some first) = t

unfoldable pub tally_hist :
    Table Bytes ExecutionHistory → Bytes → ExecutionHistory → Table Bytes ExecutionHistory
unfolding first_kept
tally_hist t k h = first_kept t k h (lookup k t)

unfoldable pub tallied : External → Tally → ExecutionHistory → Tally
tallied x t h =
    let k = hash x h in
    record {
      hash_count = insert k (count t.hash_count k + 1) t.hash_count;
      hash_hist = tally_hist t.hash_hist k h;
    }

-- The loop that drains the channel: `left` answers are still to come, and the answers that arrive
-- before the deadline do so in the order of the list. ctx.Done() is taken after them.
unfoldable pub drain_histories :
    External → ℕ → ℕ → List (Result ExecutionHistory) → Tally → Result ExecutionHistory
unfolding first_or
drain_histories x needed zero answers t = err no_quorum
drain_histories x needed (suc left) [] t = err cancelled
drain_histories x needed (suc left) (err e ∷ answers) t = drain_histories x needed left answers t
drain_histories x needed (suc left) (ok h ∷ answers) t =
    let next = tallied x t h in
    let rest = drain_histories x needed left answers next in
    if leb needed (count next.hash_count (hash x h))
    then ok (first_or h (lookup (hash x h) next.hash_hist))
    else rest

-- `arrivals`: the replicas whose answers arrive before the deadline, in order
unfoldable pub request_history :
    External → RpcPool → Committee → List Replica → Result ExecutionHistory
request_history x pool mc arrivals =
    drain_histories x (2 * mc.fault_cap + 1) (size mc) (map (history_of pool) arrivals)
      (record { hash_count = []; hash_hist = [] })

-- what the goroutine of one replica puts on the channel of RequestUpdate
unfoldable pub update_of : RpcPool → Replica → Result (Option Block)
update_of pool r = do client ← pool.get_client r.addr; pool.request_update_rpc r.addr

-- bestBlock, after an answer without an error
unfoldable pub better : Option Block → Option Block → Option Block
better best none = best
better none (some b) = some b
better (some best) (some b) = if ltb best.height b.height then some b else some best

-- good >= needed && bestBlock != nil
unfoldable pub enough : ℕ → ℕ → Option Block → Option Block
enough needed good none = none
enough needed good (some b) = if leb needed good then some b else none

unfoldable pub or_error : Option Block → Result Block → Result Block
or_error none r = r
or_error (some b) r = ok b

-- The loop that drains the channel, as above.
unfoldable pub drain_updates :
    ℕ → ℕ → List (Result (Option Block)) → ℕ → Option Block → Result Block
unfolding enough or_error better
drain_updates needed zero answers good best = or_error (enough needed good best) (err no_quorum)
drain_updates needed (suc left) [] good best = or_error (enough needed good best) (err cancelled)
drain_updates needed (suc left) (err e ∷ answers) good best =
    drain_updates needed left answers good best
drain_updates needed (suc left) (ok b ∷ answers) good best =
    let next = better best b in
    or_error (enough needed (good + 1) next) (drain_updates needed left answers (good + 1) next)

-- A negative nc - fc asks for as little as 0 does.
unfoldable pub request_update : RpcPool → Committee → List Replica → Result Block
request_update pool mc arrivals =
    drain_updates (size mc - mc.fault_cap) (size mc) (map (update_of pool) arrivals) 0 none
