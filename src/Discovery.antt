-- ===== src/Discovery.antt =====
-- internal/discovery/discovery.go: a replica that is behind asks for blocks and for the history.
pub mod CatchUp
use d_hotsuff.Prelude.{
  ℕ, suc, ◌+◌, ◌-◌, Bool, Option, none, some, List, [], ◌∷◌, leb, if◌then◌else◌, Result, ok, err,
  ◌>>=◌, map, Bytes, no_quorum, unsafe_block, not_wired,
}
use d_hotsuff.Proto.{Block, QuorumCert}
use d_hotsuff.External.{External}
use d_hotsuff.Membership.Committee.{Replica, Committee, size}
use d_hotsuff.Membership.ConfigStore.{ConfigStore, latest, at_number}
use d_hotsuff.StateTransfer.History.{ExecutionHistory}
use d_hotsuff.StateTransfer.Syncer.{RpcPool, update_of, better, enough, or_error, request_history}

-- ConfigAwareSafetyChecker.SafeNode
abbrev pub SafetyChecker : Type 0
SafetyChecker = Block → Option QuorumCert → Bool

-- The replicas whose answers arrive, in order: to the request for blocks, and to the request for
-- histories.
pub record Arrivals : Type 0 where
  pub updates : List Replica
  pub histories : List Replica

-- the loop of requestUpdates, which ends when all the goroutines have answered
unfoldable pub drain_all : ℕ → List (Result (Option Block)) → ℕ → Option Block → Result Block
unfolding enough or_error better
drain_all needed [] good best = or_error (enough needed good best) (err no_quorum)
drain_all needed (err e ∷ answers) good best = drain_all needed answers good best
drain_all needed (ok b ∷ answers) good best =
    let next = better best b in
    or_error (enough needed (good + 1) next) (drain_all needed answers (good + 1) next)

unfoldable pub request_updates : RpcPool → Committee → List Replica → Result Block
unfolding drain_all
request_updates pool mc arrivals =
    drain_all (size mc - mc.fault_cap) (map (update_of pool) arrivals) 0 none

-- the target committee, where it is known
unfoldable pub target_of : Committee → Result Committee → Committee
target_of current (ok mc) = mc
target_of current (err e) = current

-- SyncIfBehind after the committee is chosen
unfoldable pub fetch : External → RpcPool → SafetyChecker → Committee → Arrivals → Result (Unit {0})
fetch x pool safe target arrivals = do
  best ← request_updates pool target arrivals.updates
  if safe best best.justify
      then (do hist ← request_history x pool target arrivals.histories; ok tt)
      else err unsafe_block

sync_from :
    External
    → RpcPool
    → SafetyChecker
    → ConfigStore
    → Arrivals
    → ℕ
    → Option Committee
    → Option (Result (Unit {0}))
sync_from x pool safe configs arrivals known none = none
sync_from x pool safe configs arrivals known (some current) =
    if leb known current.number
    then some (ok tt)
    else some (fetch x pool safe (target_of current (at_number configs known)) arrivals)

-- Latest panics, `none`, on an empty log.
unfoldable pub sync_if_behind :
    External → RpcPool → SafetyChecker → ConfigStore → Arrivals → ℕ → Option (Result (Unit {0}))
unfolding sync_from
sync_if_behind x pool safe configs arrivals known =
    sync_from x pool safe configs arrivals known (latest configs)

unfoldable pub handle_update_request : Bytes → Result Block
handle_update_request requester = err not_wired
