-- ===== src/Tests/Transfer.antt =====
-- State transfer, discovery and the network.
use d_hotsuff.Prelude.{
  ◌≤◌, ◌≡◌, ◌⊎◌, refl, true, none, some, [], ◌∷◌, map, ok, err, send_failed, take, ◌<◌, Result,
  not_found, arith,
}
use d_hotsuff.Prelude.Table.{lookup}
use d_hotsuff.Membership.Committee.{Committee}
use d_hotsuff.Membership.ConfigStore.{latest, at_number}
use d_hotsuff.StateTransfer.Syncer.{RpcPool, history_of, update_of, request_history, request_update}
use d_hotsuff.StateTransfer.Syncer.Histories
use d_hotsuff.StateTransfer.Syncer.Histories.{request_history_lem}
use d_hotsuff.StateTransfer.Syncer.Updates
use d_hotsuff.StateTransfer.Syncer.Updates.{request_update_lem}
use d_hotsuff.Discovery.{Arrivals, target_of, sync_if_behind}
use d_hotsuff.Discovery.CatchUp
use d_hotsuff.Discovery.CatchUp.{Asked, sync_if_behind_lem, asks_current}
use d_hotsuff.Network.Transport.{Clients}
use d_hotsuff.Network.Pool.{Grpc, get_conn}
use d_hotsuff.Network.Pool.Connections.{Outcome, get_conn-Outcome}
use d_hotsuff.Tests.Fixtures.{external, four, store, store-IsNumbered, block_on, root, vote_by}

abbrev pool : RpcPool
pool = record {
  get_client = λ addr. ok tt;
  request_history_rpc = λ addr. ok (block_on [] 0 [] ∷ root ∷ []);
  request_update_rpc = λ addr. ok (some root);
}

request_history_lem_example :
    Histories.Drained external 3
      (take 4 (map (history_of pool) four.replicas))
      []
      (request_history external pool four four.replicas)
request_history_lem_example = request_history_lem external pool four four.replicas

request_update_lem_example :
    Updates.Drained 3
      (take 4 (map (update_of pool) four.replicas))
      0
      none
      (request_update pool four four.replicas)
request_update_lem_example = request_update_lem pool four four.replicas

abbrev arrivals : Arrivals
arrivals = record { updates = four.replicas; histories = four.replicas }

sync_if_behind_lem_example :
    (r : Result (Unit {0})) × (sync_if_behind external pool (λ b qc. true) store arrivals 2
      ≡ some r)
    × ((2 ≤ 0) × (r ≡ ok tt)
        ⊎ (0 < 2)
          × ((target : Committee) × Asked store 2 four target
              × CatchUp.Outcome external pool (λ b qc. true) target arrivals r))
unfolding latest
sync_if_behind_lem_example =
    sync_if_behind_lem external pool (λ b qc. true) store arrivals 2 four refl

asks_current_example :
    (at_number store 2 ≡ err not_found) × (target_of four (at_number store 2) ≡ four)
unfolding latest
asks_current_example = asks_current store 2 four store-IsNumbered refl (omega arith)

abbrev clients : Clients
clients = record {
  get_client = λ addr. ok tt;
  propose_rpc = λ addr b. ok (vote_by 2);
  send_new_view_rpc = λ addr m. err send_failed;
}

abbrev grpc : Grpc
grpc = record { dial = λ addr. ok 5; close_conn = λ conn. ok tt }

-- Another call has added connection 4 between the locks.
get_conn-Outcome_example :
    Outcome grpc (7 ∷ []) ((7 ∷ [], 4) ∷ []) (get_conn grpc [] ((7 ∷ [], 4) ∷ []) (7 ∷ []))
unfolding lookup
get_conn-Outcome_example = get_conn-Outcome grpc [] ((7 ∷ [], 4) ∷ []) (7 ∷ []) (λ k c h. cc)
