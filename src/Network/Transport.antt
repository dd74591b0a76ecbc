-- ===== src/Network/Transport.antt =====
-- internal/network/transport.go: sending to one replica and to a committee.
pub mod Sending
use d_hotsuff.Prelude.{
  Bytes, bytes_eq, ℕ, suc, Bool, List, [], ◌∷◌, ◌++◌, map, filter, not, nat_beq, length,
  if◌then◌else◌, Result, ok, err, ◌>>=◌, unsupported_message, send_failed,
}
use d_hotsuff.Proto.{Block, VoteMsg, NewViewMsg}
use d_hotsuff.Membership.Committee.{Replica, Committee}
use d_hotsuff.Consensus.ViewChange.{Message, block_msg, vote_msg, new_view_msg}

-- The client that the pool returns for an address, and the client's RPCs.
pub record Clients : Type 0 where
  pub get_client : Bytes → Result (Unit {0})
  pub propose_rpc : Bytes → Block → Result VoteMsg
  pub send_new_view_rpc : Bytes → NewViewMsg → Result (Unit {0})

-- the switch on the message's type; the vote that Propose returns is dropped
unfoldable pub dispatch : Clients → Bytes → Message → Result (Unit {0})
dispatch c addr (block_msg b) = do vote ← c.propose_rpc addr b; ok tt
dispatch c addr (new_view_msg m) = c.send_new_view_rpc addr m
dispatch c addr (vote_msg v) = err unsupported_message

unfoldable pub send : Clients → Bytes → Message → Result (Unit {0})
unfolding dispatch
send c addr msg = do client ← c.get_client addr; dispatch c addr msg

failed : Result (Unit {0}) → ℕ → ℕ
failed (ok u) n = n
failed (err e) n = suc n

-- the loop of BroadcastToCommittee: the addresses that are sent to, and the number of errors
unfoldable pub broadcast_loop : Clients → Bytes → Message → List Replica → List Bytes × ℕ
unfolding failed send
broadcast_loop c my_addr msg [] = ([], 0)
broadcast_loop c my_addr msg (r ∷ rs) =
    let rest = broadcast_loop c my_addr msg rs in
    if bytes_eq r.addr my_addr then rest else (r.addr ∷ rest.0, failed (send c r.addr msg) rest.1)

unfoldable pub broadcast_to_committee :
    Clients → Bytes → Committee → Message → List Bytes × Result (Unit {0})
unfolding broadcast_loop
broadcast_to_committee c my_addr mc msg =
    let (sent, errors) = broadcast_loop c my_addr msg mc.replicas in
    (sent, if nat_beq errors 0 then ok tt else err send_failed)
