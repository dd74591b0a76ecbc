-- ===== src/Consensus/ViewChange.antt =====
-- internal/consensus/viewchange.go: timeouts and new-view messages.
pub mod HighestQc
pub mod Timeouts
use d_hotsuff.Prelude.{
  ℕ, Bytes, Bool, true, false, Option, none, some, List, [], ◌∷◌, ◌++◌, length, ltb, if◌then◌else◌,
  Result, ok, err, cancelled, send_failed, inc64,
}
use d_hotsuff.Proto.{Block, VoteMsg, NewViewMsg, QuorumCert}
use d_hotsuff.Membership.Committee.{Replica, Committee, leader, quorum_size}
use d_hotsuff.Membership.ConfigStore.{ConfigStore, latest}
use d_hotsuff.Consensus.Safety.{SafetyState}

-- What is handed to NetworkSender: one message to an address, or one to a committee.
pub data Message : Type 0 where
  block_msg : Block → Message
  vote_msg : VoteMsg → Message
  new_view_msg : NewViewMsg → Message

pub data Sent : Type 0 where
  unicast : Bytes → Message → Sent
  broadcast : Committee → Message → Sent

-- Whether a send fails, by what is sent.
abbrev pub Network : Type 0
Network = Sent → Bool

pub record ViewChanger : Type 0 where
  pub cur_view : ℕ

abbrev pub new_view_changer : ℕ → ViewChanger
new_view_changer initial_view = record { cur_view = initial_view }

abbrev pub current_view : ViewChanger → ℕ
current_view vc = vc.cur_view

-- OnTimeout's tail, after the lock is released: ctx.Err() and the send.
send_new_view : Network → Bool → Sent → List Sent × Result (Unit {0})
send_new_view fails ctx_done sent =
    if ctx_done
    then ([], err cancelled)
    else (sent ∷ [], if fails sent then err send_failed else ok tt)

timeout_to :
    Network
    → Bool
    → ViewChanger
    → SafetyState
    → Committee
    → Option Replica
    → Option (ViewChanger × List Sent × Result (Unit {0}))
timeout_to fails ctx_done vc safety mc none = none
timeout_to fails ctx_done vc safety mc (some next_leader) =
    let msg : NewViewMsg = record {
      view_number = vc.cur_view;
      conf_number = mc.number;
      generic_qc = safety.generic_qc;
    } in
    let (sent, result) =
      send_new_view fails ctx_done (unicast next_leader.addr (new_view_msg msg)) in
    some (vc, sent, result)

timeout_in :
    Network
    → Bool
    → ViewChanger
    → SafetyState
    → Option Committee
    → Option (ViewChanger × List Sent × Result (Unit {0}))
timeout_in fails ctx_done vc safety none = none
timeout_in fails ctx_done vc safety (some mc) =
    timeout_to fails ctx_done vc safety mc (leader mc vc.cur_view)

-- A panic, of Latest on an empty log or of Leader on an empty committee, is `none`.
unfoldable pub on_timeout :
    Network
    → Bool
    → ViewChanger
    → SafetyState
    → ConfigStore
    → Option (ViewChanger × List Sent × Result (Unit {0}))
unfolding timeout_in timeout_to send_new_view
on_timeout fails ctx_done vc safety configs =
    timeout_in fails ctx_done (record { cur_view = inc64 vc.cur_view }) safety (latest configs)

-- one round of the loop of highestViewQC; `best_view` is the view of `best`
consider : Option QuorumCert → Option QuorumCert × ℕ → Option QuorumCert × ℕ
consider none best = best
consider (some qc) (none, best_view) = (some qc, qc.view_number)
consider (some qc) (some best, best_view) =
    if ltb best_view qc.view_number then (some qc, qc.view_number) else (some best, best_view)

highest_from : Option QuorumCert × ℕ → List NewViewMsg → Option QuorumCert
highest_from best [] = best.0
highest_from best (m ∷ msgs) = highest_from (consider m.generic_qc best) msgs

unfoldable pub highest_view_qc : List NewViewMsg → Option QuorumCert
unfolding highest_from consider
highest_view_qc msgs = highest_from (none, 0) msgs

unfoldable pub on_new_view_messages : List NewViewMsg → Committee → Option QuorumCert × Bool
on_new_view_messages msgs c =
    if ltb (length msgs) (quorum_size c) then (none, false) else (highest_view_qc msgs, true)
