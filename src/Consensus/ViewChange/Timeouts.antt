-- ===== src/Consensus/ViewChange/Timeouts.antt =====
-- The outcomes of OnTimeout of internal/consensus/viewchange.go.
use d_hotsuff.Prelude.{
  ◌<◌, ◌≡◌, Bool, some, List, [], ◌∷◌, arith, if◌then◌else◌, Result, ok, err, cancelled,
  send_failed, inc64,
}
use d_hotsuff.Membership.Committee.{Replica, Committee, size, leader}
use d_hotsuff.Membership.Committee.Leaders.{leader_total}
use d_hotsuff.Membership.ConfigStore.{ConfigStore, latest}
use d_hotsuff.Consensus.Safety.{SafetyState}
use d_hotsuff.Consensus.ViewChange.{new_view_msg, Sent, unicast, Network, ViewChanger, on_timeout}

-- With a latest committee that has members, OnTimeout moves the view by one, whatever then fails;
-- if the context is over, it sends nothing and fails, and otherwise it sends one message to the
-- leader of the new view, with that view and the highest certificate, and its result is that of
-- the network.
pub on_timeout_lem :
    (fails : Network) (ctx_done : Bool) (vc : ViewChanger) (safety : SafetyState)
    (configs : ConfigStore) (mc : Committee)
    → latest configs ≡ some mc
    → 0 < size mc
    → (r : Replica) × (leader mc (inc64 vc.cur_view) ≡ some r)
      × (let sent = unicast r.addr (
            new_view_msg (record {
              view_number = inc64 vc.cur_view;
              conf_number = mc.number;
              generic_qc = safety.generic_qc;
            })) in
          on_timeout fails ctx_done vc safety configs
          ≡ some (
            record { cur_view = inc64 vc.cur_view },
            (if ctx_done then [] else sent ∷ []),
            (if ctx_done then err cancelled else if fails sent then err send_failed else ok tt),
          ))
unfolding on_timeout
on_timeout_lem fails ctx_done vc safety configs mc e pos =
    let (r, l) = leader_total mc (inc64 vc.cur_view) pos in (r, l, ground (arith, e, l))

-- Whatever a timeout sends, its view is the next one.
pub on_timeout-view :
    (fails : Network) (ctx_done : Bool) (vc : ViewChanger) (safety : SafetyState)
    (configs : ConfigStore) (r : ViewChanger × List Sent × Result (Unit {0}))
    → on_timeout fails ctx_done vc safety configs ≡ some r
    → r.0.cur_view ≡ inc64 vc.cur_view
unfolding on_timeout
on_timeout-view fails ctx_done vc safety configs r h = ground arith
