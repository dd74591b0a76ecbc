-- ===== src/Consensus/Replica/NewViews.antt =====
-- HandleNewView of internal/consensus/dhotstuff.go.
pub mod Quorums
use d_hotsuff.Prelude.{
  ℕ, nat_instance, Bool, true, false, Option, none, some, List, [], ◌∷◌, ◌++◌, if◌then◌else◌,
}
use d_hotsuff.Prelude.Flow.{Flow, returned, demand}
use d_hotsuff.Prelude.Table.{lookup, insert, delete, get_or}
use d_hotsuff.Proto.{NewViewMsg, QuorumCert}
use d_hotsuff.Membership.Committee.{Committee}
use d_hotsuff.Membership.ConfigStore.{latest}
use d_hotsuff.Consensus.Safety.{SafetyState}
use d_hotsuff.Consensus.ViewChange.{on_new_view_messages}
use d_hotsuff.Consensus.Replica.{Environment, DHotStuff, propose}
use d_hotsuff.Consensus.Replica.Votes.{raise_generic}

-- d.newViewBuf[view]
unfoldable pub new_views : DHotStuff → ℕ → List NewViewMsg
new_views d view = get_or [] (lookup view d.new_view_buf)

pub adopt : Option QuorumCert → SafetyState → SafetyState
adopt none safety = safety
adopt (some high_qc) safety = raise_generic high_qc safety

-- the statements after the quorum test
unfoldable pub enter_view : Environment → ℕ → Option QuorumCert → DHotStuff → Flow DHotStuff
unfolding adopt
enter_view e view high_qc d =
    let adopted = record d {
      new_view_buf = delete view d.new_view_buf;
      safety = adopt high_qc d.safety;
    } in
    propose e adopted.safety.generic_qc adopted

unfoldable pub handle_new_view : Environment → NewViewMsg → DHotStuff → Flow DHotStuff
unfolding enter_view
handle_new_view e msg d =
    let view = msg.view_number in
    let msgs = new_views d view ++ msg ∷ [] in
    let stored = record d { new_view_buf = insert view msgs d.new_view_buf } in
    demand (latest d.deliverer.configs) λ mc.
      let (high_qc, enough) = on_new_view_messages msgs mc in
      if enough then enter_view e view high_qc stored else returned stored
