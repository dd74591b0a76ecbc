-- ===== src/Consensus/Replica/Timeouts.antt =====
-- HandleTimeout of internal/consensus/dhotstuff.go. It takes the mutex twice, around the call of
-- OnTimeout: three steps, between which other handlers may run.
pub mod Views
use d_hotsuff.Prelude.{ℕ, nat_instance, Bool, true, false, Option, none, some, List, ◌++◌, Result}
use d_hotsuff.Prelude.Flow.{Flow, panic, returned, next, demand, ◌>>=◌}
use d_hotsuff.Prelude.Table.{delete}
use d_hotsuff.Membership.ConfigStore.{latest}
use d_hotsuff.Reputation.{Store, record_timeout}
use d_hotsuff.Consensus.Pipeline.{reset}
use d_hotsuff.Consensus.ViewChange.{Sent, ViewChanger, on_timeout}
use d_hotsuff.Consensus.Replica.{Environment, DHotStuff, select_leader, with_store}

unfoldable pub record_leader_timeout : Environment → Option Store → DHotStuff → Flow DHotStuff
record_leader_timeout e none d = next d
record_leader_timeout e (some store) d = demand (latest d.deliverer.configs) λ mc.
    demand (select_leader e d mc) λ leader. next (with_store (λ s. record_timeout s leader.id) d)

-- the first critical section
unfoldable pub begin_timeout : Environment → DHotStuff → Flow DHotStuff
unfolding record_leader_timeout
begin_timeout e d = record_leader_timeout e d.rep_store d

-- d.vc.OnTimeout(ctx); its error is only logged
unfoldable pub view_change : Environment → Bool → DHotStuff → Flow DHotStuff
view_change e ctx_done d =
    demand (on_timeout e.network ctx_done d.vc d.safety d.deliverer.configs)
      λ (r : ViewChanger × List Sent × Result (Unit {0})).
        next (record d { vc = r.0; sent = d.sent ++ r.1 })

-- the second critical section
unfoldable pub end_timeout : ℕ → DHotStuff → DHotStuff
end_timeout timed_out_view d = record d {
  votes_buf = delete timed_out_view d.votes_buf;
  pipeline = reset d.pipeline;
  cur_view = d.vc.cur_view;
}

-- the three steps with nothing between them
unfoldable pub handle_timeout : Environment → Bool → DHotStuff → Flow DHotStuff
unfolding begin_timeout view_change end_timeout
handle_timeout e ctx_done d = do
  begun ← begin_timeout e d
  changed ← view_change e ctx_done begun
  returned (end_timeout d.cur_view changed)
