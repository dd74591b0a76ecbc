-- ===== src/Consensus/Replica/Timeouts/Views.antt =====
-- The views of HandleTimeout of internal/consensus/dhotstuff.go.
use d_hotsuff.Prelude.{
  ℕ, ◌<◌, ◌≡◌, refl, ap, ◌∙◌, nat_instance, Bool, Option, none, some, inc64, if◌then◌else◌,
}
use d_hotsuff.Prelude.Flow.{Leaves, Leaves-map, Ends, Ends-bind, Ends-demand, Ends-map}
use d_hotsuff.Prelude.Table.{lookup, lookup-delete}
use d_hotsuff.Membership.ConfigStore.{latest}
use d_hotsuff.Reputation.{Store}
use d_hotsuff.Consensus.Pipeline.{empty_window, reset}
use d_hotsuff.Consensus.ViewChange.{ViewChanger, on_timeout}
use d_hotsuff.Consensus.ViewChange.Timeouts.{on_timeout-view}
use d_hotsuff.Consensus.Replica.{Environment, DHotStuff, select_leader}
use d_hotsuff.Consensus.Replica.Timeouts.{
  record_leader_timeout, begin_timeout, view_change, handle_timeout,
}

-- The state after a timeout: the view is one past the view changer's last, whatever view the
-- replica was in; the votes of the replica's view and the window are dropped, and nothing else of
-- the protocol's state changes.
pub record TimedOut (d d' : DHotStuff) : Type 0 where
  pub view : d'.cur_view ≡ inc64 d.vc.cur_view
  pub vc : d'.vc.cur_view ≡ inc64 d.vc.cur_view
  pub votes :
      (v : ℕ)
      → lookup v d'.votes_buf
        ≡ (if nat_instance.beq d.cur_view v then none else lookup v d.votes_buf)
  pub window : d'.pipeline ≡ empty_window
  pub safety : d'.safety ≡ d.safety
  pub deliverer : d'.deliverer ≡ d.deliverer
  pub request_q : d'.request_q ≡ d.request_q

-- Everything but the statistics.
record Begun (d d' : DHotStuff) : Type 0 where
  vc : d'.vc ≡ d.vc
  votes_buf : d'.votes_buf ≡ d.votes_buf
  safety : d'.safety ≡ d.safety
  deliverer : d'.deliverer ≡ d.deliverer
  request_q : d'.request_q ≡ d.request_q

begun : (d : DHotStuff) → Begun d d
begun d = record { vc = refl; votes_buf = refl; safety = refl; deliverer = refl; request_q = refl }

begin_timeout-Begun :
    (e : Environment) (store : Option Store) (d : DHotStuff)
    → Ends (λ _. ⊥) (Begun d) (record_leader_timeout e store d)
unfolding record_leader_timeout
begin_timeout-Begun e none d = begun d
begin_timeout-Begun e (some store) d =
    Ends-demand _ (Begun d) (latest d.deliverer.configs) _ λ mc _.
      Ends-demand _ (Begun d) (select_leader e d mc) _ λ leader _. record {
        vc = refl;
        votes_buf = refl;
        safety = refl;
        deliverer = refl;
        request_q = refl;
      }

-- What OnTimeout adds.
record Moved (d d' : DHotStuff) : Type 0 where
  view : d'.vc.cur_view ≡ inc64 d.vc.cur_view
  votes_buf : d'.votes_buf ≡ d.votes_buf
  safety : d'.safety ≡ d.safety
  deliverer : d'.deliverer ≡ d.deliverer
  request_q : d'.request_q ≡ d.request_q

view_change-Moved :
    (e : Environment) (ctx_done : Bool) (d : DHotStuff)
    → Ends (λ _. ⊥) (Moved d) (view_change e ctx_done d)
unfolding view_change
view_change-Moved e ctx_done d =
    Ends-demand _ (Moved d) (on_timeout e.network ctx_done d.vc d.safety d.deliverer.configs) _
      λ r o. record {
        view = on_timeout-view e.network ctx_done d.vc d.safety d.deliverer.configs r o;
        votes_buf = refl;
        safety = refl;
        deliverer = refl;
        request_q = refl;
      }

-- HandleTimeout, with no other handler between its steps, panics or leaves such a state.
pub handle_timeout-TimedOut :
    (e : Environment) (ctx_done : Bool) (d : DHotStuff)
    → Leaves (TimedOut d) (handle_timeout e ctx_done d)
unfolding handle_timeout reset
handle_timeout-TimedOut e ctx_done d =
    Ends-bind (TimedOut d) (Begun d) (begin_timeout e d) _
      (Ends-map (λ _. ⊥) (TimedOut d) (Begun d) (begin_timeout e d)
        (begin_timeout-Begun e d.rep_store d) (λ _. absurd))
      λ d1 b.
        Ends-bind (TimedOut d) (Moved d1) (view_change e ctx_done d1) _
          (Ends-map (λ _. ⊥) (TimedOut d) (Moved d1) (view_change e ctx_done d1)
            (view_change-Moved e ctx_done d1) (λ _. absurd))
          λ d2 m.
            let view : d2.vc.cur_view ≡ inc64 d.vc.cur_view =
              m.view ∙ ap (λ (c : ViewChanger). inc64 c.cur_view) b.vc in
            record {
              view = view;
              vc = view;
              votes = λ v. rw (m.votes_buf ∙ b.votes_buf) (lookup-delete d.cur_view v d.votes_buf);
              window = refl;
              safety = m.safety ∙ b.safety;
              deliverer = m.deliverer ∙ b.deliverer;
              request_q = m.request_q ∙ b.request_q;
            }

-- A replica more than one view ahead of its view changer is in an earlier view after
-- HandleTimeout, unless that panics.
pub timeout_lowers_view :
    (e : Environment) (ctx_done : Bool) (d : DHotStuff)
    → inc64 d.vc.cur_view < d.cur_view
    → Leaves (λ d'. d'.cur_view < d.cur_view) (handle_timeout e ctx_done d)
timeout_lowers_view e ctx_done d ahead =
    Leaves-map (TimedOut d) _ (handle_timeout e ctx_done d) (handle_timeout-TimedOut e ctx_done d)
      λ d' t. rw t.view ahead
