-- ===== src/Consensus/Replica/Proposals/Commits.antt =====
-- HandlePropose as a whole: what it sends, what it delivers and how its variables move.
use mathlib.Core.Path.{ap₂}
use d_hotsuff.Prelude.{
  ◌<◌, ◌≤◌, ◌≡◌, refl, sym, ap, ◌∙◌, subst, Option, none, some, List, ltb, arith, Bool-cases, inl,
  inr,
}
use d_hotsuff.Prelude.Flow.{Leaves, Leaves-map, Ends-bind, Ends-map}
use d_hotsuff.Proto.{Block}
use d_hotsuff.Membership.Committee.{Committee}
use d_hotsuff.Membership.ConfigStore.{latest}
use d_hotsuff.Membership.ConfigStore.Log.{IsNumbered}
use d_hotsuff.Consensus.Pipeline.{PipelineState, advance}
use d_hotsuff.Consensus.Safety.{SafetyState, update_on_one_chain, update_on_two_chain}
use d_hotsuff.Consensus.Deliver.{Deliverer}
use d_hotsuff.Consensus.Deliver.Configs.{deliver-IsNumbered}
use d_hotsuff.Consensus.ViewChange.{Sent}
use d_hotsuff.Consensus.Replica.{Environment, DHotStuff}
use d_hotsuff.Consensus.Replica.Proposals.{
  walk, vote_if_safe, one_chain, two_chain, deliver_logged, three_chain, deliver_released,
  advance_pipeline, process_block, handle_propose,
}
use d_hotsuff.Consensus.Replica.Proposals.Keeps.{
  views_of, VoteSent, VoteSentTo, Unsigned, Voted, vote_if_safe-Voted, delivered_by, committed_by,
  Committed, three_chain-Committed,
}

-- The safety variables after the one-chain and the two-chain updates.
abbrev pub updated_safety :
    Environment → Block → Option Block → Option Block → SafetyState → SafetyState
updated_safety e b_star none b_prime s = s
updated_safety e b_star (some b_double) none s = update_on_one_chain e.external s b_star b_double
updated_safety e b_star (some b_double) (some b_prime) s =
    update_on_two_chain e.external (update_on_one_chain e.external s b_star b_double) b_star
      b_double b_prime

two_chain-one_chain :
    (e : Environment) (b_star : Block) (b_double b_prime : Option Block) (d : DHotStuff)
    → two_chain e b_star b_double b_prime (one_chain e b_star b_double d)
      ≡ record d { safety = updated_safety e b_star b_double b_prime d.safety }
unfolding two_chain one_chain
two_chain-one_chain e b_star none b_prime d = refl
two_chain-one_chain e b_star (some b_double) none d = refl
two_chain-one_chain e b_star (some b_double) (some b_prime) d = refl

-- What processing a block leaves: a vote exactly if the rule admits the block on the variables
-- before; the chain found in the store updates the variables; then the block of a three-chain is delivered, and
-- after it the one that the window releases.
pub record Processed (e : Environment) (mc : Committee) (b_star : Block) (d d' : DHotStuff)
    : Type 0 where
  pub views : views_of d' ≡ views_of d
  pub vote : VoteSent e mc b_star d d'
  pub safety :
      let w = walk e.blockchain b_star in
      d'.safety ≡ updated_safety e b_star w.b_double w.b_prime d.safety
  pub pipeline : d'.pipeline ≡ (advance e.external d.pipeline b_star).0
  pub deliverer :
      let w = walk e.blockchain b_star in
      d'.deliverer
      ≡ delivered_by e
          (advance e.external d.pipeline b_star).1
          (delivered_by e (committed_by e b_star w.b_double w.b_prime w.b) d.deliverer)

record Advanced (e : Environment) (b_star : Block) (d d' : DHotStuff) : Type 0 where
  views : views_of d' ≡ views_of d
  sent : d'.sent ≡ d.sent
  safety : d'.safety ≡ d.safety
  pipeline : d'.pipeline ≡ (advance e.external d.pipeline b_star).0
  deliverer : d'.deliverer ≡ delivered_by e (advance e.external d.pipeline b_star).1 d.deliverer

deliver_released-Advanced :
    (e : Environment) (released : Option Block) (d : DHotStuff)
    → (views_of (deliver_released e released d) ≡ views_of d)
      × ((deliver_released e released d).sent ≡ d.sent)
      × ((deliver_released e released d).safety ≡ d.safety)
      × ((deliver_released e released d).pipeline ≡ d.pipeline)
      × ((deliver_released e released d).deliverer ≡ delivered_by e released d.deliverer)
unfolding deliver_released deliver_logged
deliver_released-Advanced e none d = (refl, refl, refl, refl, refl)
deliver_released-Advanced e (some b) d = (refl, refl, refl, refl, refl)

advance_pipeline-Advanced :
    (e : Environment) (b_star : Block) (d : DHotStuff)
    → Advanced e b_star d (advance_pipeline e b_star d)
unfolding advance_pipeline
advance_pipeline-Advanced e b_star d =
    let (v, s, f, p, l) =
      deliver_released-Advanced e (advance e.external d.pipeline b_star).1
        (record d { pipeline = (advance e.external d.pipeline b_star).0 }) in
    record { views = v; sent = s; safety = f; pipeline = p; deliverer = l }

-- The stages put together.
stages-Processed :
    (e : Environment) (mc : Committee) (b_star : Block) (d voted committed d' : DHotStuff)
    → Voted e mc b_star d voted
    → (let w = walk e.blockchain b_star in
        Committed e
          (committed_by e b_star w.b_double w.b_prime w.b)
          (two_chain e b_star w.b_double w.b_prime (one_chain e b_star w.b_double voted))
          committed)
    → Advanced e b_star committed d'
    → Processed e mc b_star d d'
stages-Processed e mc b_star d voted committed d' v c a =
    let w = walk e.blockchain b_star in
    let updated = two_chain-one_chain e b_star w.b_double w.b_prime voted in
    let views = ap views_of updated in
    let sent = ap (λ (s : DHotStuff). s.sent) updated in
    let safety = ap (λ (s : DHotStuff). s.safety) updated in
    let pipeline = ap (λ (s : DHotStuff). s.pipeline) updated in
    let deliverer = ap (λ (s : DHotStuff). s.deliverer) updated in
    let window : committed.pipeline ≡ d.pipeline = c.pipeline ∙ pipeline ∙ v.pipeline in
    record {
      views = a.views ∙ c.views ∙ views ∙ v.views;
      vote =
          subst (λ (l : List Sent). VoteSentTo e mc b_star d l) (sym (a.sent ∙ c.sent ∙ sent))
            v.vote;
      safety =
          a.safety ∙ c.safety ∙ safety ∙ ap (updated_safety e b_star w.b_double w.b_prime) v.safety;
      pipeline = a.pipeline ∙ ap (λ (p : PipelineState). (advance e.external p b_star).0) window;
      deliverer =
          a.deliverer
          ∙ ap₂
              (λ (p : PipelineState) (l : Deliverer).
                delivered_by e (advance e.external p b_star).1 l)
              window
              (c.deliverer
                ∙ ap (delivered_by e (committed_by e b_star w.b_double w.b_prime w.b))
                    (deliverer ∙ v.deliverer));
    }

-- What HandlePropose does with a block: it ignores one of a configuration that the replica does
-- not have yet; it gives up on one that the voting rule admits and that it cannot sign; it
-- processes any other.
pub data Outcome (e : Environment) (mc : Committee) (b_star : Block) (d d' : DHotStuff)
    : Type 0 where
  ignored : mc.number < b_star.conf_number → d' ≡ d → Outcome e mc b_star d d'
  given_up : b_star.conf_number ≤ mc.number → Unsigned e mc b_star d d' → Outcome e mc b_star d d'
  processed : b_star.conf_number ≤ mc.number → Processed e mc b_star d d' → Outcome e mc b_star d d'

process_block-Outcome :
    (e : Environment) (mc : Committee) (b_star : Block) (d : DHotStuff)
    → b_star.conf_number ≤ mc.number
    → Leaves (Outcome e mc b_star d) (process_block e mc b_star d)
unfolding process_block
process_block-Outcome e mc b_star d known =
    let w = walk e.blockchain b_star in
    let final = Outcome e mc b_star d in
    Ends-bind final (Voted e mc b_star d) (vote_if_safe e mc b_star d) _
      (Ends-map (Unsigned e mc b_star d) final (Voted e mc b_star d) (vote_if_safe e mc b_star d)
        (vote_if_safe-Voted e mc b_star d) (λ d' u. given_up known u))
      λ voted v.
        let updated =
          two_chain e b_star w.b_double w.b_prime (one_chain e b_star w.b_double voted) in
        let block = committed_by e b_star w.b_double w.b_prime w.b in
        let stage = three_chain e mc b_star w.b_double w.b_prime w.b updated in
        Ends-bind final (Committed e block updated) stage _
          (Ends-map (λ _. ⊥) final (Committed e block updated) stage
            (three_chain-Committed e mc b_star w.b_double w.b_prime w.b updated) (λ _. absurd))
          λ committed c. processed known (
            stages-Processed e mc b_star d voted committed (advance_pipeline e b_star committed) v c
              (advance_pipeline-Advanced e b_star committed))

-- With a latest configuration, HandlePropose, unless it panics, has one of the outcomes.
pub handle_propose-Outcome :
    (e : Environment) (mc : Committee) (b_star : Block) (d : DHotStuff)
    → latest d.deliverer.configs ≡ some mc
    → Leaves (Outcome e mc b_star d) (handle_propose e b_star d)
unfolding handle_propose
handle_propose-Outcome e mc b_star d current =
    rw current (elim (Bool-cases (ltb mc.number b_star.conf_number)) [
      | inl ahead ↦ rw ahead (ignored (ground arith) refl)
      | inr known ↦ rw known (process_block-Outcome e mc b_star d (ground arith))
    ])

delivered_by-IsNumbered :
    (e : Environment) (b : Option Block) (l : Deliverer)
    → IsNumbered l.configs
    → IsNumbered (delivered_by e b l).configs
delivered_by-IsNumbered e none l w = w
delivered_by-IsNumbered e (some b) l w = deliver-IsNumbered e.external e.execute l b w

-- With a latest configuration, HandlePropose, unless it panics, keeps the log of configurations
-- numbered.
pub handle_propose-IsNumbered :
    (e : Environment) (mc : Committee) (b_star : Block) (d : DHotStuff)
    → latest d.deliverer.configs ≡ some mc
    → IsNumbered d.deliverer.configs
    → Leaves (λ d'. IsNumbered d'.deliverer.configs) (handle_propose e b_star d)
handle_propose-IsNumbered e mc b_star d current w =
    Leaves-map _ _ (handle_propose e b_star d) (handle_propose-Outcome e mc b_star d current)
      λ d' r. elim r [
        | ignored _ same ↦ rw same w
        | given_up _ u ↦ rw u.same w
        | processed _ p ↦ rw p.deliverer (
            delivered_by-IsNumbered e (advance e.external d.pipeline b_star).1 _
              (delivered_by-IsNumbered e _ d.deliverer w))
      ]
