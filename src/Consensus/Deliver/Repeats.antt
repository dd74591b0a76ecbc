-- ===== src/Consensus/Deliver/Repeats.antt =====
-- Deliveries that repeat: the guard on the hash, and what it does not guard.
use d_hotsuff.Prelude.{
  ◌≡◌, refl, ◌∙◌, Bytes, bytes_instance, true, false, not, ◌++◌, arith, filter, Result, Error, ok,
  err, Bool-cases, inl, inr,
}
use d_hotsuff.Prelude.Distinct.{seen, seen-head}
use d_hotsuff.Proto.{Block, MembershipRequest}
use d_hotsuff.External.{External}
use d_hotsuff.Membership.Committee.{Committee}
use d_hotsuff.Membership.ConfigStore.{ConfigStore, at_number}
use d_hotsuff.Membership.Request.Classify.{is_change}
use d_hotsuff.Consensus.Chain.{hash_block}
use d_hotsuff.Consensus.Deliver.{Executor, Deliverer, deliver, settle, deliver_in}
use d_hotsuff.Consensus.Deliver.Effects.{executions, deliver-executions}

settle-seen :
    (key : Bytes) (d : Deliverer) (r : Result ConfigStore)
    → (settle key d r).1 ≡ ok tt
    → seen key (settle key d r).0.delivered ≡ true
unfolding settle
settle-seen key d (ok configs) h = seen-head key d.delivered
settle-seen key d (err e) h = absurd (ground arith)

deliver_in-seen :
    (x : External) (execute : Executor) (d : Deliverer) (block : Block) (r : Result Committee)
    → (deliver_in x execute d block r).1 ≡ ok tt
    → seen (hash_block x block) (deliver_in x execute d block r).0.delivered ≡ true
unfolding deliver_in
deliver_in-seen x execute d block (err e) h = absurd (ground arith)
deliver_in-seen x execute d block (ok mc) h = settle-seen _ _ _ h

-- A successful delivery records the block.
pub deliver-seen :
    (x : External) (execute : Executor) (d : Deliverer) (block : Block)
    → (deliver x execute d block).1 ≡ ok tt
    → seen (hash_block x block) (deliver x execute d block).0.delivered ≡ true
unfolding deliver
deliver-seen x execute d block = elim (Bool-cases (seen (hash_block x block) d.delivered)) [
  | inl old ↦ rw old (λ _. old)
  | inr new ↦ rw new (deliver_in-seen x execute d block (at_number d.configs block.conf_number))
]

deliver_old :
    (x : External) (execute : Executor) (d : Deliverer) (block : Block)
    → seen (hash_block x block) d.delivered ≡ true
    → deliver x execute d block ≡ (d, ok tt)
unfolding deliver
deliver_old x execute d block old = rw old

-- After a successful delivery, delivering a block of the same hash succeeds and changes nothing.
pub deliver_again :
    (x : External) (execute : Executor) (d : Deliverer) (block other : Block)
    → (deliver x execute d block).1 ≡ ok tt
    → hash_block x other ≡ hash_block x block
    → deliver x execute (deliver x execute d block).0 other ≡ ((deliver x execute d block).0, ok tt)
deliver_again x execute d block other h same =
    deliver_old x execute (deliver x execute d block).0 other
      (rw same (deliver-seen x execute d block h))

record Unsettled (d d' : Deliverer) : Type 0 where
  configs : d'.configs ≡ d.configs
  delivered : d'.delivered ≡ d.delivered

settle-Unsettled :
    (key : Bytes) (d : Deliverer) (r : Result ConfigStore) (e : Error)
    → (settle key d r).1 ≡ err e
    → Unsettled d (settle key d r).0
unfolding settle
settle-Unsettled key d (ok configs) e h = absurd (ground arith)
settle-Unsettled key d (err _) e h = record { configs = refl; delivered = refl }

deliver_in-Unsettled :
    (x : External) (execute : Executor) (d : Deliverer) (block : Block) (r : Result Committee)
    (e : Error)
    → (deliver_in x execute d block r).1 ≡ err e
    → Unsettled d (deliver_in x execute d block r).0
unfolding deliver_in
deliver_in-Unsettled x execute d block (err _) e h = record { configs = refl; delivered = refl }
deliver_in-Unsettled x execute d block (ok mc) e h =
    let same = settle-Unsettled _ _ _ e h in
    record { configs = same.configs; delivered = same.delivered }

deliver-Unsettled :
    (x : External) (execute : Executor) (d : Deliverer) (block : Block) (e : Error)
    → (deliver x execute d block).1 ≡ err e
    → (seen (hash_block x block) d.delivered ≡ false) × Unsettled d (deliver x execute d block).0
unfolding deliver
deliver-Unsettled x execute d block e = elim (Bool-cases (seen (hash_block x block) d.delivered)) [
  | inl old ↦ rw old (λ h. absurd (ground arith))
  | inr new ↦ rw new (λ h.
      (refl, deliver_in-Unsettled x execute d block (at_number d.configs block.conf_number) e h))
]

-- A delivery that fails after its configuration is found keeps the configurations and the block
-- undelivered, and a second one executes the regular requests once more.
pub deliver_failed :
    (x : External) (execute : Executor) (d : Deliverer) (block : Block) (mc : Committee) (e : Error)
    → at_number d.configs block.conf_number ≡ ok mc
    → (deliver x execute d block).1 ≡ err e
    → let d' = (deliver x execute d block).0 in
      let regulars = filter (λ (req : MembershipRequest). not (is_change req.type)) block.batch in
      (d'.configs ≡ d.configs)
      × (d'.delivered ≡ d.delivered)
      × (executions (deliver x execute d' block).0.effects
          ≡ (executions d.effects ++ regulars) ++ regulars)
deliver_failed x execute d block mc e known failed =
    let (new, same) = deliver-Unsettled x execute d block e failed in
    let d' = (deliver x execute d block).0 in
    (
      same.configs,
      same.delivered,
      deliver-executions x execute d' block
          ∙ (rw (same.configs, same.delivered, new, known)
              (rw (deliver-executions x execute d block, new, known) refl)),
    )
