-- ===== src/Consensus/Deliver/Effects.antt =====
-- What Deliver of internal/consensus/deliver.go executes, and when.
use mathlib.Core.List.{append-nil, append_assoc}
use d_hotsuff.Prelude.{
  sym, ap, ◌∙◌, Bool-cases, inl, inr, ℕ, ◌≡◌, refl, Bytes, bytes_instance, Bool, false, not, List,
  [], ◌∷◌, ◌++◌, filter, Result, ok, err,
}
use d_hotsuff.Prelude.Distinct.{seen}
use d_hotsuff.Proto.{Block, MembershipRequest}
use d_hotsuff.External.{External}
use d_hotsuff.Membership.Committee.{Committee}
use d_hotsuff.Membership.ConfigStore.{ConfigStore, at_number}
use d_hotsuff.Membership.Request.{classify_batch}
use d_hotsuff.Membership.Request.Classify.{is_change, classify_batch_lem}
use d_hotsuff.Consensus.Chain.{hash_block}
use d_hotsuff.Consensus.Deliver.{
  Effect, executed, replied, Executor, Deliverer, execute_all, change_configs, deliver, settle,
  deliver_in,
}

-- The requests executed, oldest first.
abbrev pub executions : List Effect → List MembershipRequest
executions [] = []
executions (executed req ∷ log) = req ∷ executions log
executions (replied client conf result ∷ log) = executions log

executions-append :
    (log more : List Effect) → executions (log ++ more) ≡ executions log ++ executions more
executions-append [] more = refl
executions-append (executed req ∷ log) more = rw (executions-append log more)
executions-append (replied client conf result ∷ log) more = executions-append log more

executions-execute_all :
    (execute : Executor) (conf : ℕ) (reqs : List MembershipRequest) (log : List Effect)
    → executions (execute_all execute conf reqs log) ≡ executions log ++ reqs
unfolding execute_all
executions-execute_all execute conf [] log = sym (append-nil (executions log))
executions-execute_all execute conf (req ∷ reqs) log =
    let result = execute log req in
    let pair = executed req ∷ replied req.client_id conf result ∷ [] in
    executions-execute_all execute conf reqs (log ++ pair)
    ∙ ap (λ (l : List MembershipRequest). l ++ reqs) (executions-append log pair)
    ∙ append_assoc (executions log) (req ∷ []) reqs

settle-effects :
    (key : Bytes) (d : Deliverer) (r : Result ConfigStore) → (settle key d r).0.effects ≡ d.effects
unfolding settle
settle-effects key d (ok configs) = refl
settle-effects key d (err e) = refl

-- The requests that a delivery is to execute: the regular ones of a new block whose configuration
-- is known.
abbrev pub due : Bool → Result Committee → Block → List MembershipRequest
due false (ok mc) block = filter (λ (req : MembershipRequest). not (is_change req.type)) block.batch
due _ _ block = []

deliver_in-executions :
    (x : External) (execute : Executor) (d : Deliverer) (block : Block) (r : Result Committee)
    → executions (deliver_in x execute d block r).0.effects
      ≡ executions d.effects ++ due false r block
unfolding deliver_in
deliver_in-executions x execute d block (err e) = sym (append-nil (executions d.effects))
deliver_in-executions x execute d block (ok mc) =
    let (regulars, changes) = classify_batch block.batch in
    let log = execute_all execute block.conf_number regulars d.effects in
    ap executions (
      settle-effects (hash_block x block) (record d { effects = log })
        (change_configs x d.configs mc changes))
    ∙ executions-execute_all execute block.conf_number regulars d.effects
    ∙ ap (◌++◌ (executions d.effects)) (classify_batch_lem block.batch).0

-- Deliver executes the regular requests of a new block of a known configuration, in order and
-- once each, and nothing for a delivered block or an unknown configuration.
pub deliver-executions :
    (x : External) (execute : Executor) (d : Deliverer) (block : Block)
    → executions (deliver x execute d block).0.effects
      ≡ executions d.effects
        ++ due (seen (hash_block x block) d.delivered) (at_number d.configs block.conf_number) block
unfolding deliver
deliver-executions x execute d block = elim (Bool-cases (seen (hash_block x block) d.delivered)) [
  | inl old ↦ rw old (sym (append-nil (executions d.effects)))
  | inr new ↦
      rw new (deliver_in-executions x execute d block (at_number d.configs block.conf_number))
]
