-- ===== src/Consensus/Deliver.antt =====
-- internal/consensus/deliver.go: the delivery of committed blocks and the three-chain test.
pub mod Effects
pub mod Configs
pub mod Repeats
use d_hotsuff.Prelude.{
  ℕ, Bytes, bytes_eq, bytes_instance, Bool, true, false, ◌&&◌, List, [], ◌∷◌, ◌++◌, if◌then◌else◌,
  Result, ok, err, ◌>>=◌,
}
use d_hotsuff.Prelude.Distinct.{seen}
use d_hotsuff.Proto.{Block, MembershipRequest}
use d_hotsuff.External.{External}
use d_hotsuff.Membership.Committee.{Committee, apply}
use d_hotsuff.Membership.ConfigStore.{ConfigStore, at_number, install}
use d_hotsuff.Membership.Request.{classify_batch}
use d_hotsuff.Consensus.Chain.{hash_block, certifies}

-- Calls of Executor.Execute and Replier.Reply.
pub data Effect : Type 0 where
  executed : MembershipRequest → Effect
  replied : Bytes → ℕ → Bytes → Effect

-- Executor.Execute: the result of a request, after the requests executed before it.
abbrev pub Executor : Type 0
Executor = List Effect → MembershipRequest → Bytes

pub record Deliverer : Type 0 where
  pub configs : ConfigStore
  -- the keys of the map `delivered`
  pub delivered : List Bytes
  -- the calls made so far, oldest first
  pub effects : List Effect

abbrev pub new_deliverer : ConfigStore → Deliverer
new_deliverer configs = record { configs = configs; delivered = []; effects = [] }

-- the loop over the regular requests
unfoldable pub execute_all : Executor → ℕ → List MembershipRequest → List Effect → List Effect
execute_all execute conf [] log = log
execute_all execute conf (req ∷ reqs) log =
    let result = execute log req in
    execute_all execute conf reqs (log ++ executed req ∷ replied req.client_id conf result ∷ [])

-- the branch on len(membershipReqs) > 0
unfoldable pub change_configs :
    External → ConfigStore → Committee → List MembershipRequest → Result ConfigStore
change_configs x configs mc [] = ok configs
change_configs x configs mc (req ∷ reqs) = do
  new_mc ← apply x mc (req ∷ reqs)
  install configs new_mc

settle : Bytes → Deliverer → Result ConfigStore → Deliverer × Result (Unit {0})
settle key d (ok configs) = (record d { configs = configs; delivered = key ∷ d.delivered }, ok tt)
settle key d (err e) = (d, err e)

deliver_in :
    External → Executor → Deliverer → Block → Result Committee → Deliverer × Result (Unit {0})
deliver_in x execute d block (err e) = (d, err e)
deliver_in x execute d block (ok mc) =
    let (regulars, changes) = classify_batch block.batch in
    let d' = record d { effects = execute_all execute block.conf_number regulars d.effects } in
    settle (hash_block x block) d' (change_configs x d.configs mc changes)

-- The state comes back beside an error too: what was executed stays executed.
unfoldable pub deliver : External → Executor → Deliverer → Block → Deliverer × Result (Unit {0})
unfolding deliver_in settle
deliver x execute d block =
    if seen (hash_block x block) d.delivered
    then (d, ok tt)
    else deliver_in x execute d block (at_number d.configs block.conf_number)

unfoldable pub check_three_chain : External → Block → Block → Block → Block → Bool
check_three_chain x b_star b_double b_prime b =
    certifies x b_star b_double && certifies x b_double b_prime && certifies x b_prime b
