-- ===== src/Bench/Counter.antt =====
-- deliverCounter of internal/benchutil/cluster.go: it counts what is committed and applies the
-- membership changes.
use d_hotsuff.Prelude.{
  ℕ, ◌+◌, ◌≡◌, refl, Bool, true, false, List, [], ◌∷◌, length, filter, Result, ok, err,
}
use d_hotsuff.Proto.{Block, MembershipRequest, RequestType, regular}
use d_hotsuff.External.{External}
use d_hotsuff.Membership.Committee.{Committee, apply}
use d_hotsuff.Membership.ConfigStore.{ConfigStore, at_number, install}

-- `delivered` is an int, which is taken to stay below 2 ^ 63.
pub record DeliverCounter : Type 0 where
  pub delivered : ℕ
  pub configs : ConfigStore

-- req.GetType() != REGULAR
abbrev pub is_not_regular : RequestType → Bool
is_not_regular regular = false
is_not_regular _ = true

-- Errors of Install and of Apply are ignored.
kept : ConfigStore → Result ConfigStore → ConfigStore
kept configs (ok configs') = configs'
kept configs (err e) = configs

installed : ConfigStore → Result Committee → ConfigStore
unfolding kept
installed configs (ok new_mc) = kept configs (install configs new_mc)
installed configs (err e) = configs

-- the branch on len(memReqs) > 0
evolved : External → ConfigStore → Committee → List MembershipRequest → ConfigStore
unfolding installed
evolved x configs mc [] = configs
evolved x configs mc (req ∷ reqs) = installed configs (apply x mc (req ∷ reqs))

configs_after : External → ConfigStore → Block → Result Committee → ConfigStore
unfolding evolved
configs_after x configs block (err e) = configs
configs_after x configs block (ok mc) =
    evolved x configs mc (filter (λ (req : MembershipRequest). is_not_regular req.type) block.batch)

-- the counter after, and the number of requests of the block
unfoldable pub deliver : External → DeliverCounter → Block → DeliverCounter × ℕ
unfolding configs_after
deliver x d block =
    let counted = record d {
      delivered = d.delivered + length block.batch;
      configs = configs_after x d.configs block (at_number d.configs block.conf_number);
    } in
    (counted, length block.batch)

abbrev pub total : DeliverCounter → ℕ
total d = d.delivered

unfoldable pub reset : DeliverCounter → DeliverCounter
reset d = record d { delivered = 0 }

configs_after-plain :
    (x : External) (configs : ConfigStore) (block : Block) (known : Result Committee)
    → filter (λ (req : MembershipRequest). is_not_regular req.type) block.batch ≡ []
    → configs_after x configs block known ≡ configs
unfolding configs_after
configs_after-plain x configs block (err e) plain = refl
configs_after-plain x configs block (ok mc) plain = rw plain

-- A block with no membership request leaves the configurations.
pub deliver-plain :
    (x : External) (d : DeliverCounter) (block : Block)
    → filter (λ (req : MembershipRequest). is_not_regular req.type) block.batch ≡ []
    → (deliver x d block).0.configs ≡ d.configs
unfolding deliver
deliver-plain x d block =
    configs_after-plain x d.configs block (at_number d.configs block.conf_number)
