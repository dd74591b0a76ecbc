-- ===== src/Tests/Consensus.antt =====
-- Safety, the pipeline, deliveries and view changes.
use d_hotsuff.Prelude.{
  ◌<◌, ◌⊎◌, ◌≡◌, ◌&&◌, refl, bytes_eq, bytes_instance, false, none, some, [], ◌∷◌, arith, ok,
  if◌then◌else◌, not_in_committee,
}
use d_hotsuff.Prelude.Distinct.{seen}
use d_hotsuff.Proto.{Block, QuorumCert, view_of, regular, remove}
use d_hotsuff.External.{parse_ecdsa}
use d_hotsuff.Membership.Committee.{apply}
use d_hotsuff.Membership.ConfigStore.{at_number, install}
use d_hotsuff.Membership.Request.{classify_batch}
use d_hotsuff.Crypto.Encoding.{be64}
use d_hotsuff.Consensus.Chain.{hash_block, certifies}
use d_hotsuff.Consensus.Safety.{SafetyState, safe_node, update_on_two_chain}
use d_hotsuff.Consensus.Chain.Readers.{Descends, IsLawful}
use d_hotsuff.Bench.Blocks.{MemBlockchain, put, get, reader, extends, climb}
use d_hotsuff.Bench.Blocks.Keys.{nil-IsKeyed, put-IsKeyed}
use d_hotsuff.Bench.Blocks.Lawful.{reader-IsLawful}
use d_hotsuff.Prelude.Table.{lookup}
use d_hotsuff.Consensus.Safety.Voting.{safe_node-Descends, two_chain-safe_node}
use d_hotsuff.Consensus.Pipeline.{empty_window, advance}
use d_hotsuff.Consensus.Pipeline.Commits.{after, advance_releases}
use d_hotsuff.Consensus.Deliver.{change_configs, deliver}
use d_hotsuff.Consensus.Deliver.Effects.{executions, due, deliver-executions}
use d_hotsuff.Consensus.Deliver.Configs.{Changed, deliver-Changed}
use d_hotsuff.Consensus.Deliver.Repeats.{deliver_again, deliver_failed}
use d_hotsuff.Consensus.ViewChange.{highest_view_qc}
use d_hotsuff.Consensus.ViewChange.HighestQc.{IsHighest, highest_view_qc-IsHighest}
use d_hotsuff.Tests.Fixtures.{
  external, four, store, store-IsNumbered, request, block_on, root, child, certificate, blockchain,
  execute, deliverer,
}

abbrev lock : QuorumCert
lock = certificate 4 (8 ∷ []) []

abbrev locked : SafetyState
locked = record { locked_qc = some lock; generic_qc = none }

-- root, its child with a certificate, and the child's child
abbrev middle : Block
middle = record (child root) { justify = some lock }

two_chain-safe_node_example :
    safe_node (update_on_two_chain external locked (child middle) middle root) root none blockchain
    ≡ false
unfolding certifies bytes_eq hash_block be64
two_chain-safe_node_example =
    two_chain-safe_node external locked (child middle) middle root root lock none blockchain refl
      refl refl (omega arith) refl

abbrev third : Block
third = child (child root)

advance_releases_example :
    (advance external
      (after external empty_window (root ∷ child root ∷ third ∷ child third ∷ []))
      root).1
    ≡ (if certifies external (child third) third
          && certifies external third (child root)
          && certifies external (child root) root
        then some root
        else none)
advance_releases_example =
    advance_releases external empty_window root (child root) third (child third) root

highest_view_qc-IsHighest_example :
    IsHighest
      (highest_view_qc (
        record { view_number = 5; conf_number = 0; generic_qc = none }
        ∷ record { view_number = 5; conf_number = 0; generic_qc = some lock }
        ∷ []))
      (record { view_number = 5; conf_number = 0; generic_qc = none }
        ∷ record { view_number = 5; conf_number = 0; generic_qc = some lock }
        ∷ [])
highest_view_qc-IsHighest_example = highest_view_qc-IsHighest (
    record { view_number = 5; conf_number = 0; generic_qc = none }
    ∷ record { view_number = 5; conf_number = 0; generic_qc = some lock }
    ∷ [])

deliver-executions_example :
    executions (deliver external execute deliverer root).0.effects
    ≡ due (seen (hash_block external root) []) (at_number store 0) root
deliver-executions_example = deliver-executions external execute deliverer root

deliver-Changed_example :
    Changed external store
      (deliver external execute deliverer root).0.configs
      0
      (classify_batch root.batch).1
unfolding deliver at_number apply install parse_ecdsa seen classify_batch change_configs
deliver-Changed_example =
    deliver-Changed external execute deliverer root store-IsNumbered (omega arith) refl (λ h. cc)
      refl

deliver_again_example :
    deliver external execute
      (deliver external execute deliverer root).0
      (record root { batch = [] })
    ≡ ((deliver external execute deliverer root).0, ok tt)
unfolding deliver at_number apply install parse_ecdsa seen classify_batch hash_block change_configs
deliver_again_example =
    deliver_again external execute deliverer root (record root { batch = [] }) refl refl

-- A block that removes a replica that is no member.
abbrev bad : Block
bad = block_on [] 1 (request regular 9 ∷ request remove 6 ∷ [])

deliver_failed_example :
    ((deliver external execute deliverer bad).0.configs ≡ store)
    × ((deliver external execute deliverer bad).0.delivered ≡ [])
    × (executions
          (deliver external execute (deliver external execute deliverer bad).0 bad).0.effects
        ≡ request regular 9 ∷ request regular 9 ∷ [])
unfolding deliver at_number apply seen classify_batch change_configs bytes_eq
deliver_failed_example =
    deliver_failed external execute deliverer bad four not_in_committee refl refl

-- A store of a block and its child.
abbrev stored : MemBlockchain
stored = put external (child root) (put external root [])

stored-IsLawful : IsLawful external (reader stored)
stored-IsLawful = reader-IsLawful external stored (
    put-IsKeyed external (child root) (put external root [])
      (put-IsKeyed external root [] (nil-IsKeyed external)))

abbrev lock_root : QuorumCert
lock_root = certificate 4 (hash_block external root) []

safe_node-Descends_example :
    (lock_root.view_number < view_of (some lock))
    ⊎ Descends (reader stored) lock_root.block_hash third.parent_hash
unfolding reader put extends climb get hash_block be64 bytes_eq safe_node seen lookup
safe_node-Descends_example =
    safe_node-Descends external (record { locked_qc = some lock_root; generic_qc = none }) third
      (some lock) (reader stored) lock_root stored-IsLawful refl refl
