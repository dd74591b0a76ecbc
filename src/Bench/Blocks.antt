-- ===== src/Bench/Blocks.antt =====
-- memBlockchain of internal/benchutil/cluster.go: blocks by hash. The keys of the Go map are the
-- hexadecimal texts of the hashes, which are as distinct as the hashes.
pub mod Keys
pub mod Ancestry
pub mod Lawful
use d_hotsuff.Prelude.{
  ℕ, zero, suc, Bytes, bytes_eq, bytes_instance, Bool, true, false, Option, none, some, List, [],
  ◌∷◌, if◌then◌else◌,
}
use d_hotsuff.Prelude.Table.{Table, lookup, insert}
use d_hotsuff.Prelude.Distinct.{seen}
use d_hotsuff.Proto.{Block}
use d_hotsuff.External.{External}
use d_hotsuff.Consensus.Chain.{BlockchainReader, hash_block}

abbrev pub MemBlockchain : Type 0
MemBlockchain = Table Bytes Block

abbrev pub new_mem_blockchain : MemBlockchain
new_mem_blockchain = []

unfoldable pub put : External → Block → MemBlockchain → MemBlockchain
unfolding insert
put x b m = insert (hash_block x b) b m

unfoldable pub get : MemBlockchain → Bytes → Option Block
unfolding lookup
get m hash = lookup hash m

-- the loop of Extends: the rounds left, the keys of the map `visited`, and `cur`
unfoldable pub climb : MemBlockchain → Bytes → ℕ → List Bytes → Bytes → Bool
unfolding get
climb m target zero visited cur = false
climb m target (suc rounds) visited cur =
    if bytes_eq cur target then true else if seen cur visited then false else elim (get m cur) [
      | none ↦ false
      | some b ↦ climb m target rounds (cur ∷ visited) b.parent_hash
    ]

abbrev pub max_rounds : ℕ
max_rounds = 1024

unfoldable pub extends : MemBlockchain → Bytes → Bytes → Bool
extends m child_hash ancestor_hash =
    if bytes_eq child_hash ancestor_hash
    then true
    else climb m ancestor_hash max_rounds [] child_hash

-- Extends of internal/repbench/cluster.go, which has no map `visited`
unfoldable pub climb_unmarked : MemBlockchain → Bytes → ℕ → Bytes → Bool
unfolding get
climb_unmarked m target zero cur = false
climb_unmarked m target (suc rounds) cur =
    if bytes_eq cur target
    then true
    else elim (get m cur) [ none ↦ false | some b ↦ climb_unmarked m target rounds b.parent_hash ]

unfoldable pub extends_unmarked : MemBlockchain → Bytes → Bytes → Bool
extends_unmarked m child_hash ancestor_hash =
    if bytes_eq child_hash ancestor_hash
    then true
    else climb_unmarked m ancestor_hash max_rounds child_hash

-- a memBlockchain as the block store of the consensus code
unfoldable pub reader : MemBlockchain → BlockchainReader
unfolding get extends
reader m = record { get = get m; extends = extends m }
