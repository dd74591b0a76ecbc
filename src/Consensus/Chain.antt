-- ===== src/Consensus/Chain.antt =====
-- hashBlock of internal/consensus/safety.go, and the view that consensus has of the block store.
pub mod Hash
pub mod Readers
use d_hotsuff.Prelude.{ℕ, Bytes, bytes_eq, Bool, Option, ◌++◌}
use d_hotsuff.Proto.{Block}
use d_hotsuff.External.{External}
use d_hotsuff.Crypto.Encoding.{be64}

-- BlockchainReader: Get(hash) and Extends(childHash, ancestorHash).
pub record BlockchainReader : Type 0 where
  pub get : Bytes → Option Block
  pub extends : Bytes → Bytes → Bool

-- SHA-256(parentHash || height_BE8)
unfoldable pub hash_block : External → Block → Bytes
hash_block x b = x.sha256 (b.parent_hash ++ be64 b.height)

-- bytes.Equal(child.GetParentHash(), hashBlock(parent))
unfoldable pub certifies : External → Block → Block → Bool
certifies x child parent = bytes_eq child.parent_hash (hash_block x parent)
