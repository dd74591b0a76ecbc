-- ===== src/Consensus/Chain/Readers.antt =====
-- What the consensus code relies on in a BlockchainReader (safety.go), as an interface with laws.
use d_hotsuff.Prelude.{◌≡◌, Bytes, true, some}
use d_hotsuff.Proto.{Block}
use d_hotsuff.External.{External}
use d_hotsuff.Consensus.Chain.{BlockchainReader, hash_block}

-- The second hash is reached from the first by the parent hashes of stored blocks.
pub data Descends (bc : BlockchainReader) (ancestor : Bytes) : Bytes → Type 0 where
  here : {h : Bytes} → h ≡ ancestor → Descends bc ancestor h
  up :
      {h : Bytes} (b : Block)
      → bc.get h ≡ some b
      → Descends bc ancestor b.parent_hash
      → Descends bc ancestor h

pub record IsLawful (x : External) (bc : BlockchainReader) : Type 0 where
  -- a block is found under its own hash alone
  pub own_hash : (h : Bytes) (b : Block) → bc.get h ≡ some b → hash_block x b ≡ h
  -- what Extends accepts is an ancestor
  pub sound :
      (child ancestor : Bytes) → bc.extends child ancestor ≡ true → Descends bc ancestor child
