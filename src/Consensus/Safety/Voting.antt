-- ===== src/Consensus/Safety/Voting.antt =====
-- What the voting rule admits, and how the lock and the highest certificate move.
use d_hotsuff.Prelude.{
  ◌≤◌, ◌<◌, ◌≡◌, ◌↔◌, ◌⊎◌, inl, inr, subst, refl, true, false, Option, none, some, arith,
}
use d_hotsuff.Proto.{Block, QuorumCert, view_of}
use d_hotsuff.External.{External}
use d_hotsuff.Consensus.Chain.{BlockchainReader, certifies}
use d_hotsuff.Consensus.Chain.Readers.{Descends, IsLawful}
use d_hotsuff.Consensus.Safety.{
  SafetyState, safe_node, safe_with, update_on_one_chain, update_on_two_chain,
}

-- The block extends the lock, or the certificate is newer than the lock.
abbrev pub MayVote : BlockchainReader → Option QuorumCert → Block → Option QuorumCert → Type 0
MayVote bc none node qc = Unit
MayVote bc (some locked) node qc =
    (locked.view_number < view_of qc) ⊎ (bc.extends node.parent_hash locked.block_hash ≡ true)

-- SafeNode accepts exactly if nothing is locked, the certificate is newer than the lock, or the
-- parent extends the locked block.
pub safe_node_iff :
    (s : SafetyState) (node : Block) (qc : Option QuorumCert) (bc : BlockchainReader)
    → (safe_node s node qc bc ≡ true) ↔ MayVote bc s.locked_qc node qc
unfolding safe_node
safe_node_iff s node qc bc = go s.locked_qc
  where
    go :
        (locked : Option QuorumCert)
        → (safe_with locked node qc bc ≡ true) ↔ MayVote bc locked node qc
    go none = (λ _. tt, λ _. refl)
    go (some locked) = ground arith

-- After a two-chain whose middle block carries a certificate, a proposal that does not extend the
-- block that the certificate is for is refused unless its own certificate is of a later view.
pub two_chain-safe_node :
    (x : External) (s : SafetyState) (b_star b_double b_prime node : Block) (lock : QuorumCert)
    (qc : Option QuorumCert) (bc : BlockchainReader)
    → certifies x b_star b_double ≡ true
    → certifies x b_double b_prime ≡ true
    → b_double.justify ≡ some lock
    → view_of qc ≤ lock.view_number
    → bc.extends node.parent_hash lock.block_hash ≡ false
    → safe_node (update_on_two_chain x s b_star b_double b_prime) node qc bc ≡ false
unfolding safe_node update_on_two_chain
two_chain-safe_node x s b_star b_double b_prime node lock qc bc c c' j v e = ground arith

-- Neither update touches the variable of the other, and without the chain both leave the state.
pub updates_frame :
    (x : External) (s : SafetyState) (b_star b_double b_prime : Block)
    → ((update_on_one_chain x s b_star b_double).locked_qc ≡ s.locked_qc)
      × ((update_on_two_chain x s b_star b_double b_prime).generic_qc ≡ s.generic_qc)
      × (certifies x b_star b_double ≡ false
          → (update_on_one_chain x s b_star b_double ≡ s)
            × (update_on_two_chain x s b_star b_double b_prime ≡ s))
      × (certifies x b_double b_prime ≡ false → update_on_two_chain x s b_star b_double b_prime ≡ s)
unfolding update_on_one_chain update_on_two_chain
updates_frame x s b_star b_double b_prime = ground arith

-- The updates do not compare views: a chain whose certificates are older than those held lowers
-- both the highest certificate and the lock.
pub updates_may_lower :
    (x : External) (s : SafetyState) (b_star b_double b_prime : Block)
    → certifies x b_star b_double ≡ true
    → certifies x b_double b_prime ≡ true
    → view_of b_star.justify < view_of s.generic_qc
    → view_of b_double.justify < view_of s.locked_qc
    → (view_of (update_on_one_chain x s b_star b_double).generic_qc < view_of s.generic_qc)
      × (view_of (update_on_two_chain x s b_star b_double b_prime).locked_qc < view_of s.locked_qc)
unfolding update_on_one_chain update_on_two_chain
updates_may_lower x s b_star b_double b_prime c c' g l = rw (c, c') (g, l)

-- On a block store that keeps its laws, a replica with a lock accepts only a proposal whose
-- certificate is of a later view than the lock, or whose parent descends from the locked block
-- through stored blocks.
pub safe_node-Descends :
    (x : External) (s : SafetyState) (node : Block) (qc : Option QuorumCert) (bc : BlockchainReader)
    (locked : QuorumCert)
    → IsLawful x bc
    → s.locked_qc ≡ some locked
    → safe_node s node qc bc ≡ true
    → (locked.view_number < view_of qc) ⊎ Descends bc locked.block_hash node.parent_hash
safe_node-Descends x s node qc bc locked laws held safe =
    elim (subst (λ l. MayVote bc l node qc) held ((safe_node_iff s node qc bc).0 safe)) [
      | inl newer ↦ inl newer
      | inr extended ↦ inr (laws.sound node.parent_hash locked.block_hash extended)
    ]
