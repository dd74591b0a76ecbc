-- ===== src/Bench/Blocks/Lawful.antt =====
-- A memBlockchain with its blocks under their own hashes keeps the laws of a block store.
use d_hotsuff.Prelude.{ℕ, zero, suc, ◌≡◌, Bytes, some, inl, inr, Option-cases, arith}
use d_hotsuff.External.{External}
use d_hotsuff.Consensus.Chain.Readers.{Descends, here, up, IsLawful}
use d_hotsuff.Bench.Blocks.{MemBlockchain, get, reader}
use d_hotsuff.Bench.Blocks.Keys.{IsKeyed}
use d_hotsuff.Bench.Blocks.Ancestry.{ancestor, extends_iff}

ancestor-Descends :
    (m : MemBlockchain) (target : Bytes) (k : ℕ) (h : Bytes)
    → ancestor m k h ≡ some target
    → Descends (reader m) target h
unfolding ancestor reader
ancestor-Descends m target zero h e = here (ground arith)
ancestor-Descends m target (suc k) h e = elim (Option-cases (get m h)) [
  | inl gone ↦ absurd (ground arith)
  | inr (b, found) ↦ up b found (ancestor-Descends m target k b.parent_hash (ground arith))
]

pub reader-IsLawful : (x : External) (m : MemBlockchain) → IsKeyed x m → IsLawful x (reader m)
unfolding reader
reader-IsLawful x m k = record {
  own_hash = k.own_hash;
  sound = λ child target h.
      let (steps, lt, reached) = (extends_iff m child target).0 h in
      ancestor-Descends m target steps child reached;
}
