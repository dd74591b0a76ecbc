-- ===== src/Consensus/Chain/Hash.antt =====
-- hashBlock of internal/consensus/safety.go as a key of blocks.
use d_hotsuff.Prelude.{◌<◌, ◌≡◌, ◌↔◌, refl, Bytes, ◌++◌, length, length-append, u64, arith, ap}
use d_hotsuff.Proto.{Block}
use d_hotsuff.External.{External}
use d_hotsuff.Crypto.Encoding.{be64}
use d_hotsuff.Crypto.Encoding.Laws.{be64-injective, length-be64}
use d_hotsuff.Crypto.Signer.Binding.{IsCollisionFree, append-split}
use d_hotsuff.Consensus.Chain.{hash_block}

-- Without collisions of SHA-256, blocks with 64-bit heights have the same hash exactly if they
-- have the same parent and height.
pub hash_block_iff :
    (x : External) (a b : Block)
    → IsCollisionFree x
    → a.height < u64
    → b.height < u64
    → (hash_block x a ≡ hash_block x b) ↔ (a.parent_hash ≡ b.parent_hash) × (a.height ≡ b.height)
unfolding hash_block
hash_block_iff x a b free ha hb = (parts, λ (p, h). rw (p, h) refl)
  where
    parts :
        x.sha256 (a.parent_hash ++ be64 a.height) ≡ x.sha256 (b.parent_hash ++ be64 b.height)
        → (a.parent_hash ≡ b.parent_hash) × (a.height ≡ b.height)
    parts e =
        let same = free _ _ e in
        let (p, h) =
          append-split a.parent_hash b.parent_hash (be64 a.height) (be64 b.height)
            (omega (
              arith,
              ap (λ (l : Bytes). length l) same,
              length-append a.parent_hash (be64 a.height),
              length-append b.parent_hash (be64 b.height),
              length-be64 a.height,
              length-be64 b.height,
            ))
            same in
        (p, be64-injective a.height b.height ha hb h)
