-- ===== src/Bench/Blocks/Keys.antt =====
-- The blocks of a memBlockchain stand under their own hashes.
use d_hotsuff.Prelude.{
  ◌≡◌, Bytes, bytes_eq, bytes_instance, bytes_eq_iff, some, [], arith, if◌then◌else◌,
}
use d_hotsuff.Prelude.Table.{lookup, lookup-insert}
use d_hotsuff.Proto.{Block}
use d_hotsuff.External.{External}
use d_hotsuff.Consensus.Chain.{hash_block}
use d_hotsuff.Bench.Blocks.{MemBlockchain, put, get}

pub record IsKeyed (x : External) (m : MemBlockchain) : Type 0 where
  pub own_hash : (h : Bytes) (b : Block) → get m h ≡ some b → hash_block x b ≡ h

pub nil-IsKeyed : (x : External) → IsKeyed x []
unfolding get lookup
nil-IsKeyed x = record { own_hash = λ h b e. cc }

pub get-put :
    (x : External) (b : Block) (m : MemBlockchain) (h : Bytes)
    → get (put x b m) h ≡ (if bytes_eq (hash_block x b) h then some b else get m h)
unfolding get put
get-put x b m h = lookup-insert (hash_block x b) h b m

pub put-IsKeyed :
    (x : External) (b : Block) (m : MemBlockchain) → IsKeyed x m → IsKeyed x (put x b m)
put-IsKeyed x b m k = record {
  own_hash =
      λ h c e. ground (arith, get-put x b m h, k.own_hash h c, bytes_eq_iff (hash_block x b) h);
}
