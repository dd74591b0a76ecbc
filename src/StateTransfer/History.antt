-- ===== src/StateTransfer/History.antt =====
-- internal/statetransfer/history.go: the append-only log of committed blocks.
pub mod Contiguous
use d_hotsuff.Prelude.{
  ℕ, ◌-◌, Bytes, Bool, List, [], ◌∷◌, ◌++◌, length, drop, leb, ltb, nat_beq, map, if◌then◌else◌,
  Result, ok, err, suc, ◌>>=◌, out_of_order, non_contiguous,
}
use d_hotsuff.Proto.{Block}
use d_hotsuff.External.{External}
use d_hotsuff.Crypto.Encoding.{be64}

pub record ExecutionHistory : Type 0 where
  pub blocks : List Block

abbrev pub new_execution_history : ExecutionHistory
new_execution_history = record { blocks = [] }

unfoldable pub append : ExecutionHistory → Block → Result ExecutionHistory
append h block =
    if nat_beq block.height (length h.blocks)
    then ok (record { blocks = h.blocks ++ block ∷ [] })
    else err out_of_order

-- the nil slice and the empty one are both `[]`
unfoldable pub since : ExecutionHistory → ℕ → List Block
since h height = if leb (length h.blocks) height then [] else drop height h.blocks

abbrev pub history_len : ExecutionHistory → ℕ
history_len h = length h.blocks

-- int64: `negsuc 0` is -1
pub data ℤ : Type 0 where
  pos : ℕ → ℤ
  negsuc : ℕ → ℤ

unfoldable pub latest_height : ExecutionHistory → ℤ
latest_height h = if nat_beq (length h.blocks) 0 then negsuc 0 else pos (length h.blocks - 1)

-- heightBuf is written as PutUint64 of encoding/binary does
unfoldable pub block_digest : External → Block → Bytes
block_digest x b = x.sha256 (b.parent_hash ++ be64 b.height)

-- what the loop of Hash writes
unfoldable pub digests : External → List Block → Bytes
digests x [] = []
digests x (b ∷ bs) = block_digest x b ++ digests x bs

unfoldable pub hash : External → ExecutionHistory → Bytes
unfolding digests
hash x h = x.sha256 (digests x h.blocks)

-- HistoryResponse: the repeated field `history`
abbrev pub to_proto : ExecutionHistory → List Block
to_proto h = h.blocks

prefixed : Block → Result (List Block) → Result (List Block)
prefixed b rest = do bs ← rest; ok (b ∷ bs)

-- the loop of HistoryFromProto; `i` is its index
unfoldable pub contiguous_from : ℕ → List Block → Result (List Block)
unfolding prefixed
contiguous_from i [] = ok []
contiguous_from i (b ∷ bs) =
    let rest = contiguous_from (suc i) bs in
    if nat_beq b.height i then prefixed b rest else err non_contiguous

unfoldable pub history_from_proto : List Block → Result ExecutionHistory
unfolding contiguous_from
history_from_proto resp = do blocks ← contiguous_from 0 resp; ok (record { blocks = blocks })
