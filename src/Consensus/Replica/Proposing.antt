-- ===== src/Consensus/Replica/Proposing.antt =====
-- What `propose` does: the block that it broadcasts, and the fields that it leaves alone.
use d_hotsuff.Prelude.{
  ℕ, zero, suc, ◌≤◌, ◌<◌, ◌≡◌, refl, sym, bytes_eq_iff, true, inc64, Option, some, List, [], ◌∷◌,
  ◌++◌, length, arith,
}
use d_hotsuff.Prelude.Flow.{Leaves, Leaves-demand}
use d_hotsuff.Proto.{Block, MembershipRequest, QuorumCert}
use d_hotsuff.External.{External}
use d_hotsuff.Consensus.Chain.{BlockchainReader, hash_block, certifies}
use d_hotsuff.Consensus.Chain.Readers.{IsLawful}
use d_hotsuff.Membership.Committee.{Committee}
use d_hotsuff.Membership.ConfigStore.{latest}
use d_hotsuff.Consensus.ViewChange.{broadcast, block_msg}
use d_hotsuff.Consensus.Replica.{
  Environment, DHotStuff, select_leader, drain, batch_size, next_block, propose,
}

drain_lem :
    (rounds : ℕ) (queue : List MembershipRequest)
    → ((drain rounds queue).0 ++ (drain rounds queue).1 ≡ queue)
      × (length (drain rounds queue).0 ≤ rounds)
      × (length (drain rounds queue).0 < rounds → (drain rounds queue).1 ≡ [])
unfolding drain
drain_lem zero queue = (refl, omega arith, λ h. absurd (omega arith))
drain_lem (suc rounds) [] = (refl, omega arith, λ h. refl)
drain_lem (suc rounds) (req ∷ queue) = ground (arith, drain_lem rounds queue)

-- Everything but the queue, the statistics and the network.
pub record SameCore (d d' : DHotStuff) : Type 0 where
  pub my_id : d'.my_id ≡ d.my_id
  pub cur_view : d'.cur_view ≡ d.cur_view
  pub safety : d'.safety ≡ d.safety
  pub pipeline : d'.pipeline ≡ d.pipeline
  pub deliverer : d'.deliverer ≡ d.deliverer
  pub vc : d'.vc ≡ d.vc
  pub votes_buf : d'.votes_buf ≡ d.votes_buf
  pub new_view_buf : d'.new_view_buf ≡ d.new_view_buf

-- One proposal: it is broadcast to the latest committee, extends the certificate, carries the
-- first requests of the queue, a hundred at most, and leaves the others queued in order.
pub record Proposed (e : Environment) (justify : Option QuorumCert) (d d' : DHotStuff)
    : Type 0 where
  pub core : SameCore d d'
  pub mc : Committee
  pub batch : List MembershipRequest
  pub current : latest d.deliverer.configs ≡ some mc
  pub queued : batch ++ d'.request_q ≡ d.request_q
  pub bounded : length batch ≤ batch_size
  pub emptied : length batch < batch_size → d'.request_q ≡ []
  pub sent :
      d'.sent ≡ d.sent ++ broadcast mc (block_msg (next_block e.blockchain justify batch mc)) ∷ []

-- Whatever the certificate, `propose` panics or makes one such proposal.
pub propose-Proposed :
    (e : Environment) (justify : Option QuorumCert) (d : DHotStuff)
    → Leaves (Proposed e justify d) (propose e justify d)
unfolding propose
propose-Proposed e justify d =
    Leaves-demand (Proposed e justify d) (latest d.deliverer.configs) _ λ mc current.
      Leaves-demand (Proposed e justify d) (select_leader e d mc) _ λ leader _.
        let (queued, bounded, emptied) = drain_lem batch_size d.request_q in
        record {
          core = record {
            my_id = refl;
            cur_view = refl;
            safety = refl;
            pipeline = refl;
            deliverer = refl;
            vc = refl;
            votes_buf = refl;
            new_view_buf = refl;
          };
          mc = mc;
          batch = (drain batch_size d.request_q).0;
          current = current;
          queued = queued;
          bounded = bounded;
          emptied = emptied;
          sent = refl;
        }

-- On a block store that keeps its laws, if the block of a certificate is stored, the block that
-- propose builds on the certificate names it as its parent by hash, and has the next height.
pub next_block-certifies :
    (x : External) (bc : BlockchainReader) (qc : QuorumCert) (batch : List MembershipRequest)
    (mc : Committee) (parent : Block)
    → IsLawful x bc
    → bc.get qc.block_hash ≡ some parent
    → (certifies x (next_block bc (some qc) batch mc) parent ≡ true)
      × ((next_block bc (some qc) batch mc).height ≡ inc64 parent.height)
unfolding next_block certifies
next_block-certifies x bc qc batch mc parent laws found = (
  (bytes_eq_iff qc.block_hash (hash_block x parent)).1
      (sym (laws.own_hash qc.block_hash parent found)),
  rw found refl,
)
