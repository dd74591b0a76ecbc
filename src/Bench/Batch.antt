-- ===== src/Bench/Batch.antt =====
-- MakeBatch of internal/benchutil/cluster.go.
use d_hotsuff.Prelude.{ℕ, zero, suc, ◌+◌, ◌*◌, ◌/◌, ◌%◌, Bytes, List, [], ◌∷◌}
use d_hotsuff.Prelude.Decimal.{decimal}
use d_hotsuff.Proto.{MembershipRequest, regular}

-- p[j] = byte(j & 0xFF), from `j` on
fill : ℕ → ℕ → Bytes
fill zero j = []
fill (suc rounds) j = (j % 256) ∷ fill rounds (j + 1)

-- the loop of MakeBatch, from the i-th request on: payloads of 250 bytes
make_requests : ℕ → ℕ → List MembershipRequest
unfolding fill
make_requests zero i = []
make_requests (suc rounds) i =
    record {
      type = regular;
      client_id = b'c' ∷ decimal (i % 100);
      payload = (i % 256) ∷ (i / 256 % 256) ∷ fill 248 2;
    }
    ∷ make_requests rounds (i + 1)

-- `payload_mb` is not negative: `make` panics on a negative length.
unfoldable pub make_batch : ℕ → List MembershipRequest
unfolding make_requests
make_batch payload_mb = make_requests (payload_mb * 1024 * 1024 / 250) 0
