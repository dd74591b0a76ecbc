-- ===== src/Bench/Members.antt =====
-- The keys and the replicas that NewBenchCluster of internal/benchutil/cluster.go makes, and
-- NewRepBenchCluster of internal/repbench/cluster.go too.
pub mod Identities
pub mod Quorums
use d_hotsuff.Prelude.{
  ℕ, zero, suc, ◌+◌, Bytes, Option, none, some, List, [], ◌∷◌, ◌++◌, map, keygen_failed,
}
use d_hotsuff.Prelude.Decimal.{decimal}
use d_hotsuff.Prelude.Outcome.{Outcome, failed, done, ◌>>=◌}
use d_hotsuff.External.{PrivateKey}
use d_hotsuff.Membership.Committee.{Replica}

-- ecdsa.GenerateKey at its i-th call; `none` is an error
abbrev pub Keygen : Type 0
Keygen = ℕ → Option PrivateKey

pub record Member : Type 0 where
  pub priv : PrivateKey
  pub replica : Replica

-- "127.0.0.1:"
abbrev pub loopback : Bytes
loopback = b'1' ∷ b'2' ∷ b'7' ∷ b'.' ∷ b'0' ∷ b'.' ∷ b'0' ∷ b'.' ∷ b'1' ∷ b':' ∷ []

abbrev pub id_at : ℕ → Bytes
id_at i = b'P' ∷ decimal (i + 1)

abbrev pub replica_with : ℕ → PrivateKey → Replica
replica_with i priv = record {
  id = id_at i;
  addr = loopback ++ decimal (8000 + i + 1);
  pub_key = some priv.public_key;
}

generated : Option PrivateKey → Outcome PrivateKey
generated none = failed keygen_failed
generated (some priv) = done priv

-- the loop that makes the keys and the replicas, from the i-th on
unfoldable pub make_members : Keygen → ℕ → ℕ → Outcome (List Member)
unfolding generated
make_members generate zero i = done []
make_members generate (suc rounds) i = do
  priv ← generated (generate i)
  members ← make_members generate rounds (i + 1)
  done (record { priv = priv; replica = replica_with i priv } ∷ members)

abbrev pub keys_of : List Member → List PrivateKey
keys_of = map (λ (m : Member). m.priv)

abbrev pub replicas_of : List Member → List Replica
replicas_of = map (λ (m : Member). m.replica)
