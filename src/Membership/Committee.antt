-- ===== src/Membership/Committee.antt =====
-- internal/membership/committee.go: one configuration of the cluster.
pub mod Bounds
pub mod Leaders
pub mod Lookup
pub mod Members
use d_hotsuff.Prelude.{
  ℕ, ◌+◌, ◌-◌, ◌/◌, ◌%◌, Bytes, bytes_eq, Bool, true, false, Option, none, some, List, [], ◌∷◌,
  ◌++◌, length, get_elem?, map, leb, ltb, nat_beq, if◌then◌else◌, inc64, Result, ok, err, ◌>>=◌,
  not_in_committee, unknown_type, too_small, no_fault,
}
use d_hotsuff.Proto.{MembershipRequest, RequestType, regular, add, remove, other}
use d_hotsuff.External.{External, PublicKey, parse_ecdsa}

pub record Replica : Type 0 where
  pub id : Bytes
  pub addr : Bytes
  pub pub_key : Option PublicKey

pub record Committee : Type 0 where
  pub number : ℕ
  pub replicas : List Replica
  pub fault_cap : ℕ

-- fc = ⌊(nc − 1) / 3⌋, and 0 for an empty committee
unfoldable pub fault_cap_of : ℕ → ℕ
fault_cap_of nc = if ltb 0 nc then (nc - 1) / 3 else 0

unfoldable pub new_committee : ℕ → List Replica → Committee
unfolding fault_cap_of
new_committee number replicas = record {
  number = number;
  replicas = replicas;
  fault_cap = fault_cap_of (length replicas);
}

abbrev pub size : Committee → ℕ
size c = length c.replicas

unfoldable pub quorum_size : Committee → ℕ
quorum_size c = (length c.replicas + c.fault_cap + 2) / 2

-- Go panics on an empty committee: `none`.
unfoldable pub leader : Committee → ℕ → Option Replica
leader c view =
    if nat_beq (length c.replicas) 0 then none else get_elem? c.replicas (view % length c.replicas)

-- the loop of ReplicaByID
find_replica : Bytes → List Replica → Option Replica
find_replica id [] = none
find_replica id (r ∷ rs) = if bytes_eq r.id id then some r else find_replica id rs

unfoldable pub replica_by_id : Committee → Bytes → Option Replica
unfolding find_replica
replica_by_id c id = find_replica id c.replicas

is_some : Option Replica → Bool
is_some none = false
is_some (some r) = true

unfoldable pub contains : Committee → Bytes → Bool
unfolding replica_by_id is_some
contains c id = is_some (replica_by_id c id)

unfoldable pub clone : Committee → Committee
clone c = record { number = c.number; replicas = c.replicas; fault_cap = c.fault_cap }

-- the loop of REMOVE: the replicas that stay, and whether the target was found
unfoldable pub remove_replica : Bytes → List Replica → Bool × List Replica
remove_replica target [] = (false, [])
remove_replica target (r ∷ rs) =
    let (found, out) = remove_replica target rs in
    if bytes_eq r.id target then (true, out) else (found, r ∷ out)

-- one round of the loop of Apply
unfoldable pub apply_request :
    External → RequestType → MembershipRequest → List Replica → Result (List Replica)
unfolding remove_replica
apply_request x add req replicas = do
  key ← parse_ecdsa x req.payload
  ok (replicas ++ record { id = req.client_id; addr = []; pub_key = some key } ∷ [])
apply_request x remove req replicas =
    let (found, out) = remove_replica req.client_id replicas in
    if found then ok out else err not_in_committee
apply_request x regular req replicas = ok replicas
apply_request x (other n) req replicas = err unknown_type

unfoldable pub apply_requests :
    External → List MembershipRequest → List Replica → Result (List Replica)
unfolding apply_request
apply_requests x [] replicas = ok replicas
apply_requests x (req ∷ reqs) replicas = do
  next ← apply_request x req.type req replicas
  apply_requests x reqs next

-- the fields of Mc+1: the next number, and FaultCap recomputed
abbrev pub next_committee : Committee → List Replica → Committee
next_committee c replicas = record c {
  number = inc64 c.number;
  replicas = replicas;
  fault_cap = fault_cap_of (length replicas);
}

-- Committee.Apply
unfoldable pub apply : External → Committee → List MembershipRequest → Result Committee
unfolding clone apply_requests fault_cap_of
apply x c reqs = do
  let next = clone c
  replicas ← apply_requests x reqs next.replicas
  ok (next_committee next replicas)

unfoldable pub validate : Committee → Result (Unit {0})
validate c =
    if ltb (length c.replicas) 4
    then err too_small
    else if ltb c.fault_cap 1
    then err no_fault
    else ok tt

-- The identities of the members, in order.
abbrev pub ids : List Replica → List Bytes
ids = map (λ (r : Replica). r.id)
