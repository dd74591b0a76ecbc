-- ===== src/Membership/Committee/Bounds.antt =====
-- The arithmetic of quorums (Size, QuorumSize, FaultCap, Validate of committee.go).
use d_hotsuff.Prelude.{ℕ, ◌+◌, ◌*◌, ◌≤◌, ◌<◌, ◌≡◌, ◌↔◌, refl, List, arith, ok, >>=-eq-ok}
use d_hotsuff.Proto.{MembershipRequest}
use d_hotsuff.External.{External}
use d_hotsuff.Membership.Committee.{
  Replica, Committee, size, fault_cap_of, new_committee, quorum_size, apply_requests, apply,
  validate,
}

-- `fault_cap` is the largest number of faults that the size allows.
pub record IsFaultBound (c : Committee) : Type 0 where
  pub computed : c.fault_cap ≡ fault_cap_of (size c)

pub new_committee-IsFaultBound :
    (number : ℕ) (replicas : List Replica) → IsFaultBound (new_committee number replicas)
unfolding new_committee
new_committee-IsFaultBound number replicas = record { computed = refl }

-- Every committee that Apply returns has its fault bound computed for its own size.
pub apply-IsFaultBound :
    (x : External) (c c' : Committee) (reqs : List MembershipRequest)
    → apply x c reqs ≡ ok c'
    → IsFaultBound c'
unfolding apply
apply-IsFaultBound x c c' reqs h =
    let (replicas, _, e) = >>=-eq-ok (apply_requests x reqs c.replicas) _ h in
    record { computed = ground arith }

-- A non-empty committee has nc >= 3 fc + 1, and fc is the largest such number.
pub fault_bound :
    (c : Committee)
    → IsFaultBound c
    → 0 < size c
    → (3 * c.fault_cap + 1 ≤ size c) × (size c < 3 * (c.fault_cap + 1) + 1)
unfolding fault_cap_of
fault_bound c w h = ground (arith, w.computed)

-- In a committee with members whose fault bound is computed from its size, twice a quorum exceeds
-- the size by more than fc, and the replicas without fc of them are at least a quorum.
pub quorum_size_bounds :
    (c : Committee)
    → IsFaultBound c
    → 0 < size c
    → (size c + c.fault_cap + 1 ≤ 2 * quorum_size c)
      × (quorum_size c + c.fault_cap ≤ size c)
      × (0 < quorum_size c)
unfolding quorum_size
quorum_size_bounds c w h = omega (arith, fault_bound c w h)

pub validate_iff : (c : Committee) → IsFaultBound c → (validate c ≡ ok tt) ↔ (4 ≤ size c)
unfolding validate fault_cap_of
validate_iff c w = ground (arith, w.computed)

pub quorum_size_pos : (c : Committee) → 0 < quorum_size c
unfolding quorum_size
quorum_size_pos c = omega arith
