-- ===== src/Membership/Committee/Leaders.antt =====
-- The rotation of leaders (Leader of committee.go).
use d_hotsuff.Prelude.{ℕ, ◌+◌, ◌*◌, ◌%◌, ◌<◌, ◌≡◌, some, get_elem?, get_elem?-lt, arith}
use d_hotsuff.Membership.Committee.{Replica, Committee, size, leader}

-- The leader of an empty committee is a division by zero, and every other committee has one.
pub leader_total :
    (c : Committee) (view : ℕ) → 0 < size c → (r : Replica) × (leader c view ≡ some r)
unfolding leader
leader_total c view h =
    let (r, e) = get_elem?-lt c.replicas (view % size c) (omega arith) in (r, ground arith)

-- In each round of as many views as there are replicas, each replica leads once, in order.
pub leader_round :
    (c : Committee) (round i : ℕ)
    → i < size c
    → leader c (round * size c + i) ≡ get_elem? c.replicas i
unfolding leader
leader_round c round i h = let e : (round * size c + i) % size c ≡ i = grind arith in ground arith

pub leader_period : (c : Committee) (view : ℕ) → leader c (view + size c) ≡ leader c view
unfolding leader
leader_period c view =
    let e : (view + size c) % size c ≡ view % size c = grind arith in ground arith
