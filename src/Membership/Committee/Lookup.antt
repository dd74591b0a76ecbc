-- ===== src/Membership/Committee/Lookup.antt =====
-- ReplicaByID of internal/membership/committee.go, in a committee of different identities.
use d_hotsuff.Prelude.{
  ◌≡◌, refl, Bytes, bytes_instance, bytes_eq, bytes_eq_refl, true, false, some, List, [], ◌∷◌, All,
  arith,
}
use d_hotsuff.Prelude.Distinct.{seen, Distinct, seen-cons_ne}
use d_hotsuff.Membership.Committee.{Replica, Committee, find_replica, replica_by_id, ids}

-- The identity finds the replica.
abbrev pub Found : Committee → Replica → Type 0
Found c r = replica_by_id c r.id ≡ some r

abbrev FoundIn : List Replica → Replica → Type 0
FoundIn replicas r = find_replica r.id replicas ≡ some r

seen-find_replica :
    (id : Bytes) (rs : List Replica) (r : Replica)
    → find_replica id rs ≡ some r
    → seen id (ids rs) ≡ true
unfolding find_replica seen
seen-find_replica id [] r e = absurd (ground arith)
seen-find_replica id (x ∷ rs) r e = ground (arith, seen-find_replica id rs r)

-- Whoever is found is a member.
pub seen-replica_by_id :
    (c : Committee) (id : Bytes) (r : Replica)
    → replica_by_id c id ≡ some r
    → seen id (ids c.replicas) ≡ true
unfolding replica_by_id
seen-replica_by_id c id r e = seen-find_replica id c.replicas r e

FoundIn-cons :
    (x : Replica) (rs ys : List Replica)
    → seen x.id (ids rs) ≡ false
    → All (FoundIn rs) ys
    → All (FoundIn (x ∷ rs)) ys
unfolding find_replica
FoundIn-cons x rs [] n a = tt
FoundIn-cons x rs (y ∷ ys) n a =
    let apart : bytes_eq x.id y.id ≡ false =
      seen-cons_ne x.id y.id (ids rs) n (seen-find_replica y.id rs y a.0) in
    (rw apart a.0, FoundIn-cons x rs ys n a.1)

Distinct-FoundIn : (rs : List Replica) → Distinct (ids rs) → All (FoundIn rs) rs
unfolding find_replica
Distinct-FoundIn [] d = tt
Distinct-FoundIn (r ∷ rs) d =
    (rw (bytes_eq_refl r.id) refl, FoundIn-cons r rs rs d.0 (Distinct-FoundIn rs d.1))

-- Every replica of a committee of different identities is found.
pub replica_by_id-Found : (c : Committee) → Distinct (ids c.replicas) → All (Found c) c.replicas
unfolding replica_by_id
replica_by_id-Found c d = Distinct-FoundIn c.replicas d
