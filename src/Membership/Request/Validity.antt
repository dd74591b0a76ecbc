-- ===== src/Membership/Request/Validity.antt =====
-- What ValidateMembershipRequest accepts, and what Apply and ReplicaFromRequest make of it.
use d_hotsuff.Prelude.{
  ℕ, ◌<◌, ◌≡◌, ◌≢◌, ◌↔◌, refl, Bytes, true, false, [], ◌∷◌, length, arith, Result, ok, err, ◌++◌,
}
use d_hotsuff.Proto.{MembershipRequest, RequestType, regular, add, remove, other}
use d_hotsuff.External.{External, parse_ecdsa}
use d_hotsuff.Membership.Committee.{
  Replica, Committee, contains, apply_request, apply_requests, next_committee, apply,
}
use d_hotsuff.Membership.Committee.Members.{
  apply-member, apply-accepts, member_after, accepts, is_ok,
}
use d_hotsuff.Membership.Request.{
  kind_of, replica_of, validate_kind, validate_membership_request, replica_from_request,
}

-- The constraints that the documentation states.
abbrev pub IsSound : External → RequestType → MembershipRequest → Committee → Type 0
IsSound x add req c =
    (is_ok (parse_ecdsa x req.payload) ≡ true) × (contains c req.client_id ≡ false)
IsSound x remove req c = contains c req.client_id ≡ true
IsSound x _ req c = Unit

validate-IsSound :
    (x : External) (t : RequestType) (req : MembershipRequest) (c : Committee)
    → (validate_kind x (kind_of t) req c ≡ ok tt) ↔ IsSound x t req c
unfolding validate_kind kind_of
validate-IsSound x add req c = ground arith
validate-IsSound x remove req c = ground arith
validate-IsSound x regular req c = ground arith
validate-IsSound x (other n) req c = ground arith

-- Validation succeeds exactly on the documented constraints.
pub validate_membership_request_iff :
    (x : External) (req : MembershipRequest) (c : Committee)
    → (validate_membership_request x req c ≡ ok tt) ↔ IsSound x req.type req c
unfolding validate_membership_request
validate_membership_request_iff x req c = validate-IsSound x req.type req c

valid_accepted :
    (x : External) (t : RequestType) (req : MembershipRequest) (c : Committee)
    → ((n : ℕ) → t ≢ other n)
    → IsSound x t req c
    → accepts x t req (contains c req.client_id) ≡ true
valid_accepted x add req c known h = h.0
valid_accepted x remove req c known h = h
valid_accepted x regular req c known h = refl
valid_accepted x (other n) req c known h = absurd (known n refl)

-- A request of a declared type that ValidateMembershipRequest accepts is applied by Apply without
-- error, and changes the membership of its client alone.
pub validate-apply :
    (x : External) (req : MembershipRequest) (c : Committee)
    → ((n : ℕ) → req.type ≢ other n)
    → validate_membership_request x req c ≡ ok tt
    → (c' : Committee) × (apply x c (req ∷ []) ≡ ok c')
      × ((id : Bytes) → contains c' id ≡ member_after req.type req.client_id id (contains c id))
validate-apply x req c known h = go (apply x c (req ∷ [])) refl (
    ground (
      arith,
      apply-accepts x c (req ∷ []),
      valid_accepted x req.type req c known ((validate_membership_request_iff x req c).0 h),
    ))
  where
    go :
        (r : Result Committee)
        → apply x c (req ∷ []) ≡ r
        → is_ok r ≡ true
        → (c' : Committee) × (r ≡ ok c')
          × ((id : Bytes) → contains c' id ≡ member_after req.type req.client_id id (contains c id))
    go (ok c') e a = (c', refl, λ id. (apply-member x c c' (req ∷ []) id e).1)
    go (err _) e a = cc

replica_of-apply :
    (x : External) (t : RequestType) (req : MembershipRequest) (r : Replica) (c : Committee)
    → replica_of x (kind_of t) req ≡ ok r
    → (t ≡ add)
      × (0 < length req.payload)
      × (apply_request x t req c.replicas ≡ ok (c.replicas ++ r ∷ []))
unfolding replica_of kind_of apply_request
replica_of-apply x add req r c h = (refl, ground arith, ground arith)
replica_of-apply x remove req r c h = absurd (ground arith)
replica_of-apply x regular req r c h = absurd (ground arith)
replica_of-apply x (other n) req r c h = absurd (ground arith)

-- ReplicaFromRequest succeeds only on an ADD with a payload, and its replica is the one that
-- Apply appends to the committee for the same request.
pub replica_from_request-apply :
    (x : External) (req : MembershipRequest) (r : Replica) (c : Committee)
    → replica_from_request x req ≡ ok r
    → (req.type ≡ add)
      × (0 < length req.payload)
      × ((c' : Committee) × (apply x c (req ∷ []) ≡ ok c') × (c'.replicas ≡ c.replicas ++ r ∷ []))
unfolding replica_from_request apply apply_requests
replica_from_request-apply x req r c h =
    let (t, p, e) = replica_of-apply x req.type req r c h in
    (t, p, (next_committee c (c.replicas ++ r ∷ []), rw e, refl))
