-- ===== src/Membership/Request/Classify.antt =====
-- ClassifyBatch and HasMembershipRequests of request.go.
use d_hotsuff.Prelude.{
  ◌≡◌, ◌≢◌, ◌↔◌, refl, Bool, true, false, not, List, [], ◌∷◌, length, filter, All, arith, Result,
  ok, err, ◌>>=◌, unknown_type, ◌+◌,
}
use d_hotsuff.Proto.{MembershipRequest, RequestType, regular, add, remove, other}
use d_hotsuff.External.{External, parse_ecdsa-error}
use d_hotsuff.Membership.Committee.{Replica, Committee, apply_request, apply_requests, apply}
use d_hotsuff.Membership.Request.{kind_of, is_regular_kind, classify_batch, has_membership_requests}

-- A request that changes the membership, by its wire type.
abbrev pub is_change : RequestType → Bool
is_change add = true
is_change remove = true
is_change _ = false

kind-is_change : (t : RequestType) → is_regular_kind (kind_of t) ≡ not (is_change t)
unfolding kind_of
kind-is_change add = refl
kind-is_change remove = refl
kind-is_change regular = refl
kind-is_change (other n) = refl

-- ClassifyBatch splits a batch into the requests that change the membership and the others, in
-- order, and loses none.
pub classify_batch_lem :
    (batch : List MembershipRequest)
    → ((classify_batch batch).0 ≡ filter (λ req. not (is_change req.type)) batch)
      × ((classify_batch batch).1 ≡ filter (λ req. is_change req.type) batch)
      × (length (classify_batch batch).0 + length (classify_batch batch).1 ≡ length batch)
unfolding classify_batch
classify_batch_lem [] = (refl, refl, refl)
classify_batch_lem (req ∷ batch) = ground (arith, classify_batch_lem batch, kind-is_change req.type)

-- The leader's test for a configuration change agrees with the split.
pub has_membership_requests_iff :
    (batch : List MembershipRequest)
    → (has_membership_requests batch ≡ true) ↔ ((classify_batch batch).1 ≢ [])
unfolding has_membership_requests classify_batch
has_membership_requests_iff [] = ground arith
has_membership_requests_iff (req ∷ batch) = ground (arith, has_membership_requests_iff batch)

apply_request-known :
    (x : External) (t : RequestType) (req : MembershipRequest) (rs : List Replica)
    → is_change t ≡ true
    → apply_request x t req rs ≢ err unknown_type
unfolding apply_request
apply_request-known x add req rs h = ground (arith, parse_ecdsa-error x req.payload unknown_type)
apply_request-known x remove req rs h = ground arith
apply_request-known x _ req rs h = ground arith

apply_requests-known :
    (x : External) (reqs : List MembershipRequest) (rs : List Replica)
    → All (λ req. is_change req.type ≡ true) reqs
    → apply_requests x reqs rs ≢ err unknown_type
unfolding apply_requests
apply_requests-known x [] rs h = ground arith
apply_requests-known x (req ∷ reqs) rs h =
    go (apply_request x req.type req rs) (apply_request-known x req.type req rs h.0)
      (λ next. apply_requests-known x reqs next h.1)
  where
    go :
        (r : Result (List Replica))
        → r ≢ err unknown_type
        → ((next : List Replica) → apply_requests x reqs next ≢ err unknown_type)
        → (r >>= apply_requests x reqs) ≢ err unknown_type
    go (ok next) known rest = rest next
    go (err _) known rest = λ e. known (ground arith)

changes-All :
    (batch : List MembershipRequest)
    → All (λ req. is_change req.type ≡ true) (classify_batch batch).1
unfolding classify_batch
changes-All [] = tt
changes-All (req ∷ batch) = ground (arith, changes-All batch, kind-is_change req.type)

-- Whatever types a batch carries, the slice handed to Apply is never refused for its type.
pub apply-classify_batch :
    (x : External) (c : Committee) (batch : List MembershipRequest)
    → apply x c (classify_batch batch).1 ≢ err unknown_type
unfolding apply
apply-classify_batch x c batch =
    ground (arith, apply_requests-known x (classify_batch batch).1 c.replicas (changes-All batch))
