-- ===== src/Membership/Request.antt =====
-- internal/membership/request.go: the classification and validation of membership requests.
pub mod Classify
pub mod Validity
use d_hotsuff.Prelude.{
  ℕ, Bytes, Bool, true, false, Option, none, some, List, [], ◌∷◌, length, nat_beq, if◌then◌else◌,
  Result, ok, err, ◌>>=◌, not_add, empty_payload, already_member, not_in_committee,
}
use d_hotsuff.Proto.{MembershipRequest, RequestType, regular, add, remove, other}
use d_hotsuff.External.{External, parse_ecdsa}
use d_hotsuff.Membership.Committee.{Replica, Committee, contains}

pub data RequestKind : Type 0 where
  kind_regular kind_add kind_remove : RequestKind

unfoldable pub kind_of : RequestType → RequestKind
kind_of add = kind_add
kind_of remove = kind_remove
kind_of _ = kind_regular

abbrev pub is_regular_kind : RequestKind → Bool
is_regular_kind kind_regular = true
is_regular_kind _ = false

-- The two slices of a batch: the regular requests, and the membership changes.
unfoldable pub classify_batch :
    List MembershipRequest → List MembershipRequest × List MembershipRequest
unfolding kind_of
classify_batch [] = ([], [])
classify_batch (req ∷ batch) =
    let (regulars, changes) = classify_batch batch in
    if is_regular_kind (kind_of req.type)
    then (req ∷ regulars, changes)
    else (regulars, req ∷ changes)

unfoldable pub has_membership_requests : List MembershipRequest → Bool
unfolding kind_of
has_membership_requests [] = false
has_membership_requests (req ∷ batch) =
    if is_regular_kind (kind_of req.type) then has_membership_requests batch else true

-- the cases of ValidateMembershipRequest, by kind
unfoldable pub validate_kind :
    External → RequestKind → MembershipRequest → Committee → Result (Unit {0})
validate_kind x kind_add req current = do
  key ← parse_ecdsa x req.payload
  if contains current req.client_id then err already_member else ok tt
validate_kind x kind_remove req current =
    if contains current req.client_id then ok tt else err not_in_committee
validate_kind x kind_regular req current = ok tt

unfoldable pub validate_membership_request :
    External → MembershipRequest → Committee → Result (Unit {0})
unfolding validate_kind kind_of
validate_membership_request x req current = validate_kind x (kind_of req.type) req current

-- the body of ReplicaFromRequest after the guard on the kind
replica_of : External → RequestKind → MembershipRequest → Result Replica
replica_of x kind_add req = if nat_beq (length req.payload) 0 then err empty_payload else do
  key ← parse_ecdsa x req.payload
  ok (record { id = req.client_id; addr = []; pub_key = some key })
replica_of x _ req = err not_add

unfoldable pub replica_from_request : External → MembershipRequest → Result Replica
unfolding replica_of kind_of
replica_from_request x req = replica_of x (kind_of req.type) req
