-- ===== src/Membership/Committee/Members.antt =====
-- What Apply does to the membership, against a specification on identities alone.
use d_hotsuff.Prelude.{
  ◌≡◌, refl, Bytes, bytes_eq, bytes_eq_iff, Bool, true, false, ◌||◌, ◌&&◌, not, some, List, [], ◌∷◌,
  ◌++◌, arith, Result, ok, err, ◌>>=◌, >>=-eq-ok, inc64, ◌∙◌, ap,
}
use d_hotsuff.Proto.{MembershipRequest, RequestType, regular, add, remove, other}
use d_hotsuff.External.{External, parse_ecdsa}
use d_hotsuff.Membership.Committee.{
  Replica, Committee, find_replica, contains, remove_replica, apply_request, apply_requests, apply,
  is_some,
}

-- Whether `id` is a member after a request, if it was one before.
abbrev pub member_after : RequestType → Bytes → Bytes → Bool → Bool
member_after add target id before = bytes_eq target id || before
member_after remove target id before = not (bytes_eq target id) && before
member_after _ target id before = before

abbrev pub member_after_all : List MembershipRequest → Bytes → Bool → Bool
member_after_all [] id before = before
member_after_all (req ∷ reqs) id before =
    member_after_all reqs id (member_after req.type req.client_id id before)

has_id : Bytes → List Replica → Bool
unfolding is_some find_replica
has_id id rs = is_some (find_replica id rs)

has_id-append :
    (id : Bytes) (rs : List Replica) (r : Replica)
    → has_id id (rs ++ r ∷ []) ≡ (bytes_eq r.id id || has_id id rs)
unfolding has_id
has_id-append id [] r = ground arith
has_id-append id (x ∷ rs) r = ground (arith, has_id-append id rs r)

has_id-remove_replica :
    (target id : Bytes) (rs : List Replica)
    → has_id id (remove_replica target rs).1 ≡ (not (bytes_eq target id) && has_id id rs)
unfolding has_id remove_replica
has_id-remove_replica target id [] = ground arith
has_id-remove_replica target id (x ∷ rs) = ground (
  arith,
  has_id-remove_replica target id rs,
  bytes_eq_iff target id,
  bytes_eq_iff x.id target,
  bytes_eq_iff x.id id,
)

apply_request-member :
    (x : External) (t : RequestType) (req : MembershipRequest) (rs rs' : List Replica) (id : Bytes)
    → apply_request x t req rs ≡ ok rs'
    → has_id id rs' ≡ member_after t req.client_id id (has_id id rs)
unfolding apply_request
apply_request-member x add req rs rs' id h =
    let (key, e, r) = >>=-eq-ok (parse_ecdsa x req.payload) _ h in
    ground
      (arith, has_id-append id rs (record { id = req.client_id; addr = []; pub_key = some key }))
apply_request-member x remove req rs rs' id h =
    ground (arith, has_id-remove_replica req.client_id id rs)
apply_request-member x regular req rs rs' id h = ground arith
apply_request-member x (other n) req rs rs' id h = ground arith

apply_requests-member :
    (x : External) (reqs : List MembershipRequest) (rs rs' : List Replica) (id : Bytes)
    → apply_requests x reqs rs ≡ ok rs'
    → has_id id rs' ≡ member_after_all reqs id (has_id id rs)
unfolding apply_requests
apply_requests-member x [] rs rs' id h = ground arith
apply_requests-member x (req ∷ reqs) rs rs' id h =
    let (next, e, rest) = >>=-eq-ok (apply_request x req.type req rs) _ h in
    apply_requests-member x reqs next rs' id rest
    ∙ ap (member_after_all reqs id) (apply_request-member x req.type req rs next id e)

-- If Apply succeeds, the next configuration has the next number, and an identity is a member of
-- it exactly if adding and removing the clients of the requests in turn makes it one.
pub apply-member :
    (x : External) (c c' : Committee) (reqs : List MembershipRequest) (id : Bytes)
    → apply x c reqs ≡ ok c'
    → (c'.number ≡ inc64 c.number) × (contains c' id ≡ member_after_all reqs id (contains c id))
unfolding apply contains has_id
apply-member x c c' reqs id h =
    let (rs, e, rest) = >>=-eq-ok (apply_requests x reqs c.replicas) _ h in
    ground (arith, apply_requests-member x reqs c.replicas rs id e)

abbrev pub is_ok {ℓ} : {A : Type ℓ} → Result A → Bool
is_ok (ok a) = true
is_ok (err e) = false

-- Whether Apply takes a request, by the membership before it.
abbrev pub accepts : External → RequestType → MembershipRequest → Bool → Bool
accepts x add req before = is_ok (parse_ecdsa x req.payload)
accepts x remove req before = before
accepts x regular req before = true
accepts x (other n) req before = false

abbrev pub accepts_all : External → List MembershipRequest → (Bytes → Bool) → Bool
accepts_all x [] member = true
accepts_all x (req ∷ reqs) member =
    accepts x req.type req (member req.client_id)
    && accepts_all x reqs (λ id. member_after req.type req.client_id id (member id))

remove_replica-found :
    (target : Bytes) (rs : List Replica) → (remove_replica target rs).0 ≡ has_id target rs
unfolding remove_replica has_id
remove_replica-found target [] = refl
remove_replica-found target (r ∷ rs) = ground (arith, remove_replica-found target rs)

apply_request-accepts :
    (x : External) (t : RequestType) (req : MembershipRequest) (rs : List Replica)
    → is_ok (apply_request x t req rs) ≡ accepts x t req (has_id req.client_id rs)
unfolding apply_request
apply_request-accepts x add req rs = ground arith
apply_request-accepts x remove req rs = ground (arith, remove_replica-found req.client_id rs)
apply_request-accepts x _ req rs = refl

apply_requests-accepts :
    (x : External) (reqs : List MembershipRequest) (rs : List Replica) (member : Bytes → Bool)
    → ((id : Bytes) → has_id id rs ≡ member id)
    → is_ok (apply_requests x reqs rs) ≡ accepts_all x reqs member
unfolding apply_requests
apply_requests-accepts x [] rs member same = refl
apply_requests-accepts x (req ∷ reqs) rs member same =
    go (apply_request x req.type req rs) refl (apply_request-accepts x req.type req rs)
      (λ next. apply_requests-accepts x reqs next)
  where
    after : Bytes → Bool
    after id = member_after req.type req.client_id id (member id)

    go :
        (r : Result (List Replica))
        → apply_request x req.type req rs ≡ r
        → is_ok r ≡ accepts x req.type req (has_id req.client_id rs)
        → ((next : List Replica) (m : Bytes → Bool)
            → ((id : Bytes) → has_id id next ≡ m id)
            → is_ok (apply_requests x reqs next) ≡ accepts_all x reqs m)
        → is_ok (r >>= apply_requests x reqs) ≡ accepts_all x (req ∷ reqs) member
    go (ok next) e a rest =
        rw (← same req.client_id, ← a)
          (rest next after λ id.
            apply_request-member x req.type req rs next id e
            ∙ ap (member_after req.type req.client_id id) (same id))
    go (err _) e a rest = ground (arith, same req.client_id)

-- Apply succeeds exactly when each request in turn is acceptable: an ADD carries an ECDSA key, a
-- REMOVE names a member of the membership reached by then, and no request has a type outside the
-- protocol.
pub apply-accepts :
    (x : External) (c : Committee) (reqs : List MembershipRequest)
    → is_ok (apply x c reqs) ≡ accepts_all x reqs (contains c)
unfolding apply contains has_id
apply-accepts x c reqs =
    ground (arith, apply_requests-accepts x reqs c.replicas (contains c) (λ id. refl))
