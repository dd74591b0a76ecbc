-- ===== src/Consensus/Deliver/Configs.antt =====
-- How Deliver of internal/consensus/deliver.go changes the configurations.
use d_hotsuff.Prelude.{
  subst, ℕ, ◌+◌, ◌<◌, ◌≡◌, ◌≢◌, inl, inr, refl, Bytes, bytes_instance, false, List, [], ◌∷◌, arith,
  Result, ok, err, >>=-eq-ok, Bool-cases, u64,
}
use d_hotsuff.Prelude.Distinct.{seen}
use d_hotsuff.Proto.{Block, MembershipRequest}
use d_hotsuff.External.{External}
use d_hotsuff.Membership.Committee.{Committee, apply}
use d_hotsuff.Membership.Committee.Members.{apply-member}
use d_hotsuff.Membership.ConfigStore.{ConfigStore, at_number, len}
use d_hotsuff.Membership.ConfigStore.Log.{
  IsNumbered, install-IsNumbered, at_number-number, install_lem, Extends,
}
use d_hotsuff.Membership.Request.{classify_batch}
use d_hotsuff.Consensus.Chain.{hash_block}
use d_hotsuff.Consensus.Deliver.{Executor, Deliverer, change_configs, deliver, settle, deliver_in}

change_configs-IsNumbered :
    (x : External) (s s' : ConfigStore) (mc : Committee) (reqs : List MembershipRequest)
    → IsNumbered s
    → change_configs x s mc reqs ≡ ok s'
    → IsNumbered s'
unfolding change_configs
change_configs-IsNumbered x s s' mc [] w h = let e : s ≡ s' = ground arith in subst IsNumbered e w
change_configs-IsNumbered x s s' mc (req ∷ reqs) w h =
    let (next, _, e) = >>=-eq-ok (apply x mc (req ∷ reqs)) _ h in install-IsNumbered s s' next w e

settle-IsNumbered :
    (key : Bytes) (d : Deliverer) (r : Result ConfigStore)
    → IsNumbered d.configs
    → ((s : ConfigStore) → r ≡ ok s → IsNumbered s)
    → IsNumbered (settle key d r).0.configs
unfolding settle
settle-IsNumbered key d (ok configs) w h = h configs refl
settle-IsNumbered key d (err e) w h = w

deliver_in-IsNumbered :
    (x : External) (execute : Executor) (d : Deliverer) (block : Block) (r : Result Committee)
    → IsNumbered d.configs
    → IsNumbered (deliver_in x execute d block r).0.configs
unfolding deliver_in
deliver_in-IsNumbered x execute d block (err e) w = w
deliver_in-IsNumbered x execute d block (ok mc) w =
    settle-IsNumbered _ _ _ w
      (λ s. change_configs-IsNumbered x d.configs s mc (classify_batch block.batch).1 w)

-- Every delivery keeps the log of configurations numbered, failing or not.
pub deliver-IsNumbered :
    (x : External) (execute : Executor) (d : Deliverer) (block : Block)
    → IsNumbered d.configs
    → IsNumbered (deliver x execute d block).0.configs
unfolding deliver
deliver-IsNumbered x execute d block w = elim (Bool-cases (seen (hash_block x block) d.delivered)) [
  | inl old ↦ rw old w
  | inr new ↦
      rw new (deliver_in-IsNumbered x execute d block (at_number d.configs block.conf_number) w)
]

-- The change of configuration that a delivery made.
pub record Changed (x : External) (s s' : ConfigStore) (n : ℕ) (changes : List MembershipRequest)
    : Type 0 where
  pub current : Committee
  pub next : Committee
  pub found : at_number s n ≡ ok current
  pub latest : n + 1 ≡ len s
  pub applied : apply x current changes ≡ ok next
  pub extended : Extends s s' next

change_configs-Changed :
    (x : External) (s s' : ConfigStore) (mc : Committee) (n : ℕ) (changes : List MembershipRequest)
    → IsNumbered s
    → len s < u64
    → at_number s n ≡ ok mc
    → changes ≢ []
    → change_configs x s mc changes ≡ ok s'
    → Changed x s s' n changes
unfolding change_configs
change_configs-Changed x s s' mc n [] w small found some_change h = absurd (some_change refl)
change_configs-Changed x s s' mc n (req ∷ reqs) w small found some_change h =
    let (next, applied, installed) = >>=-eq-ok (apply x mc (req ∷ reqs)) _ h in
    let numbered = (apply-member x mc next (req ∷ reqs) req.client_id applied).0 in
    elim (install_lem s next) [
      | inr (_, refused) ↦ absurd (ground arith)
      | inl (e, (s2, installed2, ext)) ↦
          let same : s2 ≡ s' = ground arith in
          record {
            current = mc;
            next = next;
            found = found;
            latest = omega (arith, at_number-number s n mc w found);
            applied = applied;
            extended = subst (λ t. Extends s t next) same ext;
          }
    ]

settle-ok :
    (key : Bytes) (d : Deliverer) (r : Result ConfigStore)
    → (settle key d r).1 ≡ ok tt
    → r ≡ ok (settle key d r).0.configs
unfolding settle
settle-ok key d (ok configs) h = refl
settle-ok key d (err e) h = absurd (ground arith)

deliver_in-Changed :
    (x : External) (execute : Executor) (d : Deliverer) (block : Block) (r : Result Committee)
    → at_number d.configs block.conf_number ≡ r
    → IsNumbered d.configs
    → len d.configs < u64
    → (classify_batch block.batch).1 ≢ []
    → (deliver_in x execute d block r).1 ≡ ok tt
    → Changed x d.configs
        (deliver_in x execute d block r).0.configs
        block.conf_number
        (classify_batch block.batch).1
unfolding deliver_in
deliver_in-Changed x execute d block (err e) found w small c h = absurd (ground arith)
deliver_in-Changed x execute d block (ok mc) found w small c h =
    change_configs-Changed x d.configs _ mc block.conf_number _ w small found c (settle-ok _ _ _ h)

-- On a numbered log of fewer than 2^64 configurations, if the delivery of a new block with
-- membership changes succeeds, the block is of the latest configuration, and the log is extended
-- by what Apply makes of that configuration and the changes.
pub deliver-Changed :
    (x : External) (execute : Executor) (d : Deliverer) (block : Block)
    → IsNumbered d.configs
    → len d.configs < u64
    → seen (hash_block x block) d.delivered ≡ false
    → (classify_batch block.batch).1 ≢ []
    → (deliver x execute d block).1 ≡ ok tt
    → Changed x d.configs
        (deliver x execute d block).0.configs
        block.conf_number
        (classify_batch block.batch).1
unfolding deliver
deliver-Changed x execute d block w small new c =
    rw new
      (deliver_in-Changed x execute d block (at_number d.configs block.conf_number) refl w small c)
