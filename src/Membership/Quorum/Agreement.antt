-- ===== src/Membership/Quorum/Agreement.antt =====
-- Agreement: what ValidateQC of quorum.go gives if few members are faulty.
use d_hotsuff.Prelude.{
  ◌≤◌, ◌<◌, ◌≡◌, ◌⊎◌, inl, inr, Bool, Bool-cases, Bytes, bytes_instance, bytes_eq, bytes_eq_iff,
  bytes_eq_refl, subst, true, false, List, [], ◌∷◌, length, arith, ok,
}
use d_hotsuff.Prelude.Distinct.{seen, Distinct, Within, common, seen-common, common-Distinct}
use d_hotsuff.Proto.{QuorumCert}
use d_hotsuff.Membership.Committee.{Committee, size, ids}
use d_hotsuff.Membership.Committee.Bounds.{IsFaultBound}
use d_hotsuff.Membership.Quorum.{Verifier, validate_qc}
use d_hotsuff.Membership.Quorum.Certificates.{SignedBy, AllSigned, validate_qc_iff}
use d_hotsuff.Membership.Quorum.Intersection.{signers-Within, quorum_intersection}

-- The members outside `honest` are at most as many as the committee tolerates, and a member inside
-- signs no two block hashes under signatures that verify.
pub record Tolerates (verify : Verifier) (honest : Bytes → Bool) (c : Committee) : Type 0 where
  pub few :
      (bad : List Bytes)
      → Distinct bad
      → Within bad (ids c.replicas)
      → ((id : Bytes) → seen id bad ≡ true → honest id ≡ false)
      → length bad ≤ c.fault_cap
  pub once :
      (id h h' sig sig' : Bytes)
      → honest id ≡ true
      → SignedBy verify h c id sig
      → SignedBy verify h' c id sig'
      → h ≡ h'

-- An honest signer among more than the tolerated faults.
honest_or_all :
    (honest : Bytes → Bool) (xs : List Bytes)
    → ((id : Bytes) × (seen id xs ≡ true) × (honest id ≡ true))
      ⊎ ((id : Bytes) → seen id xs ≡ true → honest id ≡ false)
unfolding seen
honest_or_all honest [] = inr λ id h. cc
honest_or_all honest (x ∷ xs) = elim (Bool-cases (honest x)) [
  | inl good ↦ inl (x, ground (arith, bytes_eq_refl x), good)
  | inr bad ↦ elim (honest_or_all honest xs) [
    | inl (id, here, good) ↦ inl (id, ground arith, good)
    | inr all ↦ inr λ id h. ground (arith, all id, bytes_eq_iff x id)
  ]
]

signed_at :
    (verify : Verifier) (h : Bytes) (c : Committee) (signers sigs : List Bytes) (id : Bytes)
    → length sigs ≡ length signers
    → AllSigned verify h c signers sigs
    → seen id signers ≡ true
    → (sig : Bytes) × SignedBy verify h c id sig
unfolding seen
signed_at verify h c [] sigs id e all here = absurd (ground arith)
signed_at verify h c (i ∷ signers) [] id e all here = absurd (omega arith)
signed_at verify h c (i ∷ signers) (sig ∷ sigs) id e all here = elim (Bool-cases (bytes_eq i id)) [
  | inl same ↦ (sig, subst (λ j. SignedBy verify h c j sig) ((bytes_eq_iff i id).0 same) all.0)
  | inr other ↦ signed_at verify h c signers sigs id (omega arith) all.1 (ground arith)
]

-- If no more members are faulty than the fault bound, which is computed from the size, and the
-- other members sign one block hash under signatures that the verifier takes, then two
-- certificates that ValidateQC accepts for the committee, with that verifier, are of one block
-- hash.
pub certificates_agree :
    (qc qc' : QuorumCert) (c : Committee) (verify : Verifier) (honest : Bytes → Bool)
    → IsFaultBound c
    → 0 < size c
    → Tolerates verify honest c
    → validate_qc qc c verify ≡ ok tt
    → validate_qc qc' c verify ≡ ok tt
    → qc.block_hash ≡ qc'.block_hash
certificates_agree qc qc' c verify honest w pos t h h' =
    let v = (validate_qc_iff qc c verify).0 h in
    let v' = (validate_qc_iff qc' c verify).0 h' in
    let both = common qc.signer_ids qc'.signer_ids in
    elim (honest_or_all honest both) [
      | inl (id, shared, good) ↦
          let (here, there) = seen-common id qc.signer_ids qc'.signer_ids shared in
          let (sig, signed) =
            signed_at verify qc.block_hash c qc.signer_ids qc.signatures id v.paired v.signed
              here in
          let (sig', signed') =
            signed_at verify qc'.block_hash c qc'.signer_ids qc'.signatures id v'.paired v'.signed
              there in
          t.once id qc.block_hash qc'.block_hash sig sig' good signed signed'
      | inr all_bad ↦ absurd (
          omega (
            arith,
            quorum_intersection qc qc' c verify w pos h h',
            t.few both (common-Distinct qc.signer_ids qc'.signer_ids v.distinct)
                (λ a k.
                  signers-Within verify qc.block_hash c qc.signer_ids qc.signatures v.paired
                    v.signed a (seen-common a qc.signer_ids qc'.signer_ids k).0)
                all_bad,
          ))
    ]
