-- ===== src/Membership/Quorum/Certificates.antt =====
-- ValidateQC of quorum.go, against a description of certificates.
use d_hotsuff.Prelude.{
  ◌≤◌, ◌≡◌, ◌↔◌, refl, Bytes, bytes_instance, bytes_eq_iff, bytes_eq_refl, sym, true, false, Option,
  none, some, List, [], ◌∷◌, length, arith, Result, ok, err,
}
use d_hotsuff.Prelude.Distinct.{seen, Distinct, seen-head, seen-tail, seen-cons_ne, seen-nil}
use d_hotsuff.Proto.{QuorumCert}
use d_hotsuff.Membership.Committee.{Replica, Committee, quorum_size, replica_by_id, ids}
use d_hotsuff.Membership.Quorum.{Verifier, check_signer, check_next, check_signers, validate_qc}

-- A signature by a member, which the verifier takes.
abbrev pub SignedBy : Verifier → Bytes → Committee → Bytes → Bytes → Type 0
SignedBy verify block_hash c id sig =
    (r : Replica) × (replica_by_id c id ≡ some r) × (verify r.pub_key block_hash sig ≡ true)

abbrev pub AllSigned : Verifier → Bytes → Committee → List Bytes → List Bytes → Type 0
AllSigned verify h c (id ∷ ids) (sig ∷ sigs) =
    SignedBy verify h c id sig × AllSigned verify h c ids sigs
AllSigned verify h c _ _ = Unit

-- No element is in the first list, and none repeats.
abbrev pub Fresh : List Bytes → List Bytes → Type 0
Fresh before [] = Unit
Fresh before (id ∷ ids) = (seen id before ≡ false) × Fresh (id ∷ before) ids

check_signer_iff :
    (verify : Verifier) (h : Bytes) (c : Committee) (before : List Bytes) (id sig : Bytes)
    → (check_signer verify h c before id sig ≡ ok tt)
      ↔ (seen id before ≡ false) × SignedBy verify h c id sig
unfolding check_signer
check_signer_iff verify h c before id sig = go (replica_by_id c id) refl
  where
    go :
        (o : Option Replica)
        → replica_by_id c id ≡ o
        → (check_signer verify h c before id sig ≡ ok tt)
          ↔ (seen id before ≡ false) × SignedBy verify h c id sig
    go none e = (λ k. absurd (ground arith), λ (f, (r, found, v)). absurd (ground arith))
    go (some r) e = (λ k. (ground arith, (r, e, ground arith)), λ (f, (r', found, v)). ground arith)

check_next-eq-ok : (m n : Result (Unit {0})) → check_next m n ≡ ok tt → (m ≡ ok tt) × (n ≡ ok tt)
unfolding check_next
check_next-eq-ok (ok _) n h = (refl, h)
check_next-eq-ok (err _) n h = absurd (ground arith)

check_signers_iff :
    (verify : Verifier) (h : Bytes) (c : Committee) (before ids sigs : List Bytes)
    → length ids ≡ length sigs
    → (check_signers verify h c before ids sigs ≡ ok tt)
      ↔ Fresh before ids × AllSigned verify h c ids sigs
unfolding check_signers
check_signers_iff verify h c before [] [] e = ((λ _. (tt, tt)), (λ _. refl))
check_signers_iff verify h c before (id ∷ ids) (sig ∷ sigs) e =
    let one = check_signer_iff verify h c before id sig in
    let rest = check_signers_iff verify h c (id ∷ before) ids sigs (omega arith) in
    (
      λ k.
          let (a, b) = check_next-eq-ok _ _ k in
          (((one.0 a).0, (rest.0 b).0), ((one.0 a).1, (rest.0 b).1)),
      λ (f, s). rw (one.1 (f.0, s.0)) (rest.1 (f.1, s.1)),
    )
check_signers_iff verify h c before [] (sig ∷ sigs) e = absurd (omega arith)
check_signers_iff verify h c before (id ∷ ids) [] e = absurd (omega arith)

Fresh-Distinct :
    (before ids : List Bytes)
    → Fresh before ids
    → Distinct ids × ((a : Bytes) → seen a ids ≡ true → seen a before ≡ false)
unfolding seen
Fresh-Distinct before [] f = (tt, λ a h. absurd (ground arith))
Fresh-Distinct before (id ∷ ids) f =
    let (d, n) = Fresh-Distinct (id ∷ before) ids f.1 in
    (
      (ground (arith, n id, bytes_eq_refl id), d),
      λ a h. ground (arith, n a, bytes_eq_iff id a, f.0),
    )

Distinct-Fresh :
    (before ids : List Bytes)
    → Distinct ids
    → ((a : Bytes) → seen a ids ≡ true → seen a before ≡ false)
    → Fresh before ids
unfolding seen
Distinct-Fresh before [] d n = tt
Distinct-Fresh before (id ∷ ids) d n = (
  n id (seen-head id ids),
  Distinct-Fresh (id ∷ before) ids d.1
      λ a h. ground (arith, n a (seen-tail a id ids h), seen-cons_ne id a ids d.0 h),
)

-- The five conditions of the documentation.
pub record IsCertificate (qc : QuorumCert) (c : Committee) (verify : Verifier) : Type 0 where
  pub enough : quorum_size c ≤ length qc.signatures
  pub paired : length qc.signatures ≡ length qc.signer_ids
  pub distinct : Distinct qc.signer_ids
  pub signed : AllSigned verify qc.block_hash c qc.signer_ids qc.signatures

-- ValidateQC succeeds exactly on a certificate: at least a quorum of signatures, one signer each,
-- no signer twice, every signer a member, every signature verified.
pub validate_qc_iff :
    (qc : QuorumCert) (c : Committee) (verify : Verifier)
    → (validate_qc qc c verify ≡ ok tt) ↔ IsCertificate qc c verify
unfolding validate_qc
validate_qc_iff qc c verify = (
  λ h.
      let same : length qc.signatures ≡ length qc.signer_ids = ground arith in
      let checked =
        (check_signers_iff verify qc.block_hash c [] qc.signer_ids qc.signatures (sym same)).0
          (ground arith) in
      record {
        enough = ground arith;
        paired = same;
        distinct = (Fresh-Distinct [] qc.signer_ids checked.0).0;
        signed = checked.1;
      },
  λ w.
      let checked =
        (check_signers_iff verify qc.block_hash c [] qc.signer_ids qc.signatures (sym w.paired)).1
          (Distinct-Fresh [] qc.signer_ids w.distinct (λ a h. seen-nil a), w.signed) in
      ground (arith, w.enough, w.paired),
)
