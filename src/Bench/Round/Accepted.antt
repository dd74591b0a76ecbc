-- ===== src/Bench/Round/Accepted.antt =====
-- The certificate that a round makes, before ValidateQC with Verify of internal/crypto/signer.go.
use d_hotsuff.Prelude.{
  ℕ, zero, suc, ◌^◌, ◌≤◌, ◌<◌, ◌≡◌, refl, ap, subst, ◌∙◌, Bytes, bytes_instance, inl, inr, true,
  false, none, some, List, [], ◌∷◌, length, All, arith, ok,
}
use d_hotsuff.Prelude.Distinct.{Distinct, seen-nil}
use d_hotsuff.Prelude.Outcome.{done}
use d_hotsuff.Proto.{QuorumCert, VoteMsg}
use d_hotsuff.External.{External, PrivateKey}
use d_hotsuff.Membership.Committee.{Replica, Committee, quorum_size, size, ids}
use d_hotsuff.Membership.Committee.Lookup.{Found, replica_by_id-Found}
use d_hotsuff.Membership.Committee.Bounds.{quorum_size_pos}
use d_hotsuff.Membership.Quorum.{Verifier, validate_qc}
use d_hotsuff.Crypto.Signer.{verify, hash_tuple}
use d_hotsuff.Crypto.Signer.RoundTrip.{verify-sign}
use d_hotsuff.Crypto.Votes.Certify.{IsMadeOf, Signed, validate_qc-create_qc, create_qc-has_quorum}
use d_hotsuff.Crypto.Votes.Buffer.{has_quorum-length}
use d_hotsuff.Bench.Round.{vote_of, sign_votes, certify_block}
use d_hotsuff.Bench.Members.Identities.{CanSign}
use d_hotsuff.Bench.Round.Certificates.{sign_votes-AreVotes, aggregate_all-append}

-- Verify, for the votes of a view and a configuration.
abbrev pub verifier : External → ℕ → ℕ → Verifier
verifier x view conf none h sig = false
verifier x view conf (some key) h sig = verify x key view conf h sig

-- What the private key signs, ecdsa.Verify takes from its public half.
abbrev pub Matches : External → PrivateKey → Type 0
Matches x key =
    (digest : Bytes)
    → (r : ℕ) × (s : ℕ) × (key.ecdsa_sign digest ≡ some (r, s))
      × (x.ecdsa_verify key.public_key digest r s ≡ true)
      × (r < 2 ^ 256)
      × (s < 2 ^ 256)

-- The keys of the replicas, in order.
abbrev pub AreKeys : External → List PrivateKey → List Replica → Type 0
AreKeys x [] [] = Unit
AreKeys x (key ∷ keys) (r ∷ rs) =
    Matches x key × (r.pub_key ≡ some key.public_key) × AreKeys x keys rs
AreKeys x _ _ = ⊥

length-AreKeys :
    (x : External) (keys : List PrivateKey) (replicas : List Replica)
    → AreKeys x keys replicas
    → length replicas ≡ length keys
length-AreKeys x [] [] k = refl
length-AreKeys x (key ∷ keys) (r ∷ rs) k = ap suc (length-AreKeys x keys rs k.2)
length-AreKeys x [] (r ∷ rs) k = absurd k
length-AreKeys x (key ∷ keys) [] k = absurd k

AreKeys-CanSign :
    (x : External) (keys : List PrivateKey) (replicas : List Replica)
    → AreKeys x keys replicas
    → All CanSign keys
AreKeys-CanSign x [] rs k = tt
AreKeys-CanSign x (key ∷ keys) (r ∷ rs) k = (
  λ digest. let (a, b, e, v, la, lb) = k.0 digest in (a, b, e, la, lb),
  AreKeys-CanSign x keys rs k.2,
)
AreKeys-CanSign x (key ∷ keys) [] k = absurd k

abbrev Names : Bytes → VoteMsg → Type 0
Names h v = v.block_hash ≡ h

sign_votes-Signed :
    (x : External) (view : ℕ) (h : Bytes) (mc : Committee) (rounds : ℕ) (keys : List PrivateKey)
    (replicas : List Replica)
    → AreKeys x keys replicas
    → All (Found mc) replicas
    → (votes : List VoteMsg) × (sign_votes x view mc.number h rounds keys replicas ≡ done votes)
      × All (Signed (verifier x view mc.number) h mc) votes
      × All (Names h) votes
unfolding sign_votes
sign_votes-Signed x view h mc zero keys rs k found = ([], refl, tt, tt)
sign_votes-Signed x view h mc (suc rounds) [] rs k found = ([], refl, tt, tt)
sign_votes-Signed x view h mc (suc rounds) (key ∷ keys) [] k found = absurd k
sign_votes-Signed x view h mc (suc rounds) (key ∷ keys) (r ∷ rs) k found =
    let (a, b, e, v, la, lb) = k.0 (hash_tuple x view mc.number h) in
    let (sig, signed, verified) =
      verify-sign x key.ecdsa_sign key.public_key view mc.number h a b e v la lb in
    let (votes, rest, all, named) = sign_votes-Signed x view h mc rounds keys rs k.2 found.1 in
    (
      vote_of view mc.number h r sig ∷ votes,
      rw (signed, rest) refl,
      ((r, found.0, rw k.1 verified), all),
      (refl, named),
    )

named_hash :
    (votes : List VoteMsg) (mc : Committee) (qc : QuorumCert) (h : Bytes)
    → IsMadeOf qc votes mc
    → All (Names h) votes
    → qc.block_hash ≡ h
named_hash votes mc qc h w named =
    let (v, rest, e, _, _, same) = w.head in same ∙ (subst (All (Names h)) e named).0

-- If the keys belong to the replicas in order, a quorum makes a certificate that is accepted.
pub validate_qc-certify_block :
    (x : External) (view : ℕ) (h : Bytes) (keys : List PrivateKey) (mc : Committee)
    → AreKeys x keys mc.replicas
    → Distinct (ids mc.replicas)
    → quorum_size mc ≤ size mc
    → (qc : QuorumCert) × (certify_block x view mc.number h keys mc ≡ done qc)
      × (qc.view_number ≡ view)
      × (qc.block_hash ≡ h)
      × (validate_qc qc mc (verifier x view mc.number) ≡ ok tt)
unfolding certify_block validate_qc
validate_qc-certify_block x view h keys mc k d l =
    let pos = quorum_size_pos mc in
    let q = quorum_size mc in
    let (votes, made, are) =
      sign_votes-AreVotes x view mc.number h q keys mc.replicas
        (AreKeys-CanSign x keys mc.replicas k) d
        (omega (arith, length-AreKeys x keys mc.replicas k)) l in
    let (votes', made', signed', named') =
      sign_votes-Signed x view h mc q keys mc.replicas k (replica_by_id-Found mc d) in
    let same : votes' ≡ votes = ground arith in
    let signed = subst (All (Signed (verifier x view mc.number) h mc)) same signed' in
    let kept = aggregate_all-append [] votes tt are.distinct (λ a h. seen-nil a) in
    elim (create_qc-has_quorum votes mc pos) [
      | inl (_, (qc, e, w)) ↦
          let n = named_hash votes mc qc h w (subst (All (Names h)) same named') in
          (
            record qc { view_number = view },
            rw (made, kept, e) refl,
            refl,
            n,
            validate_qc-create_qc votes mc (verifier x view mc.number) qc pos (rw n signed) e,
          )
      | inr (few, _) ↦
          absurd (ground (arith, few, has_quorum-length votes mc pos are.distinct, are.size))
    ]
