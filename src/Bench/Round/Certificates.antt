-- ===== src/Bench/Round/Certificates.antt =====
-- The certificate that a round makes.
use mathlib.Core.List.{append-nil, append_assoc, map-append}
use d_hotsuff.Prelude.{
  ℕ, zero, suc, ◌≤◌, ◌≡◌, refl, ap, ◌∙◌, sym, Bytes, bytes_instance, inl, inr, true, false, some,
  List, [], ◌∷◌, ◌++◌, length, All, arith, ok, subst,
}
use d_hotsuff.Prelude.Distinct.{
  seen, Distinct, Within, seen-head, seen-tail, seen-append, seen-cons_ne, seen-nil,
}
use d_hotsuff.Prelude.Outcome.{done}
use d_hotsuff.Proto.{QuorumCert, VoteMsg}
use d_hotsuff.External.{External, PrivateKey}
use d_hotsuff.Membership.Committee.{Replica, Committee, quorum_size, ids}
use d_hotsuff.Membership.Committee.Bounds.{quorum_size_pos}
use d_hotsuff.Membership.Quorum.FirstVotes.{signers}
use d_hotsuff.Crypto.Signer.{sign, hash_tuple}
use d_hotsuff.Crypto.Signer.RoundTrip.{decode_rs-encode_rs}
use d_hotsuff.Crypto.Votes.{aggregate_votes}
use d_hotsuff.Crypto.Votes.Buffer.{aggregate_votes-Distinct, has_quorum-length}
use d_hotsuff.Crypto.Votes.Certify.{create_qc-has_quorum}
use d_hotsuff.Bench.Round.{vote_of, sign_votes, aggregate_all, certify_block}
use d_hotsuff.Bench.Members.Identities.{CanSign}

pub sign_lem :
    (x : External) (key : PrivateKey) (view conf : ℕ) (h : Bytes)
    → CanSign key
    → (sig : Bytes) × (sign x key.ecdsa_sign view conf h ≡ ok (some sig))
unfolding sign
sign_lem x key view conf h can =
    let (r, s, e, lr, ls) = can (hash_tuple x view conf h) in
    let (sig, enc, _, _) = decode_rs-encode_rs r s lr ls in (sig, rw (e, enc) refl)

-- Votes of different replicas, named in order.
pub record AreVotes (rounds : ℕ) (replicas : List Replica) (votes : List VoteMsg) : Type 0 where
  pub size : length votes ≡ rounds
  pub inside : Within (signers votes) (ids replicas)
  pub distinct : Distinct (signers votes)

Within-both : (a : Bytes) (xs zs : List Bytes) → Within xs zs → Within (a ∷ xs) (a ∷ zs)
unfolding seen
Within-both a xs zs w b h = ground (arith, w b)

outside : (a : Bytes) (xs zs : List Bytes) → Within xs zs → seen a zs ≡ false → seen a xs ≡ false
outside a xs zs w n = ground (arith, w a)

pub sign_votes-AreVotes :
    (x : External) (view conf : ℕ) (h : Bytes) (rounds : ℕ) (keys : List PrivateKey)
    (replicas : List Replica)
    → All CanSign keys
    → Distinct (ids replicas)
    → rounds ≤ length keys
    → rounds ≤ length replicas
    → (votes : List VoteMsg) × (sign_votes x view conf h rounds keys replicas ≡ done votes)
      × AreVotes rounds replicas votes
unfolding sign_votes
sign_votes-AreVotes x view conf h zero keys rs can d lk lr = (
  [],
  refl,
  record { size = refl; inside = λ a k. absurd (ground (arith, seen-nil a)); distinct = tt },
)
sign_votes-AreVotes x view conf h (suc rounds) [] rs can d lk lr = absurd (omega arith)
sign_votes-AreVotes x view conf h (suc rounds) (key ∷ keys) [] can d lk lr = absurd (omega arith)
sign_votes-AreVotes x view conf h (suc rounds) (key ∷ keys) (r ∷ rs) can d lk lr =
    let (sig, e) = sign_lem x key view conf h can.0 in
    let (votes, rest, are) =
      sign_votes-AreVotes x view conf h rounds keys rs can.1 d.1 (omega arith) (omega arith) in
    (
      vote_of view conf h r sig ∷ votes,
      rw (e, rest) refl,
      record {
        size = ap suc are.size;
        inside = Within-both r.id (signers votes) (ids rs) are.inside;
        distinct = (outside r.id (signers votes) (ids rs) are.inside d.0, are.distinct);
      },
    )

apart :
    (acc : List VoteMsg) (v : VoteMsg) (votes : List VoteMsg)
    → seen v.signer_id (signers votes) ≡ false
    → ((a : Bytes) → seen a (signers (v ∷ votes)) ≡ true → seen a (signers acc) ≡ false)
    → (a : Bytes) → seen a (signers votes) ≡ true
    → seen a (signers (acc ++ v ∷ [])) ≡ false
unfolding seen
apart acc v votes new n a h = ground (
  arith,
  map-append (λ (w : VoteMsg). w.signer_id) acc (v ∷ []),
  seen-append a (signers acc) (v.signer_id ∷ []),
  seen-cons_ne v.signer_id a (signers votes) new h,
  n a (seen-tail a v.signer_id (signers votes) h),
)

-- Votes of different signers are all kept, in order.
pub aggregate_all-append :
    (acc votes : List VoteMsg)
    → Distinct (signers acc)
    → Distinct (signers votes)
    → ((a : Bytes) → seen a (signers votes) ≡ true → seen a (signers acc) ≡ false)
    → aggregate_all acc votes ≡ acc ++ votes
unfolding aggregate_all
aggregate_all-append acc [] d d' n = sym (append-nil acc)
aggregate_all-append acc (v ∷ votes) d d' n =
    let (next, e) = aggregate_votes-Distinct acc v d in
    let new = n v.signer_id (seen-head v.signer_id (signers votes)) in
    let added : aggregate_votes acc v ≡ acc ++ v ∷ [] = rw (e, new) refl in
    rw added (
      aggregate_all-append (acc ++ v ∷ []) votes (subst (λ l. Distinct (signers l)) added next) d'.1
        (apart acc v votes d'.0 n)
      ∙ append_assoc acc (v ∷ []) votes)

-- A quorum of different members with keys that sign makes a certificate for the round's view.
pub certify_block_lem :
    (x : External) (view conf : ℕ) (h : Bytes) (keys : List PrivateKey) (mc : Committee)
    → All CanSign keys
    → Distinct (ids mc.replicas)
    → quorum_size mc ≤ length keys
    → quorum_size mc ≤ length mc.replicas
    → (qc : QuorumCert) × (certify_block x view conf h keys mc ≡ done qc) × (qc.view_number ≡ view)
unfolding certify_block
certify_block_lem x view conf h keys mc can d lk lr =
    let pos = quorum_size_pos mc in
    let (votes, made, are) =
      sign_votes-AreVotes x view conf h (quorum_size mc) keys mc.replicas can d lk lr in
    let kept = aggregate_all-append [] votes tt are.distinct (λ a h. seen-nil a) in
    elim (create_qc-has_quorum votes mc pos) [
      | inl (_, (qc, e, _)) ↦ (record qc { view_number = view }, rw (made, kept, e) refl, refl)
      | inr (few, _) ↦
          absurd (ground (arith, few, has_quorum-length votes mc pos are.distinct, are.size))
    ]
