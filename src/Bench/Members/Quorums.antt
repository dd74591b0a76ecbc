-- ===== src/Bench/Members/Quorums.antt =====
-- The committee of a new cluster: its quorum is made of members that sign.
use d_hotsuff.Prelude.{ℕ, ◌≤◌, ◌≡◌, ◌∙◌, bytes_instance, List, length, length-map, All, arith}
use d_hotsuff.Prelude.Distinct.{Distinct}
use d_hotsuff.Prelude.Outcome.{done}
use d_hotsuff.External.{PrivateKey}
use d_hotsuff.Membership.Committee.{Committee, new_committee, quorum_size, ids, size}
use d_hotsuff.Membership.Committee.Bounds.{new_committee-IsFaultBound, quorum_size_bounds}
use d_hotsuff.Bench.Members.{Keygen, Member, make_members, keys_of, replicas_of}
use d_hotsuff.Bench.Members.Identities.{CanSign, Works, make_members_lem}

-- The keys sign, belong to different identities, and are enough for a quorum of the committee.
pub record AreQuorate (keys : List PrivateKey) (mc : Committee) : Type 0 where
  pub distinct : Distinct (ids mc.replicas)
  pub inside : quorum_size mc ≤ size mc
  pub enough : quorum_size mc ≤ length keys
  pub sign : All CanSign keys

pub make_members-AreQuorate :
    (generate : Keygen) (n : ℕ)
    → Works generate
    → 4 ≤ n
    → (members : List Member) × (make_members generate n 0 ≡ done members)
      × AreQuorate (keys_of members) (new_committee 0 (replicas_of members))
unfolding new_committee
make_members-AreQuorate generate n w four =
    let (members, made, count, distinct, sign) = make_members_lem generate n w in
    let mc = new_committee 0 (replicas_of members) in
    let nc : size mc ≡ n = length-map (λ (m : Member). m.replica) members ∙ count in
    let nk : length (keys_of members) ≡ n = length-map (λ (m : Member). m.priv) members ∙ count in
    let (_, quorum, _) =
      quorum_size_bounds mc (new_committee-IsFaultBound 0 (replicas_of members)) (omega arith) in
    (
      members,
      made,
      record { distinct = distinct; inside = omega arith; enough = omega arith; sign = sign },
    )
