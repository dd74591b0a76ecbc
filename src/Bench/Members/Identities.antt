-- ===== src/Bench/Members/Identities.antt =====
-- The members that a new cluster has: as many as asked for, with different identities.
use d_hotsuff.Prelude.{
  ℕ, zero, suc, ◌+◌, ◌^◌, ◌<◌, ◌≡◌, refl, ap, Bytes, bytes_instance, bytes_eq, bytes_eq_iff,
  Bool-cases, inl, inr, false, some, List, [], ◌∷◌, length, All, arith,
}
use d_hotsuff.Prelude.Decimal.{decimal-injective}
use d_hotsuff.Prelude.Distinct.{seen, Distinct}
use d_hotsuff.Prelude.Outcome.{done}
use d_hotsuff.External.{PrivateKey}
use d_hotsuff.Membership.Committee.{ids}
use d_hotsuff.Bench.Members.{
  Keygen, Member, make_members, keys_of, replicas_of, id_at, replica_with,
}

-- The key signs every digest, with numbers of at most 32 bytes.
abbrev pub CanSign : PrivateKey → Type 0
CanSign key =
    (digest : Bytes)
    → (r : ℕ) × (s : ℕ) × (key.ecdsa_sign digest ≡ some (r, s)) × (r < 2 ^ 256) × (s < 2 ^ 256)

-- Every key is generated, and signs.
abbrev pub Works : Keygen → Type 0
Works generate = (i : ℕ) → (key : PrivateKey) × (generate i ≡ some key) × CanSign key

abbrev ids_from : ℕ → ℕ → List Bytes
ids_from zero i = []
ids_from (suc n) i = id_at i ∷ ids_from n (i + 1)

id_at-injective : (i j : ℕ) → id_at i ≡ id_at j → i ≡ j
id_at-injective i j e = omega (arith, decimal-injective (i + 1) (j + 1) (cc))

seen-ids_from : (n i j : ℕ) → j < i → seen (id_at j) (ids_from n i) ≡ false
unfolding seen
seen-ids_from zero i j h = refl
seen-ids_from (suc n) i j h = elim (Bool-cases (bytes_eq (id_at i) (id_at j))) [
  | inl same ↦
      absurd (omega (arith, id_at-injective i j ((bytes_eq_iff (id_at i) (id_at j)).0 same)))
  | inr apart ↦ rw apart (seen-ids_from n (i + 1) j (omega arith))
]

ids_from-Distinct : (n i : ℕ) → Distinct (ids_from n i)
ids_from-Distinct zero i = tt
ids_from-Distinct (suc n) i = (seen-ids_from n (i + 1) i (omega arith), ids_from-Distinct n (i + 1))

record AreMembers (n i : ℕ) (members : List Member) : Type 0 where
  size : length members ≡ n
  named : ids (replicas_of members) ≡ ids_from n i
  sign : All CanSign (keys_of members)

make_members-AreMembers :
    (generate : Keygen) (n i : ℕ)
    → Works generate
    → (members : List Member) × (make_members generate n i ≡ done members) × AreMembers n i members
unfolding make_members
make_members-AreMembers generate zero i w =
    ([], refl, record { size = refl; named = refl; sign = tt })
make_members-AreMembers generate (suc n) i w =
    let (key, e, can) = w i in
    let (members, made, are) = make_members-AreMembers generate n (i + 1) w in
    (
      record { priv = key; replica = replica_with i key } ∷ members,
      rw (e, made) refl,
      record {
        size = ap suc are.size;
        named = ap (◌∷◌ (id_at i)) are.named;
        sign = (can, are.sign);
      },
    )

-- If the keys are generated and sign, the members are made, with different identities.
pub make_members_lem :
    (generate : Keygen) (n : ℕ)
    → Works generate
    → (members : List Member) × (make_members generate n 0 ≡ done members)
      × (length members ≡ n)
      × Distinct (ids (replicas_of members))
      × All CanSign (keys_of members)
make_members_lem generate n w =
    let (members, made, are) = make_members-AreMembers generate n 0 w in
    (members, made, are.size, rw are.named (ids_from-Distinct n 0), are.sign)
