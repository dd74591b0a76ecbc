-- ===== src/Reputation/Identities.antt =====
-- `<` on the identities of replicas, by which Select of internal/reputation/store.go breaks ties.
use d_hotsuff.Prelude.{◌≡◌, ◌⊎◌, inl, inr, refl, Bytes, true, false, [], ◌∷◌, arith}
use d_hotsuff.Reputation.{bytes_lt}

pub bytes_lt_irrefl : (x : Bytes) → bytes_lt x x ≡ false
unfolding bytes_lt
bytes_lt_irrefl [] = refl
bytes_lt_irrefl (a ∷ x) = ground (arith, bytes_lt_irrefl x)

pub bytes_lt_trans :
    (x y z : Bytes) → bytes_lt x y ≡ true → bytes_lt y z ≡ true → bytes_lt x z ≡ true
unfolding bytes_lt
bytes_lt_trans [] [] z h k = cc
bytes_lt_trans [] (b ∷ y) [] h k = cc
bytes_lt_trans [] (b ∷ y) (c ∷ z) h k = refl
bytes_lt_trans (a ∷ x) [] z h k = cc
bytes_lt_trans (a ∷ x) (b ∷ y) [] h k = cc
bytes_lt_trans (a ∷ x) (b ∷ y) (c ∷ z) h k = ground (arith, bytes_lt_trans x y z, h, k)

pub bytes_lt_cotrans :
    (x y z : Bytes) → bytes_lt x z ≡ true → (bytes_lt x y ≡ true) ⊎ (bytes_lt y z ≡ true)
unfolding bytes_lt
bytes_lt_cotrans [] [] z h = inr h
bytes_lt_cotrans [] (b ∷ y) z h = inl refl
bytes_lt_cotrans (a ∷ x) y [] h = cc
bytes_lt_cotrans (a ∷ x) [] (c ∷ z) h = inr refl
bytes_lt_cotrans (a ∷ x) (b ∷ y) (c ∷ z) h = ground (arith, bytes_lt_cotrans x y z, h)
