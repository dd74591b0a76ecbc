-- ===== src/Crypto/Signer/Binding.antt =====
-- What hashTuple of signer.go binds a signature to.
use d_hotsuff.Prelude.{ℕ, ◌<◌, ◌≡◌, refl, Bytes, [], ◌∷◌, ◌++◌, length, length-append, u64, arith}
use d_hotsuff.External.{External}
use d_hotsuff.Crypto.Encoding.{be64}
use d_hotsuff.Crypto.Encoding.Laws.{be64-injective, length-be64}
use d_hotsuff.Crypto.Signer.{hash_tuple}

-- No two inputs of SHA-256 collide.
abbrev pub IsCollisionFree : External → Type 0
IsCollisionFree x = (a b : Bytes) → x.sha256 a ≡ x.sha256 b → a ≡ b

-- Two concatenations with fronts of one length have the same parts.
pub append-split : (a b c d : Bytes) → length a ≡ length b → a ++ c ≡ b ++ d → (a ≡ b) × (c ≡ d)
append-split [] [] c d l e = (refl, e)
append-split (x ∷ a) (y ∷ b) c d l e =
    let (p, q) = append-split a b c d (omega arith) (cc) in (ground (arith, p), q)
append-split [] (y ∷ b) c d l e = absurd (omega arith)
append-split (x ∷ a) [] c d l e = absurd (omega arith)

-- Without collisions of SHA-256, equal digests of 64-bit views and configurations and of block
-- hashes are of equal views, configurations and hashes.
pub hash_tuple-injective :
    (x : External) (v v' c c' : ℕ) (h h' : Bytes)
    → IsCollisionFree x
    → v < u64
    → v' < u64
    → c < u64
    → c' < u64
    → hash_tuple x v c h ≡ hash_tuple x v' c' h'
    → (v ≡ v') × (c ≡ c') × (h ≡ h')
unfolding hash_tuple
hash_tuple-injective x v v' c c' h h' free bv bv' bc bc' e =
    let words = λ (a b : ℕ). be64 a ++ be64 b in
    let same = free (words v c ++ h) (words v' c' ++ h') e in
    let (front, back) =
      append-split (words v c) (words v' c') h h'
        (omega (
          arith,
          length-append (be64 v) (be64 c),
          length-append (be64 v') (be64 c'),
          length-be64 v,
          length-be64 c,
          length-be64 v',
          length-be64 c',
        ))
        same in
    let (views, confs) =
      append-split (be64 v) (be64 v') (be64 c) (be64 c')
        (omega (arith, length-be64 v, length-be64 v')) front in
    (be64-injective v v' bv bv' views, be64-injective c c' bc bc' confs, back)
