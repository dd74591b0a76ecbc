-- ===== src/External.antt =====
-- What the program takes from crypto/sha256, crypto/ecdsa and crypto/x509: parameters of the model.
use d_hotsuff.Prelude.{
  ℕ, ◌≡◌, Bytes, Bool, Option, none, some, Error, Result, ok, err, bad_key, arith,
}

-- ecdsa.PublicKey: a point of the curve P-256.
pub record PublicKey : Type 0 where
  pub x : ℕ
  pub y : ℕ

-- ecdsa.PrivateKey: its public half, and ecdsa.Sign with it.
pub record PrivateKey : Type 0 where
  pub public_key : PublicKey
  pub ecdsa_sign : Bytes → Option (ℕ × ℕ)

-- What x509.ParsePKIXPublicKey may return beside an error.
pub data PkixKey : Type 0 where
  ecdsa_key : PublicKey → PkixKey
  other_key : PkixKey

pub record External : Type 0 where
  pub sha256 : Bytes → Bytes
  -- ecdsa.Verify(pub, digest, r, s)
  pub ecdsa_verify : PublicKey → Bytes → ℕ → ℕ → Bool
  -- x509.ParsePKIXPublicKey(der)
  pub parse_pkix : Bytes → Option PkixKey

-- rawKey.(*ecdsa.PublicKey), after the parse
as_ecdsa : Option PkixKey → Result PublicKey
as_ecdsa none = err bad_key
as_ecdsa (some other_key) = err bad_key
as_ecdsa (some (ecdsa_key key)) = ok key

-- The key of an ADD request's payload: the parse and the type assertion.
unfoldable pub parse_ecdsa : External → Bytes → Result PublicKey
unfolding as_ecdsa
parse_ecdsa x der = as_ecdsa (x.parse_pkix der)

-- The only failure is a bad key.
pub parse_ecdsa-error :
    (x : External) (der : Bytes) (e : Error) → parse_ecdsa x der ≡ err e → e ≡ bad_key
unfolding parse_ecdsa
parse_ecdsa-error x der e h = ground arith
