-- ===== src/Prelude/Errors.antt =====
-- The errors of the program as values. Go's `error` is compared by its sentinel (`errors.Is`), so
-- the text of a message is not modelled.
use mathlib.Core.Path.{◌≡◌, refl}

pub data Error : Type 0 where
  -- membership
  not_found out_of_order bad_key not_in_committee unknown_type too_small no_fault : Error
  already_member not_add empty_payload : Error
  insufficient_signatures duplicate_signer unknown_signer bad_signature : Error
  -- crypto
  not_enough_votes sign_failed : Error
  -- consensus, state transfer and network
  cancelled send_failed dial_failed no_quorum non_contiguous : Error
  unsupported_message nil_message engine_rejected store_error not_wired unsafe_block : Error
  -- key files
  read_failed no_pem_block marshal_failed fatal : Error
  -- benchmarks
  too_few_replicas keygen_failed index_out_of_range : Error

-- What a function returns beside its error: Go's pair of a value and an `error`.
pub data Result {ℓ} (V : Type ℓ) : Type ℓ where
  err : (cause : Error) → Result V
  ok : (value : V) → Result V

-- if err != nil { return …, err }
infixl 5 ◌>>=◌
abbrev pub ◌>>=◌ {ℓ κ} : {V : Type ℓ} {W : Type κ} → Result V → (V → Result W) → Result W
err cause >>= rest = err cause
ok value >>= rest = rest value

-- A sequence succeeds only if its first part does, and the rest on the value of that part.
pub >>=-eq-ok {ℓ κ} :
    {V : Type ℓ} {W : Type κ} (first : Result V) (rest : V → Result W) {w : W}
    → (first >>= rest) ≡ ok w
    → (v : V) × (first ≡ ok v) × (rest v ≡ ok w)
>>=-eq-ok (err cause) rest failed = cc
>>=-eq-ok (ok v) rest done = (v, refl, done)
