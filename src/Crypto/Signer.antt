-- ===== src/Crypto/Signer.antt =====
-- internal/crypto/signer.go: 64-byte ECDSA signatures over (view, configuration, block hash).
pub mod Binding
pub mod Padding
pub mod RoundTrip
use d_hotsuff.Prelude.{
  ℕ, ◌+◌, ◌-◌, Bytes, Bool, true, false, Option, none, some, List, [], ◌++◌, length, take, drop,
  replicate, ltb, nat_beq, not, if◌then◌else◌, Result, ok, err, sign_failed,
}
use d_hotsuff.External.{External, PublicKey, parse_ecdsa}
use d_hotsuff.Crypto.Encoding.{be64, from_bytes, to_bytes, copy_at}

-- p256FieldBytes and signatureLen
abbrev pub field_bytes : ℕ
field_bytes = 32

abbrev pub signature_len : ℕ
signature_len = 64

-- SHA-256(viewNum_BE8 || confNum_BE8 || blockHash)
unfoldable pub hash_tuple : External → ℕ → ℕ → Bytes → Bytes
hash_tuple x view_num conf_num block_hash =
    x.sha256 ((be64 view_num ++ be64 conf_num) ++ block_hash)

-- the two copies into a slice of `len` zero bytes: `r` ends at `half` and `s` at `len`
unfoldable pub place : ℕ → ℕ → Bytes → Bytes → Bytes
place half len r_bytes s_bytes =
    copy_at (len - length s_bytes) s_bytes
      (copy_at (half - length r_bytes) r_bytes (replicate len 0))

-- The slice expressions of encodeRS panic, `none`, if a number has too many bytes.
unfoldable pub encode_rs : ℕ → ℕ → Option Bytes
encode_rs r s =
    let r_bytes = to_bytes r in
    let s_bytes = to_bytes s in
    if ltb field_bytes (length r_bytes)
    then none
    else if ltb signature_len (length s_bytes)
    then none
    else some (place field_bytes signature_len r_bytes s_bytes)

unfoldable pub decode_rs : Bytes → ℕ × ℕ
decode_rs sig = (from_bytes 0 (take field_bytes sig), from_bytes 0 (drop field_bytes sig))

encoded : Option (ℕ × ℕ) → Result (Option Bytes)
encoded none = err sign_failed
encoded (some (r, s)) = ok (encode_rs r s)

-- `ecdsa_sign` stands for ecdsa.Sign with its key and randomness; it may fail.
unfoldable pub sign : External → (Bytes → Option (ℕ × ℕ)) → ℕ → ℕ → Bytes → Result (Option Bytes)
unfolding encoded
sign x ecdsa_sign view_num conf_num block_hash =
    encoded (ecdsa_sign (hash_tuple x view_num conf_num block_hash))

unfoldable pub verify : External → PublicKey → ℕ → ℕ → Bytes → Bytes → Bool
verify x pub_key view_num conf_num block_hash sig =
    if not (nat_beq (length sig) signature_len)
    then false
    else let (r, s) = decode_rs sig in
      x.ecdsa_verify pub_key (hash_tuple x view_num conf_num block_hash) r s

unfoldable pub load_public_key : External → Bytes → Result PublicKey
unfolding parse_ecdsa
load_public_key x der = parse_ecdsa x der
