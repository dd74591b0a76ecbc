-- ===== src/Crypto/Signer/RoundTrip.antt =====
-- encodeRS and decodeRS, Sign and Verify.
use d_hotsuff.Prelude.{
  ℕ, ◌+◌, ◌-◌, ◌^◌, ◌≤◌, ◌<◌, ◌≡◌, refl, Bytes, true, [], ◌++◌, length, length-append, take, drop,
  arith, Option, some, ok, ◌∙◌,
}
use mathlib.Core.List.{append-nil}
use d_hotsuff.External.{External, PublicKey}
use d_hotsuff.Crypto.Encoding.{from_bytes, to_bytes}
use d_hotsuff.Crypto.Encoding.Laws.{length-to_bytes-le, from_bytes-to_bytes}
use d_hotsuff.Crypto.Signer.{
  field_bytes, signature_len, place, encode_rs, decode_rs, hash_tuple, sign, verify,
}
use d_hotsuff.Crypto.Signer.Padding.{
  take-append_add, drop-append_add, padded, length-padded, from_bytes-padded, copy_at-zeros,
}

place_lem :
    (half len : ℕ) (r_bytes s_bytes : Bytes)
    → len ≡ half + half
    → length r_bytes ≤ half
    → length s_bytes ≤ half
    → place half len r_bytes s_bytes ≡ padded half r_bytes ++ padded half s_bytes
unfolding place
place_lem half len r_bytes s_bytes e h k = rw (
  copy_at-zeros half half len (half - length r_bytes) [] r_bytes h e (omega arith),
  copy_at-zeros half 0 half (len - length s_bytes) (padded half r_bytes) s_bytes k (omega arith)
      (omega (arith, length-padded half r_bytes h)),
  append-nil,
)

encode_rs-padded :
    (r s : ℕ)
    → length (to_bytes r) ≤ field_bytes
    → length (to_bytes s) ≤ field_bytes
    → encode_rs r s ≡ some (padded field_bytes (to_bytes r) ++ padded field_bytes (to_bytes s))
unfolding encode_rs
encode_rs-padded r s h k =
    ground (arith, place_lem field_bytes signature_len (to_bytes r) (to_bytes s) refl h k)

read_padded :
    (half : ℕ) (r s : ℕ)
    → length (to_bytes r) ≤ half
    → let sig = padded half (to_bytes r) ++ padded half (to_bytes s) in
      (from_bytes 0 (take half sig) ≡ r) × (from_bytes 0 (drop half sig) ≡ s)
read_padded half r s h =
    let front = padded half (to_bytes r) in
    let back = padded half (to_bytes s) in
    let l : half ≡ length front + 0 = omega (arith, length-padded half (to_bytes r) h) in
    (
      rw (take-append_add front back 0 half l, append-nil)
          (from_bytes-padded half (to_bytes r) ∙ from_bytes-to_bytes r),
      rw (drop-append_add front back 0 half l)
          (from_bytes-padded half (to_bytes s) ∙ from_bytes-to_bytes s),
    )

-- Two numbers below 2^256 are encoded into 64 bytes without a panic and read back.
pub decode_rs-encode_rs :
    (r s : ℕ)
    → r < 2 ^ 256
    → s < 2 ^ 256
    → (sig : Bytes) × (encode_rs r s ≡ some sig)
      × (length sig ≡ signature_len)
      × (decode_rs sig ≡ (r, s))
unfolding decode_rs
decode_rs-encode_rs r s h k =
    let lr = length-to_bytes-le 32 r h in
    let ls = length-to_bytes-le 32 s k in
    let front = padded field_bytes (to_bytes r) in
    let back = padded field_bytes (to_bytes s) in
    let (e, f) = read_padded field_bytes r s lr in
    (
      front ++ back,
      encode_rs-padded r s lr ls,
      omega (
        arith,
        length-append front back,
        length-padded field_bytes (to_bytes r) lr,
        length-padded field_bytes (to_bytes s) ls,
      ),
      ground (arith, e, f),
    )

-- A signature of ecdsa.Sign with numbers below 2^256, which ecdsa.Verify takes for the same
-- digest, is encoded by Sign and accepted by Verify for the same view, configuration and block
-- hash.
pub verify-sign :
    (x : External) (ecdsa_sign : Bytes → Option (ℕ × ℕ)) (key : PublicKey) (view conf : ℕ)
    (block_hash : Bytes) (r s : ℕ)
    → ecdsa_sign (hash_tuple x view conf block_hash) ≡ some (r, s)
    → x.ecdsa_verify key (hash_tuple x view conf block_hash) r s ≡ true
    → r < 2 ^ 256
    → s < 2 ^ 256
    → (sig : Bytes) × (sign x ecdsa_sign view conf block_hash ≡ ok (some sig))
      × (verify x key view conf block_hash sig ≡ true)
unfolding sign verify
verify-sign x ecdsa_sign key view conf block_hash r s signed good h k =
    let (sig, e, l, d) = decode_rs-encode_rs r s h k in (sig, ground (arith, e), ground (arith, d))
