-- ===== src/Keygen/Files.antt =====
-- The key files that keygen writes are those that LoadPrivateKey reads.
use mathlib.Core.List.{append_cancel_left}
use native.Mathlib.Decide.{dec_lt}
use d_hotsuff.Prelude.{
  ℕ, zero, suc, ◌+◌, ◌≤◌, ◌<◌, ◌≡◌, inl, inr, refl, subst, ap, ◌∙◌, Bytes, bytes_eq, bytes_eq_iff,
  bytes_eq_refl, bytes_instance, Bool-cases, true, false, Option, some, ◌++◌, ltb, ok, arith, All,
  All-append, nat_beq, ◌||◌, Bool, false,
}
use d_hotsuff.Prelude.Decimal.{decimal, decimal-injective, decimal-All}
use d_hotsuff.Prelude.Text.{ascii}
use d_hotsuff.Prelude.Table.{lookup, insert, lookup-insert}
use d_hotsuff.Prelude.Outcome.{done}
use d_hotsuff.External.{PrivateKey}
use d_hotsuff.Crypto.Keys.{ecdsa_private, load_private_key}
use d_hotsuff.Keygen.{
  Tools, FileSystem, heading, replica_block, id_of, path_of, make_replica, make_replicas, keygen,
}

-- A byte that separates the elements of a path, or a volume, on some system.
abbrev pub separates : ℕ → Bool
separates c = nat_beq c b'/' || nat_beq c b'\\' || nat_beq c b':'

-- A part of one element of a path.
abbrev pub IsPlain : Bytes → Type 0
IsPlain = All (λ (c : ℕ). separates c ≡ false)

-- Nothing fails, and PEM and PKCS #8 are read back. filepath.Join cleans the path that it makes,
-- which leaves a last element alone that ends in ".key" and has no separators.
pub record AllSucceed (io : Tools) (out prefix : Bytes) : Type 0 where
  pub generated :
      (i : ℕ)
      → (key : PrivateKey) × (der : Bytes) × (pub_der : Bytes) × (io.generate i ≡ some key)
        × (io.codecs.marshal_pkcs8 key ≡ some der)
        × (io.codecs.parse_pkcs8 der ≡ some (ecdsa_private key))
        × (io.codecs.marshal_pkix key.public_key ≡ some pub_der)
  pub armoured : (der : Bytes) → io.codecs.pem_decode (io.codecs.pem_encode der) ≡ some der
  pub made : io.can_make out ≡ true
  pub written : (i : ℕ) → io.can_write (path_of io out (id_of prefix i)) ≡ true
  pub apart :
      (a b : Bytes)
      → IsPlain a
      → IsPlain b
      → io.join out (a ++ ascii ".key") ≡ io.join out (b ++ ascii ".key")
      → a ≡ b

IsPlain-digit : (d : ℕ) → d < 10 → separates (b'0' + d) ≡ false
IsPlain-digit d h = ground arith

id_of-IsPlain : (prefix : Bytes) (i : ℕ) → IsPlain prefix → IsPlain (id_of prefix i)
id_of-IsPlain prefix i plain =
    All-append (λ (c : ℕ). separates c ≡ false) prefix (decimal i) plain
      (decimal-All (λ (c : ℕ). separates c ≡ false) i IsPlain-digit)

module _ (io : Tools) (out prefix : Bytes) (all : AllSucceed io out prefix)
    (plain : IsPlain prefix) where
  abbrev path : ℕ → Bytes
  path i = path_of io out (id_of prefix i)

  path-injective : (i j : ℕ) → path i ≡ path j → i ≡ j
  path-injective i j e = decimal-injective i j (
      append_cancel_left prefix (decimal i) (decimal j) (
        all.apart (id_of prefix i) (id_of prefix j) (id_of-IsPlain prefix i plain)
          (id_of-IsPlain prefix j plain) e))

  -- The file that holds the i-th key.
  abbrev Holds : FileSystem → ℕ → Type 0
  Holds files i =
      (key : PrivateKey) × (der : Bytes) × (io.generate i ≡ some key)
      × (io.codecs.marshal_pkcs8 key ≡ some der)
      × (io.codecs.parse_pkcs8 der ≡ some (ecdsa_private key))
      × (lookup (path i) files ≡ some (io.codecs.pem_encode der))

  -- A write keeps the other files.
  Holds-insert :
      (files : FileSystem) (i j : ℕ) (content : Bytes)
      → (i ≡ j → ⊥)
      → Holds files j
      → Holds (insert (path i) content files) j
  Holds-insert files i j content ne (key, der, g, m, p, found) = (
    key,
    der,
    g,
    m,
    p,
    lookup-insert (path i) (path j) content files ∙ elim (Bool-cases (bytes_eq (path i) (path j))) [
      | inl same ↦ absurd (ne (path-injective i j ((bytes_eq_iff (path i) (path j)).0 same)))
      | inr other ↦ rw other found
    ],
  )

  make_replica_lem :
      (files : FileSystem) (i : ℕ)
      → (content : Bytes) × (b : Bytes) × (make_replica io out
            (id_of prefix i)
            files
            i
            (io.generate i)
          ≡ (insert (path i) content files, some b))
        × Holds (insert (path i) content files) i
  unfolding make_replica
  make_replica_lem files i =
      let (key, der, pub_der, g, m, p, x) = all.generated i in
      let content = io.codecs.pem_encode der in
      (
        content,
        replica_block io (id_of prefix i) i (io.base64 pub_der),
        rw (g, m, all.written i, x) refl,
        (
          key,
          der,
          g,
          m,
          p,
          lookup-insert (path i) (path i) content files ∙ rw (bytes_eq_refl (path i)) refl,
        ),
      )

  -- The files of the rounds from `i` on, and those written before.
  make_replicas_lem :
      (rounds i : ℕ) (files : FileSystem) (text : Bytes)
      → (final : FileSystem) × (printed : Bytes) × (make_replicas io out prefix rounds i files text
          ≡ (final, done printed))
        × ((j : ℕ) → i ≤ j → j < i + rounds → Holds final j)
        × ((j : ℕ) → j < i → Holds files j → Holds final j)
  unfolding make_replicas
  make_replicas_lem zero i files text =
      (files, text, refl, λ j le lt. absurd (omega arith), λ j lt h. h)
  make_replicas_lem (suc rounds) i files text =
      let (content, b, made, here) = make_replica_lem files i in
      let kept = ap (λ (r : FileSystem × Option Bytes). r.0) made in
      let block = ap (λ (r : FileSystem × Option Bytes). r.1) made in
      let files' = insert (path i) content files in
      let (final, printed, rest, later, before) =
        make_replicas_lem rounds (i + 1) files' (text ++ b) in
      (
        final,
        printed,
        rw (block, make_replicas) (rw kept rest),
        λ j le lt. elim (dec_lt i j) [
          | yes after ↦ later j (omega arith) (omega arith)
          | no same ↦ before j (omega arith) (subst (λ k. Holds files' k) (omega arith) here)
        ],
        λ j lt h.
            before j (omega arith) (Holds-insert files i j content (λ e. absurd (omega arith)) h),
      )

-- If keys are generated, the directory is made, no key file and no encoding fails, PEM and PKCS
-- #8 are read back, the prefix has no path separator, and filepath.Join of the directory and a
-- name without separators that ends in .key tells the names apart, then keygen prints its
-- snippet, and for each i from 1 to n LoadPrivateKey reads the i-th key from the file named after
-- it.
pub keygen-load_private_key :
    (io : Tools) (n i : ℕ) (out prefix : Bytes) (files : FileSystem)
    → AllSucceed io out prefix
    → IsPlain prefix
    → 1 ≤ i
    → i ≤ n
    → (final : FileSystem) × (printed : Bytes) × (keygen io n out prefix files
        ≡ (final, done printed))
      × (key : PrivateKey) × (io.generate i ≡ some key)
      × (load_private_key io.codecs (λ p. lookup p final) (path_of io out (id_of prefix i))
          ≡ ok key)
unfolding keygen load_private_key
keygen-load_private_key io n i out prefix files all plain low high =
    let (final, printed, ran, holds, _) =
      make_replicas_lem io out prefix all plain n 1 files heading in
    let (key, der, g, m, p, found) = holds i low (omega arith) in
    let some_keys : ltb n 1 ≡ false = ground arith in
    (final, printed, rw (some_keys, all.made) ran, key, g, rw (found, all.armoured der, p) refl)
