-- ===== src/Keygen.antt =====
-- cmd/keygen/main.go: key files and the genesis snippet.
pub mod Ports
pub mod Files
use d_hotsuff.Prelude.{
  ℕ, zero, suc, ◌+◌, Bytes, bytes_instance, Bool, true, false, Option, none, some, List, [], ◌∷◌,
  ◌++◌, ltb, if◌then◌else◌, fatal,
}
use d_hotsuff.Prelude.Decimal.{decimal}
use d_hotsuff.Prelude.Text.{ascii}
use d_hotsuff.Prelude.Table.{Table, insert}
use d_hotsuff.Prelude.Outcome.{Outcome, failed, done}
use d_hotsuff.External.{PrivateKey}
use d_hotsuff.Crypto.Keys.{Codecs}

-- What the tool takes from other packages.
pub record Tools : Type 0 where
  pub codecs : Codecs
  -- ecdsa.GenerateKey at its i-th call; `none` is an error
  pub generate : ℕ → Option PrivateKey
  -- os.MkdirAll and os.WriteFile: whether they succeed
  pub can_make : Bytes → Bool
  pub can_write : Bytes → Bool
  -- filepath.Join of the directory and a name
  pub join : Bytes → Bytes → Bytes
  -- base64.StdEncoding.EncodeToString, and the verb %q of fmt
  pub base64 : Bytes → Bytes
  pub quote : Bytes → Bytes

abbrev pub FileSystem : Type 0
FileSystem = Table Bytes Bytes

abbrev pub newline : Bytes
newline = 10 ∷ []

-- "# genesis.toml — paste …", the table and its first key
abbrev pub heading : Bytes
heading =
    ascii "# genesis.toml "
    ++ (226 ∷ 128 ∷ 148 ∷ [])
    ++ ascii " paste the section below into config/genesis.toml"
    ++ newline
    ++ ascii "[committee]"
    ++ newline
    ++ ascii "config_number = 0"
    ++ newline
    ++ newline

-- the address without its quotes
unfoldable pub address_of : ℕ → Bytes
address_of i = ascii "127.0.0.1:800" ++ decimal i

unfoldable pub replica_block : Tools → Bytes → ℕ → Bytes → Bytes
unfolding address_of
replica_block io id i pub_b64 =
    ascii "[[replicas]]"
    ++ newline
    ++ ascii "id      = "
    ++ io.quote id
    ++ newline
    ++ ascii "address = "
    ++ (b'"' ∷ [])
    ++ address_of i
    ++ (b'"' ∷ [])
    ++ newline
    ++ ascii "pubkey  = "
    ++ io.quote pub_b64
    ++ newline
    ++ newline

abbrev pub id_of : Bytes → ℕ → Bytes
id_of prefix i = prefix ++ decimal i

abbrev pub path_of : Tools → Bytes → Bytes → Bytes
path_of io out id = io.join out (id ++ ascii ".key")

-- log.Fatalf ends the program; the files written before stay.
unfoldable pub write_key : Tools → Bytes → FileSystem → Option Bytes → FileSystem × Bool
unfolding insert
write_key io path files none = (files, false)
write_key io path files (some der) =
    if io.can_write path
    then (insert path (io.codecs.pem_encode der) files, true)
    else (files, false)

-- one round of the loop: the files, and the text of the replica's block unless the program ends
unfoldable pub make_replica :
    Tools → Bytes → Bytes → FileSystem → ℕ → Option PrivateKey → FileSystem × Option Bytes
unfolding write_key replica_block
make_replica io out id files i none = (files, none)
make_replica io out id files i (some key) =
    let (files', written) = write_key io (path_of io out id) files (io.codecs.marshal_pkcs8 key) in
    if written
    then (
      files',
      elim (io.codecs.marshal_pkix key.public_key) [
        | none ↦ none
        | some der ↦ some (replica_block io id i (io.base64 der))
      ],
    )
    else (files', none)

-- the loop over `i`, and the snippet printed at its end
unfoldable pub make_replicas :
    Tools → Bytes → Bytes → ℕ → ℕ → FileSystem → Bytes → FileSystem × Outcome Bytes
make_replicas io out prefix zero i files text = (files, done text)
make_replicas io out prefix (suc rounds) i files text =
    let (files', block) = make_replica io out (id_of prefix i) files i (io.generate i) in
    elim block [
      | none ↦ (files', failed fatal)
      | some b ↦ make_replicas io out prefix rounds (i + 1) files' (text ++ b)
    ]

-- main, with its flags; `n` is not negative
unfoldable pub keygen : Tools → ℕ → Bytes → Bytes → FileSystem → FileSystem × Outcome Bytes
keygen io n out prefix files =
    if ltb n 1
    then (files, failed fatal)
    else if io.can_make out
    then make_replicas io out prefix n 1 files heading
    else (files, failed fatal)
