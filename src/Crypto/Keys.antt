-- ===== src/Crypto/Keys.antt =====
-- The key files of internal/crypto/signer.go: LoadPrivateKey and PublicKeyToDER.
use d_hotsuff.Prelude.{
  Bytes, Option, none, some, Error, Result, ok, err, ◌>>=◌, read_failed, no_pem_block,
  marshal_failed, bad_key,
}
use d_hotsuff.External.{PublicKey, PrivateKey}

-- What x509.ParsePKCS8PrivateKey may return beside an error.
pub data Pkcs8Key : Type 0 where
  ecdsa_private : PrivateKey → Pkcs8Key
  other_private : Pkcs8Key

-- encoding/pem and crypto/x509, which may fail.
pub record Codecs : Type 0 where
  -- pem.Decode: the bytes of the first block
  pub pem_decode : Bytes → Option Bytes
  pub pem_encode : Bytes → Bytes
  pub parse_pkcs8 : Bytes → Option Pkcs8Key
  pub marshal_pkcs8 : PrivateKey → Option Bytes
  pub marshal_pkix : PublicKey → Option Bytes

-- if err != nil { return …, err }, for a call of another package
abbrev pub or_error {ℓ} : {V : Type ℓ} → Error → Option V → Result V
or_error e none = err e
or_error e (some v) = ok v

-- parsed.(*ecdsa.PrivateKey)
as_ecdsa : Pkcs8Key → Result PrivateKey
as_ecdsa other_private = err bad_key
as_ecdsa (ecdsa_private key) = ok key

-- `read_file` is os.ReadFile.
unfoldable pub load_private_key : Codecs → (Bytes → Option Bytes) → Bytes → Result PrivateKey
unfolding as_ecdsa
load_private_key io read_file path = do
  content ← or_error read_failed (read_file path)
  block ← or_error no_pem_block (io.pem_decode content)
  parsed ← or_error bad_key (io.parse_pkcs8 block)
  as_ecdsa parsed

unfoldable pub public_key_to_der : Codecs → PublicKey → Result Bytes
public_key_to_der io key = or_error marshal_failed (io.marshal_pkix key)
