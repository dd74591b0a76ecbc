-- ===== src/Proto.antt =====
-- The messages of proto/dhotstuff.proto. A nil message pointer is `none`; a field of an absent
-- message reads as its zero value, as the generated getters do.
use d_hotsuff.Prelude.{ℕ, Bytes, Option, none, some, List, []}

-- proto3 enums are open: a wire value outside the declared ones is kept as it is.
pub data RequestType : Type 0 where
  regular add remove : RequestType
  other : ℕ → RequestType

pub record MembershipRequest : Type 0 where
  pub type : RequestType
  pub client_id : Bytes
  pub payload : Bytes

pub record QuorumCert : Type 0 where
  pub type : Bytes
  pub view_number : ℕ
  pub conf_number : ℕ
  pub block_hash : Bytes
  pub signatures : List Bytes
  pub signer_ids : List Bytes

pub record Block : Type 0 where
  pub parent_hash : Bytes
  pub batch : List MembershipRequest
  pub justify : Option QuorumCert
  pub height : ℕ
  pub conf_number : ℕ

pub record NewViewMsg : Type 0 where
  pub view_number : ℕ
  pub conf_number : ℕ
  pub generic_qc : Option QuorumCert

pub record VoteMsg : Type 0 where
  pub view_number : ℕ
  pub conf_number : ℕ
  pub block_hash : Bytes
  pub signature : Bytes
  pub signer_id : Bytes

-- qc.GetViewNumber() and qc.GetBlockHash() on a pointer that may be nil
abbrev pub view_of : Option QuorumCert → ℕ
view_of none = 0
view_of (some qc) = qc.view_number

abbrev pub hash_of : Option QuorumCert → Bytes
hash_of none = []
hash_of (some qc) = qc.block_hash
