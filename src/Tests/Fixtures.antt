-- ===== src/Tests/Fixtures.antt =====
-- A cluster of four replicas, its blocks and its votes. SHA-256 is the identity here, which has no
-- collisions, and every signature verifies.
use d_hotsuff.Prelude.{ℕ, Bytes, refl, true, false, none, some, List, [], ◌∷◌, replicate}
use d_hotsuff.Proto.{Block, MembershipRequest, QuorumCert, RequestType, VoteMsg, regular, add}
use d_hotsuff.External.{External, PublicKey, ecdsa_key}
use d_hotsuff.Membership.Committee.{Replica, Committee}
use d_hotsuff.Membership.ConfigStore.{ConfigStore, new_config_store}
use d_hotsuff.Membership.ConfigStore.Log.{IsNumbered, new_config_store-IsNumbered}
use d_hotsuff.Membership.Quorum.{Verifier}
use d_hotsuff.Reputation.{Floats}
use d_hotsuff.Consensus.Chain.{BlockchainReader, hash_block}
use d_hotsuff.Consensus.Pipeline.{empty_window}
use d_hotsuff.Consensus.Deliver.{Deliverer, Executor}
use d_hotsuff.Consensus.Replica.{Environment, DHotStuff}

abbrev pub key : PublicKey
key = record { x = 1; y = 2 }

abbrev pub external : External
external = record {
  sha256 = λ b. b;
  ecdsa_verify = λ k digest r s. true;
  parse_pkix = λ der. some (ecdsa_key key);
}

abbrev pub accept_all : Verifier
accept_all = λ k h sig. true

abbrev pub replica_at : ℕ → Replica
replica_at i = record { id = i ∷ []; addr = i ∷ 0 ∷ []; pub_key = some key }

abbrev pub four : Committee
four = record {
  number = 0;
  replicas = replica_at 1 ∷ replica_at 2 ∷ replica_at 3 ∷ replica_at 4 ∷ [];
  fault_cap = 1;
}

abbrev pub store : ConfigStore
store = record { configs = four ∷ []; subscribers = [] }

pub store-IsNumbered : IsNumbered store
unfolding new_config_store
store-IsNumbered = new_config_store-IsNumbered four refl

abbrev pub request : RequestType → ℕ → MembershipRequest
request t i = record { type = t; client_id = i ∷ []; payload = 7 ∷ [] }

-- A block on a parent, with a batch.
abbrev pub block_on : Bytes → ℕ → List MembershipRequest → Block
block_on parent height batch = record {
  parent_hash = parent;
  batch = batch;
  justify = none;
  height = height;
  conf_number = 0;
}

abbrev pub root : Block
root = block_on [] 1 (request regular 9 ∷ request add 5 ∷ [])

abbrev pub child : Block → Block
child b = block_on (hash_block external b) 2 []

abbrev pub signature : Bytes
signature = replicate 64 1

abbrev pub vote_by : ℕ → VoteMsg
vote_by i = record {
  view_number = 0;
  conf_number = 0;
  block_hash = 8 ∷ [];
  signature = signature;
  signer_id = i ∷ [];
}

abbrev pub certificate : ℕ → Bytes → List Bytes → QuorumCert
certificate view hash signers = record {
  type = [];
  view_number = view;
  conf_number = 0;
  block_hash = hash;
  signatures = signature ∷ signature ∷ signature ∷ [];
  signer_ids = signers;
}

abbrev pub blockchain : BlockchainReader
blockchain = record { get = λ h. none; extends = λ c a. false }

abbrev pub floats : Floats
floats = record {
  from_u64 = λ n. n;
  plus = λ a b. a;
  times = λ a b. a;
  divide = λ a b. a;
  greater = λ a b. false;
  differs = λ a b. false;
  one = 1;
  low = 1;
  high = 1;
  default_alpha = 1;
  default_beta = 0;
}

abbrev pub execute : Executor
execute = λ log req. req.payload

abbrev pub environment : Environment
environment = record {
  external = external;
  floats = floats;
  blockchain = blockchain;
  network = λ sent. false;
  execute = execute;
  sign_fn = λ view conf h. some signature;
}

abbrev pub deliverer : Deliverer
deliverer = record { configs = store; delivered = []; effects = [] }

-- A replica in the given view, its last timeout having been in view 0.
abbrev pub replica_in : ℕ → DHotStuff
replica_in view = record {
  my_id = 1 ∷ [];
  cur_view = view;
  cur_conf = 0;
  safety = record { locked_qc = none; generic_qc = none };
  pipeline = empty_window;
  deliverer = deliverer;
  vc = record { cur_view = 0 };
  rep_store = none;
  request_q = [];
  queue_size = 10;
  votes_buf = [];
  new_view_buf = [];
  sent = [];
}
