-- ===== src/Network/Router.antt =====
-- internal/network/router.go: the calls of other replicas, and their answers.
use d_hotsuff.Prelude.{
  Option, none, some, List, Bytes, Result, ok, err, nil_message, engine_rejected, store_error,
}
use d_hotsuff.Proto.{Block, VoteMsg, NewViewMsg}

-- ConsensusEngine, with the state of the engine passed on.
pub record ConsensusEngine (S : Type 0) : Type 0 where
  pub handle_propose : Block → S → S × Result VoteMsg
  pub handle_new_view : NewViewMsg → S → S

pub record BlockStore : Type 0 where
  pub best_block : Result (Option Block)
  pub history : Result (List Block)

-- an error of the engine is answered with FailedPrecondition
unfoldable pub answered : {S : Type 0} → S × Result VoteMsg → S × Result VoteMsg
answered (s, ok vote) = (s, ok vote)
answered (s, err e) = (s, err engine_rejected)

unfoldable pub propose : {S : Type 0} → ConsensusEngine S → Option Block → S → S × Result VoteMsg
unfolding answered
propose engine none s = (s, err nil_message)
propose engine (some block) s = answered (engine.handle_propose block s)

unfoldable pub send_new_view :
    {S : Type 0} → ConsensusEngine S → Option NewViewMsg → S → S × Result (Unit {0})
send_new_view engine none s = (s, err nil_message)
send_new_view engine (some msg) s = (engine.handle_new_view msg s, ok tt)

unfoldable pub from_store : {A : Type 0} → Result A → Result A
from_store (ok a) = ok a
from_store (err e) = err store_error

-- the request is read for nothing but whether it is nil
unfoldable pub request_update : BlockStore → Option Bytes → Result (Option Block)
unfolding from_store
request_update store none = err nil_message
request_update store (some req) = from_store store.best_block

unfoldable pub request_history : BlockStore → Option Bytes → Result (List Block)
unfolding from_store
request_history store none = err nil_message
request_history store (some req) = from_store store.history
