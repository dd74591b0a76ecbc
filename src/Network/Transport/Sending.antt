-- ===== src/Network/Transport/Sending.antt =====
-- Send and BroadcastToCommittee of internal/network/transport.go.
use d_hotsuff.Prelude.{
  Bytes, bytes_eq, ℕ, ◌≡◌, ◌↔◌, inl, inr, refl, ap, not, Bool-cases, List, [], ◌∷◌, map, filter,
  All, Result, ok, err, Error, arith, unsupported_message,
}
use d_hotsuff.Proto.{VoteMsg}
use d_hotsuff.Membership.Committee.{Replica, Committee}
use d_hotsuff.Consensus.ViewChange.{Message, vote_msg}
use d_hotsuff.Network.Transport.{Clients, send, broadcast_loop, broadcast_to_committee, failed}

-- A vote is never sent: every attempt ends in an error.
pub send_vote :
    (c : Clients) (addr : Bytes) (v : VoteMsg) → (e : Error) × (send c addr (vote_msg v) ≡ err e)
unfolding send
send_vote c addr v = go (c.get_client addr) refl
  where
    go :
        (r : Result (Unit {0}))
        → c.get_client addr ≡ r
        → (e : Error) × (send c addr (vote_msg v) ≡ err e)
    go (ok u) h = (unsupported_message, rw h refl)
    go (err e) h = (e, rw h refl)

-- The replicas at other addresses.
abbrev pub others : Bytes → List Replica → List Replica
others my_addr rs = filter (λ (r : Replica). not (bytes_eq r.addr my_addr)) rs

failed_lem :
    {P : Type 0} (r : Result (Unit {0})) (n : ℕ)
    → ((n ≡ 0) ↔ P)
    → (failed r n ≡ 0) ↔ (r ≡ ok tt) × P
unfolding failed
failed_lem (ok u) n (to, from) = ((λ h. (refl, to h)), λ h. from h.1)
failed_lem (err e) n h = ((λ k. absurd (omega (arith, k))), λ k. absurd (let clash = k.0 in cc))

-- The loop tries each of the others once, in order, and counts no error exactly when each send
-- succeeds.
broadcast_loop_lem :
    (c : Clients) (my_addr : Bytes) (msg : Message) (rs : List Replica)
    → ((broadcast_loop c my_addr msg rs).0 ≡ map (λ (r : Replica). r.addr) (others my_addr rs))
      × (((broadcast_loop c my_addr msg rs).1 ≡ 0)
          ↔ All (λ (r : Replica). send c r.addr msg ≡ ok tt) (others my_addr rs))
unfolding broadcast_loop
broadcast_loop_lem c my_addr msg [] = (refl, ((λ h. tt), λ h. refl))
broadcast_loop_lem c my_addr msg (r ∷ rs) = elim (Bool-cases (bytes_eq r.addr my_addr)) [
  | inl mine ↦ rw mine (broadcast_loop_lem c my_addr msg rs)
  | inr other ↦
      let (addrs, errors) = broadcast_loop_lem c my_addr msg rs in
      rw other (
        ap (λ (l : List Bytes). r.addr ∷ l) addrs,
        failed_lem (send c r.addr msg) (broadcast_loop c my_addr msg rs).1 errors,
      )
]

-- BroadcastToCommittee sends once to each replica at another address, in order, and succeeds
-- exactly when each send does.
pub broadcast_to_committee_lem :
    (c : Clients) (my_addr : Bytes) (mc : Committee) (msg : Message)
    → let sent = others my_addr mc.replicas in
      ((broadcast_to_committee c my_addr mc msg).0 ≡ map (λ (r : Replica). r.addr) sent)
      × (((broadcast_to_committee c my_addr mc msg).1 ≡ ok tt)
          ↔ All (λ (r : Replica). send c r.addr msg ≡ ok tt) sent)
unfolding broadcast_to_committee
broadcast_to_committee_lem c my_addr mc msg =
    let (addrs, errors) = broadcast_loop_lem c my_addr msg mc.replicas in
    (
      addrs,
      (
        (λ h. errors.0 (ground (arith, h))),
        λ h. let none_failed = errors.1 h in rw none_failed refl,
      ),
    )
