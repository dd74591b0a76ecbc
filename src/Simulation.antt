-- ===== src/Simulation.antt =====
-- tests/simulation/network_sim.go: a simulated network that is synchronous from some time on. A
-- time.Time is a number of nanoseconds, and no duration is negative.
pub mod Delivery
pub mod Adversaries
use d_hotsuff.Prelude.{
  ℕ, zero, suc, ◌+◌, ◌*◌, ◌^◌, Bytes, bytes_instance, Bool, true, false, ◌&&◌, not, Option, none,
  some, List, [], ◌∷◌, ◌++◌, length, take, ltb, leb, if◌then◌else◌,
}
use d_hotsuff.Prelude.Distinct.{seen}
use d_hotsuff.Prelude.Table.{Table, insert}
use d_hotsuff.Reputation.{bytes_lt}

pub record FakeClock : Type 0 where
  pub now : ℕ

abbrev pub new_fake_clock : ℕ → FakeClock
new_fake_clock t = record { now = t }

unfoldable pub advance : FakeClock → ℕ → FakeClock
advance c d = record { now = c.now + d }

unfoldable pub set : FakeClock → ℕ → FakeClock
set c t = record { now = t }

pub record PendingMsg : Type 0 where
  pub from : Bytes
  pub to : Bytes
  pub msg : Bytes
  pub deliver_at : ℕ

pub record DeliveredMsg : Type 0 where
  pub from : Bytes
  pub to : Bytes
  pub msg : Bytes

pub record SimReplica : Type 0 where
  pub id : Bytes
  pub byzantine : Bool

-- What a type that implements the interface decides; intercept_msg gives `drop` and `delay`.
pub record AdversaryModel : Type 0 where
  pub is_byzantine : Bytes → Bool
  pub intercept_msg : Bytes → Bytes → Bytes → Bool × ℕ
  pub max_byzantine : ℕ

-- rand.Rand: Int63n at its i-th call
abbrev pub Rng : Type 0
Rng = ℕ → ℕ → ℕ

-- `draws` counts the calls of the generator. The clock is shared with the caller, who moves it.
pub record NetSim : Type 0 where
  pub replicas : Table Bytes SimReplica
  pub gst : ℕ
  pub max_delay : ℕ
  pub adversary : AdversaryModel
  pub clock : FakeClock
  pub rng : Rng
  pub draws : ℕ
  pub msg_q : List PendingMsg

-- the loop of NewNetSim
replicas_of : AdversaryModel → List Bytes → Table Bytes SimReplica → Table Bytes SimReplica
unfolding insert
replicas_of a [] m = m
replicas_of a (id ∷ ids) m =
    replicas_of a ids (insert id (record { id = id; byzantine = a.is_byzantine id }) m)

-- 365 * 24 * time.Hour
abbrev pub one_year : ℕ
one_year = 365 * 24 * 3600 * 1000000000

unfoldable pub new_net_sim : List Bytes → ℕ → AdversaryModel → FakeClock → Rng → NetSim
unfolding replicas_of
new_net_sim replica_ids max_delay adversary clock rng = record {
  replicas = replicas_of adversary replica_ids [];
  gst = clock.now + one_year;
  max_delay = max_delay;
  adversary = adversary;
  clock = clock;
  rng = rng;
  draws = 0;
  msg_q = [];
}

unfoldable pub set_gst : NetSim → ℕ → NetSim
set_gst n t = record n { gst = t }

abbrev pub gst_of : NetSim → ℕ
gst_of n = n.gst

abbrev pub queue : NetSim → Bytes → Bytes → Bytes → ℕ → NetSim
queue n from to msg delay = record n {
  msg_q =
      n.msg_q ++ record { from = from; to = to; msg = msg; deliver_at = n.clock.now + delay } ∷ [];
}

-- Int63n panics, `none`, unless its argument is a positive int64; one more than the largest
-- duration is not.
unfoldable pub send : NetSim → Bytes → Bytes → Bytes → Option NetSim
send n from to msg =
    if ltb n.clock.now n.gst
    then (let (drop, delay) = n.adversary.intercept_msg from to msg in
        if drop && not (n.adversary.is_byzantine from)
        then some n
        else some (queue n from to msg delay))
    else if leb (2 ^ 63) (n.max_delay + 1)
    then none
    else some
        (queue (record n { draws = n.draws + 1 }) from to msg (n.rng n.draws (n.max_delay + 1)))

abbrev pub delivery : PendingMsg → DeliveredMsg
delivery m = record { from = m.from; to = m.to; msg = m.msg }

-- the loop of Tick: the messages delivered, and those that remain
unfoldable pub due : ℕ → List PendingMsg → List DeliveredMsg × List PendingMsg
due now [] = ([], [])
due now (m ∷ ms) =
    let (delivered, remaining) = due now ms in
    if not (ltb now m.deliver_at)
    then (delivery m ∷ delivered, remaining)
    else (delivered, m ∷ remaining)

unfoldable pub tick : NetSim → ℕ → NetSim × List DeliveredMsg
unfolding due
tick n now =
    let (delivered, remaining) = due now n.msg_q in (record n { msg_q = remaining }, delivered)

abbrev pub pending_count : NetSim → ℕ
pending_count n = length n.msg_q

unfoldable pub is_post_gst : NetSim → Bool
is_post_gst n = not (ltb n.clock.now n.gst)

-- sort.Strings, as an insertion sort: the order of equal strings makes no difference
place_string : Bytes → List Bytes → List Bytes
place_string s [] = s ∷ []
place_string s (t ∷ ts) =
    let rest = place_string s ts in if bytes_lt t s then t ∷ rest else s ∷ t ∷ ts

unfoldable pub sort_strings : List Bytes → List Bytes
unfolding place_string
sort_strings [] = []
sort_strings (s ∷ ss) = place_string s (sort_strings ss)

-- the loop over the first `fc` of the sorted identities
corrupted : List Bytes → List Bytes → List Bytes
corrupted [] keys = keys
corrupted (id ∷ ids) keys = corrupted ids (if seen id keys then keys else id ∷ keys)

unfoldable pub new_worst_case_adversary : List Bytes → ℕ → ℕ → AdversaryModel
unfolding corrupted sort_strings
new_worst_case_adversary replica_ids fc max_delay = record {
  is_byzantine = λ id. seen id (corrupted (take fc (sort_strings replica_ids)) []);
  intercept_msg = λ from to msg. (false, max_delay);
  max_byzantine = fc;
}

abbrev pub new_noop_adversary : AdversaryModel
new_noop_adversary = record {
  is_byzantine = λ id. false;
  intercept_msg = λ from to msg. (false, 0);
  max_byzantine = 0;
}
