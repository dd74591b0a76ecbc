-- ===== src/Reputation/Records.antt =====
-- The statistics that the Record methods keep, and the scores' integers.
use d_hotsuff.Prelude.{
  ℕ, ◌-◌, ◌≤◌, ◌<◌, ◌≡◌, ◌≢◌, refl, Bytes, bytes_eq, bytes_eq_iff, bytes_eq_refl, ap,
  bytes_instance, arith, u64, inc64, if◌then◌else◌,
}
use d_hotsuff.Prelude.Table.{table_laws, get_or}
use d_hotsuff.Reputation.{
  ReplicaStats, Store, stats_of, update, record_leader_round, record_commit, record_timeout,
  novelty_gap,
}

stats_of-update :
    (s : Store) (id other : Bytes) (st : ReplicaStats)
    → stats_of (update s id st) other ≡ (if bytes_eq id other then st else stats_of s other)
unfolding stats_of update get_or
stats_of-update s id other st = simp table_laws (ground arith)

stats_of-update_same :
    (s : Store) (id : Bytes) (st : ReplicaStats) → stats_of (update s id st) id ≡ st
stats_of-update_same s id st = rw (stats_of-update s id id st, bytes_eq_refl id) refl

stats_of-update_other :
    (s : Store) (id other : Bytes) (st : ReplicaStats)
    → id ≢ other
    → stats_of (update s id st) other ≡ stats_of s other
stats_of-update_other s id other st n =
    rw (stats_of-update s id other st) (ground (arith, bytes_eq_iff id other))

-- Each record method counts one event of its replica, and leaves every other replica's statistics
-- and the weights as they were. A commit also raises the height last led to the committed one.
pub records_lem :
    (s : Store) (id : Bytes) (height : ℕ)
    → let st = stats_of s id in
      let led = record_leader_round s id in
      let committed = record_commit s id height in
      let late = record_timeout s id in
      (stats_of led id ≡ record st { rounds_as_leader = inc64 st.rounds_as_leader })
      × ((stats_of committed id).committed_as_leader ≡ inc64 st.committed_as_leader)
      × (height ≤ (stats_of committed id).last_led_height)
      × (st.last_led_height ≤ (stats_of committed id).last_led_height)
      × (stats_of late id ≡ record st { timeouts = inc64 st.timeouts })
      × ((other : Bytes)
          → id ≢ other
          → (stats_of led other ≡ stats_of s other)
            × (stats_of committed other ≡ stats_of s other)
            × (stats_of late other ≡ stats_of s other))
unfolding record_leader_round record_commit record_timeout
records_lem s id height = (
  stats_of-update_same s id _,
  ap (λ (st : ReplicaStats). st.committed_as_leader) (stats_of-update_same s id _),
  rw (stats_of-update_same s id _) (ground arith),
  rw (stats_of-update_same s id _) (ground arith),
  stats_of-update_same s id _,
  λ other n. (
    stats_of-update_other s id other _ n,
    stats_of-update_other s id other _ n,
    stats_of-update_other s id other _ n,
  ),
)

-- The gap of Novelty is the heights since the replica last led, at most the current height, in
-- spite of the subtraction that wraps around.
pub novelty_gap_lem :
    (s : ReplicaStats) (current_height : ℕ)
    → current_height < u64
    → s.last_led_height < u64
    → (novelty_gap s current_height ≡ current_height - s.last_led_height)
      × (novelty_gap s current_height ≤ current_height)
unfolding novelty_gap
novelty_gap_lem s current_height h k = ground arith
