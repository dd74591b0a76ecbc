-- ===== src/Reputation.antt =====
-- internal/reputation/store.go: statistics of leaders, scores and the choice of a leader.
pub mod Identities
pub mod Records
pub mod Selection
use d_hotsuff.Prelude.{
  ℕ, ◌+◌, ◌-◌, ◌%◌, Bytes, bytes_instance, Bool, true, false, ◌||◌, not, Option, none, some, List,
  [], ◌∷◌, map, ltb, nat_beq, if◌then◌else◌, u64, inc64,
}
use d_hotsuff.Prelude.Table.{Table, lookup, insert, get_or}
use d_hotsuff.Membership.Committee.{Replica, Committee}

-- A float64 is its bit pattern; its arithmetic and its order are parameters.
abbrev pub Float64 : Type 0
Float64 = ℕ

pub record Floats : Type 0 where
  pub from_u64 : ℕ → Float64
  pub plus : Float64 → Float64 → Float64
  pub times : Float64 → Float64 → Float64
  pub divide : Float64 → Float64 → Float64
  -- the operators `>` and `!=`
  pub greater : Float64 → Float64 → Bool
  pub differs : Float64 → Float64 → Bool
  -- the literals 1.0, 0.99, 1.01, 0.6 and 0.4
  pub one : Float64
  pub low : Float64
  pub high : Float64
  pub default_alpha : Float64
  pub default_beta : Float64

pub record ReplicaStats : Type 0 where
  pub rounds_as_leader : ℕ
  pub committed_as_leader : ℕ
  pub timeouts : ℕ
  pub last_led_height : ℕ

abbrev pub no_stats : ReplicaStats
no_stats = record {
  rounds_as_leader = 0;
  committed_as_leader = 0;
  timeouts = 0;
  last_led_height = 0;
}

pub record Store : Type 0 where
  pub stats : Table Bytes ReplicaStats
  pub alpha : Float64
  pub beta : Float64

unfoldable pub new_store : Floats → Store
new_store f = record { stats = []; alpha = f.default_alpha; beta = f.default_beta }

-- a panic, `none`, unless the weights add up to about 1
unfoldable pub new_store_weighted : Floats → Float64 → Float64 → Option Store
new_store_weighted f alpha beta =
    if f.greater f.low (f.plus alpha beta) || f.greater (f.plus alpha beta) f.high
    then none
    else some (record { stats = []; alpha = alpha; beta = beta })

unfoldable pub commit_rate : Floats → ReplicaStats → Float64
commit_rate f s =
    if nat_beq s.rounds_as_leader 0
    then f.one
    else f.divide (f.from_u64 s.committed_as_leader) (f.from_u64 s.rounds_as_leader)

-- `gap` wraps around before the guard resets it
unfoldable pub novelty_gap : ReplicaStats → ℕ → ℕ
novelty_gap s current_height =
    let gap = (current_height + u64 - s.last_led_height) % u64 in
    if ltb current_height s.last_led_height then 0 else gap

unfoldable pub novelty : Floats → ReplicaStats → ℕ → Float64
unfolding novelty_gap
novelty f s current_height =
    if nat_beq current_height 0
    then f.one
    else f.divide (f.from_u64 (novelty_gap s current_height)) (f.from_u64 current_height)

-- Stats, and the statistics that `get` returns
unfoldable pub stats_of : Store → Bytes → ReplicaStats
stats_of s id = get_or no_stats (lookup id s.stats)

-- a write through the pointer that `get` returns
unfoldable pub update : Store → Bytes → ReplicaStats → Store
update s id st = record s { stats = insert id st s.stats }

unfoldable pub record_leader_round : Store → Bytes → Store
record_leader_round s id =
    let st = stats_of s id in
    update s id (record st { rounds_as_leader = inc64 st.rounds_as_leader })

unfoldable pub record_commit : Store → Bytes → ℕ → Store
record_commit s id committed_height =
    let st = stats_of s id in
    update s id (record st {
      committed_as_leader = inc64 st.committed_as_leader;
      last_led_height =
          if ltb st.last_led_height committed_height then committed_height else st.last_led_height;
    })

unfoldable pub record_timeout : Store → Bytes → Store
record_timeout s id =
    let st = stats_of s id in update s id (record st { timeouts = inc64 st.timeouts })

score_of : Floats → Store → ℕ → Option ReplicaStats → Float64
unfolding commit_rate novelty
score_of f s current_height none = f.plus (f.times s.alpha f.one) (f.times s.beta f.one)
score_of f s current_height (some st) =
    f.plus (f.times s.alpha (commit_rate f st)) (f.times s.beta (novelty f st current_height))

unfoldable pub score : Floats → Store → Bytes → ℕ → Float64
unfolding score_of lookup
score f s id current_height = score_of f s current_height (lookup id s.stats)

-- `<` on strings: the order of bytes
unfoldable pub bytes_lt : Bytes → Bytes → Bool
bytes_lt [] [] = false
bytes_lt [] (y ∷ ys) = true
bytes_lt (x ∷ xs) [] = false
bytes_lt (x ∷ xs) (y ∷ ys) =
    let rest = bytes_lt xs ys in if ltb x y then true else if ltb y x then false else rest

pub record Scored : Type 0 where
  pub r : Replica
  pub points : Float64

-- the comparison that Select hands to sort.Slice
unfoldable pub ranks_before : Floats → Scored → Scored → Bool
unfolding bytes_lt
ranks_before f a b =
    if f.differs a.points b.points then f.greater a.points b.points else bytes_lt a.r.id b.r.id

-- candidates[0] after sort.Slice: a candidate before which no other ranks. Among candidates of the
-- same score and identity, where sort.Slice promises no order, it is the first.
best_of : Floats → Scored → List Scored → Scored
best_of f best [] = best
best_of f best (c ∷ cs) = best_of f (if ranks_before f c best then c else best) cs

first_ranked : Floats → List Scored → Option Replica
first_ranked f [] = none
first_ranked f (c ∷ cs) = some (best_of f c cs).r

unfoldable pub scored : Floats → Store → ℕ → List Replica → List Scored
unfolding score
scored f s current_height =
    map (λ (r : Replica). record { r = r; points = score f s r.id current_height })

-- LeaderSelector.Select: nil, `none`, for an empty committee
unfoldable pub select : Floats → Store → Committee → ℕ → Option Replica
unfolding first_ranked best_of scored
select f s c current_height = first_ranked f (scored f s current_height c.replicas)

-- the loop of ScoreTable
table_of : Floats → Store → ℕ → List Replica → Table Bytes Float64 → Table Bytes Float64
unfolding insert score
table_of f s current_height [] table = table
table_of f s current_height (r ∷ rs) table =
    table_of f s current_height rs (insert r.id (score f s r.id current_height) table)

unfoldable pub score_table : Floats → Store → Committee → ℕ → Table Bytes Float64
unfolding table_of
score_table f s c current_height = table_of f s current_height c.replicas []
