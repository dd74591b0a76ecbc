-- ===== src/Membership/ConfigStore.antt =====
-- internal/membership/config_store.go: the append-only log of configurations.
pub mod Log
pub mod Notify
use d_hotsuff.Prelude.{
  ℕ, ◌-◌, Bool, Option, none, some, List, [], ◌∷◌, ◌++◌, length, get_elem?, leb, ltb, nat_beq, map,
  if◌then◌else◌, Result, ok, err, not_found, out_of_order,
}
use d_hotsuff.Membership.Committee.{Committee}

-- A subscriber's channel: its capacity and what waits in it.
pub record Channel : Type 0 where
  pub capacity : ℕ
  pub queue : List Committee

pub record ConfigStore : Type 0 where
  pub configs : List Committee
  pub subscribers : List Channel

unfoldable pub new_config_store : Committee → ConfigStore
new_config_store genesis = record { configs = genesis ∷ []; subscribers = [] }

-- s.configs[len(s.configs)-1]; a panic, `none`, on an empty log
unfoldable pub latest : ConfigStore → Option Committee
latest s = if nat_beq (length s.configs) 0 then none else get_elem? s.configs (length s.configs - 1)

found : Option Committee → Result Committee
found none = err not_found
found (some c) = ok c

unfoldable pub at_number : ConfigStore → ℕ → Result Committee
unfolding found
at_number s c = if leb (length s.configs) c then err not_found else found (get_elem? s.configs c)

-- the non-blocking send: `select { case ch <- next: default: }`
unfoldable pub try_send : Committee → Channel → Channel
try_send next ch =
    if ltb (length ch.queue) ch.capacity then record ch { queue = ch.queue ++ next ∷ [] } else ch

-- append(s.configs, next), and the fan-out to the subscribers
abbrev pub appended : ConfigStore → Committee → ConfigStore
appended s next = record {
  configs = s.configs ++ next ∷ [];
  subscribers = map (try_send next) s.subscribers;
}

unfoldable pub install : ConfigStore → Committee → Result ConfigStore
install s next =
    if nat_beq next.number (length s.configs) then ok (appended s next) else err out_of_order

abbrev pub len : ConfigStore → ℕ
len s = length s.configs

unfoldable pub subscribe : ConfigStore → Channel → ConfigStore
subscribe s ch = record s { subscribers = s.subscribers ++ ch ∷ [] }
