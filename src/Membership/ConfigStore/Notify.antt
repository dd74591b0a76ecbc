-- ===== src/Membership/ConfigStore/Notify.antt =====
-- The notifications of Install (Subscribe and the fan-out of config_store.go).
use d_hotsuff.Prelude.{
  ◌≤◌, ◌≡◌, List, [], ◌∷◌, length, map, All, All-append, length-append, arith, ok,
}
use d_hotsuff.Membership.Committee.{Committee}
use d_hotsuff.Membership.ConfigStore.{Channel, ConfigStore, try_send, install, subscribe}

abbrev pub Fits : Channel → Type 0
Fits ch = length ch.queue ≤ ch.capacity

try_send-Fits : (next : Committee) (ch : Channel) → Fits ch → Fits (try_send next ch)
unfolding try_send
try_send-Fits next ch h = ground (arith, length-append ch.queue (next ∷ []))

map-try_send-Fits :
    (next : Committee) (chs : List Channel) → All Fits chs → All Fits (map (try_send next) chs)
map-try_send-Fits next [] h = tt
map-try_send-Fits next (ch ∷ chs) h = (try_send-Fits next ch h.0, map-try_send-Fits next chs h.1)

-- Install and Subscribe never block on a full channel and never overfill one.
pub install-Fits :
    (s s' : ConfigStore) (next : Committee)
    → All Fits s.subscribers
    → install s next ≡ ok s'
    → All Fits s'.subscribers
unfolding install
install-Fits s s' next h e =
    let sent : s'.subscribers ≡ map (try_send next) s.subscribers = ground arith in
    rw sent (map-try_send-Fits next s.subscribers h)

pub subscribe-Fits :
    (s : ConfigStore) (ch : Channel)
    → All Fits s.subscribers
    → Fits ch
    → All Fits (subscribe s ch).subscribers
unfolding subscribe
subscribe-Fits s ch h fits = All-append Fits s.subscribers (ch ∷ []) h (fits, tt)
