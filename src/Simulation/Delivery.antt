-- ===== src/Simulation/Delivery.antt =====
-- What the simulated network promises: no message is lost or early, and none is late.
use mathlib.Core.List.{append-nil}
use d_hotsuff.Prelude.{
  ℕ, ◌+◌, ◌^◌, ◌≤◌, ◌<◌, ◌≡◌, ◌⊎◌, inl, inr, refl, sym, ap, subst, Bytes, Bool-cases, false, Option,
  none, some, List, [], ◌∷◌, ◌++◌, ◌&&◌, arith, ltb, leb, not,
}
use d_hotsuff.Simulation.{
  NetSim, PendingMsg, DeliveredMsg, delivery, Rng, queue, send, due, tick, set_gst, set,
}

-- What may happen to the network.
pub data Event : Type 0 where
  sending : (from to msg : Bytes) → Event
  ticking : (now : ℕ) → Event
  stabilising : (t : ℕ) → Event
  clock_set : (t : ℕ) → Event

-- the network after an event, and what the event delivers; a send that panics leaves the network
abbrev pub step : NetSim → Event → NetSim × List DeliveredMsg
step n (sending from to msg) = elim (send n from to msg) [ none ↦ (n, []) | some n' ↦ (n', []) ]
step n (ticking now) = tick n now
step n (stabilising t) = (set_gst n t, [])
step n (clock_set t) = (record n { clock = set n.clock t }, [])

abbrev pub run : NetSim → List Event → NetSim × List DeliveredMsg
run n [] = (n, [])
run n (e ∷ es) = let (n', out) = step n e in let (n'', more) = run n' es in (n'', out ++ more)

abbrev pub Occurs : {A : Type 0} → A → List A → Type 0
Occurs a [] = ⊥
Occurs a (x ∷ xs) = (a ≡ x) ⊎ Occurs a xs

Occurs-append_left : {A : Type 0} (a : A) (xs ys : List A) → Occurs a xs → Occurs a (xs ++ ys)
Occurs-append_left a [] ys h = absurd h
Occurs-append_left a (x ∷ xs) ys (inl e) = inl e
Occurs-append_left a (x ∷ xs) ys (inr h) = inr (Occurs-append_left a xs ys h)

Occurs-append_right : {A : Type 0} (a : A) (xs ys : List A) → Occurs a ys → Occurs a (xs ++ ys)
Occurs-append_right a [] ys h = h
Occurs-append_right a (x ∷ xs) ys h = inr (Occurs-append_right a xs ys h)

Occurs-append_last : {A : Type 0} (a : A) (xs : List A) → Occurs a (xs ++ a ∷ [])
Occurs-append_last a xs = Occurs-append_right a xs (a ∷ []) (inl refl)

-- A message is delivered or remains.
due-Occurs :
    (now : ℕ) (m : PendingMsg) (ms : List PendingMsg)
    → Occurs m ms
    → Occurs (delivery m) (due now ms).0 ⊎ Occurs m (due now ms).1
unfolding due
due-Occurs now m [] h = absurd h
due-Occurs now m (x ∷ ms) (inl e) = elim (Bool-cases (not (ltb now x.deliver_at))) [
  | inl late ↦ rw late (inl (inl (ap (λ (y : PendingMsg). delivery y) e)))
  | inr early ↦ rw early (inr (inl e))
]
due-Occurs now m (x ∷ ms) (inr h) = elim (Bool-cases (not (ltb now x.deliver_at))) [
  | inl late ↦ rw late (elim (due-Occurs now m ms h) [ inl d ↦ inl (inr d) | inr r ↦ inr r ])
  | inr early ↦ rw early (elim (due-Occurs now m ms h) [ inl d ↦ inl d | inr r ↦ inr (inr r) ])
]

-- What remains is not due yet.
due-early :
    (now : ℕ) (m : PendingMsg) (ms : List PendingMsg) → Occurs m (due now ms).1 → now < m.deliver_at
unfolding due
due-early now m [] h = absurd h
due-early now m (x ∷ ms) h = elim (Bool-cases (not (ltb now x.deliver_at))) [
  | inl late ↦ due-early now m ms (rw late at h)
  | inr early ↦ elim (rw early at h) [
    | inl e ↦ subst (λ (y : PendingMsg). now < y.deliver_at) (sym e) (ground arith)
    | inr r ↦ due-early now m ms r
  ]
]

-- Send keeps what is queued, and queues at the end.
send-append :
    (n n' : NetSim) (from to msg : Bytes)
    → send n from to msg ≡ some n'
    → (more : List PendingMsg) × (n'.msg_q ≡ n.msg_q ++ more)
unfolding send
send-append n n' from to msg e =
    let (drop, delay) = n.adversary.intercept_msg from to msg in
    elim (Bool-cases (ltb n.clock.now n.gst)) [
      | inl before ↦ elim (Bool-cases (drop && not (n.adversary.is_byzantine from))) [
        | inl dropped ↦ ([], ground (arith, append-nil n.msg_q))
        | inr through ↦ (
          record { from = from; to = to; msg = msg; deliver_at = n.clock.now + delay } ∷ [],
          ground arith,
        )
      ]
      | inr after ↦ elim (Bool-cases (leb (2 ^ 63) (n.max_delay + 1))) [
        | inl wide ↦ absurd (ground arith)
        | inr fits ↦ (
          record {
            from = from;
            to = to;
            msg = msg;
            deliver_at = n.clock.now + n.rng n.draws (n.max_delay + 1);
          }
              ∷ [],
          ground arith,
        )
      ]
    ]

-- An event delivers a pending message or keeps it.
step-Occurs :
    (n : NetSim) (e : Event) (m : PendingMsg)
    → Occurs m n.msg_q
    → Occurs (delivery m) (step n e).1 ⊎ Occurs m (step n e).0.msg_q
unfolding tick set_gst
step-Occurs n (sending from to msg) m h = go (send n from to msg) refl
  where
    go :
        (o : Option NetSim)
        → send n from to msg ≡ o
        → Occurs (delivery m) (step n (sending from to msg)).1
          ⊎ Occurs m (step n (sending from to msg)).0.msg_q
    go none e = rw (e, step) (inr h)
    go (some n') e =
        let (more, q) = send-append n n' from to msg e in
        rw (e, step) (inr (rw q (Occurs-append_left m n.msg_q more h)))
step-Occurs n (ticking now) m h = due-Occurs now m n.msg_q h
step-Occurs n (stabilising t) m h = inr h
step-Occurs n (clock_set t) m h = inr h

run-Occurs :
    (n : NetSim) (es : List Event) (m : PendingMsg)
    → Occurs m n.msg_q
    → Occurs (delivery m) (run n es).1 ⊎ Occurs m (run n es).0.msg_q
run-Occurs n [] m h = inr h
run-Occurs n (e ∷ es) m h = elim (step-Occurs n e m h) [
  | inl d ↦ inl (Occurs-append_left (delivery m) (step n e).1 _ d)
  | inr kept ↦ elim (run-Occurs (step n e).0 es m kept) [
    | inl d ↦ inl (Occurs-append_right (delivery m) (step n e).1 _ d)
    | inr r ↦ inr r
  ]
]

-- Int63n is below its argument.
abbrev pub IsBounded : Rng → Type 0
IsBounded rng = (i bound : ℕ) → 0 < bound → rng i bound < bound

-- The network is synchronous, or the adversary lets the message through in time.
abbrev pub IsTimely : NetSim → Bytes → Bytes → Bytes → Type 0
IsTimely n from to msg =
    (n.gst ≤ n.clock.now)
    ⊎ ((n.adversary.intercept_msg from to msg).0 ≡ false)
      × ((n.adversary.intercept_msg from to msg).1 ≤ n.max_delay)

before_gst :
    (n : NetSim) (from to msg : Bytes)
    → IsTimely n from to msg
    → n.clock.now < n.gst
    → ((n.adversary.intercept_msg from to msg).0 ≡ false)
      × ((n.adversary.intercept_msg from to msg).1 ≤ n.max_delay)
before_gst n from to msg (inl at_gst) early = absurd (omega arith)
before_gst n from to msg (inr lets) early = lets

-- A timely message is queued, to be delivered within the bound.
send-timely :
    (n : NetSim) (from to msg : Bytes)
    → IsBounded n.rng
    → n.max_delay + 1 < 2 ^ 63
    → IsTimely n from to msg
    → (n' : NetSim) × (m : PendingMsg) × (send n from to msg ≡ some n')
      × Occurs m n'.msg_q
      × (delivery m ≡ record { from = from; to = to; msg = msg })
      × (m.deliver_at ≤ n.clock.now + n.max_delay)
unfolding send
send-timely n from to msg rng fits timely =
    let (drop, delay) = n.adversary.intercept_msg from to msg in
    elim (Bool-cases (ltb n.clock.now n.gst)) [
      | inl before ↦
          let (through, soon) = before_gst n from to msg timely (ground arith) in
          let m : PendingMsg = record {
            from = from;
            to = to;
            msg = msg;
            deliver_at = n.clock.now + delay;
          } in
          (
            queue n from to msg delay,
            m,
            rw (before, through) refl,
            Occurs-append_last m n.msg_q,
            refl,
            omega (arith, soon),
          )
      | inr after ↦
          let narrow : leb (2 ^ 63) (n.max_delay + 1) ≡ false = ground arith in
          let wait = n.rng n.draws (n.max_delay + 1) in
          let m : PendingMsg = record {
            from = from;
            to = to;
            msg = msg;
            deliver_at = n.clock.now + wait;
          } in
          (
            queue (record n { draws = n.draws + 1 }) from to msg wait,
            m,
            rw (after, narrow) refl,
            Occurs-append_last m n.msg_q,
            refl,
            omega (arith, rng n.draws (n.max_delay + 1) (omega arith)),
          )
    ]

-- If the network is past its stabilisation, or the adversary does not drop the message and delays
-- it by no more than the bound, then Send queues it without a panic, provided that the bound is
-- below 2^63 - 1 and Int63n stays below its argument; and whatever is sent, delivered or set in
-- between, a Tick as late as the bound after the sending delivers the message, unless an earlier
-- one did.
pub delivered_in_time :
    (n : NetSim) (from to msg : Bytes) (es : List Event) (t : ℕ)
    → IsBounded n.rng
    → n.max_delay + 1 < 2 ^ 63
    → IsTimely n from to msg
    → n.clock.now + n.max_delay ≤ t
    → (n' : NetSim) × (send n from to msg ≡ some n')
      × Occurs
          (record { from = from; to = to; msg = msg })
          ((run n' es).1 ++ (tick (run n' es).0 t).1)
unfolding tick
delivered_in_time n from to msg es t rng fits timely late =
    let (n', m, sent, here, same, soon) = send-timely n from to msg rng fits timely in
    (
      n',
      sent,
      subst (λ d. Occurs d ((run n' es).1 ++ (tick (run n' es).0 t).1)) same
          (elim (run-Occurs n' es m here) [
            | inl d ↦ Occurs-append_left (delivery m) (run n' es).1 _ d
            | inr kept ↦ elim (due-Occurs t m (run n' es).0.msg_q kept) [
              | inl d ↦ Occurs-append_right (delivery m) (run n' es).1 _ d
              | inr r ↦ absurd (omega (arith, due-early t m (run n' es).0.msg_q r))
            ]
          ]),
    )
