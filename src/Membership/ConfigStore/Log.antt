-- ===== src/Membership/ConfigStore/Log.antt =====
-- The log of configurations (Install, Latest and AtNumber of config_store.go).
use d_hotsuff.Prelude.{
  ℕ, suc, ◌+◌, ◌-◌, ◌≤◌, ◌<◌, ◌≡◌, ◌⊎◌, inl, inr, refl, some, List, [], ◌∷◌, ◌++◌, length,
  get_elem?, get_elem?-lt, get_elem?-append_lt, get_elem?-append_last, length-append, arith, ok,
  err, not_found, out_of_order, zero, ◌≢◌,
}
use native.Mathlib.Decide.{dec_lt, ℕ_discrete}
use d_hotsuff.Membership.Committee.{Committee}
use d_hotsuff.Membership.ConfigStore.{
  ConfigStore, new_config_store, latest, at_number, install, len, appended,
}

-- The log is not empty, and the configuration at index i has number i.
pub record IsNumbered (s : ConfigStore) : Type 0 where
  pub genesis : 0 < len s
  pub index : (i : ℕ) (c : Committee) → get_elem? s.configs i ≡ some c → c.number ≡ i

get_elem?-singleton :
    {A : Type 0} (a b : A) (i : ℕ) → get_elem? (a ∷ []) i ≡ some b → (i ≡ 0) × (a ≡ b)
get_elem?-singleton a b zero h = (refl, cc)
get_elem?-singleton a b (suc i) h = cc

pub new_config_store-IsNumbered :
    (genesis : Committee) → genesis.number ≡ 0 → IsNumbered (new_config_store genesis)
unfolding new_config_store
new_config_store-IsNumbered genesis h = record {
  genesis = omega arith;
  index = λ i c e. ground (arith, get_elem?-singleton genesis c i e);
}

get_elem?-append_cases :
    (cs : List Committee) (c d : Committee) (i : ℕ)
    → get_elem? (cs ++ c ∷ []) i ≡ some d
    → (get_elem? cs i ≡ some d) ⊎ (i ≡ length cs) × (c ≡ d)
get_elem?-append_cases [] c d i h = inr (get_elem?-singleton c d i h)
get_elem?-append_cases (x ∷ cs) c d zero h = inl h
get_elem?-append_cases (x ∷ cs) c d (suc i) h = ground (arith, get_elem?-append_cases cs c d i h)

-- Installing keeps the numbering of the log.
pub install-IsNumbered :
    (s s' : ConfigStore) (next : Committee) → IsNumbered s → install s next ≡ ok s' → IsNumbered s'
unfolding install
install-IsNumbered s s' next w h = record {
  genesis = ground (arith, length-append s.configs (next ∷ []));
  index = λ i c e.
      let old : s'.configs ≡ s.configs ++ next ∷ [] = ground arith in
      ground (arith, get_elem?-append_cases s.configs next c i (rw (← old) e), w.index i c);
}

-- On a numbered log Latest does not panic, and returns the configuration with the highest number,
-- which AtNumber finds.
pub latest_lem :
    (s : ConfigStore)
    → IsNumbered s
    → (c : Committee) × (latest s ≡ some c) × (c.number + 1 ≡ len s) × (at_number s c.number ≡ ok c)
unfolding latest at_number
latest_lem s w =
    let (c, e) = get_elem?-lt s.configs (len s - 1) (omega (arith, w.genesis)) in
    let n : c.number ≡ len s - 1 = w.index (len s - 1) c e in
    (c, ground (arith, w.genesis), omega (arith, w.genesis), rw n (ground (arith, w.genesis)))

-- AtNumber finds a configuration exactly below the length, and with the number asked for.
pub at_number_lem :
    (s : ConfigStore) (n : ℕ)
    → IsNumbered s
    → (len s ≤ n) × (at_number s n ≡ err not_found)
      ⊎ ((c : Committee) × (at_number s n ≡ ok c) × (c.number ≡ n) × (n < len s))
unfolding at_number
at_number_lem s n w = elim (dec_lt n (len s)) [
  | yes lt ↦ let (c, e) = get_elem?-lt s.configs n lt in inr (c, ground arith, w.index n c e, lt)
  | no ge ↦ inl (omega arith, ground arith)
]

-- What an accepted Install leaves: what was installed stays where it was, and the new
-- configuration is the latest.
pub record Extends (s s' : ConfigStore) (next : Committee) : Type 0 where
  pub longer : len s' ≡ len s + 1
  pub newest : latest s' ≡ some next
  pub kept : (n : ℕ) → n < len s → at_number s' n ≡ at_number s n

append-Extends :
    (s s' : ConfigStore) (next : Committee)
    → s'.configs ≡ s.configs ++ next ∷ []
    → Extends s s' next
unfolding latest at_number
append-Extends s s' next e =
    let l : len s' ≡ len s + 1 = rw e (omega (arith, length-append s.configs (next ∷ []))) in
    let last : len s' - 1 ≡ len s = omega arith in
    record {
      longer = l;
      newest = ground (arith, get_elem?-append_last s.configs next);
      kept = λ n h. ground (arith, get_elem?-append_lt s.configs (next ∷ []) n h);
    }

-- Install accepts the configuration with the next number and appends it, and refuses any other.
pub install_lem :
    (s : ConfigStore) (next : Committee)
    → (next.number ≡ len s) × ((s' : ConfigStore) × (install s next ≡ ok s') × Extends s s' next)
      ⊎ (next.number ≢ len s) × (install s next ≡ err out_of_order)
unfolding install
install_lem s next = elim (ℕ_discrete next.number (len s)) [
  | yes e ↦ inl (e, (appended s next, ground arith, append-Extends s (appended s next) next refl))
  | no n ↦ inr (n, ground arith)
]

pub at_number-number :
    (s : ConfigStore) (n : ℕ) (c : Committee)
    → IsNumbered s
    → at_number s n ≡ ok c
    → (c.number ≡ n) × (n < len s)
at_number-number s n c w h = elim (at_number_lem s n w) [
  | inl (_, missing) ↦ absurd (ground arith)
  | inr (c', found, number, lt) ↦ ground arith
]
