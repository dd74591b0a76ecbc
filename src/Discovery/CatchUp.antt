-- ===== src/Discovery/CatchUp.antt =====
-- The outcomes of SyncIfBehind and requestUpdates of internal/discovery/discovery.go.
use d_hotsuff.Prelude.{
  ℕ, ◌+◌, ◌-◌, ◌≤◌, ◌≡◌, ◌⊎◌, inl, inr, refl, ap, List, [], ◌∷◌, length, map, Option, none, some,
  Result, ok, err, true, leb, Bool-cases, arith, unsafe_block, false, Error, subst, take, ◌*◌, ◌<◌,
  not_found,
}
use d_hotsuff.Proto.{Block}
use d_hotsuff.External.{External}
use d_hotsuff.Membership.Committee.{Committee, size}
use d_hotsuff.Membership.ConfigStore.{ConfigStore, latest, at_number}
use d_hotsuff.StateTransfer.History.{ExecutionHistory}
use d_hotsuff.StateTransfer.Syncer.{
  RpcPool, history_of, update_of, better, enough, or_error, drain_updates, request_history,
}
use d_hotsuff.StateTransfer.Syncer.Updates
use d_hotsuff.StateTransfer.Syncer.Updates.{drain_updates-Drained}
use d_hotsuff.StateTransfer.Syncer.Histories
use d_hotsuff.StateTransfer.Syncer.Histories.{request_history_lem}
use d_hotsuff.Membership.ConfigStore.Log.{IsNumbered, latest_lem, at_number_lem}
use d_hotsuff.Discovery.{
  SafetyChecker, Arrivals, drain_all, request_updates, target_of, fetch, sync_if_behind,
}

drain_all-drain_updates :
    (needed : ℕ) (answers : List (Result (Option Block))) (good : ℕ) (best : Option Block)
    → drain_all needed answers good best ≡ drain_updates needed (length answers) answers good best
unfolding drain_all drain_updates
drain_all-drain_updates needed [] good best = refl
drain_all-drain_updates needed (err e ∷ answers) good best =
    drain_all-drain_updates needed answers good best
drain_all-drain_updates needed (ok b ∷ answers) good best =
    ap (or_error (enough needed (good + 1) (better best b)))
      (drain_all-drain_updates needed answers (good + 1) (better best b))

take-length_self : {A : Type 0} (xs : List A) → take (length xs) xs ≡ xs
take-length_self [] = refl
take-length_self (a ∷ xs) = ap (◌∷◌ a) (take-length_self xs)

-- Answers to the request for blocks, from as many replicas of the committee as are not faulty.
abbrev pub Updated : RpcPool → Committee → Arrivals → Result Block → Type 0
Updated pool mc arrivals r =
    Updates.Drained (size mc - mc.fault_cap) (map (update_of pool) arrivals.updates) 0 none r

-- Answers to the request for histories, among which 2fc+1 are to agree.
abbrev pub Agreed : External → RpcPool → Committee → Arrivals → Result ExecutionHistory → Type 0
Agreed x pool mc arrivals r =
    Histories.Drained x (2 * mc.fault_cap + 1)
      (take (size mc) (map (history_of pool) arrivals.histories)) [] r

request_updates-Updated :
    (pool : RpcPool) (mc : Committee) (arrivals : Arrivals)
    → Updated pool mc arrivals (request_updates pool mc arrivals.updates)
unfolding request_updates
request_updates-Updated pool mc arrivals =
    let needed = size mc - mc.fault_cap in
    let answers = map (update_of pool) arrivals.updates in
    subst
      (λ (l : List (Result (Option Block))).
        Updates.Drained needed l 0 none (drain_all needed answers 0 none))
      (take-length_self answers)
      (rw (drain_all-drain_updates needed answers 0 none)
        (drain_updates-Drained needed (length answers) answers 0 none))

-- The committee that is asked: the one of the number asked for if the log has it, and otherwise
-- the current one.
abbrev pub Asked : ConfigStore → ℕ → Committee → Committee → Type 0
Asked configs known current target =
    (at_number configs known ≡ ok target)
    ⊎ ((e : Error) × (at_number configs known ≡ err e) × (target ≡ current))

target_of-Asked :
    (configs : ConfigStore) (known : ℕ) (current : Committee)
    → Asked configs known current (target_of current (at_number configs known))
unfolding target_of
target_of-Asked configs known current = go (at_number configs known) refl
  where
    go :
        (r : Result Committee)
        → at_number configs known ≡ r
        → Asked configs known current (target_of current r)
    go (ok mc) e = inl e
    go (err f) e = inr (f, e, refl)

-- What comes of the requests to a committee.
pub data Outcome (x : External) (pool : RpcPool) (safe : SafetyChecker) (mc : Committee)
    (arrivals : Arrivals) (r : Result (Unit {0})) : Type 0 where
  synced :
      (best : Block) (hist : ExecutionHistory)
      → Updated pool mc arrivals (ok best)
      → safe best best.justify ≡ true
      → Agreed x pool mc arrivals (ok hist)
      → r ≡ ok tt
      → Outcome x pool safe mc arrivals r
  no_block :
      (e : Error) → Updated pool mc arrivals (err e) → r ≡ err e → Outcome x pool safe mc arrivals r
  unsafe :
      (best : Block)
      → Updated pool mc arrivals (ok best)
      → safe best best.justify ≡ false
      → r ≡ err unsafe_block
      → Outcome x pool safe mc arrivals r
  no_history :
      (best : Block) (e : Error)
      → Updated pool mc arrivals (ok best)
      → safe best best.justify ≡ true
      → Agreed x pool mc arrivals (err e)
      → r ≡ err e
      → Outcome x pool safe mc arrivals r

module _ (x : External) (pool : RpcPool) (safe : SafetyChecker) (mc : Committee)
    (arrivals : Arrivals) where
  with_block :
      (best : Block) (h : Result ExecutionHistory)
      → request_updates pool mc arrivals.updates ≡ ok best
      → request_history x pool mc arrivals.histories ≡ h
      → Updated pool mc arrivals (ok best)
      → Agreed x pool mc arrivals h
      → Outcome x pool safe mc arrivals (fetch x pool safe mc arrivals)
  unfolding fetch
  with_block best h got given up ag = elim (Bool-cases (safe best best.justify)) [
    | inr fails ↦ unsafe best up fails (rw (got, fails) refl)
    | inl passes ↦ go h given ag passes
  ]
    where
      go :
          (h : Result ExecutionHistory)
          → request_history x pool mc arrivals.histories ≡ h
          → Agreed x pool mc arrivals h
          → safe best best.justify ≡ true
          → Outcome x pool safe mc arrivals (fetch x pool safe mc arrivals)
      go (ok hist) given ag passes = synced best hist up passes ag (rw (got, passes, given) refl)
      go (err e) given ag passes = no_history best e up passes ag (rw (got, passes, given) refl)

  fetch-Outcome : Outcome x pool safe mc arrivals (fetch x pool safe mc arrivals)
  unfolding fetch
  fetch-Outcome =
      go (request_updates pool mc arrivals.updates) refl (request_updates-Updated pool mc arrivals)
    where
      go :
          (u : Result Block)
          → request_updates pool mc arrivals.updates ≡ u
          → Updated pool mc arrivals u
          → Outcome x pool safe mc arrivals (fetch x pool safe mc arrivals)
      go (ok best) got up =
          with_block best (request_history x pool mc arrivals.histories) got refl up
            (request_history_lem x pool mc arrivals.histories)
      go (err e) got up = no_block e up (rw got refl)

-- With a latest configuration, SyncIfBehind succeeds if it is not behind. Otherwise it asks the
-- committee of the number asked for, if the log has it, and else the latest; it succeeds with a
-- highest block, which passes the safety check, of a prefix of the answers of which nc-fc are no
-- errors, and a history whose hash 2fc+1 of the answers waited for share; and it fails if there
-- is no such block, it fails the check, or there is no such history.
pub sync_if_behind_lem :
    (x : External) (pool : RpcPool) (safe : SafetyChecker) (configs : ConfigStore)
    (arrivals : Arrivals) (known : ℕ) (current : Committee)
    → latest configs ≡ some current
    → (r : Result (Unit {0})) × (sync_if_behind x pool safe configs arrivals known ≡ some r)
      × ((known ≤ current.number) × (r ≡ ok tt)
          ⊎ (current.number < known)
            × ((target : Committee) × Asked configs known current target
                × Outcome x pool safe target arrivals r))
unfolding sync_if_behind
sync_if_behind_lem x pool safe configs arrivals known current now =
    rw now (elim (Bool-cases (leb known current.number)) [
      | inl recent ↦ rw recent (ok tt, refl, inl (ground arith, refl))
      | inr behind ↦
          let target = target_of current (at_number configs known) in
          rw behind (
            fetch x pool safe target arrivals,
            refl,
            inr (
              ground arith,
              (
                target,
                target_of-Asked configs known current,
                fetch-Outcome x pool safe target arrivals,
              ),
            ),
          )
    ])

-- On a numbered log whose latest configuration has a lower number than the one asked for,
-- AtNumber finds no configuration of that number, so SyncIfBehind asks the latest committee.
pub asks_current :
    (configs : ConfigStore) (known : ℕ) (current : Committee)
    → IsNumbered configs
    → latest configs ≡ some current
    → current.number < known
    → (at_number configs known ≡ err not_found)
      × (target_of current (at_number configs known) ≡ current)
unfolding target_of
asks_current configs known current w now behind =
    let (c, newest, count, _) = latest_lem configs w in
    let same : c ≡ current = cc in
    let last = ap (λ (m : Committee). m.number) same in
    elim (at_number_lem configs known w) [
      | inl (_, missing) ↦ (missing, rw missing refl)
      | inr (_, _, _, found) ↦ absurd (omega (arith, last))
    ]
