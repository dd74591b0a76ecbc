-- ===== src/Consensus/Replica/NewViews/Quorums.antt =====
-- The outcomes of HandleNewView of internal/consensus/dhotstuff.go.
use d_hotsuff.Prelude.{
  ℕ, ◌+◌, ◌≤◌, ◌<◌, ◌≡◌, ◌⊎◌, inl, inr, refl, sym, ap, nat_instance, nat_beq, Option, none, some,
  List, [], ◌∷◌, ◌++◌, length, arith, if◌then◌else◌, ltb, All, Bool-cases, replicate, length-append,
  length-replicate, subst,
}
use d_hotsuff.Prelude.Flow.{Leaves, Leaves-map}
use d_hotsuff.Prelude.Table.{insert, delete, lookup, table_laws}
use d_hotsuff.Proto.{NewViewMsg, QuorumCert, view_of}
use d_hotsuff.Membership.Committee.{Committee, quorum_size}
use d_hotsuff.Membership.ConfigStore.{latest}
use d_hotsuff.Consensus.Safety.{SafetyState}
use d_hotsuff.Consensus.ViewChange.{on_new_view_messages, highest_view_qc}
use d_hotsuff.Consensus.ViewChange.HighestQc.{IsHighest, highest_view_qc-IsHighest, Below}
use d_hotsuff.Consensus.Replica.{Environment, DHotStuff, propose}
use d_hotsuff.Consensus.Replica.Proposing.{Proposed, propose-Proposed}
use d_hotsuff.Consensus.Replica.Votes.Buffers.{raise_generic_lem}
use d_hotsuff.Consensus.Replica.NewViews.{new_views, adopt, handle_new_view}

-- The messages of the view with the new one, and the state that stores them.
abbrev pub with_msg : DHotStuff → NewViewMsg → List NewViewMsg
with_msg d msg = new_views d msg.view_number ++ msg ∷ []

abbrev pub stored : DHotStuff → NewViewMsg → DHotStuff
stored d msg = record d { new_view_buf = insert msg.view_number (with_msg d msg) d.new_view_buf }

-- The state from which the replica proposes.
abbrev pub entering : DHotStuff → NewViewMsg → DHotStuff
entering d msg = record (stored d msg) {
  new_view_buf = delete msg.view_number (stored d msg).new_view_buf;
  safety = adopt (highest_view_qc (with_msg d msg)) d.safety;
}

-- Every message's certificate is of a view at most that of the highest certificate held.
abbrev pub Covered : Option QuorumCert → List NewViewMsg → Type 0
Covered held msgs = All (λ (m : NewViewMsg). view_of m.generic_qc ≤ view_of held) msgs

-- The view is entered: its messages are dropped, the highest certificate covers those of the
-- messages and is no older than before, the lock and the replica's view stay, and a block on the
-- highest certificate is proposed.
pub record Entered (e : Environment) (msg : NewViewMsg) (d d' : DHotStuff) : Type 0 where
  pub buffers :
      (v : ℕ)
      → lookup v d'.new_view_buf
        ≡ (if nat_beq msg.view_number v then none else lookup v d.new_view_buf)
  pub covered : Covered d'.safety.generic_qc (with_msg d msg)
  pub newer : view_of d.safety.generic_qc ≤ view_of d'.safety.generic_qc
  pub locked : d'.safety.locked_qc ≡ d.safety.locked_qc
  pub view : d'.cur_view ≡ d.cur_view
  pub proposed : Proposed e d'.safety.generic_qc (entering d msg) d'

abbrev pub Outcome : Environment → Committee → NewViewMsg → DHotStuff → DHotStuff → Type 0
Outcome e mc msg d d' =
    ((length (with_msg d msg) < quorum_size mc) × (d' ≡ stored d msg))
    ⊎ ((quorum_size mc ≤ length (with_msg d msg)) × Entered e msg d d')

view_of-le : (o : Option QuorumCert) (v h : ℕ) → Below v o → v ≤ h → view_of o ≤ h
view_of-le none v h b k = omega arith
view_of-le (some qc) v h b k = omega arith

All-view_of :
    (qc held : Option QuorumCert) (msgs : List NewViewMsg)
    → IsHighest qc msgs
    → view_of qc ≤ view_of held
    → Covered held msgs
All-view_of none held [] h k = tt
All-view_of none held (m ∷ msgs) h k = (ground (arith, h.0), All-view_of none held msgs h.1 k)
All-view_of (some qc) held msgs h k = below msgs h.1
  where
    below :
        (ms : List NewViewMsg)
        → All (λ (m : NewViewMsg). Below qc.view_number m.generic_qc) ms
        → Covered held ms
    below [] b = tt
    below (m ∷ ms) b = (view_of-le m.generic_qc qc.view_number (view_of held) b.0 k, below ms b.1)

adopt_lem :
    (qc : Option QuorumCert) (s : SafetyState)
    → (view_of s.generic_qc ≤ view_of (adopt qc s).generic_qc)
      × (view_of qc ≤ view_of (adopt qc s).generic_qc)
      × ((adopt qc s).locked_qc ≡ s.locked_qc)
unfolding adopt
adopt_lem none s = (omega arith, omega arith, refl)
adopt_lem (some qc) s = let (held, mine, _, locked) = raise_generic_lem qc s in (held, mine, locked)

Proposed-Entered :
    (e : Environment) (msg : NewViewMsg) (d d' : DHotStuff)
    → Proposed e (entering d msg).safety.generic_qc (entering d msg) d'
    → Entered e msg d d'
Proposed-Entered e msg d d' p =
    let msgs = with_msg d msg in
    let (held, mine, locked) = adopt_lem (highest_view_qc msgs) d.safety in
    record {
      buffers = λ v. rw p.core.new_view_buf (simp table_laws (ground arith));
      covered = rw p.core.safety (
          All-view_of (highest_view_qc msgs) (adopt (highest_view_qc msgs) d.safety).generic_qc msgs
            (highest_view_qc-IsHighest msgs) mine);
      newer = rw p.core.safety held;
      locked = rw p.core.safety locked;
      view = p.core.cur_view;
      proposed =
          subst (λ (j : Option QuorumCert). Proposed e j (entering d msg) d')
            (sym (ap (λ (s : SafetyState). s.generic_qc) p.core.safety)) p;
    }

-- HandleNewView stores a message while its view has fewer messages than a quorum, and does nothing
-- else; and otherwise it enters the view.
pub handle_new_view-Outcome :
    (e : Environment) (mc : Committee) (msg : NewViewMsg) (d : DHotStuff)
    → latest d.deliverer.configs ≡ some mc
    → Leaves (Outcome e mc msg d) (handle_new_view e msg d)
unfolding handle_new_view on_new_view_messages
handle_new_view-Outcome e mc msg d current =
    rw current (elim (Bool-cases (ltb (length (with_msg d msg)) (quorum_size mc))) [
      | inl few ↦ rw few (inl (ground arith, refl))
      | inr many ↦ rw many (
          Leaves-map _ _ (propose e (entering d msg).safety.generic_qc (entering d msg))
            (propose-Proposed e (entering d msg).safety.generic_qc (entering d msg))
            λ d' p. inr (ground arith, Proposed-Entered e msg d d' p))
    ])

-- With a latest configuration, if the messages stored for the view of a message are n copies of
-- it, and a quorum is at most n + 1, then HandleNewView on that message, unless it panics, enters
-- the view.
pub repeated_message :
    (e : Environment) (mc : Committee) (msg : NewViewMsg) (d : DHotStuff) (n : ℕ)
    → latest d.deliverer.configs ≡ some mc
    → new_views d msg.view_number ≡ replicate n msg
    → quorum_size mc ≤ n + 1
    → Leaves (Entered e msg d) (handle_new_view e msg d)
repeated_message e mc msg d n current same enough =
    Leaves-map (Outcome e mc msg d) (Entered e msg d) (handle_new_view e msg d)
      (handle_new_view-Outcome e mc msg d current)
      λ d' o. elim o [
        | inl (few, _) ↦ absurd (
            omega (
              arith,
              length-append (new_views d msg.view_number) (msg ∷ []),
              ap (λ (l : List NewViewMsg). length l) same,
              length-replicate n msg,
            ))
        | inr (_, entered) ↦ entered
      ]
