-- ===== src/Consensus/ViewChange/HighestQc.antt =====
-- highestViewQC of internal/consensus/viewchange.go, against a description of its result.
use d_hotsuff.Prelude.{
  ℕ, ◌≤◌, ◌≡◌, ◌⊎◌, Bool-cases, inl, inr, refl, Option, none, some, List, [], ◌∷◌, All, arith, ltb,
}
use d_hotsuff.Proto.{NewViewMsg, QuorumCert}
use d_hotsuff.Consensus.ViewChange.{consider, highest_from, highest_view_qc}

-- A message without a certificate, or with one of at most a view.
abbrev pub Below : ℕ → Option QuorumCert → Type 0
Below view none = Unit
Below view (some qc) = qc.view_number ≤ view

abbrev pub Carries : QuorumCert → List NewViewMsg → Type 0
Carries qc [] = ⊥
Carries qc (m ∷ msgs) = (m.generic_qc ≡ some qc) ⊎ Carries qc msgs

-- No message carries a certificate, or the result is one that a message carries and no message
-- carries one of a later view.
abbrev pub IsHighest : Option QuorumCert → List NewViewMsg → Type 0
IsHighest none msgs = All (λ (m : NewViewMsg). m.generic_qc ≡ none) msgs
IsHighest (some qc) msgs =
    Carries qc msgs × All (λ (m : NewViewMsg). Below qc.view_number m.generic_qc) msgs

-- The same, for a best certificate found before the messages.
IsHighestFrom : Option QuorumCert → Option QuorumCert → List NewViewMsg → Type 0
IsHighestFrom none r msgs = IsHighest r msgs
IsHighestFrom (some best) none msgs = ⊥
IsHighestFrom (some best) (some qc) msgs =
    ((qc ≡ best) ⊎ Carries qc msgs)
    × (best.view_number ≤ qc.view_number)
    × All (λ (m : NewViewMsg). Below qc.view_number m.generic_qc) msgs

ViewMatches : Option QuorumCert → ℕ → Type 0
ViewMatches none view = Unit
ViewMatches (some qc) view = qc.view_number ≡ view

consider-matches :
    (o best : Option QuorumCert) (view : ℕ)
    → ViewMatches best view
    → ViewMatches (consider o (best, view)).0 (consider o (best, view)).1
unfolding consider ViewMatches
consider-matches none best view w = w
consider-matches (some qc) none view w = refl
consider-matches (some qc) (some best) view w = elim (Bool-cases (ltb view qc.view_number)) [
  | inl newer ↦ rw newer refl
  | inr older ↦ rw older w
]

-- One more message in front, by the certificate `o` that it carries.
IsHighestFrom-cons :
    (o best r : Option QuorumCert) (view : ℕ) (m : NewViewMsg) (msgs : List NewViewMsg)
    → m.generic_qc ≡ o
    → ViewMatches best view
    → IsHighestFrom (consider o (best, view)).0 r msgs
    → IsHighestFrom best r (m ∷ msgs)
unfolding consider IsHighestFrom ViewMatches
IsHighestFrom-cons none none none view m msgs e w ih = (e, ih)
IsHighestFrom-cons none none (some qc) view m msgs e w ih = (inr ih.0, (rw e tt, ih.1))
IsHighestFrom-cons none (some best) none view m msgs e w ih = ih
IsHighestFrom-cons none (some best) (some qc) view m msgs e w ih = ground arith
IsHighestFrom-cons (some q) none none view m msgs e w ih = absurd ih
IsHighestFrom-cons (some q) none (some qc) view m msgs e w ih = ground arith
IsHighestFrom-cons (some q) (some best) none view m msgs e w ih = ground arith
IsHighestFrom-cons (some q) (some best) (some qc) view m msgs e w ih = ground arith

highest_from-IsHighestFrom :
    (best : Option QuorumCert) (view : ℕ) (msgs : List NewViewMsg)
    → ViewMatches best view
    → IsHighestFrom best (highest_from (best, view) msgs) msgs
unfolding highest_from IsHighestFrom ViewMatches
highest_from-IsHighestFrom none view [] w = tt
highest_from-IsHighestFrom (some best) view [] w = (inl refl, omega arith, tt)
highest_from-IsHighestFrom best view (m ∷ msgs) w =
    let (next, next_view) = consider m.generic_qc (best, view) in
    IsHighestFrom-cons m.generic_qc best (highest_from (next, next_view) msgs) view m msgs refl w
      (highest_from-IsHighestFrom next next_view msgs (consider-matches m.generic_qc best view w))

-- highestViewQC returns a certificate of the messages with the largest view, and nil exactly if
-- none has one.
pub highest_view_qc-IsHighest : (msgs : List NewViewMsg) → IsHighest (highest_view_qc msgs) msgs
unfolding highest_view_qc IsHighestFrom ViewMatches
highest_view_qc-IsHighest msgs = highest_from-IsHighestFrom none 0 msgs tt
