-- ===== src/Prelude/Steps.antt =====
-- Runs of a step relation, and what the steps keep along them.

module _ {S : Type 0} (Step : S → S → Type 0) where
  -- What can be reached from a state.
  pub data Reach (s : S) : S → Type 0 where
    here : Reach s s
    later : {t u : S} → Reach s t → Step t u → Reach s u

  pub Reach-keeps :
      {P : S → Type 0} {s t : S} → ((t u : S) → Step t u → P t → P u) → Reach s t → P s → P t
  Reach-keeps keeps here p = p
  Reach-keeps keeps (later r st) p = keeps _ _ st (Reach-keeps keeps r p)
