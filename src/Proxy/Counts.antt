-- ===== src/Proxy/Counts.antt =====
-- internal/gateway/proxy.go: whom a request asks, and how many records it leaves.
use costguard.Base.{◌≡◌, String, [], ◌∷◌, ◌++◌, ◌⊎◌}
use costguard.Base.Float.{Float}
use costguard.Proxy.Types.{Library, Gateway, State, Environment, Record}
use costguard.Proxy.Attempts.{AsksInTurn}

module _ (f : Float) (lib : Library) (g : Gateway f) (env : Environment f) where
  -- What a request may have done: one record at most, and its provider and the fallback in turn.
  abbrev pub Bounded : String → State f → State f → Type 0
  Bounded provider s t =
      ((t.saved ≡ s.saved) ⊎ ((u : Record f) × (t.saved ≡ s.saved ++ (u ∷ []))))
      × AsksInTurn f lib g env provider s.asked t.asked
