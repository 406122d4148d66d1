-- ===== src/Background.antt =====
-- The loops of the two background goroutines, runReaper of internal/session/manager.go and
-- evictStaleEntries of internal/abuse/limiter.go: a select over a stop and a ticker.
use docpine.Base.{ℕ, List, [], ◌∷◌}

-- What the select meets; a tick is read with the time at which its round starts.
pub data Wake : Type 0 where
  stopped : Wake
  ticked : ℕ → Wake

unfoldable pub run_loop : {X : Type 0} → (ℕ → X → X) → List Wake → X → X
run_loop round [] x = x
run_loop round (stopped ∷ ws) x = x
run_loop round (ticked now ∷ ws) x = run_loop round ws (round now x)

-- Every round that is run, up to the stop, is one at which `P` holds.
abbrev pub AtRounds : (ℕ → Type 0) → List Wake → Type 0
AtRounds P [] = Unit
AtRounds P (stopped ∷ ws) = Unit
AtRounds P (ticked now ∷ ws) = P now × AtRounds P ws
