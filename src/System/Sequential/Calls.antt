-- ===== src/System/Sequential/Calls.antt =====
-- Calls of the server one after the other, as threads that run one after the other.
use docpine.Base.{refl, sym, inl, inr, List, [], ◌∷◌, ℕ}
use mathlib.Core.Path.{subst}
use docpine.Runtime.{Runtime}
use docpine.Session.{destroy, attach, reap_expired, close}
use docpine.Abuse.RateLimiter.{RateLimiter}
use docpine.Abuse.Guard.{Peers}
use docpine.App.{App, hosted, create_session, evict_stale}
use docpine.App.Consistency.{IsConsistent}
use docpine.App.Serial.{
  Serial, begin, creates, attaches, ends, reaps, evicts, closes, Serial-IsConsistent,
}
use docpine.System.{Thread, Reach, here}
use docpine.System.Runs.{AllDone}
use docpine.System.Solo.{Reach-call}
use docpine.System.Sequential.{view, Runs, destroy-Runs, attach-Runs, reap_expired-Runs, close-Runs}
use docpine.System.Sequential.Creates.{create_session-Runs}

evict-Runs :
    {L H S : Type 0} (rl : RateLimiter L) (now : ℕ) (p : App L H S) → Runs rl p (evict_stale now p)
unfolding evict_stale
evict-Runs rl now p = inl refl

-- What follows a run of calls that System shows as `ts`.
abbrev Shown : {L H S : Type 0} → RateLimiter L → App L H S → App L H S → Type 0
Shown rl p₀ p = (ts : List Thread) × Reach (view rl p₀) (view rl p) ts × AllDone ts

Runs-Shown :
    {L H S : Type 0} (rl : RateLimiter L) (p₀ p q : App L H S)
    → Runs rl p q
    → Shown rl p₀ p
    → Shown rl p₀ q
Runs-Shown rl p₀ p q (inl e) (ts, r, done) =
    (ts, subst (λ s. Reach (view rl p₀) s ts) (sym e) r, done)
Runs-Shown rl p₀ p q (inr (t, t', h, over, ms)) (ts, r, done) =
    (t' ∷ ts, Reach-call t t' ts h ms r, (over, done))

module _ {L R H S P : Type 0} (rl : RateLimiter L) (peers : Peers L R) (rt : Runtime H S P) where
  -- Calls that do not overlap are among the interleavings: for each server that calls one after the
  -- other lead to from a consistent one, single accesses of threads that all ran to their end lead
  -- from the same start to the same registry and the same guard, its buckets left out.
  pub Serial-Reach :
      (p₀ : App L H S) {p : App L H S}
      → IsConsistent 0 p₀
      → Serial peers rt p₀ p
      → (ts : List Thread) × Reach (view rl p₀) (view rl p) ts × AllDone ts
  Serial-Reach p₀ c begin = ([], here, tt)
  Serial-Reach p₀ c (creates {p} r payload du uuid clocks now w blank fresh s) =
      Runs-Shown rl p₀ p (create_session peers rt r payload du uuid clocks now p w).0
        (create_session-Runs rl peers rt r payload du uuid clocks now p w fresh)
        (Serial-Reach p₀ c s)
  Serial-Reach p₀ c (attaches {p} id now s) =
      Runs-Shown rl p₀ p (attach (hosted rt) id now p).0
        (attach-Runs rl rt id now p (Serial-IsConsistent peers rt c s)) (Serial-Reach p₀ c s)
  Serial-Reach p₀ c (ends {p} id s) =
      Runs-Shown rl p₀ p (destroy (hosted rt) id p).0
        (destroy-Runs rl rt id p (Serial-IsConsistent peers rt c s)) (Serial-Reach p₀ c s)
  Serial-Reach p₀ c (reaps {p} now s) =
      Runs-Shown rl p₀ p (reap_expired (hosted rt) now p)
        (reap_expired-Runs rl rt now p (Serial-IsConsistent peers rt c s)) (Serial-Reach p₀ c s)
  Serial-Reach p₀ c (evicts {p} now s) =
      Runs-Shown rl p₀ p (evict_stale now p) (evict-Runs rl now p) (Serial-Reach p₀ c s)
  Serial-Reach p₀ c (closes {p} s) =
      Runs-Shown rl p₀ p (close (hosted rt) p).0
        (close-Runs rl rt p (Serial-IsConsistent peers rt c s)) (Serial-Reach p₀ c s)
