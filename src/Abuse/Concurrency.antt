-- ===== src/Abuse/Concurrency.antt =====
-- internal/abuse/concurrency.go: the ceiling on sandboxes that run at once. The counters are read
-- and written by atomic operations of sync/atomic; a call that is not alone on the processor is a
-- sequence of such operations, given by `attempt_step` and `release_step`.
pub mod Bounds
use docpine.Base.{
  ℕ, suc, ◌≤◌, ◌<◌, Bool, true, false, List, [], ◌∷◌, if◌then◌else◌, ℤ, pos, is_nonpos, is_negative,
  increment, decrement, geb, int_eq,
}

pub record ConcurrencyLimiter : Type 0 where
  pub max_concurrent : ℤ
  pub active : ℤ
  pub total_rejected : ℕ

unfoldable pub new_concurrency_limiter : ℤ → ConcurrencyLimiter
new_concurrency_limiter max_concurrent = record {
  max_concurrent = if is_nonpos max_concurrent then pos 12 else max_concurrent;
  active = pos 0;
  total_rejected = 0;
}

-- Where a call of `TryAcquire` stands in its loop; `swapping` holds the value that it loaded.
pub data Attempt : Type 0 where
  loading : Attempt
  swapping : ℤ → Attempt
  acquired refused : Attempt

-- One atomic step: the load with the test on what it read, or the compare-and-swap, which goes
-- round the loop again if another thread was faster.
unfoldable pub attempt_step : Attempt → ConcurrencyLimiter → Attempt × ConcurrencyLimiter
attempt_step loading c =
    if geb c.active c.max_concurrent
    then (refused, record c { total_rejected = suc c.total_rejected })
    else (swapping c.active, c)
attempt_step (swapping current) c =
    if int_eq c.active current
    then (acquired, record c { active = increment current })
    else (loading, c)
attempt_step acquired c = (acquired, c)
attempt_step refused c = (refused, c)

abbrev is_acquired : Attempt → Bool
is_acquired acquired = true
is_acquired _ = false

-- `TryAcquire` with no other thread in between: its loop runs once.
unfoldable pub try_acquire : ConcurrencyLimiter → ConcurrencyLimiter × Bool
unfolding attempt_step
try_acquire c =
    let (a, c') = attempt_step loading c in
    let (a', c'') = attempt_step a c' in (c'', is_acquired a')

-- Where a call of `Release` stands.
pub data Releasing : Type 0 where
  adding resetting released : Releasing

unfoldable pub release_step : Releasing → ConcurrencyLimiter → Releasing × ConcurrencyLimiter
release_step adding c =
    let new_active = decrement c.active in
    (if is_negative new_active then resetting else released, record c { active = new_active })
release_step resetting c = (released, record c { active = pos 0 })
release_step released c = (released, c)

-- `Release` with no other thread in between.
unfoldable pub release : ConcurrencyLimiter → ConcurrencyLimiter
unfolding release_step
release c = let (r, c') = release_step adding c in (release_step r c').1

-- 0 <= active <= max, and max admits a sandbox.
abbrev pub InRange : ℤ → ℤ → Type 0
InRange (pos held) (pos ceiling) = (0 < ceiling) × (held ≤ ceiling)
InRange _ _ = ⊥

abbrev pub IsBounded : ConcurrencyLimiter → Type 0
IsBounded c = InRange c.active c.max_concurrent

pub data Call : Type 0 where
  acquires releases : Call

abbrev pub perform : Call → ConcurrencyLimiter → ConcurrencyLimiter
perform acquires c = (try_acquire c).0
perform releases c = release c

unfoldable pub perform_all : List Call → ConcurrencyLimiter → ConcurrencyLimiter
perform_all [] c = c
perform_all (x ∷ xs) c = perform_all xs (perform x c)
