-- ===== src/Abuse/Concurrency/Bounds.antt =====
-- The ceiling holds, and a slot that is released can be had again.
use docpine.Base.{
  suc, zero, ◌+◌, ◌<◌, ◌≡◌, refl, ◌∙◌, ◌↔◌, true, false, List, [], ◌∷◌, ℤ, pos, negsuc, magnitude,
  arith,
}
use docpine.Abuse.Concurrency.{
  ConcurrencyLimiter, new_concurrency_limiter, try_acquire, release, IsBounded, Call, acquires,
  releases, perform, perform_all,
}

-- Whatever number the configuration gives, the new limiter is within its bounds.
pub new_concurrency_limiter-IsBounded : (n : ℤ) → IsBounded (new_concurrency_limiter n)
unfolding new_concurrency_limiter
new_concurrency_limiter-IsBounded (pos zero) = omega arith
new_concurrency_limiter-IsBounded (pos (suc n)) = omega arith
new_concurrency_limiter-IsBounded (negsuc n) = omega arith

pub perform-IsBounded : (x : Call) (c : ConcurrencyLimiter) → IsBounded c → IsBounded (perform x c)
unfolding try_acquire release
perform-IsBounded acquires c b = ground arith
perform-IsBounded releases c b = ground arith

max-perform :
    (x : Call) (c : ConcurrencyLimiter)
    → IsBounded c
    → (perform x c).max_concurrent ≡ c.max_concurrent
unfolding try_acquire release
max-perform acquires c b = ground arith
max-perform releases c b = ground arith

-- From a counter within its bounds, no sequence of calls, extra releases included, takes it below 0
-- or above the ceiling, and none changes the ceiling.
perform_all-IsBounded :
    (xs : List Call) (c : ConcurrencyLimiter)
    → IsBounded c
    → IsBounded (perform_all xs c) × ((perform_all xs c).max_concurrent ≡ c.max_concurrent)
unfolding perform_all
perform_all-IsBounded [] c b = (b, refl)
perform_all-IsBounded (x ∷ xs) c b =
    let (bounded, same) = perform_all-IsBounded xs (perform x c) (perform-IsBounded x c b) in
    (bounded, same ∙ max-perform x c b)

-- On a counter within its bounds, `TryAcquire` grants a slot exactly when the counter is below the
-- ceiling; then it counts one more, and a `Release` restores the limiter; otherwise it counts one
-- more refusal and leaves the counter.
pub try_acquire_lem :
    (c : ConcurrencyLimiter)
    → IsBounded c
    → let (c', granted) = try_acquire c in
      ((granted ≡ true) ↔ (magnitude c.active < magnitude c.max_concurrent))
      × (granted ≡ true
          → (magnitude c'.active ≡ magnitude c.active + 1)
            × (c'.total_rejected ≡ c.total_rejected)
            × (release c' ≡ c))
      × (granted ≡ false → (c'.active ≡ c.active) × (c'.total_rejected ≡ suc c.total_rejected))
unfolding try_acquire release
try_acquire_lem c b = ground arith
