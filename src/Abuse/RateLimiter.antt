-- ===== src/Abuse/RateLimiter.antt =====
-- internal/abuse/limiter.go: token buckets for a client, one for its address with its cookie and
-- one, twice as large and twice as fast, for its address. The buckets are those of
-- golang.org/x/time/rate, which the program only calls: `Buckets` is what it calls.
pub mod Keys
pub mod Layers
pub mod Eviction
pub mod Stretch
pub mod Draws
pub mod Budget
use docpine.Base.{
  ℕ, ◌+◌, ◌-◌, ◌*◌, ◌/◌, Bool, true, false, ◌||◌, not, none, some, List, [], ◌∷◌, ◌++◌, Bytes, Dict,
  lookup, insert, retain, ltb, leb, if◌then◌else◌, ℤ, pos, negsuc,
}
use docpine.Background.{Wake, run_loop}

-- `L` is a limiter, `R` a reservation. Each call that reads the clock is given its reading.
pub record Buckets (L R : Type 0) : Type 0 where
  -- rate.NewLimiter(rate.Every(interval), burst)
  pub new_limiter : ℤ → ℤ → L
  pub reserve : L → ℕ → L × R
  pub is_ok : R → Bool
  pub delay : R → ℕ → ℕ
  pub cancel : R → L → ℕ → L

pub record Entry (L : Type 0) : Type 0 where
  pub limiter : L
  pub last_seen : ℕ

pub record RateLimiter (L : Type 0) : Type 0 where
  pub burst : ℤ
  pub refill_rate : ℤ
  pub pairs : Dict (Entry L)
  pub ip_only : Dict (Entry L)

unfoldable pub new_rate_limiter : {L : Type 0} → ℤ → ℤ → RateLimiter L
new_rate_limiter burst refill_rate = record {
  burst = burst;
  refill_rate = refill_rate;
  pairs = [];
  ip_only = [];
}

-- ip + ":" + cookieID
unfoldable pub pair_key : Bytes → Bytes → Bytes
pair_key ip cookie_id = ip ++ (b':' ∷ cookie_id)

-- x / 2 and x * 2 on int64: division rounds towards zero.
abbrev pub half : ℤ → ℤ
half (pos n) = pos (n / 2)
half (negsuc n) = if ltb n 1 then pos 0 else negsuc ((n + 1) / 2 - 1)

abbrev pub double : ℤ → ℤ
double (pos n) = pos (n * 2)
double (negsuc n) = negsuc (n * 2 + 1)

-- time.Hour
abbrev pub stale_after : ℕ
stale_after = 3600 * 1_000_000_000

-- The limiter of the entry under a key; a new entry holds `fresh`.
unfoldable pub bucket : {L : Type 0} → Bytes → L → Dict (Entry L) → L
bucket key fresh m = elim (lookup key m) [ none ↦ fresh | some e ↦ e.limiter ]

module _ {L R : Type 0} (rate : Buckets L R) where
  -- Reserve a token; a reservation that is not at once usable is cancelled, and its delay is the
  -- answer. `at` is the reading of `Reserve`, and the next ones follow in order.
  unfoldable pub refuses : R → ℕ → Bool
  refuses r at = not (rate.is_ok r) || ltb 0 (rate.delay r at)

  -- The two buckets after `Allow`, and its two results. Reading 0 of the clock is `now`.
  unfoldable pub draw : L → L → (ℕ → ℕ) → L × L × Bool × ℕ
  unfolding refuses
  draw pair_limiter ip_limiter clock =
      let (pair', r_pair) = rate.reserve pair_limiter (clock 1) in
      if refuses r_pair (clock 2)
      then (rate.cancel r_pair pair' (clock 4), ip_limiter, false, rate.delay r_pair (clock 3))
      else (let (ip', r_ip) = rate.reserve ip_limiter (clock 3) in
          if refuses r_ip (clock 4)
          then (
            rate.cancel r_pair pair' (clock 6),
            rate.cancel r_ip ip' (clock 7),
            false,
            rate.delay r_ip (clock 5),
          )
          else (pair', ip', true, 0))

  unfoldable pub allow : Bytes → Bytes → (ℕ → ℕ) → RateLimiter L → RateLimiter L × Bool × ℕ
  allow ip cookie_id clock rl =
      let now = clock 0 in
      let key = pair_key ip cookie_id in
      let pair_limiter = bucket key (rate.new_limiter rl.refill_rate rl.burst) rl.pairs in
      let ip_limiter =
        bucket ip (rate.new_limiter (half rl.refill_rate) (double rl.burst)) rl.ip_only in
      let (pair', ip', allowed, retry_after) = draw pair_limiter ip_limiter clock in
      (
        record rl {
          pairs = insert key (record { limiter = pair'; last_seen = now }) rl.pairs;
          ip_only = insert ip (record { limiter = ip'; last_seen = now }) rl.ip_only;
        },
        allowed,
        retry_after,
      )

-- now.Sub(e.lastSeen) <= 1*time.Hour
abbrev pub is_recent : {L : Type 0} → ℕ → Entry L → Bool
is_recent now e = leb now (e.last_seen + stale_after)

-- A round of evictStaleEntries.
unfoldable pub evict : {L : Type 0} → ℕ → RateLimiter L → RateLimiter L
evict now rl = record rl {
  pairs = retain (is_recent now) rl.pairs;
  ip_only = retain (is_recent now) rl.ip_only;
}

unfoldable pub evict_stale_entries : {L : Type 0} → List Wake → RateLimiter L → RateLimiter L
evict_stale_entries = run_loop evict
