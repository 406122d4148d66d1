-- ===== src/Abuse/RateLimiter/Budget.antt =====
-- How many requests of one address, and of one device at it, are admitted in a stretch of time.
use mathlib.Core.Path.{subst}
use native.Mathlib.Nat.{suc-mul}
use docpine.Base.{
  insert, Dict, sym, ℕ, suc, ◌+◌, ◌-◌, ◌*◌, ◌/◌, ◌≤◌, ◌≡◌, ◌≢◌, refl, Bool, true, false, List, [],
  ◌∷◌, Bytes, str_eq, str_eq_iff, if◌then◌else◌, pos, arith, Bool-cases, inl, inr, lookup,
  lookup-insert_ne,
}
use docpine.Abuse.RateLimiter.{
  Buckets, Entry, RateLimiter, new_rate_limiter, half, double, pair_key, bucket, allow,
}
use docpine.Abuse.RateLimiter.Layers.{pair_bucket, ip_bucket, bucket-insert}
use docpine.Abuse.RateLimiter.Stretch.{
  IsTokenBucket, Call, IsOrdered, allow_all, from_address, from_pair, admitted,
}
use docpine.Abuse.RateLimiter.Draws.{in_order, Pays, waits, pair-Pays, own-Pays}

bucket-insert_ne :
    {L : Type 0} (key other : Bytes) (fresh : L) (e : Entry L) (m : Dict (Entry L))
    → key ≢ other
    → bucket other fresh (insert key e m) ≡ bucket other fresh m
unfolding bucket
bucket-insert_ne key other fresh e m ne = rw (lookup-insert_ne key other e m ne, bucket) refl

differ : {b : Bool} → b ≡ false → b ≡ true → ⊥
differ h k = cc

counted :
    (own allowed : Bool) (n i : ℕ)
    → (if own then (if allowed then suc n else n) else n) * i
      ≡ n * i + (if own then (if allowed then i else 0) else 0)
counted false allowed n i = omega arith
counted true false n i = omega arith
counted true true n i = suc-mul n i

IsOrdered-le : (t end : ℕ) (cs : List Call) → IsOrdered t cs end → t ≤ end
unfolding IsOrdered
IsOrdered-le t end [] h = h
IsOrdered-le t end (c ∷ cs) (late, onward, h) =
    omega (arith, late, in_order t c.clock late onward, IsOrdered-le (c.clock 7) end cs h)

module _ {L R : Type 0} (rate : Buckets L R) (ticks : ℕ → L → Type 0) (level : ℕ → L → ℕ → ℕ)
    (law : IsTokenBucket rate ticks level) where
  -- The bucket under a key, once a bucket is written under the same key or another one.
  keyed-Pays :
      (i : ℕ) (key other : Bytes) (fresh : L) (e : Entry L) (m : Dict (Entry L)) (t end cost : ℕ)
      → t ≤ end
      → (ticks i (bucket key fresh m)
          → Pays rate ticks level law i (bucket key fresh m) e.limiter t end cost)
      → ticks i (bucket other fresh m)
      → Pays rate ticks level law i
          (bucket other fresh m)
          (bucket other fresh (insert key e m))
          t
          end
          (if str_eq key other then cost else 0)
  keyed-Pays i key other fresh e m t end cost late pays k = elim (Bool-cases (str_eq key other)) [
    | inl own ↦
        let same : key ≡ other = (str_eq_iff key other).0 own in
        let mine : ticks i (bucket key fresh m) =
          subst (λ a. ticks i (bucket a fresh m)) (sym same) k in
        rw own (
          subst
            (λ a.
              Pays rate ticks level law i (bucket a fresh m) (bucket a fresh (insert key e m)) t end
                cost)
            same
            (subst (λ l. Pays rate ticks level law i (bucket key fresh m) l t end cost)
              (sym (bucket-insert key fresh e m)) (pays mine)))
    | inr foreign ↦
        let apart =
          bucket-insert_ne key other fresh e m (λ e. differ foreign ((str_eq_iff key other).1 e)) in
        rw foreign (rw apart (waits rate ticks level law i (bucket other fresh m) t end k late))
  ]

  -- A stretch of calls, for a bucket that pays for each admitted call of a kind.
  module _ (bucket_of : RateLimiter L → L) (mine : Call → Bool) (i : ℕ)
      (step : (c : Call) (rl : RateLimiter L) (t : ℕ)
        → t ≤ c.clock 0
        → ((n : ℕ) → c.clock n ≤ c.clock (suc n))
        → ticks i (bucket_of rl)
        → let (rl', allowed, retry_after) = allow rate c.ip c.device c.clock rl in
          Pays rate ticks level law i
            (bucket_of rl)
            (bucket_of rl')
            t
            (c.clock 7)
            (if mine c then (if allowed then i else 0) else 0)) where
    admitted-pays :
        (cs : List Call) (rl : RateLimiter L) (t end : ℕ)
        → IsOrdered t cs end
        → ticks i (bucket_of rl)
        → level i (bucket_of (allow_all rate cs rl)) end + admitted rate mine cs rl * i
          ≤ level i (bucket_of rl) t + (end - t)
    unfolding allow_all admitted IsOrdered
    admitted-pays [] rl t end h k = omega (arith, law.earns i (bucket_of rl) t end k h)
    admitted-pays (c ∷ cs) rl t end (late, onward, h) k =
        let x = allow rate c.ip c.device c.clock rl in
        let (kept, pays) = step c rl t late onward k in
        omega (
          arith,
          pays,
          admitted-pays cs x.0 (c.clock 7) end h kept,
          counted (mine c) x.1 (admitted rate mine cs x.0) i,
          late,
          in_order t c.clock late onward,
          IsOrdered-le (c.clock 7) end cs h,
        )

  address_step :
      (i : ℕ) (ip : Bytes) (c : Call) (rl : RateLimiter L) (t : ℕ)
      → t ≤ c.clock 0
      → ((n : ℕ) → c.clock n ≤ c.clock (suc n))
      → ticks i (ip_bucket rate ip rl)
      → let (rl', allowed, retry_after) = allow rate c.ip c.device c.clock rl in
        Pays rate ticks level law i
          (ip_bucket rate ip rl)
          (ip_bucket rate ip rl')
          t
          (c.clock 7)
          (if from_address ip c then (if allowed then i else 0) else 0)
  unfolding allow
  address_step i ip c rl t late onward k =
      keyed-Pays i c.ip ip (rate.new_limiter (half rl.refill_rate) (double rl.burst)) _ rl.ip_only t
        (c.clock 7) _ (omega (arith, late, in_order t c.clock late onward))
        (own-Pays rate ticks level law i (pair_bucket rate c.ip c.device rl)
          (ip_bucket rate c.ip rl) t c.clock late onward)
        k

  pair_step :
      (i : ℕ) (ip device : Bytes) (c : Call) (rl : RateLimiter L) (t : ℕ)
      → t ≤ c.clock 0
      → ((n : ℕ) → c.clock n ≤ c.clock (suc n))
      → ticks i (pair_bucket rate ip device rl)
      → let (rl', allowed, retry_after) = allow rate c.ip c.device c.clock rl in
        Pays rate ticks level law i
          (pair_bucket rate ip device rl)
          (pair_bucket rate ip device rl')
          t
          (c.clock 7)
          (if from_pair ip device c then (if allowed then i else 0) else 0)
  unfolding allow
  pair_step i ip device c rl t late onward k =
      keyed-Pays i (pair_key c.ip c.device) (pair_key ip device)
        (rate.new_limiter rl.refill_rate rl.burst) _ rl.pairs t (c.clock 7) _
        (omega (arith, late, in_order t c.clock late onward))
        (pair-Pays rate ticks level law i (pair_bucket rate c.ip c.device rl)
          (ip_bucket rate c.ip rl) t c.clock late onward)
        k

  -- Nobody gets further than the buckets: of the calls that come to a new limiter from `start` to
  -- `end`, with no eviction in between, those that are admitted for an address, whatever devices it
  -- claims, cost no more than twice the burst and the time that has passed, each at half the refill
  -- interval; and those for the key of an address with a device no more than the burst and that
  -- time, each at the whole interval. The buckets behave as `IsTokenBucket` states, and the clock
  -- does not go back.
  pub admitted-le :
      (i b : ℕ) (ip device : Bytes) (cs : List Call) (start end : ℕ)
      → IsOrdered start cs end
      → let rl = new_rate_limiter (pos b) (pos i) in
        (admitted rate (from_address ip) cs rl * (i / 2) ≤ b * 2 * (i / 2) + (end - start))
        × (admitted rate (from_pair ip device) cs rl * i ≤ b * i + (end - start))
  unfolding new_rate_limiter bucket lookup
  admitted-le i b ip device cs start end h =
      let rl : RateLimiter L = new_rate_limiter (pos b) (pos i) in
      (
        omega (
          arith,
          admitted-pays (ip_bucket rate ip) (from_address ip) (i / 2) (address_step (i / 2) ip) cs
              rl start end h (law.makes (i / 2) (b * 2)),
          law.fills (i / 2) (b * 2) start,
        ),
        omega (
          arith,
          admitted-pays (pair_bucket rate ip device) (from_pair ip device) i (pair_step i ip device)
              cs rl start end h (law.makes i b),
          law.fills i b start,
        ),
      )
