-- ===== src/Abuse/RateLimiter/Layers.antt =====
-- Both buckets have to admit a request, and no other bucket is touched.
use docpine.Base.{
  ℕ, ◌≡◌, ◌≢◌, ◌↔◌, true, false, some, Bytes, Dict, lookup, arith, Bool-cases, inl, inr,
  lookup-insert_self, lookup-insert_ne, insert, ◌∙◌,
}
use docpine.Abuse.RateLimiter.{
  Buckets, Entry, RateLimiter, pair_key, half, double, bucket, refuses, draw, allow,
}

pub bucket-insert :
    {L : Type 0} (key : Bytes) (fresh : L) (e : Entry L) (m : Dict (Entry L))
    → bucket key fresh (insert key e m) ≡ e.limiter
unfolding bucket
bucket-insert key fresh e m = rw (lookup-insert_self key e m, bucket)

module _ {L R : Type 0} (rate : Buckets L R) where
  -- The buckets that a request draws on.
  abbrev pub pair_bucket : Bytes → Bytes → RateLimiter L → L
  pair_bucket ip device rl =
      bucket (pair_key ip device) (rate.new_limiter rl.refill_rate rl.burst) rl.pairs

  abbrev pub ip_bucket : Bytes → RateLimiter L → L
  ip_bucket ip rl = bucket ip (rate.new_limiter (half rl.refill_rate) (double rl.burst)) rl.ip_only

  draw_iff :
      (pair own : L) (clock : ℕ → ℕ)
      → let (pair', own', allowed, retry_after) = draw rate pair own clock in
        ((allowed ≡ true) ↔ (
          (refuses rate (rate.reserve pair (clock 1)).1 (clock 2) ≡ false)
          × (refuses rate (rate.reserve own (clock 3)).1 (clock 4) ≡ false)))
        × (allowed ≡ true → retry_after ≡ 0)
        × (refuses rate (rate.reserve pair (clock 1)).1 (clock 2) ≡ true → own' ≡ own)
  unfolding draw
  draw_iff pair own clock =
      elim (Bool-cases (refuses rate (rate.reserve pair (clock 1)).1 (clock 2))) [
        | inl no_pair ↦ rw (no_pair, draw) (ground arith)
        | inr has_pair ↦ rw (has_pair, draw) (ground arith)
      ]

  -- A request is admitted exactly when the bucket of its address and device and the bucket of its
  -- address both yield a token at once; an admitted request is told to wait 0, and one that the
  -- first bucket refuses draws nothing from the second.
  pub allow_iff :
      (ip device : Bytes) (clock : ℕ → ℕ) (rl : RateLimiter L)
      → let (rl', allowed, retry_after) = allow rate ip device clock rl in
        let r_pair = (rate.reserve (pair_bucket ip device rl) (clock 1)).1 in
        let r_ip = (rate.reserve (ip_bucket ip rl) (clock 3)).1 in
        ((allowed ≡ true)
          ↔ ((refuses rate r_pair (clock 2) ≡ false) × (refuses rate r_ip (clock 4) ≡ false)))
        × (allowed ≡ true → retry_after ≡ 0)
        × (refuses rate r_pair (clock 2) ≡ true → ip_bucket ip rl' ≡ ip_bucket ip rl)
  unfolding allow
  allow_iff ip device clock rl =
      let (admits, waits, spares) = draw_iff (pair_bucket ip device rl) (ip_bucket ip rl) clock in
      (admits, waits, λ h. bucket-insert ip _ _ rl.ip_only ∙ spares h)

  -- `Allow` writes the entry of the address with the device and that of the address, marks both as
  -- seen now, and leaves every other entry.
  allow_frame :
      (ip device key : Bytes) (clock : ℕ → ℕ) (rl : RateLimiter L)
      → let rl' = (allow rate ip device clock rl).0 in
        (pair_key ip device ≢ key → lookup key rl'.pairs ≡ lookup key rl.pairs)
        × (ip ≢ key → lookup key rl'.ip_only ≡ lookup key rl.ip_only)
        × ((l : L) × (lookup (pair_key ip device) rl'.pairs
              ≡ some (record { limiter = l; last_seen = clock 0 })))
        × ((l : L) × (lookup ip rl'.ip_only ≡ some (record { limiter = l; last_seen = clock 0 })))
  unfolding allow
  allow_frame ip device key clock rl = (
    λ ne. lookup-insert_ne (pair_key ip device) key _ rl.pairs ne,
    λ ne. lookup-insert_ne ip key _ rl.ip_only ne,
    (_, lookup-insert_self (pair_key ip device) _ rl.pairs),
    (_, lookup-insert_self ip _ rl.ip_only),
  )
