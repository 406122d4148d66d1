-- ===== src/Firecracker/Retrying.antt =====
-- When a read of the serial console returns, and what with.
use docpine.Base.{
  ℕ, zero, suc, ◌<◌, ◌≡◌, ◌↔◌, ◌⊎◌, inl, inr, refl, sym, ap, ◌∙◌, Option, some, Bytes, arith,
}
use docpine.Terminal.{ReadError}
use docpine.Firecracker.Serial.{
  FifoRead, again, arrived, Files, SerialStream, retry_interval, read_retrying, read, Retries,
  EndsAt,
}

FifoRead-cases :
    (x : FifoRead)
    → (x ≡ again) ⊎ ((bytes : Bytes) × (e : Option ReadError) × (x ≡ arrived bytes e))
FifoRead-cases again = inl refl
FifoRead-cases (arrived bytes e) = inr (bytes, e, refl)

landed :
    {V : Type 0} (bytes : Bytes) (e : Option ReadError) (x : V × FifoRead)
    (r : V × Bytes × Option ReadError)
    → x.1 ≡ arrived bytes e
    → some (x.0, bytes, e) ≡ some r
    → x ≡ (r.0, arrived r.1 r.2)
landed bytes e x r there same =
    let same' : (x.0, bytes, e) ≡ r = cc in
    ap (λ z. (x.0, z)) there ∙ ap (λ q. (q.0, arrived q.1 q.2)) same'

module _ {V P : Type 0} (files : Files V P) where
  retrying_blocked :
      (fuel : ℕ) (f : P) (v : V)
      → (files.read f v).1 ≡ again
      → read_retrying files (suc fuel) f v
        ≡ read_retrying files fuel f (files.sleep retry_interval (files.read f v).0)
  unfolding read_retrying
  retrying_blocked fuel f v blocked = rw (blocked, read_retrying) refl

  retrying_arrived :
      (fuel : ℕ) (f : P) (v : V) (bytes : Bytes) (e : Option ReadError)
      → (files.read f v).1 ≡ arrived bytes e
      → read_retrying files (suc fuel) f v ≡ some ((files.read f v).0, bytes, e)
  unfolding read_retrying
  retrying_arrived fuel f v bytes e there = rw (there, read_retrying) refl

  retrying-EndsAt :
      (fuel : ℕ) (f : P) (v : V) (r : V × Bytes × Option ReadError)
      → read_retrying files fuel f v ≡ some r
      → EndsAt files fuel f v r
  unfolding read_retrying
  retrying-EndsAt zero f v r h = absurd (ground arith)
  retrying-EndsAt (suc fuel) f v r h = elim (FifoRead-cases (files.read f v).1) [
    | inl blocked ↦
        let (n, u, bound, waits, last) =
          retrying-EndsAt fuel f (files.sleep retry_interval (files.read f v).0) r
            (sym (retrying_blocked fuel f v blocked) ∙ h) in
        (suc n, u, omega arith, (blocked, waits), last)
    | inr (bytes, e, there) ↦ (
      zero,
      v,
      omega arith,
      refl,
      landed bytes e (files.read f v) r there (sym (retrying_arrived fuel f v bytes e there) ∙ h),
    )
  ]

  EndsAt-retrying :
      (fuel n : ℕ) (f : P) (v u w : V) (bytes : Bytes) (e : Option ReadError)
      → n < fuel
      → Retries files n f v u
      → files.read f u ≡ (w, arrived bytes e)
      → read_retrying files fuel f v ≡ some (w, bytes, e)
  unfolding read_retrying
  EndsAt-retrying zero n f v u w bytes e bound waits h = absurd (omega arith)
  EndsAt-retrying (suc fuel) zero f v u w bytes e bound waits h =
      let last : files.read f v ≡ (w, arrived bytes e) = rw (waits) h in
      retrying_arrived fuel f v bytes e (ap (λ x. x.1) last) ∙ ap (λ x. some (x.0, bytes, e)) last
  EndsAt-retrying (suc fuel) (suc n) f v u w bytes e bound (first, waits) h =
      retrying_blocked fuel f v first
      ∙ EndsAt-retrying fuel n f (files.sleep retry_interval (files.read f v).0) u w bytes e
          (omega arith) waits h

  -- Read of the serial console comes back exactly if one of its reads of the FIFO does not meet
  -- EAGAIN, at the latest in the last of the rounds that the fuel allows. It sleeps 10 milliseconds
  -- after each read that does, and returns the bytes and the error of the first one that does not,
  -- as that read leaves them.
  pub read_iff :
      (fuel : ℕ) (s : SerialStream P) (v : V) (r : V × Bytes × Option ReadError)
      → (read files fuel s v ≡ some r) ↔ EndsAt files fuel s.reader v r
  unfolding read
  read_iff fuel s v (w, bytes, e) = (
    retrying-EndsAt fuel s.reader v (w, bytes, e),
    λ (n, u, bound, waits, h). EndsAt-retrying fuel n s.reader v u w bytes e bound waits h,
  )
