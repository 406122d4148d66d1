-- ===== src/Firecracker/Serial.antt =====
-- fcSerialStream of firecracker.go: the two FIFOs of a machine's console as one stream. `P` is an
-- open FIFO.
use docpine.Base.{
  ℕ, zero, suc, ◌<◌, ◌≡◌, Bool, true, Option, none, some, Bytes, if◌then◌else◌, arith,
}
use docpine.Runtime.{Error}
use docpine.Terminal.{ReadError}

-- How a read of a FIFO ends that is open without blocking: EAGAIN, or bytes, perhaps with an error.
pub data FifoRead : Type 0 where
  again : FifoRead
  arrived : Bytes → Option ReadError → FifoRead

-- The methods of os.File, and time.Sleep.
pub record Files (V P : Type 0) : Type 0 where
  pub read : P → V → V × FifoRead
  pub write : P → Bytes → V → V × Option Error
  pub close : P → V → V × Option Error
  pub sleep : ℕ → V → V

-- fcSerialStream; `closed` is its closeOnce.
pub record SerialStream (P : Type 0) : Type 0 where
  pub reader : P
  pub writer : P
  pub closed : Bool

-- 10 milliseconds
abbrev pub retry_interval : ℕ
retry_interval = 10_000_000

module _ {V P : Type 0} (files : Files V P) where
  -- The result is `none` where the fuel runs out.
  unfoldable pub read_retrying : ℕ → P → V → Option (V × Bytes × Option ReadError)
  read_retrying zero f v = none
  read_retrying (suc fuel) f v =
      let (v', outcome) = files.read f v in
      let rest = read_retrying fuel f (files.sleep retry_interval v') in
      elim outcome [ again ↦ rest | arrived bytes e ↦ some (v', bytes, e) ]

  unfoldable pub read : ℕ → SerialStream P → V → Option (V × Bytes × Option ReadError)
  read fuel s v = read_retrying fuel s.reader v

  unfoldable pub write : SerialStream P → Bytes → V → V × Option Error
  write s bytes v = files.write s.writer bytes v

  -- Both ends are closed, whether or not the first one fails; the first error is returned.
  unfoldable pub close_ends : P → P → V → V × Option Error
  close_ends reader writer v =
      let (v₁, err1) = files.close reader v in
      let (v₂, err2) = files.close writer v₁ in (v₂, elim err1 [ some e ↦ some e | none ↦ err2 ])

  unfoldable pub close : SerialStream P → V → (SerialStream P × V) × Option Error
  close s v =
      let (v', failed) = close_ends s.reader s.writer v in
      if s.closed then ((s, v), none) else ((record s { closed = true }, v'), failed)

  -- The first `n` reads from `v` on meet EAGAIN, each followed by a sleep; the next one is at `u`.
  abbrev pub Retries : ℕ → P → V → V → Type 0
  Retries zero f v u = v ≡ u
  Retries (suc n) f v u =
      ((files.read f v).1 ≡ again) × Retries n f (files.sleep retry_interval (files.read f v).0) u

  -- The read that ends the loop of `read_retrying`.
  abbrev pub EndsAt : ℕ → P → V → V × Bytes × Option ReadError → Type 0
  EndsAt fuel f v (w, bytes, e) =
      (n : ℕ) × (u : V) × (n < fuel) × Retries n f v u × (files.read f u ≡ (w, arrived bytes e))

  -- Only the first Close reaches the FIFOs.
  close-close :
      (s : SerialStream P) (v v' : V) → let t = (close s v).0.0 in close t v' ≡ ((t, v'), none)
  unfolding close
  close-close s v v' = ground arith
