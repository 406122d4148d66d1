-- ===== src/Firecracker/Waiting.antt =====
-- waitForSocket comes to an end.
use docpine.Base.{
  ℕ, zero, suc, ◌+◌, ◌*◌, ◌/◌, ◌≤◌, ◌≡◌, refl, true, false, Bool-cases, inl, inr, Option, none,
  some, Bytes, ltb, arith,
}
use docpine.Runtime.{Error}
use docpine.Firecracker.{Host}
use docpine.Firecracker.Boot.{poll_interval, wait_loop, wait_for_socket, is_found, timed_out}

-- The clock does not go back, and a sleep takes its time.
pub record HasClock {V P : Type 0} (os : Host V P) : Type 0 where
  pub reads : (v : V) → (os.now v).1 ≤ (os.now (os.now v).0).1
  pub stats : (path : Bytes) (v : V) → (os.now v).1 ≤ (os.now (os.stat path v).0).1
  pub sleeps : (d : ℕ) (v : V) → (os.now v).1 + d ≤ (os.now (os.sleep d v)).1

module _ {V P : Type 0} (os : Host V P) where
  -- The socket was there at the last look; or the deadline is past.
  abbrev pub HasEnded : Bytes → ℕ → V × Option Error → Type 0
  HasEnded path deadline (v, none) =
      (u : V) × (is_found (os.stat path u).1 ≡ true) × (v ≡ (os.stat path u).0)
  HasEnded path deadline (v, some e) = (e ≡ timed_out) × (deadline ≤ (os.now v).1)

module _ {V P : Type 0} (os : Host V P) (law : HasClock os) where
  wait_loop_total :
      (fuel deadline : ℕ) (path : Bytes) (v : V)
      → deadline ≤ (os.now v).1 + fuel * poll_interval
      → (r : V × Option Error) × (wait_loop os (suc fuel) deadline path v ≡ some r)
        × HasEnded os path deadline r
  unfolding wait_loop
  wait_loop_total zero deadline path v h =
      let e : ltb (os.now v).1 deadline ≡ false = ground arith in
      (((os.now v).0, some timed_out), rw (e) refl, (refl, omega (arith, law.reads v)))
  wait_loop_total (suc fuel) deadline path v h =
      let v₁ = (os.now v).0 in
      let v₂ = (os.stat path v₁).0 in
      let (r, rest, ended) =
        wait_loop_total fuel deadline path (os.sleep poll_interval v₂)
          (ground (arith, law.reads v, law.stats path v₁, law.sleeps poll_interval v₂)) in
      elim (Bool-cases (ltb (os.now v).1 deadline)) [
        | inr late ↦
            ((v₁, some timed_out), rw (late) refl, (refl, ground (arith, late, law.reads v)))
        | inl early ↦ elim (Bool-cases (is_found (os.stat path v₁).1)) [
          | inl there ↦ ((v₂, none), rw (early, there) refl, (v₁, there, refl))
          | inr absent ↦ (r, rw (early, absent) rest, ended)
        ]
      ]

  -- waitForSocket always returns, whatever the clock reads and however long the sleeps take, as
  -- `HasClock` allows: without an error exactly after a look that found the socket, or with the
  -- timeout's error at a time that is not before its start plus the timeout.
  pub wait_for_socket_total :
      (path : Bytes) (timeout : ℕ) (v : V)
      → (r : V × Option Error) × (wait_for_socket os path timeout v ≡ some r)
        × HasEnded os path ((os.now v).1 + timeout) r
  unfolding wait_for_socket
  wait_for_socket_total path timeout v =
      wait_loop_total (suc (timeout / poll_interval)) ((os.now v).1 + timeout) path (os.now v).0
        (omega (arith, law.reads v))
