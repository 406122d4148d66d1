-- ===== src/Abuse/Guard/Slots.antt =====
-- What a check does with the slot that it takes, what it answers, and when it lets a request pass.
use docpine.Base.{
  ◌+◌, ◌≡◌, ◌≢◌, ◌⊎◌, inl, inr, Bool, true, false, Bytes, arith, magnitude, Bool-cases,
}
use docpine.Http.{Response, Request, set_cookie}
use docpine.Abuse.Concurrency.{ConcurrencyLimiter, try_acquire, release, IsBounded, acquires}
use docpine.Abuse.Concurrency.Bounds.{try_acquire_lem, perform-IsBounded}
use docpine.Abuse.Cookie.{get_or_set}
use docpine.Abuse.ClientIp.{get_client_ip}
use docpine.Abuse.Guard.{
  Guard, Peers, Verdict, proceeds, Clocks, Outcome, has_active_device_session, release_slot,
  refuse_challenge, check_rate, check_challenge, check_anonymous_create,
}

abbrev pub is_proceeds : Verdict → Bool
is_proceeds proceeds = true
is_proceeds _ = false

-- The limiter after a call that started with the counter at `c`, where `c'` holds the slot.
abbrev Settles : {L : Type 0} → ConcurrencyLimiter → ConcurrencyLimiter → Outcome L → Type 0
Settles c c' o =
    (is_proceeds o.verdict ≡ true → (o.guard.concurrency ≡ c') × (o.slot_released ≡ false))
    × (is_proceeds o.verdict ≡ false → o.guard.concurrency ≡ c)

module _ {L R : Type 0} (peers : Peers L R) where
  abbrev pub ip_of : Request → Bytes
  ip_of r = get_client_ip peers.parse_ip peers.split_host_port r.header r.remote_addr

  abbrev pub device_of : Request → Bytes → Clocks → Guard L → Bytes
  device_of r uuid clocks g =
      (get_or_set peers.mac g.cookie_secret r.device_cookie uuid clocks.cookie).0

  check_rate-Settles :
      (client_ip device_id : Bytes) (clocks : Clocks) (g : Guard L) (w : Response)
      → Settles
          (release g.concurrency)
          g.concurrency
          (check_rate peers client_ip device_id clocks g w)
  unfolding check_rate release_slot
  check_rate-Settles client_ip device_id clocks g w = ground arith

  check_challenge-Settles :
      (token client_ip device_id : Bytes) (clocks : Clocks) (g : Guard L) (w : Response)
      → Settles
          (release g.concurrency)
          g.concurrency
          (check_challenge peers token client_ip device_id clocks g w)
  unfolding check_challenge refuse_challenge release_slot
  check_challenge-Settles token client_ip device_id clocks g w =
      ground (arith, check_rate-Settles client_ip device_id clocks g w)

  -- The limiter after the whole check: with the slot, without it, refused one, or not asked.
  check-limiter :
      (r : Request) (token uuid : Bytes) (clocks : Clocks) (g : Guard L) (w : Response)
      → let o = check_anonymous_create peers r token uuid clocks g w in
        let (c, granted) = try_acquire g.concurrency in
        (is_proceeds o.verdict ≡ true
          → (o.guard.concurrency ≡ c) × (granted ≡ true) × (o.slot_released ≡ false))
        × (is_proceeds o.verdict ≡ false
            → ((granted ≡ true) × (o.guard.concurrency ≡ release c))
              ⊎ (o.guard.concurrency ≡ g.concurrency)
              ⊎ ((granted ≡ false) × (o.guard.concurrency ≡ c)))
  unfolding check_anonymous_create
  check-limiter r token uuid clocks g w =
      elim (Bool-cases (has_active_device_session (device_of r uuid clocks g) g)) [
        | inl busy ↦ rw (busy, check_anonymous_create) (ground arith)
        | inr free ↦ elim (Bool-cases (try_acquire g.concurrency).1) [
          | inl granted ↦
              rw (free, check_anonymous_create)
                (rw granted (
                  ground (
                    arith,
                    check_challenge-Settles token (ip_of r) (device_of r uuid clocks g) clocks
                        (record g { concurrency = (try_acquire g.concurrency).0 })
                        (set_cookie
                          (get_or_set peers.mac g.cookie_secret r.device_cookie uuid
                            clocks.cookie).1
                          w),
                  )))
          | inr refused ↦ rw (free, check_anonymous_create) (rw refused (ground arith))
        ]
      ]

  -- With a counter within its bounds, a request that passes holds one slot more than before, not
  -- yet given back; on every other path, a refused token and an empty bucket included, the slot
  -- count is as it was; and the counter stays within its bounds.
  pub check-slots :
      (r : Request) (token uuid : Bytes) (clocks : Clocks) (g : Guard L) (w : Response)
      → IsBounded g.concurrency
      → let o = check_anonymous_create peers r token uuid clocks g w in
        (o.verdict ≡ proceeds
          → (magnitude o.guard.concurrency.active ≡ magnitude g.concurrency.active + 1)
            × (o.slot_released ≡ false))
        × (o.verdict ≢ proceeds → o.guard.concurrency.active ≡ g.concurrency.active)
        × IsBounded o.guard.concurrency
  check-slots r token uuid clocks g w b = ground (
    arith,
    check-limiter r token uuid clocks g w,
    try_acquire_lem g.concurrency b,
    perform-IsBounded acquires g.concurrency b,
  )

  -- The four ways through a check: a device with a session, no free slot, past all layers with the
  -- slot, and refused by a later layer, which gives the slot back.
  pub check-cases :
      (r : Request) (token uuid : Bytes) (clocks : Clocks) (g : Guard L) (w : Response)
      → let o = check_anonymous_create peers r token uuid clocks g w in
        let (c, granted) = try_acquire g.concurrency in
        let busy = has_active_device_session (device_of r uuid clocks g) g in
        ((busy ≡ true) × (is_proceeds o.verdict ≡ false) × (o.guard.concurrency ≡ g.concurrency))
        ⊎ ((busy ≡ false)
            × (granted ≡ false)
            × (is_proceeds o.verdict ≡ false)
            × (o.guard.concurrency ≡ c))
        ⊎ ((busy ≡ false)
            × (granted ≡ true)
            × (is_proceeds o.verdict ≡ true)
            × (o.guard.concurrency ≡ c))
        ⊎ ((busy ≡ false)
            × (granted ≡ true)
            × (is_proceeds o.verdict ≡ false)
            × (o.guard.concurrency ≡ release c))
  unfolding check_anonymous_create
  check-cases r token uuid clocks g w =
      elim (Bool-cases (has_active_device_session (device_of r uuid clocks g) g)) [
        | inl busy ↦ rw (busy, check_anonymous_create) (ground arith)
        | inr free ↦ elim (Bool-cases (try_acquire g.concurrency).1) [
          | inl granted ↦
              rw (free, check_anonymous_create)
                (rw granted (
                  ground (
                    arith,
                    check_challenge-Settles token (ip_of r) (device_of r uuid clocks g) clocks
                        (record g { concurrency = (try_acquire g.concurrency).0 })
                        (set_cookie
                          (get_or_set peers.mac g.cookie_secret r.device_cookie uuid
                            clocks.cookie).1
                          w),
                  )))
          | inr refused ↦ rw (free, check_anonymous_create) (rw refused (ground arith))
        ]
      ]
