-- ===== src/Abuse/Guard/Frame.antt =====
-- What a check leaves alone, and the device that it names.
use docpine.Base.{◌≡◌, Bytes, arith}
use docpine.Http.{Response, Request, set_cookie}
use docpine.Abuse.Concurrency.{try_acquire}
use docpine.Abuse.Cookie.{get_or_set}
use docpine.Abuse.RateLimiter.{RateLimiter}
use docpine.Abuse.Guard.{
  Guard, Peers, Clocks, release_slot, refuse_challenge, check_rate, check_challenge,
  check_anonymous_create,
}
use docpine.Abuse.Guard.Slots.{ip_of, device_of}

-- The bindings and the settings of a guard are those of another.
abbrev pub SameBindings : {L : Type 0} → Guard L → Guard L → Type 0
SameBindings g g' =
    (g'.device_sessions ≡ g.device_sessions) × (g'.session_devices ≡ g.session_devices)

module _ {L R : Type 0} (peers : Peers L R) where
  check_rate-frame :
      (client_ip device_id : Bytes) (clocks : Clocks) (g : Guard L) (w : Response)
      → let o = check_rate peers client_ip device_id clocks g w in
        SameBindings g o.guard × (o.device_id ≡ device_id)
  unfolding check_rate release_slot
  check_rate-frame client_ip device_id clocks g w = ground arith

  check_challenge-frame :
      (token client_ip device_id : Bytes) (clocks : Clocks) (g : Guard L) (w : Response)
      → let o = check_challenge peers token client_ip device_id clocks g w in
        SameBindings g o.guard × (o.device_id ≡ device_id)
  unfolding check_challenge refuse_challenge release_slot
  check_challenge-frame token client_ip device_id clocks g w =
      ground (arith, check_rate-frame client_ip device_id clocks g w)

  -- A check binds and unbinds nothing, and names the device of the cookie, or the new one.
  pub check-frame :
      (r : Request) (token uuid : Bytes) (clocks : Clocks) (g : Guard L) (w : Response)
      → let o = check_anonymous_create peers r token uuid clocks g w in
        SameBindings g o.guard × (o.device_id ≡ device_of peers r uuid clocks g)
  unfolding check_anonymous_create
  check-frame r token uuid clocks g w =
      let w' =
        set_cookie (get_or_set peers.mac g.cookie_secret r.device_cookie uuid clocks.cookie).1 w in
      ground (
        arith,
        check_challenge-frame token (ip_of peers r) (device_of peers r uuid clocks g) clocks
            (record g { concurrency = (try_acquire g.concurrency).0 }) w',
      )

-- A guard whose buckets are put aside.
abbrev pub seen : {L : Type 0} → RateLimiter L → Guard L → Guard L
seen rl g = record g { rate_limiter = rl }

-- The other guard differs in its counter and its buckets at most.
abbrev SameRest : {L : Type 0} → RateLimiter L → Guard L → Guard L → Type 0
SameRest rl g g' = seen rl g' ≡ record (seen rl g) { concurrency = g'.concurrency }

module _ {L R : Type 0} (peers : Peers L R) (rl : RateLimiter L) where
  check_rate-SameRest :
      (client_ip device_id : Bytes) (clocks : Clocks) (g : Guard L) (w : Response)
      → SameRest rl g (check_rate peers client_ip device_id clocks g w).guard
  unfolding check_rate release_slot
  check_rate-SameRest client_ip device_id clocks g w = ground arith

  check_challenge-SameRest :
      (token client_ip device_id : Bytes) (clocks : Clocks) (g : Guard L) (w : Response)
      → SameRest rl g (check_challenge peers token client_ip device_id clocks g w).guard
  unfolding check_challenge refuse_challenge release_slot
  check_challenge-SameRest token client_ip device_id clocks g w =
      ground (arith, check_rate-SameRest client_ip device_id clocks g w)

  pub check-SameRest :
      (r : Request) (token uuid : Bytes) (clocks : Clocks) (g : Guard L) (w : Response)
      → let g' = (check_anonymous_create peers r token uuid clocks g w).guard in
        seen rl g' ≡ record (seen rl g) { concurrency = g'.concurrency }
  unfolding check_anonymous_create
  check-SameRest r token uuid clocks g w =
      let w' =
        set_cookie (get_or_set peers.mac g.cookie_secret r.device_cookie uuid clocks.cookie).1 w in
      ground (
        arith,
        check_challenge-SameRest token (ip_of peers r) (device_of peers r uuid clocks g) clocks
            (record g { concurrency = (try_acquire g.concurrency).0 }) w',
      )
