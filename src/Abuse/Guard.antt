-- ===== src/Abuse/Guard.antt =====
-- internal/abuse/guard.go: the layers in their order, and the binding of devices to sessions. One
-- call runs with no other in between; System.antt has the interleavings.
pub mod Slots
pub mod Frame
pub mod Verdicts
pub mod Bindings
mod Tests
use docpine.Base.{
  ℕ, ◌/◌, Bool, true, false, not, Option, none, some, [], ◌∷◌, Bytes, codes, Dict, lookup, insert,
  delete, ◌==◌, if◌then◌else◌, ℤ, pos, is_empty,
}
use docpine.Text.Decimal.{print}
use docpine.Http.{text, num, flag, Response, Request, set_header, send_json, set_cookie}
use docpine.Abuse.Concurrency.{ConcurrencyLimiter, new_concurrency_limiter, try_acquire, release}
use docpine.Abuse.Cookie.{get_or_set, second}
use docpine.Abuse.ClientIp.{get_client_ip}
use docpine.Abuse.Turnstile.{Form, Reply, secret_key, is_enabled, verify}
use docpine.Abuse.RateLimiter.{Buckets, RateLimiter, new_rate_limiter, allow}

pub record Guard (L : Type 0) : Type 0 where
  pub cookie_secret : Bytes
  pub rate_limiter : RateLimiter L
  pub turnstile_key : Bytes
  pub concurrency : ConcurrencyLimiter
  pub device_sessions : Dict Bytes
  pub session_devices : Dict Bytes

-- What the guard calls and does not implement.
pub record Peers (L R : Type 0) : Type 0 where
  pub mac : Bytes → Bytes → Bytes
  pub parse_ip : Bytes → Option Bytes
  pub split_host_port : Bytes → Option Bytes
  pub siteverify : Form → Reply
  pub buckets : Buckets L R

-- The settings that NewGuard reads.
pub record Settings : Type 0 where
  pub cookie_secret : Bytes
  pub rate_burst : ℤ
  pub rate_refill_rate : ℤ
  pub turnstile_secret : Bytes
  pub max_concurrent : ℤ

unfoldable pub new_guard : {L : Type 0} → Settings → Guard L
new_guard cfg = record {
  cookie_secret = cfg.cookie_secret;
  rate_limiter = new_rate_limiter cfg.rate_burst cfg.rate_refill_rate;
  turnstile_key = secret_key cfg.turnstile_secret;
  concurrency = new_concurrency_limiter cfg.max_concurrent;
  device_sessions = [];
  session_devices = [];
}

module _ {L : Type 0} where
  unfoldable pub has_active_device_session : Bytes → Guard L → Bool
  has_active_device_session device_id g = elim (lookup device_id g.device_sessions) [
    | none ↦ false
    | some session_id ↦ true
  ]

  unfoldable pub register_session : Bytes → Bytes → Guard L → Guard L
  register_session device_id session_id g = record g {
    device_sessions = insert device_id session_id g.device_sessions;
    session_devices = insert session_id device_id g.session_devices;
  }

  unfoldable pub release_session : Bytes → Guard L → Guard L
  release_session session_id g = elim (lookup session_id g.session_devices) [
    | none ↦ g
    | some dev_id ↦ record g {
      device_sessions = delete dev_id g.device_sessions;
      session_devices = delete session_id g.session_devices;
    }
  ]

  -- The closure `release` of CheckAnonymousCreate, over its variable `slotReleased`.
  unfoldable pub release_slot : Bool → Guard L → Bool × Guard L
  release_slot slot_released g =
      if slot_released
      then (slot_released, g)
      else (true, record g { concurrency = release g.concurrency })

  unfoldable pub send_challenge_response : Bytes → Guard L → Response → Response
  send_challenge_response message g w =
      send_json
        ((codes "error", text (codes "challenge_required"))
          ∷ (codes "message", text message)
          ∷ (codes "turnstile_required", flag (is_enabled g.turnstile_key))
          ∷ [])
        428 w

abbrev conflict_response : Response → Response
conflict_response =
    send_json
      ((codes "error", text (codes "device_session_active"))
        ∷ (
          codes "message",
          text (
              codes
                "An active sandbox session already exists for this device. Please wait until your current session expires or terminates."),
        )
        ∷ (codes "code", num (pos 409))
        ∷ [])
      409

abbrev capacity_response : Response → Response
capacity_response w =
    send_json
      ((codes "error", text (codes "global_capacity_reached"))
        ∷ (
          codes "message",
          text (
              codes
                "Docpine sandbox host capacity is temporarily full. Please retry in a few moments."),
        )
        ∷ (codes "code", num (pos 503))
        ∷ [])
      503 (set_header (codes "Retry-After") (codes "30") w)

-- int(retryAfter.Seconds()), but 1 in place of 0.
unfoldable pub retry_seconds : ℕ → ℕ
retry_seconds retry_after = let s = retry_after / second in if s == 0 then 1 else s

abbrev throttle_response : ℕ → Response → Response
throttle_response retry_sec w =
    send_json
      ((codes "error", text (codes "rate_limited"))
        ∷ (codes "message", text (codes "Too many session creation requests. Please slow down."))
        ∷ (codes "retry_after", num (pos retry_sec))
        ∷ (codes "code", num (pos 429))
        ∷ [])
      429 (set_header (codes "Retry-After") (print retry_sec) w)

-- How far a request got: refused by a layer, or past all of them.
pub data Verdict : Type 0 where
  device_busy at_capacity token_missing token_refused throttled proceeds : Verdict

-- The readings of the clock in one call: for the cookie and for the buckets.
pub record Clocks : Type 0 where
  pub cookie : ℕ → ℕ
  pub bucket : ℕ → ℕ

pub record Outcome (L : Type 0) : Type 0 where
  pub guard : Guard L
  pub response : Response
  pub verdict : Verdict
  pub device_id : Bytes
  -- `slotReleased`, where the call has made the closure.
  pub slot_released : Bool

unfoldable pub refuse_challenge :
    {L : Type 0} → Verdict → Bytes → Bytes → Guard L → Response → Outcome L
refuse_challenge verdict message device_id g w =
    let (done, g') = release_slot false g in
    record {
      guard = g';
      response = send_challenge_response message g' w;
      verdict = verdict;
      device_id = device_id;
      slot_released = done;
    }

module _ {L R : Type 0} (peers : Peers L R) where
  -- What is left once a slot is taken and the challenge is passed.
  unfoldable pub check_rate : Bytes → Bytes → Clocks → Guard L → Response → Outcome L
  check_rate client_ip device_id clocks g w =
      let (rl, allowed, retry_after) =
        allow peers.buckets client_ip device_id clocks.bucket g.rate_limiter in
      let g' = record g { rate_limiter = rl } in
      if allowed
      then record {
        guard = g';
        response = w;
        verdict = proceeds;
        device_id = device_id;
        slot_released = false;
      }
      else (let (done, g'') = release_slot false g' in
          record {
            guard = g'';
            response = throttle_response (retry_seconds retry_after) w;
            verdict = throttled;
            device_id = device_id;
            slot_released = done;
          })

  -- What is left once a slot is taken. `token` is empty where the payload is null.
  unfoldable pub check_challenge : Bytes → Bytes → Bytes → Clocks → Guard L → Response → Outcome L
  check_challenge token client_ip device_id clocks g w =
      if not (is_enabled g.turnstile_key)
      then check_rate client_ip device_id clocks g w
      else if is_empty token
      then refuse_challenge token_missing
          (codes "Cloudflare Turnstile verification required before creating a sandbox.") device_id
          g w
      else elim (verify peers.siteverify g.turnstile_key token client_ip) [
        | none ↦ check_rate client_ip device_id clocks g w
        | some e ↦
            refuse_challenge token_refused (codes "Cloudflare Turnstile verification failed")
              device_id g w
      ]

  unfoldable pub check_anonymous_create :
      Request → Bytes → Bytes → Clocks → Guard L → Response → Outcome L
  check_anonymous_create r token uuid clocks g w =
      let client_ip = get_client_ip peers.parse_ip peers.split_host_port r.header r.remote_addr in
      let (device_id, cookie) =
        get_or_set peers.mac g.cookie_secret r.device_cookie uuid clocks.cookie in
      let w' = set_cookie cookie w in
      let (c, granted) = try_acquire g.concurrency in
      if has_active_device_session device_id g
      then record {
        guard = g;
        response = conflict_response w';
        verdict = device_busy;
        device_id = device_id;
        slot_released = false;
      }
      else if granted
      then check_challenge token client_ip device_id clocks (record g { concurrency = c }) w'
      else record {
        guard = record g { concurrency = c };
        response = capacity_response w';
        verdict = at_capacity;
        device_id = device_id;
        slot_released = false;
      }
