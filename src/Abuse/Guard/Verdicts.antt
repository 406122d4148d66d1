-- ===== src/Abuse/Guard/Verdicts.antt =====
-- When a check lets a request pass, and what it answers otherwise.
use docpine.Base.{
  ℕ, ◌≡◌, ◌↔◌, ◌⊎◌, inl, inr, Bool, true, false, Option, none, some, Bytes, codes, is_empty, arith,
  Bool-cases,
}
use docpine.Http.{Cookie, Response, Request, send_json, set_cookie}
use docpine.Abuse.Concurrency.{try_acquire}
use docpine.Abuse.Cookie.{get_or_set}
use docpine.Abuse.Turnstile.{is_enabled, verify}
use docpine.Abuse.RateLimiter.{allow}
use docpine.Abuse.Guard.{
  Guard, Peers, Verdict, device_busy, at_capacity, token_missing, token_refused, throttled,
  proceeds, Clocks, has_active_device_session, release_slot, send_challenge_response,
  refuse_challenge, check_rate, check_challenge, check_anonymous_create,
}
use docpine.Abuse.Guard.Slots.{ip_of, device_of}

-- The status that a refusal is answered with.
abbrev pub status_of : Verdict → Option ℕ
status_of device_busy = some 409
status_of at_capacity = some 503
status_of token_missing = some 428
status_of token_refused = some 428
status_of throttled = some 429
status_of proceeds = none

status-set_cookie :
    (c : Option Cookie) (w : Response) → w.status ≡ none → (set_cookie c w).status ≡ none
status-set_cookie none w h = h
status-set_cookie (some c) w h = h

module _ {L R : Type 0} (peers : Peers L R) where
  -- Whether the challenge is passed: none is asked, or the token is there and the service accepts
  -- it.
  abbrev pub PassesChallenge : Bytes → Bytes → Guard L → Type 0
  PassesChallenge token client_ip g =
      (is_enabled g.turnstile_key ≡ false)
      ⊎ ((is_empty token ≡ false)
          × (verify peers.siteverify g.turnstile_key token client_ip ≡ none))

  -- Whether the buckets admit the request.
  abbrev pub admitted : Bytes → Bytes → Clocks → Guard L → Bool
  admitted client_ip device_id clocks g =
      (allow peers.buckets client_ip device_id clocks.bucket g.rate_limiter).1

  check_rate-verdict :
      (client_ip device_id : Bytes) (clocks : Clocks) (g : Guard L) (w : Response)
      → w.status ≡ none
      → let o = check_rate peers client_ip device_id clocks g w in
        ((o.verdict ≡ proceeds) ↔ (admitted client_ip device_id clocks g ≡ true))
        × (o.response.status ≡ status_of o.verdict)
  unfolding check_rate release_slot send_json
  check_rate-verdict client_ip device_id clocks g w fresh = ground arith

  refuse_challenge-status :
      (v : Verdict) (message device_id : Bytes) (g : Guard L) (w : Response)
      → w.status ≡ none
      → let o = refuse_challenge v message device_id g w in
        (o.verdict ≡ v) × (o.response.status ≡ some 428)
  unfolding refuse_challenge send_challenge_response send_json
  refuse_challenge-status v message device_id g w fresh = ground arith

  check_challenge-verdict :
      (token client_ip device_id : Bytes) (clocks : Clocks) (g : Guard L) (w : Response)
      → w.status ≡ none
      → let o = check_challenge peers token client_ip device_id clocks g w in
        ((o.verdict ≡ proceeds)
          ↔ (PassesChallenge token client_ip g × (admitted client_ip device_id clocks g ≡ true)))
        × (o.response.status ≡ status_of o.verdict)
  unfolding check_challenge
  check_challenge-verdict token client_ip device_id clocks g w fresh = ground (
    arith,
    check_rate-verdict client_ip device_id clocks g w fresh,
    refuse_challenge-status token_missing
        (codes "Cloudflare Turnstile verification required before creating a sandbox.") device_id g
        w fresh,
    refuse_challenge-status token_refused (codes "Cloudflare Turnstile verification failed")
        device_id g w fresh,
  )

  -- With a response that has no status yet, a request passes exactly when its device has no
  -- session, a slot is free, the challenge is passed and the buckets admit it. A request that
  -- passes has no answer yet; any other is answered with the status of the layer that refused it.
  pub check-verdict :
      (r : Request) (token uuid : Bytes) (clocks : Clocks) (g : Guard L) (w : Response)
      → w.status ≡ none
      → let o = check_anonymous_create peers r token uuid clocks g w in
        let device = device_of peers r uuid clocks g in
        let ip = ip_of peers r in
        ((o.verdict ≡ proceeds) ↔ (
          (has_active_device_session device g ≡ false)
          × ((try_acquire g.concurrency).1 ≡ true)
          × PassesChallenge token ip g
          × (admitted ip device clocks g ≡ true)))
        × (o.response.status ≡ status_of o.verdict)
  unfolding check_anonymous_create send_json
  check-verdict r token uuid clocks g w fresh =
      let w' =
        set_cookie (get_or_set peers.mac g.cookie_secret r.device_cookie uuid clocks.cookie).1 w in
      elim (Bool-cases (has_active_device_session (device_of peers r uuid clocks g) g)) [
        | inl busy ↦ rw (busy, check_anonymous_create) (ground arith)
        | inr free ↦ elim (Bool-cases (try_acquire g.concurrency).1) [
          | inl granted ↦
              rw (free, check_anonymous_create)
                (rw granted (
                  ground (
                    arith,
                    check_challenge-verdict token (ip_of peers r) (device_of peers r uuid clocks g)
                        clocks (record g { concurrency = (try_acquire g.concurrency).0 }) w'
                        (status-set_cookie _ w fresh),
                  )))
          | inr refused ↦ rw (free, check_anonymous_create) (rw refused (ground arith))
        ]
      ]
