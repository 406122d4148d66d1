-- ===== src/Server/Tests.antt =====
-- The server over the plain_net mux, and the theorems on it.
use docpine.Base.{ℕ, ◌≡◌, refl, true, none, List, [], ◌∷◌, codes, pos, map, lookup, str_eq}
use docpine.Http.{Request, no_response, get_header}
use docpine.Middleware.{Logged, LogLine, check_origin}
use docpine.App.{App, start}
use docpine.Server.{Outside, Wiring, Live, serve_http}
use docpine.Server.Traffic.{
  asks, reaper_ticks, eviction_ticks, Arrivals, silence, then_comes, arrive_all,
}
use docpine.Server.Routing.{cross_origin}
use docpine.Server.Simulated.{matches, plain_net, first_match-IsDocumented, longest, inputs}
use docpine.Fixtures.{counting, peers, settings, ask}

abbrev outside : Outside ℕ ℕ ℕ ℕ
outside = record {
  peers = peers;
  unmarshal = λ m. none;
  net = plain_net;
  new_uuid = λ seed m. longest m;
}

abbrev site : Wiring ℕ ℕ ℕ ℕ ℕ
site = record { outside = outside; rt = counting; allowed_origins = (codes "http://a", true) ∷ [] }

-- A page of another origin opens a WebSocket.
abbrev foreign : Request
foreign = record ask {
  method = codes "GET";
  path = codes "/sessions/s1/attach";
  header = (codes "Origin", codes "http://evil") ∷ [];
}

abbrev calm : Logged (App ℕ ℕ ℕ)
calm = record { state = start settings (pos 0) 0; lines = [] }

abbrev still : Live ℕ ℕ ℕ → Live ℕ ℕ ℕ
still live = live

cross_origin_example :
    (line : LogLine) × ((serve_http site inputs still [] foreign calm no_response).0
      ≡ record calm { lines = line ∷ [] })
unfolding check_origin lookup str_eq get_header
cross_origin_example =
    cross_origin site matches first_match-IsDocumented inputs still foreign calm
      ((codes "id", codes "u") ∷ []) refl refl

-- A request, a terminal of it during which the reaper wakes, and a page of another origin.
abbrev morning : Arrivals
morning = then_comes (asks ask inputs silence) (
    then_comes
      (asks (record foreign { header = (codes "Origin", codes "http://a") ∷ [] }) inputs
        (then_comes (reaper_ticks 14_000_000_000) silence))
      (then_comes (eviction_ticks 15_000_000_000)
        (then_comes (asks foreign inputs silence) silence)))

abbrev statuses : List ℕ
statuses = map (λ l. l.status) (arrive_all site morning (calm.state, [])).1

-- The session is created, its terminal opens, and the other origin is refused.
morning_statuses : statuses ≡ 201 ∷ 200 ∷ 403 ∷ []
unfolding arrive_all serve_http docpine.Middleware.serve docpine.Middleware.request_id
    docpine.Middleware.log_request docpine.Middleware.cors str_eq
    docpine.Server.Simulated.first_match docpine.Server.routes docpine.Server.attach_handler
    docpine.Terminal.Console.attach_terminal docpine.Terminal.Console.converse
    docpine.Terminal.open_terminal lookup docpine.Session.get docpine.App.evict_stale
    docpine.Server.create_handler docpine.App.create_session
    docpine.Abuse.Guard.check_anonymous_create docpine.Abuse.Guard.has_active_device_session start
    docpine.Abuse.Guard.new_guard docpine.Abuse.Concurrency.try_acquire
    docpine.Abuse.Concurrency.new_concurrency_limiter docpine.Abuse.Guard.check_challenge
    docpine.Abuse.Turnstile.is_enabled docpine.Abuse.Turnstile.secret_key docpine.Text.trim_space
    docpine.Abuse.Turnstile.verify docpine.Abuse.Turnstile.reply_error
    docpine.Abuse.Guard.check_rate docpine.Abuse.RateLimiter.allow docpine.Abuse.RateLimiter.draw
    docpine.Abuse.RateLimiter.bucket docpine.Abuse.RateLimiter.new_rate_limiter
    docpine.App.provision docpine.App.answer_create docpine.Session.create docpine.Base.insert
    docpine.Session.register_callback docpine.Session.new_manager longest check_origin get_header
    docpine.Session.attach docpine.Terminal.Console.finish_console
    docpine.Terminal.Console.run_console docpine.Session.reap_expired docpine.Session.remaining
    docpine.Middleware.recorded docpine.Http.send_json docpine.Abuse.Cookie.get_or_set
    docpine.Server.attach_response docpine.Middleware.cors_headers docpine.Middleware.origin_headers
morning_statuses = refl
