-- ===== src/Server/Traffic.antt =====
-- What comes to a running server, in its order: requests, each with what comes while its terminal
-- is open, and the ticks of the two background goroutines.
use docpine.Base.{ℕ, []}
use docpine.Http.{Request, no_response}
use docpine.Session.{reap_expired}
use docpine.App.{hosted, evict_stale}
use docpine.Server.{Inputs, Wiring, Live, logged, serve_http}

mutual
  pub data Arrival : Type 0 where
    asks : Request → Inputs → Arrivals → Arrival
    reaper_ticks eviction_ticks : ℕ → Arrival

  pub data Arrivals : Type 0 where
    silence : Arrivals
    then_comes : Arrival → Arrivals → Arrivals

module _ {L R H S P : Type 0} (site : Wiring L R H S P) where
  unfoldable mutual
    pub arrive : Arrival → Live L H S → Live L H S
    arrive (asks r inputs during) live =
        let s = (serve_http site inputs (arrive_all during) [] r (logged live) no_response).0 in
        (s.state, s.lines)
    arrive (reaper_ticks now) (p, lines) = (reap_expired (hosted site.rt) now p, lines)
    arrive (eviction_ticks now) (p, lines) = (evict_stale now p, lines)

    pub arrive_all : Arrivals → Live L H S → Live L H S
    arrive_all silence live = live
    arrive_all (then_comes a rest) live = arrive_all rest (arrive a live)
