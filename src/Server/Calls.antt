-- ===== src/Server/Calls.antt =====
-- What comes to the server amounts to calls of its parts, one after the other.
use docpine.Base.{List, [], ◌≡◌, inl, inr, sym, none, Bytes, codes, Dict, lookup, Option}
use mathlib.Core.Path.{subst}
use docpine.Http.{Request, Response, no_response}
use docpine.Session.{Session}
use docpine.Middleware.{Logged, LogLine}
use docpine.App.{App, hosted}
use docpine.App.Serial.{Serial, begin, creates, attaches, ends, reaps, evicts}
use docpine.Terminal.Keeping.{attach_terminal-Keeps}
use docpine.Server.{
  Inputs, Wiring, Live, path_value, is_upgraded, origin_of, create_handler, attach_handler,
  serve_http,
}
use docpine.Server.Routing.{
  IsDocumented, Handled, by_mux, by_create, by_attach, mux-Handled, serve_http_cases,
}
use docpine.Server.Traffic.{
  Arrival, asks, reaper_ticks, eviction_ticks, Arrivals, silence, then_comes, arrive, arrive_all,
}

module _ {L R H S P : Type 0} (site : Wiring L R H S P)
    (matches : Bytes → Request → Option (Dict Bytes)) (law : IsDocumented site.outside.net matches)
    (fresh : (seed : Bytes) (m : Dict (Session S)) → lookup (site.outside.new_uuid seed m) m ≡ none)
    (p₀ : App L H S) where
  abbrev Reached : App L H S → Type 0
  Reached p = Serial site.outside.peers site.rt p₀ p

  Handled-Reached :
      (inputs : Inputs) (meanwhile : Live L H S → Live L H S) (id : Bytes) (r : Request)
      (s : Logged (App L H S)) (w : Response) (t : Logged (App L H S))
      → ((live : Live L H S) → Reached live.0 → Reached (meanwhile live).0)
      → w.status ≡ none
      → Handled site matches law inputs meanwhile id r s w t
      → Reached s.state
      → Reached t.state
  unfolding create_handler attach_handler
  Handled-Reached inputs meanwhile id r s w t others blank by_mux k = k
  Handled-Reached inputs meanwhile id r s w t others blank (by_create values) k =
      creates r inputs.payload inputs.device_uuid
        (site.outside.new_uuid inputs.session_seed s.state.mngr.sessions) inputs.clocks
        inputs.created_at w blank (fresh inputs.session_seed s.state.mngr.sessions) k
  Handled-Reached inputs meanwhile id r s w t others blank (by_attach values) k =
      let session_id = path_value (codes "id") values in
      attach_terminal-Keeps site.outside.unmarshal inputs.in_logs inputs.out_logs (hosted site.rt)
        session_id inputs.events meanwhile Reached (λ p k'. ends session_id k')
        (λ p lines k'. others (p, lines) k')
        (is_upgraded (site.outside.net.upgrade (origin_of site.allowed_origins) r w)) inputs.read_at
        inputs.attached_at s.state s.lines k (attaches session_id inputs.attached_at k)

  serve_http-Reached :
      (inputs : Inputs) (meanwhile : Live L H S → Live L H S) (r : Request) (s : Logged (App L H S))
      → ((live : Live L H S) → Reached live.0 → Reached (meanwhile live).0)
      → Reached s.state
      → Reached (serve_http site inputs meanwhile [] r s no_response).0.state
  serve_http-Reached inputs meanwhile r s others k =
      elim (serve_http_cases site matches law inputs meanwhile r s) [
        | inl (line, e) ↦ subst (λ t. Reached t.state) (sym e) k
        | inr (id, w, line, blank, e) ↦
            subst (λ t. Reached t.state) (sym e)
              (Handled-Reached inputs meanwhile id r s w _ others blank
                (mux-Handled site matches law inputs meanwhile id r s w) k)
      ]

  mutual
    unfolding arrive

    arrive-Reached :
        (a : Arrival) (live : Live L H S) → Reached live.0 → Reached (arrive site a live).0
    arrive-Reached (asks r inputs during) (p, lines) k =
        serve_http-Reached inputs (arrive_all site during) r (record { state = p; lines = lines })
          (λ live k'. arrive_all-Reached during live k') k
    arrive-Reached (reaper_ticks now) (p, lines) k = reaps now k
    arrive-Reached (eviction_ticks now) (p, lines) k = evicts now k

    arrive_all-Reached :
        (coming : Arrivals) (live : Live L H S)
        → Reached live.0
        → Reached (arrive_all site coming live).0
    arrive_all-Reached silence live k = k
    arrive_all-Reached (then_comes a rest) live k =
        arrive_all-Reached rest (arrive site a live) (arrive-Reached a live k)

  -- From any state on, whatever comes to the server, it gets where calls of its parts get, one after
  -- the other: creations, attachments, ends of sessions, and rounds of the reaper and of the
  -- eviction.
  pub arrive_all-Serial :
      (coming : Arrivals) (lines : List LogLine)
      → Serial site.outside.peers site.rt p₀ (arrive_all site coming (p₀, lines)).0
  arrive_all-Serial coming lines = arrive_all-Reached coming (p₀, lines) begin
