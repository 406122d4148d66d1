-- ===== src/Server.antt =====
-- internal/transport/server.go with the routes that the two handlers register: what a request goes
-- through from the connection to its handler. net/http's ServeMux and the upgrade of
-- gorilla/websocket are parameters; `inputs` is what one request meets besides the state.
pub mod Routing
pub mod Traffic
pub mod Calls
pub mod Simulated
mod Tests
use docpine.Base.{
  ℕ, Bool, true, Option, none, some, List, [], ◌∷◌, Bytes, codes, Dict, lookup, ◌==◌, if◌then◌else◌,
}
use docpine.Http.{Response, Request, send_error}
use docpine.Runtime.{Error, Runtime}
use docpine.Config.{Config}
use docpine.Middleware.{Handler, Logged, LogLine, add_origins, check_origin, serve}
use docpine.Session.{Session}
use docpine.Abuse.Guard.{Peers, Clocks}
use docpine.App.{App, hosted, Payload, create_session}
use docpine.Terminal.{ControlMessage, Opening, status, upgrade_failed, closed, terminal}
use docpine.Terminal.Console.{Event, attach_terminal}

-- A pattern of the mux, and the handler for it, which gets the values of the pattern's wildcards.
pub record Route (X : Type 0) : Type 0 where
  pub pattern : Bytes
  pub handler : Dict Bytes → Handler X

pub record Net (X : Type 0) : Type 0 where
  pub mux : List (Route X) → Handler X
  -- Upgrader.Upgrade, with its CheckOrigin: the answer to a request that is not upgraded.
  pub upgrade : (Request → Bool) → Request → Response → Option Response

-- The body of a create request, the fresh ids, the readings of the clock, and what happens at a
-- terminal once it is open; `in_logs` and `out_logs` say whether its log files could be opened.
pub record Inputs : Type 0 where
  pub payload : Payload
  pub request_uuid : Bytes
  pub device_uuid : Bytes
  pub session_seed : Bytes
  pub clocks : Clocks
  pub created_at : ℕ
  pub read_at : ℕ
  pub attached_at : ℕ
  pub in_logs : Bool
  pub out_logs : Bool
  pub events : List Event

-- InitAllowedOrigins, as NewServer calls it.
unfoldable pub new_server : Config → Dict Bool
new_server cfg = add_origins cfg.allowed_origins []

-- How ListenAndServe ends.
pub data Listened : Type 0 where
  server_closed : Listened
  listen_failed : Error → Listened

-- Start, once it stops listening.
unfoldable pub start_error : Listened → Option Error
start_error server_closed = none
start_error (listen_failed e) = some e

-- Shutdown; the server is there once Start has run.
unfoldable pub shutdown : {V : Type 0} → Option (V → V × Option Error) → V → V × Option Error
shutdown none v = (v, none)
shutdown (some drain) v = drain v

abbrev pub path_value : Bytes → Dict Bytes → Bytes
path_value name values = elim (lookup name values) [ none ↦ [] | some v ↦ v ]

-- The messages of Attach.
abbrev pub refusal : ℕ → Bytes
refusal code =
    if code == 400
    then codes "session id is required"
    else if code == 404
    then codes "session not found"
    else if code == 410
    then codes "session has expired"
    else codes "internal server error"

-- The answer of Attach; an upgraded connection gets none.
unfoldable pub attach_response : {P : Type 0} → Opening P → Option Response → Response → Response
attach_response (status code) upgrade w = send_error (refusal code) code w
attach_response upgrade_failed upgrade w = elim upgrade [ none ↦ w | some w' ↦ w' ]
attach_response (closed code reason) upgrade w = w
attach_response (terminal pty) upgrade w = w

abbrev pub is_upgraded : Option Response → Bool
is_upgraded none = true
is_upgraded (some w) = Bool.false

abbrev pub create_pattern : Bytes
create_pattern = codes "POST /sessions"

abbrev pub attach_pattern : Bytes
attach_pattern = codes "GET /sessions/{id}/attach"

abbrev pub origin_of : Dict Bool → Request → Bool
origin_of allowed_origins r = check_origin allowed_origins r.header

-- The manager and the log, as the pumps' handler sees them.
abbrev pub Live : Type 0 → Type 0 → Type 0 → Type 0
Live L H S = App L H S × List LogLine

abbrev pub logged : {X : Type 0} → X × List LogLine → Logged X
logged (x, lines) = record { state = x; lines = lines }

-- What the server takes from others: the peers of the guard, encoding/json for control messages,
-- net/http with gorilla/websocket, and google/uuid.
pub record Outside (L R H S : Type 0) : Type 0 where
  pub peers : Peers L R
  pub unmarshal : Bytes → Option ControlMessage
  pub net : Net (Logged (App L H S))
  -- A UUID from the bytes that were drawn for it; no registered session has it.
  pub new_uuid : Bytes → Dict (Session S) → Bytes

-- What main gives the server.
pub record Wiring (L R H S P : Type 0) : Type 0 where
  pub outside : Outside L R H S
  pub rt : Runtime H S P
  pub allowed_origins : Dict Bool

module _ {L R H S P : Type 0} (site : Wiring L R H S P) where
  -- SessionHandler.Create
  unfoldable pub create_handler : Inputs → Dict Bytes → Handler (Logged (App L H S))
  create_handler inputs values id r s w =
      let uuid = site.outside.new_uuid inputs.session_seed s.state.mngr.sessions in
      let (p, w') =
        create_session site.outside.peers site.rt r inputs.payload inputs.device_uuid uuid
          inputs.clocks inputs.created_at s.state w in
      (record s { state = p }, w')

  -- Handler.Attach; `meanwhile` is what the server does while the terminal is open.
  unfoldable pub attach_handler :
      Inputs → (Live L H S → Live L H S) → Dict Bytes → Handler (Logged (App L H S))
  attach_handler inputs meanwhile values id r s w =
      let refused = site.outside.net.upgrade (origin_of site.allowed_origins) r w in
      let (live, opening, console) =
        attach_terminal site.outside.unmarshal inputs.in_logs inputs.out_logs (hosted site.rt)
          (path_value (codes "id") values) (is_upgraded refused) inputs.read_at inputs.attached_at
          inputs.events meanwhile (s.state, s.lines) in
      (logged live, attach_response opening refused w)

  -- The routes that the two RegisterRoutes register.
  unfoldable pub routes : Inputs → (Live L H S → Live L H S) → List (Route (Logged (App L H S)))
  routes inputs meanwhile =
      record { pattern = create_pattern; handler = create_handler inputs }
      ∷ record { pattern = attach_pattern; handler = attach_handler inputs meanwhile }
      ∷ []

  -- The handler that Start installs.
  unfoldable pub serve_http : Inputs → (Live L H S → Live L H S) → Handler (Logged (App L H S))
  serve_http inputs meanwhile =
      serve site.allowed_origins inputs.request_uuid
        (site.outside.net.mux (routes inputs meanwhile))
