-- ===== src/Middleware.antt =====
-- internal/utils/origin.go and cors.go, request_id.go and logger.go of internal/transport/http: the
-- handlers around the routes. A handler acts on a state `X` and on the response; its first argument
-- is the request id in the request's context, empty where there is none. The line of the request
-- log has no duration here.
pub mod Origins
pub mod Preflight
mod Tests
use docpine.Base.{
  ℕ, ◌++◌, Bool, true, false, Option, none, some, List, [], ◌∷◌, Bytes, codes, Dict, lookup, insert,
  is_empty, str_eq, if◌then◌else◌,
}
use docpine.Http.{Response, Request, set_header, write_header, get_header}

abbrev pub Handler : Type 0 → Type 0
Handler X = Bytes → Request → X → Response → X × Response

-- InitAllowedOrigins, from the map `m` on.
unfoldable pub add_origins : List Bytes → Dict Bool → Dict Bool
add_origins [] m = m
add_origins (origin ∷ origins) m = add_origins origins (insert origin true m)

-- A missing key reads as false.
abbrev pub flag_of : Option Bool → Bool
flag_of none = false
flag_of (some b) = b

unfoldable pub check_origin : Dict Bool → Dict Bytes → Bool
check_origin allowed_origins header =
    let origin = get_header (codes "Origin") header in
    if is_empty origin then false else flag_of (lookup origin allowed_origins)

-- The headers that depend on the origin.
unfoldable pub origin_headers : Dict Bool → Request → Response → Response
origin_headers allowed_origins r w =
    if check_origin allowed_origins r.header
    then set_header (codes "Access-Control-Allow-Credentials") (codes "true")
        (set_header (codes "Access-Control-Allow-Origin") (get_header (codes "Origin") r.header) w)
    else w

unfoldable pub cors_headers : Dict Bool → Request → Response → Response
cors_headers allowed_origins r w = set_header (codes "Access-Control-Max-Age") (codes "86400") (
    set_header (codes "Access-Control-Allow-Methods")
      (codes "GET, POST, PUT, PATCH, DELETE, OPTIONS")
      (set_header (codes "Access-Control-Expose-Headers") (codes "X-Request-Id") (
        set_header (codes "Access-Control-Allow-Headers")
          (codes
            "Content-Type, Authorization, X-Requested-With, X-Request-Id, CF-Turnstile-Response, CF-Connecting-IP")
          (set_header (codes "Vary") (codes "Origin") (origin_headers allowed_origins r w)))))

-- The id that the response carries and the context holds; `uuid` is the fresh one.
abbrev pub chosen_id : Bytes → Request → Bytes
chosen_id uuid r =
    let id = get_header (codes "X-Request-Id") r.header in if is_empty id then uuid else id

-- What Logger writes of a request.
pub record LogLine : Type 0 where
  pub request_id : Bytes
  pub method : Bytes
  pub path : Bytes
  pub status : ℕ
  pub addr : Bytes

-- The state behind the request log, and the log.
pub record Logged (X : Type 0) : Type 0 where
  pub state : X
  pub lines : List LogLine

-- The status of a statusRecorder, which starts at 200. A handler calls WriteHeader once at most, so
-- that the code it recorded is the one that the response has.
unfoldable pub recorded : Response → ℕ
recorded w = elim w.status [ none ↦ 200 | some code ↦ code ]

unfoldable pub request_id : {X : Type 0} → Bytes → Handler X → Handler X
request_id uuid next ctx r s w =
    let id = chosen_id uuid r in next id r s (set_header (codes "X-Request-Id") id w)

module _ {X : Type 0} where
  unfoldable pub cors : Dict Bool → Option (Handler X) → Handler X
  cors allowed_origins next id r s w =
      let w' = cors_headers allowed_origins r w in
      if str_eq r.method (codes "OPTIONS")
      then (s, write_header 204 w')
      else elim next [ none ↦ (s, w') | some h ↦ h id r s w' ]

module _ {X : Type 0} where
  -- http.Logger: the request is served, and then it is logged.
  unfoldable pub log_request : Handler (Logged X) → Handler (Logged X)
  log_request next id r s w =
      let (s', w') = next id r s w in
      let line : LogLine = record {
        request_id = id;
        method = r.method;
        path = r.path;
        status = recorded w';
        addr = r.remote_addr;
      } in
      (record s' { lines = s'.lines ++ line ∷ [] }, w')

  -- The handler that Server.Start installs around its routes.
  unfoldable pub serve : Dict Bool → Bytes → Handler (Logged X) → Handler (Logged X)
  serve allowed_origins uuid mux = request_id uuid (log_request (cors allowed_origins (some mux)))
