-- ===== src/Server/Routing.antt =====
-- Which handler a request reaches, and what an origin that is not allowed can do.
use docpine.Base.{
  ◌≡◌, refl, ap, ◌∙◌, ◌⊎◌, inl, inr, Bool, false, Bool-cases, Option, none, some, List, [], ◌∷◌,
  ◌++◌, Bytes, codes, Dict, str_eq, str_eq_iff, All, Option-cases,
}
use docpine.Http.{Response, Request, no_response}
use docpine.Middleware.{Logged, LogLine, check_origin, chosen_id}
use docpine.Middleware.Preflight.{serve_lem}
use docpine.App.{App, hosted}
use docpine.Terminal.Keeping.{attach_terminal_refused}
use docpine.Server.{
  Route, Net, Inputs, create_pattern, attach_pattern, origin_of, Live, create_handler,
  attach_handler, routes, serve_http, Wiring, path_value, logged,
}

-- What the server relies on of ServeMux and of Upgrade: a request goes to the route whose pattern
-- alone matches it, one that no pattern matches is answered by the mux, the two patterns, which
-- name different methods, do not both match, and a request whose origin is refused is not
-- upgraded.
pub record IsDocumented {X : Type 0} (net : Net X) (matches : Bytes → Request → Option (Dict Bytes))
    : Type 0 where
  pub answers :
      (rs : List (Route X)) (id : Bytes) (r : Request) (s : X) (w : Response)
      → All (λ o. matches o.pattern r ≡ none) rs
      → (w' : Response) × (net.mux rs id r s w ≡ (s, w'))
  pub dispatches :
      (before after : List (Route X)) (o : Route X) (values : Dict Bytes) (id : Bytes) (r : Request)
      (s : X) (w : Response)
      → matches o.pattern r ≡ some values
      → All (λ o. matches o.pattern r ≡ none) (before ++ after)
      → net.mux (before ++ (o ∷ after)) id r s w ≡ o.handler values id r s w
  pub apart :
      (r : Request) (values : Dict Bytes)
      → matches attach_pattern r ≡ some values
      → matches create_pattern r ≡ none
  pub refuses :
      (check : Request → Bool) (r : Request) (w : Response)
      → check r ≡ false
      → (w' : Response) × (net.upgrade check r w ≡ some w')

module _ {L R H S P : Type 0} (site : Wiring L R H S P)
    (matches : Bytes → Request → Option (Dict Bytes)) (law : IsDocumented site.outside.net matches)
    (inputs : Inputs) (meanwhile : Live L H S → Live L H S) where
  mux_attach :
      (id : Bytes) (r : Request) (s : Logged (App L H S)) (w : Response) (values : Dict Bytes)
      → matches attach_pattern r ≡ some values
      → site.outside.net.mux (routes site inputs meanwhile) id r s w
        ≡ attach_handler site inputs meanwhile values id r s w
  unfolding routes
  mux_attach id r s w values found =
      law.dispatches
        (record { pattern = create_pattern; handler = create_handler site inputs } ∷ []) []
        (record { pattern = attach_pattern; handler = attach_handler site inputs meanwhile }) values
        id r s w found (law.apart r values found, tt)

  mux_create :
      (id : Bytes) (r : Request) (s : Logged (App L H S)) (w : Response) (values : Dict Bytes)
      → matches create_pattern r ≡ some values
      → matches attach_pattern r ≡ none
      → site.outside.net.mux (routes site inputs meanwhile) id r s w
        ≡ create_handler site inputs values id r s w
  unfolding routes
  mux_create id r s w values found other =
      law.dispatches [] _
        (record { pattern = create_pattern; handler = create_handler site inputs }) values id r s w
        found (other, tt)

  -- The handler that a request comes to, with the response that it goes on from, or none.
  pub data Handled (id : Bytes) (r : Request) (s : Logged (App L H S)) (w : Response)
      : Logged (App L H S) → Type 0 where
    by_mux : Handled id r s w s
    by_create :
        (values : Dict Bytes) → Handled id r s w (create_handler site inputs values id r s w).0
    by_attach :
        (values : Dict Bytes)
        → Handled id r s w (attach_handler site inputs meanwhile values id r s w).0

  pub mux-Handled :
      (id : Bytes) (r : Request) (s : Logged (App L H S)) (w : Response)
      → Handled id r s w (site.outside.net.mux (routes site inputs meanwhile) id r s w).0
  mux-Handled id r s w = elim (Option-cases (matches attach_pattern r)) [
    | inr (values, found) ↦ rw (mux_attach id r s w values found) (by_attach values)
    | inl other ↦ elim (Option-cases (matches create_pattern r)) [
      | inr (values, found) ↦ rw (mux_create id r s w values found other) (by_create values)
      | inl neither ↦
          let (w', e) =
            law.answers (routes site inputs meanwhile) id r s w
              (unfold routes in (neither, (other, tt))) in
          rw e by_mux
    ]
  ]

  attach_refused :
      (values : Dict Bytes) (id : Bytes) (r : Request) (s : Logged (App L H S)) (w : Response)
      → check_origin site.allowed_origins r.header ≡ false
      → (attach_handler site inputs meanwhile values id r s w).0 ≡ s
  unfolding attach_handler
  attach_refused values id r s w foreign =
      let (w', e) = law.refuses (origin_of site.allowed_origins) r w foreign in
      rw (e, attach_handler)
        (ap logged (
          attach_terminal_refused site.outside.unmarshal inputs.in_logs inputs.out_logs
            (hosted site.rt) (path_value (codes "id") values) inputs.events meanwhile inputs.read_at
            inputs.attached_at s.state s.lines))

  -- One line is logged, after what the mux does, if the request comes to it.
  pub serve_http_cases :
      (r : Request) (s : Logged (App L H S))
      → let s' = (serve_http site inputs meanwhile [] r s no_response).0 in
        ((line : LogLine) × (s' ≡ record s { lines = s.lines ++ line ∷ [] }))
        ⊎ ((id : Bytes) × (w : Response) × (line : LogLine) × (w.status ≡ none)
            × (let t = (site.outside.net.mux (routes site inputs meanwhile) id r s w).0 in
                s' ≡ record t { lines = t.lines ++ line ∷ [] }))
  unfolding serve_http
  serve_http_cases r s =
      let mux = site.outside.net.mux (routes site inputs meanwhile) in
      let (preflight, others) =
        serve_lem site.allowed_origins inputs.request_uuid [] mux r s no_response refl in
      elim (Bool-cases (str_eq r.method (codes "OPTIONS"))) [
        | inl same ↦ inl (_, (preflight ((str_eq_iff r.method (codes "OPTIONS")).0 same)).0)
        | inr differs ↦
            let (w, answered, fresh, carried) =
              others (λ h. cc (differs, (str_eq_iff r.method (codes "OPTIONS")).1 h)) in
            inr (chosen_id inputs.request_uuid r, w, _, fresh, ap (λ x. x.0) answered)
      ]

  -- No page of an origin that is not allowed can open a terminal in its visitor's browser: a request
  -- to attach from such an origin, with any session id, changes nothing but the log, which gets
  -- one line, and answers without anything being done meanwhile. net/http and gorilla/websocket
  -- behave as `IsDocumented` states.
  pub cross_origin :
      (r : Request) (s : Logged (App L H S)) (values : Dict Bytes)
      → matches attach_pattern r ≡ some values
      → check_origin site.allowed_origins r.header ≡ false
      → (line : LogLine) × ((serve_http site inputs meanwhile [] r s no_response).0
          ≡ record s { lines = s.lines ++ line ∷ [] })
  cross_origin r s values found foreign = elim (serve_http_cases r s) [
    | inl unrouted ↦ unrouted
    | inr (id, w, line, fresh, e) ↦ (
      line,
      e
          ∙ ap {A = Logged (App L H S)} (λ t. record t { lines = t.lines ++ line ∷ [] })
              (ap (λ x. x.0) (mux_attach id r s w values found)
                ∙ attach_refused values id r s w foreign),
    )
  ]
