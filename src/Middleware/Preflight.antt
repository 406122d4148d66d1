-- ===== src/Middleware/Preflight.antt =====
-- What a preflight gets, and what the routes see of any other request.
use docpine.Base.{
  ℕ, [], ◌∷◌, ◌++◌, ap, ◌∙◌, str_eq_refl, str_eq_ne, ◌≡◌, refl, ◌≢◌, inl, inr, Bool, false,
  Bool-cases, none, some, Bytes, codes, Dict, lookup, insert, lookup-insert, lookup-insert_self,
  str_eq, arith,
}
use docpine.Http.{Response, Request, set_header, write_header, get_header}
use docpine.Middleware.{
  Handler, check_origin, origin_headers, cors_headers, cors, chosen_id, LogLine, Logged, recorded,
  request_id, log_request, serve,
}

abbrev pub id_name : Bytes
id_name = codes "X-Request-Id"

keeps_id :
    (k v : Bytes) (m : Dict Bytes)
    → str_eq k id_name ≡ false
    → lookup id_name (insert k v m) ≡ lookup id_name m
keeps_id k v m other = rw (lookup-insert k id_name v m) (rw other refl)

id-origin_headers :
    (allowed : Dict Bool) (r : Request) (w : Response)
    → (lookup id_name (origin_headers allowed r w).header ≡ lookup id_name w.header)
      × ((origin_headers allowed r w).status ≡ w.status)
unfolding origin_headers str_eq
id-origin_headers allowed r w = elim (Bool-cases (check_origin allowed r.header)) [
  | inl trusted ↦
      rw (trusted, origin_headers)
        (
          keeps_id (codes "Access-Control-Allow-Credentials") (codes "true") _ refl
              ∙ keeps_id (codes "Access-Control-Allow-Origin")
                  (get_header (codes "Origin") r.header) w.header refl,
          refl,
        )
  | inr other ↦ rw (other, origin_headers) (refl, refl)
]

-- The CORS headers leave the request id, and the status.
id-cors_headers :
    (allowed : Dict Bool) (r : Request) (w : Response)
    → (lookup id_name (cors_headers allowed r w).header ≡ lookup id_name w.header)
      × ((cors_headers allowed r w).status ≡ w.status)
unfolding cors_headers str_eq
id-cors_headers allowed r w =
    let (kept, same) = id-origin_headers allowed r w in
    (
      keeps_id (codes "Access-Control-Max-Age") _ _ refl
          ∙ keeps_id (codes "Access-Control-Allow-Methods") _ _ refl
          ∙ keeps_id (codes "Access-Control-Expose-Headers") _ _ refl
          ∙ keeps_id (codes "Access-Control-Allow-Headers") _ _ refl
          ∙ keeps_id (codes "Vary") _ _ refl
          ∙ kept,
      same,
    )

written :
    (w : Response)
    → w.status ≡ none
    → ((write_header 204 w).status ≡ some 204)
      × ((write_header 204 w).header ≡ w.header)
      × (recorded (write_header 204 w) ≡ 204)
unfolding recorded
written w fresh = ground arith

module _ {X : Type 0} where
  cors_options :
      (allowed : Dict Bool) (mux : Handler X) (id : Bytes) (r : Request) (s : X) (w : Response)
      → r.method ≡ codes "OPTIONS"
      → cors allowed (some mux) id r s w ≡ (s, write_header 204 (cors_headers allowed r w))
  unfolding cors
  cors_options allowed mux id r s w options =
      rw (options, cors) (rw (str_eq_refl (codes "OPTIONS")) refl)

  cors_other :
      (allowed : Dict Bool) (mux : Handler X) (id : Bytes) (r : Request) (s : X) (w : Response)
      → r.method ≢ codes "OPTIONS"
      → cors allowed (some mux) id r s w ≡ mux id r s (cors_headers allowed r w)
  unfolding cors
  cors_other allowed mux id r s w other = rw (str_eq_ne r.method (codes "OPTIONS") other, cors)

module _ {X : Type 0} where
  -- A preflight is answered with 204 and the request id, by a server that has written no status,
  -- and reaches no route, so that it changes nothing but the log. Any other request reaches the
  -- routes, with the request id that its answer carries as the id of its context, and with no
  -- status written. Either way the log gets one line, with that id, the method, the path, the
  -- address of the connection, and the status of the answer, which is 200 where the routes write none.
  pub serve_lem :
      (allowed : Dict Bool) (uuid ctx : Bytes) (mux : Handler (Logged X)) (r : Request)
      (s : Logged X) (w : Response)
      → w.status ≡ none
      → let id = chosen_id uuid r in
        let line : ℕ → LogLine = λ code. record {
          request_id = id;
          method = r.method;
          path = r.path;
          status = code;
          addr = r.remote_addr;
        } in
        (r.method ≡ codes "OPTIONS"
          → let (s', w') = serve allowed uuid mux ctx r s w in
            (s' ≡ record s { lines = s.lines ++ line 204 ∷ [] })
            × (w'.status ≡ some 204)
            × (lookup id_name w'.header ≡ some id))
        × (r.method ≢ codes "OPTIONS"
            → (w' : Response) × (let (s', w'') = mux id r s w' in
                serve allowed uuid mux ctx r s w
                ≡ (record s' { lines = s'.lines ++ line (recorded w'') ∷ [] }, w''))
              × (w'.status ≡ none)
              × (lookup id_name w'.header ≡ some id))
  unfolding serve request_id log_request
  serve_lem allowed uuid ctx mux r s w fresh =
      let id = chosen_id uuid r in
      let w₁ = set_header id_name id w in
      let (kept, same) = id-cors_headers allowed r w₁ in
      let carried = kept ∙ lookup-insert_self id_name id w.header in
      let (answered, headers, logged) = written (cors_headers allowed r w₁) (same ∙ fresh) in
      (
        λ options.
            rw (cors_options allowed mux id r s w₁ options, answered, logged)
              (refl, refl, ap (lookup id_name) headers ∙ carried),
        λ other. (
          cors_headers allowed r w₁,
          rw (cors_other allowed mux id r s w₁ other) refl,
          same ∙ fresh,
          carried,
        ),
      )
