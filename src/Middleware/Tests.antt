-- ===== src/Middleware/Tests.antt =====
-- The handlers around a route that counts its calls, and the theorems on them.
use docpine.Base.{
  ℕ, suc, ◌≡◌, ◌≢◌, ◌↔◌, refl, Bool, true, false, none, some, [], ◌∷◌, Bytes, codes, Dict, lookup,
  insert, str_eq, ◌++◌,
}
use docpine.Text.{split, trim_space}
use docpine.Http.{Response, Request, no_response, get_header}
use docpine.Config.{configured_origins}
use docpine.Middleware.{
  Handler, add_origins, check_origin, chosen_id, LogLine, Logged, recorded, serve,
}
use docpine.Middleware.Origins.{Among, check_origin_iff}
use docpine.Middleware.Preflight.{id_name, serve_lem}

abbrev setting : Bytes
setting = codes "http://a, http://b"

abbrev from_b : Dict Bytes
from_b = (codes "Origin", codes "http://b") ∷ (codes "X-Request-Id", codes "r7") ∷ []

abbrev preflight : Request
preflight = record {
  method = codes "OPTIONS";
  path = codes "/sessions";
  header = from_b;
  remote_addr = [];
  device_cookie = none;
}

abbrev tally : Handler (Logged ℕ)
tally id r s w = (record s { state = suc s.state }, w)

abbrev allowed : Dict Bool
allowed = add_origins (configured_origins setting) []

origin_tests :
    (check_origin allowed from_b ≡ true)
    × (check_origin allowed [] ≡ false)
    × (check_origin (add_origins (configured_origins []) []) [] ≡ false)
    × (check_origin allowed ((codes "Origin", codes "http://c") ∷ []) ≡ false)
unfolding check_origin add_origins configured_origins split trim_space lookup insert str_eq
    get_header
origin_tests = (refl, refl, refl, refl)

check_origin_iff_example :
    (check_origin (add_origins (configured_origins setting) []) from_b ≡ true) ↔ (
      (get_header (codes "Origin") from_b ≢ [])
      × Among (get_header (codes "Origin") from_b) (configured_origins setting))
check_origin_iff_example = check_origin_iff setting from_b

abbrev quiet : Logged ℕ
quiet = record { state = 3; lines = [] }

abbrev line : ℕ → LogLine
line code = record {
  request_id = chosen_id (codes "u") preflight;
  method = codes "OPTIONS";
  path = codes "/sessions";
  status = code;
  addr = [];
}

serve_lem_example :
    (preflight.method ≡ codes "OPTIONS"
      → let (s', w') = serve allowed (codes "u") tally [] preflight quiet no_response in
        (s' ≡ record { state = 3; lines = line 204 ∷ [] })
        × (w'.status ≡ some 204)
        × (lookup id_name w'.header ≡ some (chosen_id (codes "u") preflight)))
    × (preflight.method ≢ codes "OPTIONS"
        → (w' : Response) × (let (s', w'') =
              tally (chosen_id (codes "u") preflight) preflight quiet w' in
            serve allowed (codes "u") tally [] preflight quiet no_response
            ≡ (record s' { lines = s'.lines ++ line (recorded w'') ∷ [] }, w''))
          × (w'.status ≡ none)
          × (lookup id_name w'.header ≡ some (chosen_id (codes "u") preflight)))
serve_lem_example = serve_lem allowed (codes "u") [] tally preflight quiet no_response refl
