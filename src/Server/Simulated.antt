-- ===== src/Server/Simulated.antt =====
-- A mux that takes the first pattern that matches, an upgrade that only looks at the origin, and ids
-- longer than all others, for the tests.
use docpine.Base.{
  ◌<◌, ◌≤◌, ◌≡◌, refl, ap, inl, inr, true, Bool-cases, Option, none, some, List, [], ◌∷◌, ◌++◌,
  Bytes, codes, Dict, lookup, length, length-append, All, str_eq, str_eq_iff, arith, if◌then◌else◌,
}
use docpine.Http.{Request, Response, write_header}
use docpine.Middleware.{Handler}
use docpine.App.{token}
use docpine.Fixtures.{noon}
use docpine.Server.{Inputs, Route, Net, create_pattern, attach_pattern}
use docpine.Server.Routing.{IsDocumented}

abbrev pub matches : Bytes → Request → Option (Dict Bytes)
matches pattern r =
    if str_eq pattern create_pattern
    then (if str_eq r.method (codes "POST") then some [] else none)
    else if str_eq r.method (codes "GET")
    then some ((codes "id", codes "u") ∷ [])
    else none

matches-apart :
    (r : Request) (values : Dict Bytes)
    → matches attach_pattern r ≡ some values
    → matches create_pattern r ≡ none
unfolding str_eq
matches-apart r values h = elim (Bool-cases (str_eq r.method (codes "POST"))) [
  | inr other ↦ rw other refl
  | inl post ↦
      let same = (str_eq_iff r.method (codes "POST")).0 post in
      absurd (ground (arith, ap (λ m. str_eq m (codes "GET")) same))
]

module _ {X : Type 0} where
  unfoldable pub first_match : List (Route X) → Handler X
  first_match [] id r s w = (s, write_header 404 w)
  first_match (o ∷ rs) id r s w =
      let rest = first_match rs id r s w in
      elim (matches o.pattern r) [ none ↦ rest | some values ↦ o.handler values id r s w ]

  abbrev pub plain_net : Net X
  plain_net = record {
    mux = first_match;
    upgrade = λ check r w. if check r then none else some (write_header 403 w);
  }

  first_match-none :
      (rs : List (Route X)) (id : Bytes) (r : Request) (s : X) (w : Response)
      → All (λ o. matches o.pattern r ≡ none) rs
      → first_match rs id r s w ≡ (s, write_header 404 w)
  unfolding first_match
  first_match-none [] id r s w h = refl
  first_match-none (o ∷ rs) id r s w h = rw (h.0, first_match) (first_match-none rs id r s w h.1)

  first_match-some :
      (before after : List (Route X)) (o : Route X) (values : Dict Bytes) (id : Bytes) (r : Request)
      (s : X) (w : Response)
      → matches o.pattern r ≡ some values
      → All (λ o. matches o.pattern r ≡ none) (before ++ after)
      → first_match (before ++ (o ∷ after)) id r s w ≡ o.handler values id r s w
  unfolding first_match
  first_match-some [] after o values id r s w found h = rw (found, first_match) refl
  first_match-some (b ∷ before) after o values id r s w found h =
      rw (h.0, first_match) (first_match-some before after o values id r s w found h.1)

  pub first_match-IsDocumented : IsDocumented plain_net matches
  first_match-IsDocumented = record {
    answers = λ rs id r s w h. (write_header 404 w, first_match-none rs id r s w h);
    dispatches = first_match-some;
    apart = matches-apart;
    refuses = λ check r w h. (write_header 403 w, rw h refl);
  }

-- All keys in a row, and one byte more.
unfoldable pub longest : {V : Type 0} → Dict V → Bytes
longest [] = b'u' ∷ []
longest ((k, v) ∷ m) = k ++ longest m

longer-absent :
    {V : Type 0} (k : Bytes) (m : Dict V)
    → length (longest m) ≤ length k
    → (0 < length (longest m)) × (lookup k m ≡ none)
unfolding longest lookup
longer-absent k [] h = (omega arith, refl)
longer-absent k ((j, v) ∷ m) h =
    ground (arith, length-append j (longest m), longer-absent k m, str_eq_iff j k)

pub longest-absent : {V : Type 0} (m : Dict V) → lookup (longest m) m ≡ none
longest-absent m = (longer-absent (longest m) m (omega arith)).1

-- What each request of the tests meets.
abbrev pub inputs : Inputs
inputs = record {
  payload = token (codes "tok");
  request_uuid = codes "r1";
  device_uuid = codes "d1";
  session_seed = [];
  clocks = noon;
  created_at = 12_000_000_000;
  read_at = 13_000_000_000;
  attached_at = 13_000_000_000;
  in_logs = true;
  out_logs = true;
  events = [];
}
