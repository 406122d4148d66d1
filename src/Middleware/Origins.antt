-- ===== src/Middleware/Origins.antt =====
-- Which origins the browser is told to trust.
use docpine.Base.{
  ◌≡◌, refl, ◌≢◌, ◌↔◌, ◌⊎◌, Bool, true, false, List, [], ◌∷◌, Bytes, codes, Dict, lookup, insert,
  lookup-insert, str_eq_iff, is_empty, arith,
}
use docpine.Http.{get_header}
use docpine.Config.{configured_origins}
use docpine.Middleware.{add_origins, flag_of, check_origin}

-- The text is one of the list.
abbrev pub Among : Bytes → List Bytes → Type 0
Among x [] = ⊥
Among x (y ∷ ys) = (y ≡ x) ⊎ Among x ys

-- Either listed, or allowed before.
lookup-add_origins :
    (x : Bytes) (origins : List Bytes) (m : Dict Bool)
    → (flag_of (lookup x (add_origins origins m)) ≡ true)
      ↔ (Among x origins ⊎ (flag_of (lookup x m) ≡ true))
unfolding add_origins
lookup-add_origins x [] m = ground arith
lookup-add_origins x (o ∷ origins) m = ground (
  arith,
  lookup-add_origins x origins (insert o true m),
  lookup-insert o x true m,
  str_eq_iff o x,
)

is_empty_iff : (s : Bytes) → (is_empty s ≡ false) ↔ (s ≢ [])
is_empty_iff [] = (λ h. cc, λ h. absurd (h refl))
is_empty_iff (c ∷ s) = (λ h k. cc, λ h. refl)

-- A request is from an allowed origin exactly when it states an origin that is not empty and that
-- is one of the entries of ALLOWED_ORIGINS, without the space around it. In particular an empty
-- setting, which has one empty entry, allows nobody.
pub check_origin_iff :
    (setting : Bytes) (header : Dict Bytes)
    → (check_origin (add_origins (configured_origins setting) []) header ≡ true) ↔ (
        (get_header (codes "Origin") header ≢ [])
        × Among (get_header (codes "Origin") header) (configured_origins setting))
unfolding check_origin lookup
check_origin_iff setting header = ground (
  arith,
  is_empty_iff (get_header (codes "Origin") header),
  lookup-add_origins (get_header (codes "Origin") header) (configured_origins setting) [],
)
